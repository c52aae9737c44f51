-- ===== src/Lowering/Plan/Collects.antt =====
-- The first pass over handles gathers the texts of the plan.
use mathlib.Core.List.{append_assoc, append-nil}
use forthdb.Prelude.{
  ℕ, suc, ◌≡◌, refl, sym, ap, ◌∙◌, inl, inr, List, [], ◌∷◌, ◌++◌, Option, none, some, Bool-cases,
  arith, length, get_elem?, get_elem?-append_length, length-append, subst,
}
use forthdb.SemanticIsa.Utf8.{Text}
use forthdb.Lowering.Names.{contains}
use forthdb.Lowering.Syntax.{
  AtomRef, entity, literal, symbol, TransactionOp, allocate, expect_world, expect_object, define,
  forget, reject, LoweringError, operation,
}
use forthdb.Lowering.Context.{
  StrRef, as_str, LoweringContext, Outcome, done, failed, panic, ◌>>=◌, pure, fail, reading, modify,
  resume,
}
use forthdb.Lowering.Handles.Resolved.{Resolve, Resolve-append, any-Resolve}
use forthdb.Lowering.Lower.{
  push_slot, push_predicate, push_literal, push_symbol, collect_operation, for_operations,
}
use forthdb.Lowering.Plan.{Texts, literals_of, gather, repeated, unless, gather_all}

-- Nothing has been emitted.
abbrev pub Clean : LoweringContext → Type 0
Clean ctx =
    (ctx.instructions ≡ [])
    × (ctx.dict_slots ≡ [])
    × (ctx.dict_predicates ≡ [])
    × (ctx.dict_literals ≡ [])

-- The context's handles read these texts.
abbrev pub Holds : List TransactionOp → LoweringContext → Texts → Type 0
Holds ops ctx t =
    Resolve ops ctx.scratch_slots t.slots
    × Resolve ops ctx.scratch_predicates t.predicates
    × Resolve ops ctx.scratch_literals t.literals
    × Resolve ops ctx.scratch_symbols t.symbols
    × Clean ctx

module _ (ops : List TransactionOp) where
  -- A pass over handles and its plan end alike.
  abbrev pub Agrees : Outcome (Unit {0}) × LoweringContext → Outcome Texts → Type 0
  Agrees (done _, ctx) (done t) = Holds ops ctx t
  Agrees (failed e, ctx) (failed f) = e ≡ f
  Agrees (panic, ctx) panic = Unit
  Agrees _ _ = ⊥

  -- One more handle.
  Resolve-push :
      (rs : List StrRef) (ts : List Text) (r : StrRef) (t : Text)
      → Resolve ops rs ts
      → as_str ops r ≡ some t
      → Resolve ops (rs ++ r ∷ []) (ts ++ t ∷ [])
  Resolve-push rs ts r t h e = Resolve-append ops rs (r ∷ []) ts (t ∷ []) h (e, tt)

  push_slot-Holds :
      (ctx : LoweringContext) (t : Texts) (r : StrRef) (slot : Text)
      → Holds ops ctx t
      → as_str ops r ≡ some slot
      → Holds ops (push_slot r ctx).1 (record t { slots = t.slots ++ slot ∷ [] })
  unfolding push_slot modify
  push_slot-Holds ctx t r slot (s, p, l, y, c) e =
      (Resolve-push ctx.scratch_slots t.slots r slot s e, p, l, y, c)

  push_predicate-Holds :
      (ctx : LoweringContext) (t : Texts) (r : StrRef) (predicate : Text)
      → Holds ops ctx t
      → as_str ops r ≡ some predicate
      → Holds ops
          (push_predicate r ctx).1
          (record t { predicates = t.predicates ++ predicate ∷ [] })
  unfolding push_predicate modify
  push_predicate-Holds ctx t r predicate (s, p, l, y, c) e =
      (s, Resolve-push ctx.scratch_predicates t.predicates r predicate p e, l, y, c)

  push_symbol-Holds :
      (ctx : LoweringContext) (t : Texts) (r : StrRef) (result : Text)
      → Holds ops ctx t
      → as_str ops r ≡ some result
      → Holds ops (push_symbol r ctx).1 (record t { symbols = t.symbols ++ result ∷ [] })
  unfolding push_symbol modify
  push_symbol-Holds ctx t r result (s, p, l, y, c) e =
      (s, p, l, Resolve-push ctx.scratch_symbols t.symbols r result y e, c)

  -- A handle of a literal is pushed if the atom is one.
  abbrev Reads : StrRef → AtomRef → Type 0
  Reads r (literal l) = as_str ops r ≡ some l
  Reads r (entity _) = Unit
  Reads r (symbol _) = Unit

  push_literal-Holds :
      (ctx : LoweringContext) (t : Texts) (r : StrRef) (a : AtomRef)
      → Holds ops ctx t
      → Reads r a
      → Holds ops (push_literal r a ctx).1 (record t { literals = t.literals ++ literals_of a })
  unfolding push_literal modify pure
  push_literal-Holds ctx t r (literal text) (s, p, l, y, c) e =
      (s, p, Resolve-push ctx.scratch_literals t.literals r text l e, y, c)
  push_literal-Holds ctx t r (entity _) (s, p, l, y, c) e = (s, p, rw append-nil l, y, c)
  push_literal-Holds ctx t r (symbol _) (s, p, l, y, c) e = (s, p, rw append-nil l, y, c)

  push_literal_done :
      (r : StrRef) (a : AtomRef) (ctx : LoweringContext)
      → push_literal r a ctx ≡ (done tt, (push_literal r a ctx).1)
  unfolding push_literal modify pure
  push_literal_done r (literal text) ctx = refl
  push_literal_done r (entity _) ctx = refl
  push_literal_done r (symbol _) ctx = refl

  expected-Reads :
      (i : ℕ) (slot : Text) (a : AtomRef)
      → operation ops i ≡ some (expect_object slot a)
      → Reads (StrRef.expect_expected i) a
  unfolding as_str
  expected-Reads i slot (literal text) e = rw e refl
  expected-Reads i slot (entity _) e = tt
  expected-Reads i slot (symbol _) e = tt

  subject-Reads :
      (i : ℕ) (slot : Text) (a : AtomRef) (predicate : Text) (object : AtomRef)
      → operation ops i ≡ some (define slot a predicate object)
      → Reads (StrRef.def_subject i) a
  unfolding as_str
  subject-Reads i slot (literal text) predicate object e = rw e refl
  subject-Reads i slot (entity _) predicate object e = tt
  subject-Reads i slot (symbol _) predicate object e = tt

  object-Reads :
      (i : ℕ) (slot : Text) (subject : AtomRef) (predicate : Text) (a : AtomRef)
      → operation ops i ≡ some (define slot subject predicate a)
      → Reads (StrRef.def_object i) a
  unfolding as_str
  object-Reads i slot subject predicate (literal text) e = rw e refl
  object-Reads i slot subject predicate (entity _) e = tt
  object-Reads i slot subject predicate (symbol _) e = tt

  collect_operation-Agrees :
      (i : ℕ) (op : TransactionOp) (ctx : LoweringContext) (t : Texts)
      → operation ops i ≡ some op
      → Holds ops ctx t
      → Agrees (collect_operation ops i op ctx) (unless (repeated op t) (done (gather op t)))
  unfolding collect_operation repeated gather reading pure modify as_str push_slot push_predicate
      push_symbol fail ◌>>=◌
  collect_operation-Agrees i (allocate result) ctx t e h =
      rw (any-Resolve ops result ctx.scratch_symbols t.symbols h.3)
        (elim (Bool-cases (contains result t.symbols)) [
          | inl p ↦ rw p refl
          | inr p ↦ rw p (push_symbol-Holds ctx t (StrRef.alloc i) result h (rw e refl))
        ])
  collect_operation-Agrees i (expect_world w) ctx t e h = h
  collect_operation-Agrees i (expect_object slot expected) ctx t e h =
      let ctx1 = (push_slot (StrRef.expect_slot i) ctx).1 in
      let t1 : Texts = record t { slots = t.slots ++ slot ∷ [] } in
      let h1 = push_slot-Holds ctx t (StrRef.expect_slot i) slot h (rw e refl) in
      rw (push_literal_done (StrRef.expect_expected i) expected ctx1) (
        push_literal-Holds ctx1 t1 (StrRef.expect_expected i) expected h1
          (expected-Reads i slot expected e))
  collect_operation-Agrees i (define slot subject predicate object) ctx t e h =
      let ctx1 = (push_slot (StrRef.def_slot i) ctx).1 in
      let t1 : Texts = record t { slots = t.slots ++ slot ∷ [] } in
      let h1 = push_slot-Holds ctx t (StrRef.def_slot i) slot h (rw e refl) in
      let ctx2 = (push_predicate (StrRef.def_predicate i) ctx1).1 in
      let t2 : Texts = record t1 { predicates = t1.predicates ++ predicate ∷ [] } in
      let h2 = push_predicate-Holds ctx1 t1 (StrRef.def_predicate i) predicate h1 (rw e refl) in
      let ctx3 = (push_literal (StrRef.def_subject i) subject ctx2).1 in
      let t3 : Texts = record t2 { literals = t2.literals ++ literals_of subject } in
      let h3 =
        push_literal-Holds ctx2 t2 (StrRef.def_subject i) subject h2
          (subject-Reads i slot subject predicate object e) in
      rw
        (
          push_literal_done (StrRef.def_subject i) subject ctx2,
          push_literal_done (StrRef.def_object i) object ctx3,
        )
        (push_literal-Holds ctx3 t3 (StrRef.def_object i) object h3
          (object-Reads i slot subject predicate object e))
  collect_operation-Agrees i (forget slot) ctx t e h =
      push_slot-Holds ctx t (StrRef.forget_slot i) slot h (rw e refl)
  collect_operation-Agrees i reject ctx t e h = h

  -- The rest of a pass, after an operation that agrees.
  Agrees-unless :
      (body : Outcome (Unit {0}) × LoweringContext)
      (rest : LoweringContext → Outcome (Unit {0}) × LoweringContext) (e : Option LoweringError)
      (t : Texts) (later : Outcome Texts)
      → Agrees body (unless e (done t))
      → ((ctx : LoweringContext) → Holds ops ctx t → Agrees (rest ctx) later)
      → Agrees (resume (λ _. rest) body) (unless e later)
  Agrees-unless (done _, ctx) rest none t later a k = k ctx a
  Agrees-unless (failed f, ctx) rest (some e) t later a k = a
  Agrees-unless (done _, ctx) rest (some e) t later a k = absurd a
  Agrees-unless (failed f, ctx) rest none t later a k = absurd a
  Agrees-unless (panic, ctx) rest none t later a k = absurd a
  Agrees-unless (panic, ctx) rest (some e) t later a k = absurd a

  for_operations-Agrees :
      (before after : List TransactionOp) (ctx : LoweringContext) (t : Texts)
      → before ++ after ≡ ops
      → Holds ops ctx t
      → Agrees
          (for_operations ops (length after) (length before) (collect_operation ops) ctx)
          (gather_all after t)
  unfolding for_operations gather_all ◌>>=◌ reading pure
  for_operations-Agrees before [] ctx t e h = h
  for_operations-Agrees before (op ∷ after) ctx t e h =
      let found : operation ops (length before) ≡ some op =
        ap (λ l. get_elem? l (length before)) (sym e) ∙ get_elem?-append_length before op after in
      let counted : length (before ++ op ∷ []) ≡ suc (length before) =
        omega (arith, length-append before (op ∷ [])) in
      rw found (
        Agrees-unless (collect_operation ops (length before) op ctx) _ (repeated op t) (gather op t)
          _ (collect_operation-Agrees (length before) op ctx t found h)
          (λ ctx' h'.
            subst
              (λ i.
                Agrees (for_operations ops (length after) i (collect_operation ops) ctx')
                  (gather_all after (gather op t)))
              counted
              (for_operations-Agrees (before ++ op ∷ []) after ctx' (gather op t)
                (append_assoc before (op ∷ []) after ∙ e) h')))

  -- The whole first pass.
  pub first_pass-Agrees :
      (ctx : LoweringContext) (t : Texts)
      → Holds ops ctx t
      → Agrees (for_operations ops (length ops) 0 (collect_operation ops) ctx) (gather_all ops t)
  first_pass-Agrees ctx t h = for_operations-Agrees [] ops ctx t refl h
