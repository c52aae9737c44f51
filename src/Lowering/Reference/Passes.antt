-- ===== src/Lowering/Reference/Passes.antt =====
-- The two passes of the reference lowering are those of the plan.
use mathlib.Core.Option
use mathlib.Core.List.{append-nil}
use forthdb.Prelude.{
  ℕ, suc, ◌+◌, ◌^◌, ◌<◌, ◌≡◌, refl, sym, ap, ◌∙◌, inl, inr, false, List, [], ◌∷◌, ◌++◌, Option,
  none, some, Bool-cases, Option-cases, arith, length, length-append, foldl, ==_false, ◌==◌,
}
use forthdb.Prelude.Map.{get, get-insert}
use forthdb.Prelude.Equality.{list_equality, nat_equality}
use forthdb.SemanticIsa.Utf8.{Text}
use forthdb.Lowering.Names
use forthdb.Lowering.Names.{contains, search, position, collect}
use forthdb.Lowering.Syntax.{
  AtomRef, entity, literal, symbol, TransactionOp, allocate, expect_world, expect_object, define,
  forget, reject, LoweringError,
}
use forthdb.Lowering.Context.{Outcome, done, failed, panic, or_panic}
use forthdb.Lowering.Plan
use forthdb.Lowering.Plan.{
  Texts, literals_of, gather, repeated, unless, gather_all, and_then, as_u32, same_number, past,
}
use forthdb.Lowering.Reference.{
  Sets, Maps, add_literal, add_symbol, collect_operation, collect_all, load_symbol, load_atom,
  expected_cell, emit, emit_all,
}
use forthdb.Lowering.Reference.Symbols.{position-push, position-contains-false, position-contains}

abbrev pub allocations : List TransactionOp → ℕ
allocations [] = 0
allocations (allocate _ ∷ ops) = suc (allocations ops)
allocations (_ ∷ ops) = allocations ops

-- The sets and the map hold the texts gathered.
abbrev pub Match : Sets → Texts → Type 0
Match s t =
    (s.slots ≡ collect t.slots)
    × (s.predicates ≡ collect t.predicates)
    × (s.literals ≡ collect t.literals)
    × ((k : Text) → get k s.symbols ≡ position k t.symbols)
    × (s.local_count ≡ length t.symbols)

abbrev pub Matches : Outcome Sets → Outcome Texts → Type 0
Matches (done s) (done t) = Match s t
Matches (failed e) (failed f) = e ≡ f
Matches panic panic = Unit
Matches _ _ = ⊥

foldl-push :
    (us ts : List Text) (t : Text)
    → foldl Names.insert us (ts ++ t ∷ []) ≡ Names.insert (foldl Names.insert us ts) t
foldl-push us [] t = refl
foldl-push us (u ∷ ts) t = foldl-push (Names.insert us u) ts t

inserted :
    (us ts : List Text) (t : Text) → us ≡ collect ts → Names.insert us t ≡ collect (ts ++ t ∷ [])
inserted us ts t e = ap (λ us. Names.insert us t) e ∙ sym (foldl-push [] ts t)

add_literal-Match :
    (a : AtomRef) (s : Sets) (t : Texts)
    → Match s t
    → Match (add_literal a s) (record t { literals = t.literals ++ literals_of a })
add_literal-Match (literal l) s t (ss, sp, sl, sy, sc) =
    (ss, sp, inserted s.literals t.literals l sl, sy, sc)
add_literal-Match (entity _) s t (ss, sp, sl, sy, sc) = (ss, sp, rw append-nil sl, sy, sc)
add_literal-Match (symbol _) s t (ss, sp, sl, sy, sc) = (ss, sp, rw append-nil sl, sy, sc)

add_symbol-Match :
    (result : Text) (s : Sets) (t : Texts)
    → Match s t
    → suc (length t.symbols) < 2 ^ 32
    → Matches
        (add_symbol result (get result s.symbols) s)
        (unless (repeated (allocate result) t) (done (gather (allocate result) t)))
unfolding repeated gather
add_symbol-Match result s t (ss, sp, sl, sy, sc) small =
    elim (Bool-cases (contains result t.symbols)) [
      | inl p ↦
          let (i, found, lt) = position-contains result t.symbols p in
          let held = sy result ∙ found in rw (held, p) refl
      | inr p ↦
          let held = sy result ∙ position-contains-false result t.symbols p in
          let fits : (s.local_count == 4294967295) ≡ false =
            ==_false s.local_count 4294967295 (λ e. omega arith) in
          rw (held, p, fits)
            (
              ss,
              sp,
              sl,
              (λ k.
                  get-insert k result s.local_count s.symbols
                  ∙ rw (sc, sy k) (sym (position-push k result t.symbols p))),
              omega (arith, length-append t.symbols (result ∷ [])),
            )
    ]

Matches-then :
    (o : Outcome Sets) (e : Option LoweringError) (t : Texts) (k : Sets → Outcome Sets)
    (later : Outcome Texts)
    → Matches o (unless e (done t))
    → ((s : Sets) → Match s t → Matches (k s) later)
    → Matches (and_then o k) (unless e later)
Matches-then (done s) none t k later h f = f s h
Matches-then (failed x) (some e) t k later h f = h
Matches-then (done s) (some e) t k later h f = absurd h
Matches-then (failed x) none t k later h f = absurd h
Matches-then panic none t k later h f = absurd h
Matches-then panic (some e) t k later h f = absurd h

collect_operation-Matches :
    (op : TransactionOp) (s : Sets) (t : Texts)
    → Match s t
    → length t.symbols + allocations (op ∷ []) < 2 ^ 32
    → Matches (collect_operation op s) (unless (repeated op t) (done (gather op t)))
unfolding collect_operation repeated gather
collect_operation-Matches (allocate result) s t h small =
    add_symbol-Match result s t h (omega arith)
collect_operation-Matches (expect_world w) s t h small = h
collect_operation-Matches (expect_object slot expected) s t (ss, sp, sl, sy, sc) small =
    add_literal-Match expected (record s { slots = Names.insert s.slots slot })
      (record t { slots = t.slots ++ slot ∷ [] }) (inserted s.slots t.slots slot ss, sp, sl, sy, sc)
collect_operation-Matches (define slot subject predicate object) s t (ss, sp, sl, sy, sc) small =
    let s1 : Sets = record s {
      slots = Names.insert s.slots slot;
      predicates = Names.insert s.predicates predicate;
    } in
    let t1 : Texts = record t {
      slots = t.slots ++ slot ∷ [];
      predicates = t.predicates ++ predicate ∷ [];
    } in
    let t2 : Texts = record t1 { literals = t1.literals ++ literals_of subject } in
    add_literal-Match object (add_literal subject s1) t2 (
      add_literal-Match subject s1 t1 (
        inserted s.slots t.slots slot ss,
        inserted s.predicates t.predicates predicate sp,
        sl,
        sy,
        sc,
      ))
collect_operation-Matches (forget slot) s t (ss, sp, sl, sy, sc) small =
    (inserted s.slots t.slots slot ss, sp, sl, sy, sc)
collect_operation-Matches reject s t h small = h

pub gather-length :
    (op : TransactionOp) (t : Texts)
    → length (gather op t).symbols ≡ length t.symbols + allocations (op ∷ [])
unfolding gather
gather-length (allocate result) t = length-append t.symbols (result ∷ [])
gather-length (expect_world w) t = omega arith
gather-length (expect_object slot expected) t = omega arith
gather-length (define slot subject predicate object) t = omega arith
gather-length (forget slot) t = omega arith
gather-length reject t = omega arith

pub allocations-cons :
    (op : TransactionOp) (ops : List TransactionOp)
    → allocations (op ∷ ops) ≡ allocations (op ∷ []) + allocations ops
allocations-cons (allocate result) ops = omega arith
allocations-cons (expect_world w) ops = omega arith
allocations-cons (expect_object slot expected) ops = omega arith
allocations-cons (define slot subject predicate object) ops = omega arith
allocations-cons (forget slot) ops = omega arith
allocations-cons reject ops = omega arith

pub collect_all-Matches :
    (ops : List TransactionOp) (s : Sets) (t : Texts)
    → Match s t
    → length t.symbols + allocations ops < 2 ^ 32
    → Matches (collect_all ops s) (gather_all ops t)
unfolding collect_all gather_all
collect_all-Matches [] s t h small = h
collect_all-Matches (op ∷ ops) s t h small =
    Matches-then (collect_operation op s) (repeated op t) (gather op t) _ _
      (collect_operation-Matches op s t h (omega (arith, allocations-cons op ops)))
      (λ s' h'.
        collect_all-Matches ops s' (gather op t) h'
          (omega (arith, allocations-cons op ops, gather-length op t)))

-- The maps number the names as the sets order them.
pub record Numbers (m : Maps) (n : Texts) : Type 0 where
  pub slots : (k : Text) → get k m.slot_map ≡ Option.map as_u32 (search k n.slots)
  pub predicates : (k : Text) → get k m.predicate_map ≡ search k n.predicates
  pub literals :
      (k : Text)
      → get k m.literal_map ≡ Option.map (past (length n.predicates)) (search k n.literals)
  pub symbols : (k : Text) → get k m.symbols ≡ Option.map as_u32 (position k n.symbols)

or_panic-map :
    (f : ℕ → ℕ) (o : Option ℕ) → or_panic (Option.map f o) ≡ and_then (or_panic o) (λ i. done (f i))
or_panic-map f none = refl
or_panic-map f (some i) = refl

module _ (m : Maps) (n : Texts) (h : Numbers m n) where
  slot_token-same : (slot : Text) → or_panic (get slot m.slot_map) ≡ Plan.slot_token n slot
  unfolding Plan.slot_token
  slot_token-same slot = ap or_panic (h.slots slot) ∙ or_panic-map as_u32 (search slot n.slots)

  literal_cell-same : (l : Text) → or_panic (get l m.literal_map) ≡ Plan.literal_cell n l
  unfolding Plan.literal_cell
  literal_cell-same l =
      ap or_panic (h.literals l) ∙ or_panic-map (past (length n.predicates)) (search l n.literals)

  load_symbol-same :
      (s : Text) (o : Option ℕ) → load_symbol m s (Option.map as_u32 o) ≡ Plan.load_symbol n s o
  load_symbol-same s none = refl
  load_symbol-same s (some local) = refl

  load_atom-same : (a : AtomRef) → load_atom m a ≡ Plan.load_atom n a
  unfolding load_atom Plan.load_atom
  load_atom-same (entity e) = refl
  load_atom-same (literal l) = rw (literal_cell-same l) refl
  load_atom-same (symbol s) = rw (h.symbols s) (load_symbol-same s (position s n.symbols))

  expected_cell-same : (a : AtomRef) → expected_cell m a ≡ Plan.expected_cell n a
  unfolding expected_cell Plan.expected_cell
  expected_cell-same (entity e) = refl
  expected_cell-same (literal l) = literal_cell-same l
  expected_cell-same (symbol s) = refl

  emit-same : (op : TransactionOp) → emit m op ≡ Plan.emit n op
  unfolding emit Plan.emit
  emit-same (allocate result) =
      rw (h.symbols result) (elim (Option-cases (position result n.symbols)) [
        | inl e ↦ rw e refl
        | inr (i, e) ↦ rw e refl
      ])
  emit-same (expect_world w) = refl
  emit-same (expect_object slot expected) =
      rw (slot_token-same slot, expected_cell-same expected) refl
  emit-same (define slot subject predicate object) =
      rw
        (
          load_atom-same subject,
          h.predicates predicate,
          load_atom-same object,
          slot_token-same slot,
        )
        refl
  emit-same (forget slot) = rw (slot_token-same slot) refl
  emit-same reject = refl

  pub emit_all-same : (ops : List TransactionOp) → emit_all m ops ≡ Plan.emit_all n ops
  unfolding emit_all Plan.emit_all
  emit_all-same [] = refl
  emit_all-same (op ∷ ops) = rw (emit-same op, emit_all-same ops) refl
