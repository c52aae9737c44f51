-- ===== src/Lowering/Plan/Emits.antt =====
-- The second pass over sorted handles emits the instructions of the plan.
use mathlib.Core.List.{append_assoc, append-nil}
use forthdb.Prelude.{
  ℕ, suc, ◌%◌, ◌^◌, ◌≡◌, refl, sym, ap, ◌∙◌, inl, inr, List, [], ◌∷◌, ◌++◌, Option, none, some,
  Option-cases, arith, length, get_elem?, get_elem?-append_length, length-append, subst,
}
use forthdb.SemanticIsa.Utf8.{Text}
use forthdb.StackVm.Instruction.{Instruction}
use forthdb.StackVm.Instruction.Make
use forthdb.Lowering.Names.{search, position}
use forthdb.Lowering.Syntax.{
  AtomRef, entity, literal, symbol, TransactionOp, allocate, expect_world, expect_object, define,
  forget, reject, operation,
}
use forthdb.Lowering.Context.{
  LoweringContext, Outcome, done, failed, panic, or_panic, Lower, ◌>>=◌, pure, fail, reading,
  modify, resume,
}
use forthdb.Lowering.Handles.Resolved.{
  Resolve, Resolve-length, binary_search_by_key-Resolve, position-Resolve,
}
use forthdb.Lowering.Lower.{
  push_instruction, literal_cell, slot_token, load_symbol, load_atom, expected_cell, emit_operation,
  for_operations,
}
use forthdb.Lowering.Plan
use forthdb.Lowering.Plan.{Texts, emit, emit_all, and_then}

module _ (ops : List TransactionOp) (n : Texts) where
  -- The handles read the names.
  abbrev pub Reads : LoweringContext → Type 0
  Reads ctx =
      Resolve ops ctx.scratch_slots n.slots
      × Resolve ops ctx.scratch_predicates n.predicates
      × Resolve ops ctx.scratch_literals n.literals
      × Resolve ops ctx.scratch_symbols n.symbols

  -- What follows a search that gives an index.
  reading-index :
      {A : Type 0} (o : Option ℕ) (f : ℕ → A) (ctx : LoweringContext)
      → resume (λ i ctx. (done (f i), ctx)) (or_panic o, ctx)
        ≡ (and_then (or_panic o) (λ i. done (f i)), ctx)
  reading-index none f ctx = refl
  reading-index (some i) f ctx = refl

  literal_cell-Reads :
      (l : Text) (ctx : LoweringContext)
      → Reads ctx
      → literal_cell ops l ctx ≡ (Plan.literal_cell n l, ctx)
  unfolding literal_cell Plan.literal_cell reading pure ◌>>=◌
  literal_cell-Reads l ctx (s, p, h, y) =
      rw (binary_search_by_key-Resolve ops l ctx.scratch_literals n.literals h)
        (elim (Option-cases (search l n.literals)) [
          | inl e ↦ rw e refl
          | inr (i, e) ↦ rw (e, Resolve-length ops ctx.scratch_predicates n.predicates p) refl
        ])

  slot_token-Reads :
      (slot : Text) (ctx : LoweringContext)
      → Reads ctx
      → slot_token ops slot ctx ≡ (Plan.slot_token n slot, ctx)
  unfolding slot_token Plan.slot_token reading pure ◌>>=◌
  slot_token-Reads slot ctx (s, p, h, y) =
      rw (binary_search_by_key-Resolve ops slot ctx.scratch_slots n.slots s)
        (reading-index (search slot n.slots) (λ i. i % 2 ^ 32) ctx)

  load_symbol-Reads :
      (s : Text) (o : Option ℕ) (ctx : LoweringContext)
      → load_symbol ops s o ctx ≡ (Plan.load_symbol n s o, ctx)
  unfolding pure fail
  load_symbol-Reads s none ctx = refl
  load_symbol-Reads s (some local) ctx = refl

  resume-done :
      {A B : Type 0} (o : Outcome A) (f : A → B) (ctx : LoweringContext)
      → resume (λ a ctx. (done (f a), ctx)) (o, ctx) ≡ (and_then o (λ a. done (f a)), ctx)
  resume-done (done a) f ctx = refl
  resume-done (failed e) f ctx = refl
  resume-done panic f ctx = refl

  load_atom-Reads :
      (a : AtomRef) (ctx : LoweringContext)
      → Reads ctx
      → load_atom ops a ctx ≡ (Plan.load_atom n a, ctx)
  unfolding load_atom Plan.load_atom reading pure ◌>>=◌
  load_atom-Reads (entity e) ctx h = refl
  load_atom-Reads (literal l) ctx h =
      rw (literal_cell-Reads l ctx h)
        (resume-done (Plan.literal_cell n l) (λ cell. Make.push cell) ctx)
  load_atom-Reads (symbol s) ctx h =
      rw (position-Resolve ops s ctx.scratch_symbols n.symbols h.3)
        (load_symbol-Reads s (position s n.symbols) ctx)

  expected_cell-Reads :
      (a : AtomRef) (ctx : LoweringContext)
      → Reads ctx
      → expected_cell ops a ctx ≡ (Plan.expected_cell n a, ctx)
  unfolding expected_cell Plan.expected_cell pure fail
  expected_cell-Reads (entity e) ctx h = refl
  expected_cell-Reads (literal l) ctx h = literal_cell-Reads l ctx h
  expected_cell-Reads (symbol s) ctx h = refl

  abbrev appended : LoweringContext → List Instruction → LoweringContext
  appended ctx is = record ctx { instructions = ctx.instructions ++ is }

  -- A pass that started from `ctx` ends like its plan, with the plan's instructions appended.
  abbrev pub Emits :
      LoweringContext → Outcome (Unit {0}) × LoweringContext → Outcome (List Instruction) → Type 0
  Emits ctx (done _, ctx') (done is) = ctx' ≡ record ctx { instructions = ctx.instructions ++ is }
  Emits ctx (failed e, ctx') (failed f) = e ≡ f
  Emits ctx (panic, ctx') panic = Unit
  Emits ctx _ _ = ⊥

  Emits-resume :
      {A : Type 0} (ctx ctx' : LoweringContext) (o : Outcome A) (k : A → Lower (Unit {0}))
      (f : A → Outcome (List Instruction))
      → ((a : A) → Emits ctx (k a ctx') (f a))
      → Emits ctx (resume k (o, ctx')) (and_then o f)
  Emits-resume ctx ctx' (done a) k f h = h a
  Emits-resume ctx ctx' (failed e) k f h = refl
  Emits-resume ctx ctx' panic k f h = tt

  instructions-eq :
      (ctx : LoweringContext) (is js : List Instruction)
      → is ≡ js
      → record ctx { instructions = is } ≡ record ctx { instructions = js }
  instructions-eq ctx is js e = ap (λ l. record ctx { instructions = l }) e

  emit_operation-Emits :
      (i : ℕ) (op : TransactionOp) (ctx : LoweringContext)
      → Reads ctx
      → Emits ctx (emit_operation ops i op ctx) (emit n op)
  unfolding emit_operation emit push_instruction modify reading ◌>>=◌
  emit_operation-Emits i (allocate result) ctx h =
      rw (position-Resolve ops result ctx.scratch_symbols n.symbols h.3) (
        Emits-resume ctx ctx (or_panic (position result n.symbols)) _ _
          (λ local. instructions-eq ctx _ _ (append_assoc ctx.instructions _ _)))
  emit_operation-Emits i (expect_world w) ctx h = refl
  emit_operation-Emits i (expect_object slot expected) ctx h = rw (slot_token-Reads slot ctx h) (
      Emits-resume ctx ctx (Plan.slot_token n slot) _ _ (λ token.
        rw (expected_cell-Reads expected ctx h)
          (Emits-resume ctx ctx (Plan.expected_cell n expected) _ _ (λ cell. refl))))
  emit_operation-Emits i (define slot subject predicate object) ctx h =
      rw (load_atom-Reads subject ctx h) (
        Emits-resume ctx ctx (Plan.load_atom n subject) _ _ (λ first.
          rw (binary_search_by_key-Resolve ops predicate ctx.scratch_predicates n.predicates h.1) (
            Emits-resume ctx (appended ctx (first ∷ [])) (or_panic (search predicate n.predicates))
              _ _
              (λ index.
                let ctx2 = appended (appended ctx (first ∷ [])) (Make.push index ∷ []) in
                rw (load_atom-Reads object ctx2 h) (
                  Emits-resume ctx ctx2 (Plan.load_atom n object) _ _ (λ second.
                    let ctx3 = appended ctx2 (second ∷ []) in
                    rw (slot_token-Reads slot ctx3 h) (
                      Emits-resume ctx ctx3 (Plan.slot_token n slot) _ _
                        (λ token. instructions-eq ctx _ _ (simp append_assoc)))))))))
  emit_operation-Emits i (forget slot) ctx h =
      rw (slot_token-Reads slot ctx h)
        (Emits-resume ctx ctx (Plan.slot_token n slot) _ _ (λ token. refl))
  emit_operation-Emits i reject ctx h = refl

  -- The rest of the pass, after an operation that emits `is`.
  Emits-then :
      (ctx : LoweringContext) (body : Outcome (Unit {0}) × LoweringContext)
      (rest : Lower (Unit {0})) (o : Outcome (List Instruction))
      (later : Outcome (List Instruction))
      → Reads ctx
      → Emits ctx body o
      → ((ctx' : LoweringContext) → Reads ctx' → Emits ctx' (rest ctx') later)
      → Emits ctx
          (resume (λ _. rest) body)
          (and_then o (λ is. and_then later (λ more. done (is ++ more))))
  Emits-then ctx (done _, ctx') rest (done is) later h e k =
      rw e (further (rest (appended ctx is)) later (k (appended ctx is) h))
    where
      further :
          (r : Outcome (Unit {0}) × LoweringContext) (later : Outcome (List Instruction))
          → Emits (appended ctx is) r later
          → Emits ctx r (and_then later (λ more. done (is ++ more)))
      further (done _, ctx2) (done more) e =
          e ∙ instructions-eq ctx _ _ (append_assoc ctx.instructions is more)
      further (failed x, ctx2) (failed y) e = e
      further (panic, ctx2) panic e = tt
      further (done _, ctx2) (failed y) e = absurd e
      further (done _, ctx2) panic e = absurd e
      further (failed x, ctx2) (done y) e = absurd e
      further (failed x, ctx2) panic e = absurd e
      further (panic, ctx2) (done y) e = absurd e
      further (panic, ctx2) (failed y) e = absurd e
  Emits-then ctx (failed x, ctx') rest (failed y) later h e k = e
  Emits-then ctx (panic, ctx') rest panic later h e k = tt
  Emits-then ctx (done _, ctx') rest (failed y) later h e k = absurd e
  Emits-then ctx (done _, ctx') rest panic later h e k = absurd e
  Emits-then ctx (failed x, ctx') rest (done y) later h e k = absurd e
  Emits-then ctx (failed x, ctx') rest panic later h e k = absurd e
  Emits-then ctx (panic, ctx') rest (done y) later h e k = absurd e
  Emits-then ctx (panic, ctx') rest (failed y) later h e k = absurd e

  for_operations-Emits :
      (before after : List TransactionOp) (ctx : LoweringContext)
      → before ++ after ≡ ops
      → Reads ctx
      → Emits ctx
          (for_operations ops (length after) (length before) (emit_operation ops) ctx)
          (emit_all n after)
  unfolding for_operations emit_all ◌>>=◌ reading pure
  for_operations-Emits before [] ctx e h =
      instructions-eq ctx ctx.instructions _ (sym (append-nil ctx.instructions))
  for_operations-Emits before (op ∷ after) ctx e h =
      let found : operation ops (length before) ≡ some op =
        ap (λ l. get_elem? l (length before)) (sym e) ∙ get_elem?-append_length before op after in
      let counted : length (before ++ op ∷ []) ≡ suc (length before) =
        omega (arith, length-append before (op ∷ [])) in
      rw found (
        Emits-then ctx (emit_operation ops (length before) op ctx) _ (emit n op) (emit_all n after)
          h (emit_operation-Emits (length before) op ctx h)
          (λ ctx' h'.
            subst
              (λ i.
                Emits ctx' (for_operations ops (length after) i (emit_operation ops) ctx')
                  (emit_all n after))
              counted
              (for_operations-Emits (before ++ op ∷ []) after ctx'
                (append_assoc before (op ∷ []) after ∙ e) h')))

  -- The whole second pass.
  pub second_pass-Emits :
      (ctx : LoweringContext)
      → Reads ctx
      → Emits ctx (for_operations ops (length ops) 0 (emit_operation ops) ctx) (emit_all n ops)
  second_pass-Emits ctx h = for_operations-Emits [] ops ctx refl h
