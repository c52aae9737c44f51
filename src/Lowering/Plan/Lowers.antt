-- ===== src/Lowering/Plan/Lowers.antt =====
-- The lowering gives what its plan says, whatever the context held before.
use mathlib.Core.List.{append_assoc, append-nil}
use forthdb.Prelude.{ℕ, suc, ◌+◌, ◌%◌, ◌^◌, ◌≡◌, refl, ap, ◌∙◌, List, [], ◌∷◌, ◌++◌, length}
use forthdb.SemanticIsa.Utf8.{Text}
use forthdb.SemanticIsa.Stream.{semantic_isa_version_1}
use forthdb.StackVm.Instruction.{Instruction}
use forthdb.Lowering.Syntax.{TransactionOp, TransactionAst}
use forthdb.Lowering.Context.{
  StrRef, LoweringContext, clear, Outcome, done, failed, panic, ◌>>=◌, pure, reading, modify,
  resume,
}
use forthdb.Lowering.Handles.Resolved.{Resolve, Resolve-length, tidy-Resolve}
use forthdb.Lowering.Lower.{
  sort_scratch, for_operations, collect_operation, emit_sorted, lower_transient, push_dict_slots,
  push_dict_predicates, push_dict_literals, build_frame, lower_from_source, lower_to_sisa_with,
}
use forthdb.Lowering.Plan.{
  Texts, no_texts, names, gather_all, emit_all, and_then, numbered, as_u32, same_number, past,
  plan_frame, plan,
}
use forthdb.Lowering.Plan.Collects.{Clean, Holds, Agrees, first_pass-Agrees}
use forthdb.Lowering.Plan.Emits.{Reads, Emits, second_pass-Emits}

module _ (ops : List TransactionOp) where
  sort_scratch-Reads :
      (ctx : LoweringContext) (t : Texts)
      → Holds ops ctx t
      → (ctx' : LoweringContext) × (sort_scratch ops ctx ≡ (done tt, ctx'))
        × Reads ops (names t) ctx'
        × Clean ctx'
  unfolding sort_scratch names ◌>>=◌ reading modify
  sort_scratch-Reads ctx t (s, p, l, y, c) =
      let (ss, es, rs) = tidy-Resolve ops ctx.scratch_slots t.slots s in
      let (ps, ep, rp) = tidy-Resolve ops ctx.scratch_predicates t.predicates p in
      let (ls, el, rl) = tidy-Resolve ops ctx.scratch_literals t.literals l in
      (
        record ctx { scratch_slots = ss; scratch_predicates = ps; scratch_literals = ls },
        rw (es, ep, el) refl,
        (rs, rp, rl, y),
        c,
      )

  -- How `lower_transient` ends, for the outcome of the two passes.
  abbrev Ends : Outcome ℕ × LoweringContext → Outcome (Texts × List Instruction) → Type 0
  Ends (done count, ctx) (done (n, is)) =
      (count ≡ length n.symbols % 2 ^ 32)
      × Reads ops n ctx
      × (ctx.instructions ≡ is)
      × (ctx.dict_slots ≡ [])
      × (ctx.dict_predicates ≡ [])
      × (ctx.dict_literals ≡ [])
  Ends (failed e, ctx) (failed f) = e ≡ f
  Ends (panic, ctx) panic = Unit
  Ends _ _ = ⊥

  second-Ends :
      (n : Texts) (ctx : LoweringContext) (count : ℕ) (r : Outcome (Unit {0}) × LoweringContext)
      (o : Outcome (List Instruction))
      → count ≡ length n.symbols % 2 ^ 32
      → Reads ops n ctx
      → Clean ctx
      → Emits ops n ctx r o
      → Ends (resume (λ _. pure count) r) (and_then o (λ is. done (n, is)))
  unfolding pure
  second-Ends n ctx count (done _, ctx') (done is) k h (ci, cs, cp, cl) e =
      rw e (k, h, rw ci refl, cs, cp, cl)
  second-Ends n ctx count (failed x, ctx') (failed y) k h c e = e
  second-Ends n ctx count (panic, ctx') panic k h c e = tt
  second-Ends n ctx count (done _, ctx') (failed y) k h c e = absurd e
  second-Ends n ctx count (done _, ctx') panic k h c e = absurd e
  second-Ends n ctx count (failed x, ctx') (done y) k h c e = absurd e
  second-Ends n ctx count (failed x, ctx') panic k h c e = absurd e
  second-Ends n ctx count (panic, ctx') (done y) k h c e = absurd e
  second-Ends n ctx count (panic, ctx') (failed y) k h c e = absurd e

  both_passes : Texts → Outcome (Texts × List Instruction)
  both_passes t = and_then (emit_all (names t) ops) (λ is. done (names t, is))

  emit_sorted-Ends :
      (ctx : LoweringContext) (t : Texts)
      → Holds ops ctx t
      → Ends (emit_sorted ops ctx) (both_passes t)
  unfolding emit_sorted both_passes ◌>>=◌ reading names
  emit_sorted-Ends ctx t h =
      let (ctx', sorted, reads, clean) = sort_scratch-Reads ctx t h in
      rw sorted (
        second-Ends (names t) ctx' (length ctx.scratch_symbols % 2 ^ 32) _ _
          (ap (λ k. k % 2 ^ 32) (Resolve-length ops ctx.scratch_symbols t.symbols h.3)) reads clean
          (second_pass-Emits ops (names t) ctx' reads))

  first-Ends :
      (r : Outcome (Unit {0}) × LoweringContext) (g : Outcome Texts)
      → Agrees ops r g
      → Ends (resume (λ _. emit_sorted ops) r) (and_then g both_passes)
  first-Ends (done _, ctx) (done t) h = emit_sorted-Ends ctx t h
  first-Ends (failed x, ctx') (failed y) e = e
  first-Ends (panic, ctx') panic e = tt
  first-Ends (done _, ctx') (failed y) e = absurd e
  first-Ends (done _, ctx') panic e = absurd e
  first-Ends (failed x, ctx') (done y) e = absurd e
  first-Ends (failed x, ctx') panic e = absurd e
  first-Ends (panic, ctx') (done y) e = absurd e
  first-Ends (panic, ctx') (failed y) e = absurd e

  lower_transient-Ends :
      (ctx : LoweringContext)
      → Ends (lower_transient ops ctx) (and_then (gather_all ops no_texts) both_passes)
  unfolding lower_transient ◌>>=◌ modify clear
  lower_transient-Ends ctx =
      first-Ends (for_operations ops (length ops) 0 (collect_operation ops) (clear ctx)) _
        (first_pass-Agrees ops (clear ctx) no_texts (tt, tt, tt, tt, (refl, refl, refl, refl)))

  -- The dictionaries.
  dict_slots-numbered :
      (rs : List StrRef) (ts : List Text) (i : ℕ) (ctx : LoweringContext)
      → Resolve ops rs ts
      → push_dict_slots ops rs i ctx
        ≡ (done tt, record ctx { dict_slots = ctx.dict_slots ++ numbered as_u32 i ts })
  unfolding push_dict_slots numbered pure reading modify ◌>>=◌
  dict_slots-numbered [] [] i ctx h = rw append-nil refl
  dict_slots-numbered (r ∷ rs) (t ∷ ts) i ctx (here, h) =
      rw
        (
          here,
          dict_slots-numbered rs ts (suc i)
              (record ctx { dict_slots = ctx.dict_slots ++ (as_u32 i, t) ∷ [] }) h,
          append_assoc,
        )
        refl
  dict_slots-numbered [] (t ∷ ts) i ctx h = absurd h
  dict_slots-numbered (r ∷ rs) [] i ctx h = absurd h

  dict_predicates-numbered :
      (rs : List StrRef) (ts : List Text) (i : ℕ) (ctx : LoweringContext)
      → Resolve ops rs ts
      → push_dict_predicates ops rs i ctx ≡ (
        done tt,
        record ctx { dict_predicates = ctx.dict_predicates ++ numbered same_number i ts },
      )
  unfolding push_dict_predicates numbered pure reading modify ◌>>=◌
  dict_predicates-numbered [] [] i ctx h = rw append-nil refl
  dict_predicates-numbered (r ∷ rs) (t ∷ ts) i ctx (here, h) =
      rw
        (
          here,
          dict_predicates-numbered rs ts (suc i)
              (record ctx { dict_predicates = ctx.dict_predicates ++ (i, t) ∷ [] }) h,
          append_assoc,
        )
        refl
  dict_predicates-numbered [] (t ∷ ts) i ctx h = absurd h
  dict_predicates-numbered (r ∷ rs) [] i ctx h = absurd h

  dict_literals-numbered :
      (offset : ℕ) (rs : List StrRef) (ts : List Text) (i : ℕ) (ctx : LoweringContext)
      → Resolve ops rs ts
      → push_dict_literals ops offset rs i ctx
        ≡ (done tt, record ctx { dict_literals = ctx.dict_literals ++ numbered (past offset) i ts })
  unfolding push_dict_literals numbered pure reading modify ◌>>=◌
  dict_literals-numbered offset [] [] i ctx h = rw append-nil refl
  dict_literals-numbered offset (r ∷ rs) (t ∷ ts) i ctx (here, h) =
      rw
        (
          here,
          dict_literals-numbered offset rs ts (suc i)
              (record ctx { dict_literals = ctx.dict_literals ++ (i + offset, t) ∷ [] }) h,
          append_assoc,
        )
        refl
  dict_literals-numbered offset [] (t ∷ ts) i ctx h = absurd h
  dict_literals-numbered offset (r ∷ rs) [] i ctx h = absurd h

  frame_parts :
      (namespace : ℕ) (n : Texts) (count : ℕ) (is is' : List Instruction) (ss : List (ℕ × Text))
      (ps : List (ℕ × Text)) (ls : List (ℕ × Text)) (k : ℕ)
      → count ≡ length n.symbols % 2 ^ 32
      → is ≡ is'
      → ss ≡ []
      → ps ≡ []
      → ls ≡ []
      → k ≡ length n.predicates
      → (done record {
        version = semantic_isa_version_1;
        namespace = namespace;
        dictionary = record {
          slots = ss ++ numbered as_u32 0 n.slots;
          predicates = ps ++ numbered same_number 0 n.predicates;
          literals = ls ++ numbered (past k) 0 n.literals;
        };
        local_count = count;
        instructions = is;
      })
        ≡ done (plan_frame namespace n is')
  unfolding plan_frame
  frame_parts namespace n count is is' ss ps ls k ec ei es ep el ek =
      rw (ec, ei, es, ep, el, ek) refl

  build_frame-plan :
      (namespace count : ℕ) (n : Texts) (is : List Instruction) (ctx : LoweringContext)
      → Ends (done count, ctx) (done (n, is))
      → (build_frame ops namespace count ctx).0 ≡ done (plan_frame namespace n is)
  unfolding build_frame pure reading modify ◌>>=◌
  build_frame-plan namespace count n is ctx (k, (s, p, l, y), i, es, ep, el) =
      rw
        (
          dict_slots-numbered ctx.scratch_slots n.slots 0 ctx s,
          dict_predicates-numbered ctx.scratch_predicates n.predicates 0 _ p,
          dict_literals-numbered (length ctx.scratch_predicates) ctx.scratch_literals n.literals 0 _
              l,
        )
        (frame_parts namespace n count ctx.instructions is ctx.dict_slots ctx.dict_predicates
          ctx.dict_literals _ k i es ep el
          (Resolve-length ops ctx.scratch_predicates n.predicates p))

  build_frame-Ends :
      (namespace : ℕ) (r : Outcome ℕ × LoweringContext) (o : Outcome (Texts × List Instruction))
      → Ends r o
      → (resume (build_frame ops namespace) r).0
        ≡ and_then o (λ p. done (plan_frame namespace p.0 p.1))
  build_frame-Ends namespace (done count, ctx) (done (n, is)) h =
      build_frame-plan namespace count n is ctx h
  build_frame-Ends namespace (failed x, ctx') (failed y) e = rw e refl
  build_frame-Ends namespace (panic, ctx') panic e = refl
  build_frame-Ends namespace (done _, ctx') (failed y) e = absurd e
  build_frame-Ends namespace (done _, ctx') panic e = absurd e
  build_frame-Ends namespace (failed x, ctx') (done y) e = absurd e
  build_frame-Ends namespace (failed x, ctx') panic e = absurd e
  build_frame-Ends namespace (panic, ctx') (done y) e = absurd e
  build_frame-Ends namespace (panic, ctx') (failed y) e = absurd e

  regroup :
      (namespace : ℕ) (g : Outcome Texts)
      → and_then (and_then g both_passes) (λ p. done (plan_frame namespace p.0 p.1))
        ≡ and_then g (λ t.
          and_then (emit_all (names t) ops) (λ is. done (plan_frame namespace (names t) is)))
  unfolding both_passes
  regroup namespace (done t) = again (emit_all (names t) ops)
    where
      again :
          (o : Outcome (List Instruction))
          → and_then
              (and_then {B = Texts × List Instruction} o (λ is. done (names t, is)))
              (λ p. done (plan_frame namespace p.0 p.1))
            ≡ and_then o (λ is. done (plan_frame namespace (names t) is))
      again (done is) = refl
      again (failed e) = refl
      again panic = refl
  regroup namespace (failed e) = refl
  regroup namespace panic = refl

  lower_from_source-plan :
      (namespace : ℕ) (ctx : LoweringContext)
      → (lower_from_source ops namespace ctx).0
        ≡ and_then (gather_all ops no_texts) (λ t.
          and_then (emit_all (names t) ops) (λ is. done (plan_frame namespace (names t) is)))
  unfolding lower_from_source ◌>>=◌
  lower_from_source-plan namespace ctx =
      build_frame-Ends namespace (lower_transient ops ctx) _ (lower_transient-Ends ctx)
      ∙ regroup namespace (gather_all ops no_texts)

pub lower_to_sisa_with-plan :
    (ast : TransactionAst) (ctx : LoweringContext) → (lower_to_sisa_with ast ctx).0 ≡ plan ast
unfolding lower_to_sisa_with plan
lower_to_sisa_with-plan ast ctx = lower_from_source-plan ast.operations ast.namespace ctx
