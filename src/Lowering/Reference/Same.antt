-- ===== src/Lowering/Reference/Same.antt =====
-- transaction_ast.rs: the lowering over reusable vectors of handles is the reference lowering.
use mathlib.Core.Option
use forthdb.Prelude.{
  ℕ, ◌+◌, ◌%◌, ◌^◌, ◌<◌, ◌≡◌, refl, sym, ap, ◌∙◌, inl, inr, List, [], ◌∷◌, Option, none, some,
  Option-cases, arith, length, Bool-cases, subst,
}
use native.Mathlib.Nat.{mod-eq_of_lt}
use forthdb.Prelude.Map.{get}
use forthdb.Prelude.Equality.{list_equality, nat_equality}
use forthdb.SemanticIsa.Utf8.{Text}
use forthdb.SemanticIsa.Stream.{semantic_isa_version_1}
use forthdb.StackVm.Instruction.{Instruction}
use forthdb.Lowering.Names.{search, position, collect, contains, IsSorted}
use forthdb.Lowering.Names.Sorted.{foldl-insert-IsSorted}
use forthdb.Lowering.Syntax.{TransactionOp, TransactionAst}
use forthdb.Lowering.Context.{LoweringContext, Outcome, done, failed, panic}
use forthdb.Lowering.Lower.{lower_to_sisa_with}
use forthdb.Lowering.Plan
use forthdb.Lowering.Plan.{
  Texts, no_texts, names, gather, repeated, unless, gather_all, and_then, as_u32, same_number, past,
  numbered, plan_frame, plan_from, plan,
}
use forthdb.Lowering.Plan.Lowers.{lower_to_sisa_with-plan}
use forthdb.Lowering.Reference.{
  Sets, no_names, collect_all, number_map, number_dict, emit_all, maps_of, frame_of,
  lower_to_sisa_reference,
}
use forthdb.Lowering.Reference.Symbols.{position-contains, position-contains-false}
use forthdb.Lowering.Reference.Numbers.{number_dict-numbered, get-number_map-nil, length-number_map}
use forthdb.Lowering.Reference.Passes.{
  allocations, allocations-cons, gather-length, Match, Matches, collect_all-Matches, Numbers,
  emit_all-same,
}

abbrev pub Counts : ℕ → Outcome Texts → Type 0
Counts k (done t) = length t.symbols ≡ k
Counts k _ = Unit

pub gather_all-Counts :
    (ops : List TransactionOp) (t : Texts)
    → Counts (length t.symbols + allocations ops) (gather_all ops t)
unfolding gather_all
gather_all-Counts [] t = omega arith
gather_all-Counts (op ∷ ops) t = elim (Option-cases (repeated op t)) [
  | inl e ↦
      let k : length (gather op t).symbols + allocations ops
          ≡ length t.symbols + allocations (op ∷ ops) =
        omega (arith, gather-length op t, allocations-cons op ops) in
      rw e (
        subst (λ k. Counts k (gather_all ops (gather op t))) k
          (gather_all-Counts ops (gather op t)))
  | inr (f, e) ↦ rw e tt
]

collect-IsSorted : (ts : List Text) → IsSorted (collect ts)
collect-IsSorted ts = foldl-insert-IsSorted [] ts tt

get-numbered :
    (k : Text) (f : ℕ → ℕ) (us : List Text) (ts : List Text)
    → us ≡ collect ts
    → get k (number_map f 0 us []) ≡ Option.map f (search k (collect ts))
get-numbered k f us ts e =
    ap (λ us. get k (number_map f 0 us [])) e
    ∙ get-number_map-nil k f (collect ts) (collect-IsSorted ts)

predicates-length :
    (us ts : List Text)
    → us ≡ collect ts
    → length (number_map same_number 0 us []) ≡ length (collect ts)
unfolding get
predicates-length us ts e =
    ap (λ us. length (number_map same_number 0 us [])) e
    ∙ length-number_map same_number 0 (collect ts) [] (collect-IsSorted ts) (λ t c. refl)
    ∙ omega arith

map-same : (o : Option ℕ) → Option.map same_number o ≡ o
map-same none = refl
map-same (some i) = refl

symbol-as_u32 :
    (k : Text) (ys : List Text)
    → length ys < 2 ^ 32
    → position k ys ≡ Option.map as_u32 (position k ys)
symbol-as_u32 k ys small = elim (Bool-cases (contains k ys)) [
  | inl c ↦
      let (i, found, lt) = position-contains k ys c in
      rw found (ap (λ j. some j) (sym (mod-eq_of_lt {n = i} {m = 2 ^ 32} (omega arith))))
  | inr c ↦ rw (position-contains-false k ys c) refl
]

maps_of-Numbers :
    (s : Sets) (t : Texts) → Match s t → length t.symbols < 2 ^ 32 → Numbers (maps_of s) (names t)
unfolding maps_of names
maps_of-Numbers s t (ss, sp, sl, sy, sc) small = record {
  slots = λ k. get-numbered k as_u32 s.slots t.slots ss;
  predicates = λ k. get-numbered k same_number s.predicates t.predicates sp ∙ map-same _;
  literals = λ k.
      ap (λ offset. get k (number_map (past offset) 0 s.literals []))
        (predicates-length s.predicates t.predicates sp)
      ∙ get-numbered k (past (length (collect t.predicates))) s.literals t.literals sl;
  symbols = λ k. sy k ∙ symbol-as_u32 k t.symbols small;
}

frame_parts :
    (namespace : ℕ) (n : Texts) (is : List Instruction) (ss ps ls : List (ℕ × Text)) (count : ℕ)
    → ss ≡ numbered as_u32 0 n.slots
    → ps ≡ numbered same_number 0 n.predicates
    → ls ≡ numbered (past (length n.predicates)) 0 n.literals
    → count ≡ length n.symbols % 2 ^ 32
    → record {
      version = semantic_isa_version_1;
      namespace = namespace;
      dictionary = record { slots = ss; predicates = ps; literals = ls };
      local_count = count;
      instructions = is;
    }
      ≡ plan_frame namespace n is
unfolding plan_frame
frame_parts namespace n is ss ps ls count es ep el ec = rw (es, ep, el, ec) refl

dict-numbered :
    (f : ℕ → ℕ) (us ts : List Text)
    → us ≡ collect ts
    → number_dict f 0 us ≡ numbered f 0 (collect ts)
dict-numbered f us ts e = number_dict-numbered f 0 us ∙ ap (numbered f 0) e

frame_of-plan_frame :
    (namespace : ℕ) (s : Sets) (t : Texts) (is : List Instruction)
    → Match s t
    → length t.symbols < 2 ^ 32
    → frame_of namespace s is ≡ plan_frame namespace (names t) is
unfolding frame_of maps_of names
frame_of-plan_frame namespace s t is (ss, sp, sl, sy, sc) small =
    frame_parts namespace (names t) is _ _ _ s.local_count (dict-numbered as_u32 s.slots t.slots ss)
      (dict-numbered same_number s.predicates t.predicates sp)
      (ap (λ offset. number_dict (past offset) 0 s.literals)
          (predicates-length s.predicates t.predicates sp)
        ∙ dict-numbered (past (length (collect t.predicates))) s.literals t.literals sl)
      (sc ∙ sym (mod-eq_of_lt {n = length t.symbols} {m = 2 ^ 32} small))

second-same :
    (ast : TransactionAst) (s : Sets) (t : Texts)
    → Match s t
    → length t.symbols < 2 ^ 32
    → and_then (emit_all (maps_of s) ast.operations) (λ is. done (frame_of ast.namespace s is))
      ≡ plan_from ast (names t)
second-same ast s t h small =
    rw (emit_all-same (maps_of s) (names t) (maps_of-Numbers s t h small) ast.operations)
      (ends (Plan.emit_all (names t) ast.operations))
  where
    ends :
        (o : Outcome (List Instruction))
        → and_then o (λ is. done (frame_of ast.namespace s is))
          ≡ and_then o (λ is. done (plan_frame ast.namespace (names t) is))
    ends (done is) = ap (λ f. done f) (frame_of-plan_frame ast.namespace s t is h small)
    ends (failed e) = refl
    ends panic = refl

both-same :
    (ast : TransactionAst) (o : Outcome Sets) (g : Outcome Texts)
    → Matches o g
    → ((t : Texts) → g ≡ done t → length t.symbols < 2 ^ 32)
    → and_then o (λ s.
      and_then (emit_all (maps_of s) ast.operations) (λ is. done (frame_of ast.namespace s is)))
      ≡ and_then g (λ t. plan_from ast (names t))
both-same ast (done s) (done t) h small = second-same ast s t h (small t refl)
both-same ast (failed e) (failed f) h small = rw h refl
both-same ast panic panic h small = refl
both-same ast (done s) (failed f) h small = absurd h
both-same ast (done s) panic h small = absurd h
both-same ast (failed e) (done t) h small = absurd h
both-same ast (failed e) panic h small = absurd h
both-same ast panic (done t) h small = absurd h
both-same ast panic (failed f) h small = absurd h

-- For a transaction with fewer than 2^32 allocations, the lowering ends as the reference lowering
-- does, with the same frame or the same error and never in a panic that the reference does not
-- have, whatever an earlier use left in the context.
pub lower_to_sisa-eq-reference :
    (ast : TransactionAst) (ctx : LoweringContext)
    → allocations ast.operations < 2 ^ 32
    → (lower_to_sisa_with ast ctx).0 ≡ lower_to_sisa_reference ast
unfolding lower_to_sisa_reference plan position get
lower_to_sisa-eq-reference ast ctx small =
    lower_to_sisa_with-plan ast ctx
    ∙ sym (
        both-same ast (collect_all ast.operations no_names) (gather_all ast.operations no_texts)
          (collect_all-Matches ast.operations no_names no_texts
            (refl, refl, refl, (λ k. refl), refl) (omega arith))
          (λ t e. omega (
            arith,
            subst (Counts (0 + allocations ast.operations)) e
                (gather_all-Counts ast.operations no_texts),
          )))
