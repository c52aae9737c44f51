-- ===== src/Lowering/Faults/Exact.antt =====
-- transaction_ast.rs: the lowering ends with a frame, or with exactly the error of the transaction.

use forthdb.Prelude.{
  ℕ, ◌+◌, ◌%◌, ◌^◌, ◌≡◌, refl, ap, ◌∙◌, inl, inr, true, List, [], ◌∷◌, ◌++◌, Option, none, some,
  Bool-cases, length,
}
use forthdb.SemanticIsa.Utf8.{Text}
use forthdb.SemanticIsa.Stream.{InstructionStreamFrame}
use forthdb.StackVm.Instruction.{Opcode, Instruction, instruction, none_ref}
use forthdb.StackVm.Instruction.Make
use forthdb.Lowering.Names.{contains, search, collect}
use forthdb.Lowering.Names.Sorted.{search-contains, foldl-insert-IsSorted}
use forthdb.Lowering.Names.Members.{contains-foldl-insert}
use forthdb.Lowering.Syntax.{
  AtomRef, entity, literal, symbol, TransactionOp, allocate, expect_world, expect_object, define,
  forget, reject, TransactionAst, LoweringError,
}
use forthdb.Lowering.Context.{LoweringContext, Outcome, done, failed, panic, or_panic}
use forthdb.Lowering.Lower.{lower_to_sisa_with}
use forthdb.Lowering.Plan.{
  Texts, no_texts, names, unless, gather_all, and_then, literal_cell, slot_token, load_atom,
  expected_cell, emit, emit_all, plan_frame, plan_from, plan,
}
use forthdb.Lowering.Plan.Lowers.{lower_to_sisa_with-plan}
use forthdb.Lowering.Reference.Symbols.{position-contains, position-contains-false}
use forthdb.Lowering.Faults.{allocated, or_else, atom_fault, operation_fault, first_fault, fault_of}
use forthdb.Lowering.Faults.Covers.{CoversAtom, Covers, CoversAll, Gathers, gather_all-Gathers}

-- The action gives a value unless there is an error.
abbrev Gives : {A : Type 0} → Outcome A → Option LoweringError → Type 0
Gives {A} o e = (a : A) × (o ≡ unless e (done a))

collected :
    (x : Text) (ts : List Text) → contains x ts ≡ true → (i : ℕ) × (search x (collect ts) ≡ some i)
unfolding contains
collected x ts h =
    search-contains x (collect ts) (foldl-insert-IsSorted [] ts tt)
      (contains-foldl-insert x [] ts ∙ h)

module _ (t : Texts) where
  slot_token-Gives :
      (slot : Text) → contains slot t.slots ≡ true → Gives (slot_token (names t) slot) none
  unfolding slot_token names
  slot_token-Gives slot h = let (i, e) = collected slot t.slots h in (i % 2 ^ 32, rw e refl)

  literal_cell-Gives :
      (l : Text) → contains l t.literals ≡ true → Gives (literal_cell (names t) l) none
  unfolding literal_cell names
  literal_cell-Gives l h =
      let (i, e) = collected l t.literals h in (i + length (collect t.predicates), rw e refl)

  load_atom-Gives :
      (a : AtomRef) → CoversAtom t a → Gives (load_atom (names t) a) (atom_fault t.symbols a)
  unfolding load_atom names
  load_atom-Gives (entity e) h = (Make.push e, refl)
  load_atom-Gives (literal l) h =
      let (cell, e) = literal_cell-Gives l h in (Make.push cell, rw e refl)
  load_atom-Gives (symbol s) h = elim (Bool-cases (contains s t.symbols)) [
    | inl p ↦
        let (i, found, lt) = position-contains s t.symbols p in
        (Make.load_local (i % 2 ^ 32), rw (p, found) refl)
    | inr p ↦ (Make.reject, rw (p, position-contains-false s t.symbols p) refl)
  ]

  emit_object-Gives :
      (slot : Text) (a : AtomRef)
      → contains slot t.slots ≡ true
      → CoversAtom t a
      → Gives
          (emit (names t) (expect_object slot a))
          (operation_fault t.symbols (expect_object slot a))
  unfolding emit expected_cell operation_fault
  emit_object-Gives slot (entity e) h k =
      let (token, et) = slot_token-Gives slot h in
      (instruction Opcode.expect_object token e ∷ [], rw et refl)
  emit_object-Gives slot (literal l) h k =
      let (token, et) = slot_token-Gives slot h in
      let (cell, ec) = literal_cell-Gives l k in
      (instruction Opcode.expect_object token cell ∷ [], rw (et, ec) refl)
  emit_object-Gives slot (symbol s) h k =
      let (token, et) = slot_token-Gives slot h in ([], rw et refl)

  define-from :
      (o : Outcome Instruction) (p : Outcome Instruction) (q : Outcome ℕ) (r : Outcome ℕ)
      (e f : Option LoweringError)
      → Gives o e
      → Gives q none
      → Gives p f
      → Gives r none
      → Gives
          (and_then o (λ first. and_then q (λ index. and_then p (λ second.
            and_then r
              (λ token. done (first ∷ Make.push index ∷ second ∷ Make.define token ∷ []))))))
          (or_else e f)
  define-from o p q r (some e) f (a, ea) (b, eb) (c, ec) (d, ed) = ([], rw ea refl)
  define-from o p q r none (some f) (a, ea) (b, eb) (c, ec) (d, ed) = ([], rw (ea, eb, ec) refl)
  define-from o p q r none none (a, ea) (b, eb) (c, ec) (d, ed) =
      (a ∷ Make.push b ∷ c ∷ Make.define d ∷ [], rw (ea, eb, ec, ed) refl)

  emit-Gives :
      (op : TransactionOp) → Covers t op → Gives (emit (names t) op) (operation_fault t.symbols op)
  unfolding emit operation_fault names
  emit-Gives (allocate result) h =
      let (i, found, lt) = position-contains result t.symbols h in
      (Make.allocate ∷ Make.store_local (i % 2 ^ 32) ∷ [], rw found refl)
  emit-Gives (expect_world w) h = (instruction Opcode.expect_object none_ref w ∷ [], refl)
  emit-Gives (expect_object slot a) (h, k) = emit_object-Gives slot a h k
  emit-Gives (define slot a predicate b) (h, k, ca, cb) =
      let (i, e) = collected predicate t.predicates k in
      define-from (load_atom (names t) a) (load_atom (names t) b)
        (or_panic (search predicate (collect t.predicates))) (slot_token (names t) slot)
        (atom_fault t.symbols a) (atom_fault t.symbols b) (load_atom-Gives a ca) (i, rw e refl)
        (load_atom-Gives b cb) (slot_token-Gives slot h)
  emit-Gives (forget slot) h =
      let (token, e) = slot_token-Gives slot h in (Make.forget token ∷ [], rw e refl)
  emit-Gives reject h = (Make.reject ∷ [], refl)

  append-Gives :
      (o p : Outcome (List Instruction)) (e f : Option LoweringError)
      → Gives o e
      → Gives p f
      → Gives (and_then o (λ is. and_then p (λ rest. done (is ++ rest)))) (or_else e f)
  append-Gives o p (some e) f (a, ea) (b, eb) = ([], rw ea refl)
  append-Gives o p none (some f) (a, ea) (b, eb) = ([], rw (ea, eb) refl)
  append-Gives o p none none (a, ea) (b, eb) = (a ++ b, rw (ea, eb) refl)

  emit_all-Gives :
      (ops : List TransactionOp)
      → CoversAll t ops
      → Gives (emit_all (names t) ops) (first_fault t.symbols ops)
  unfolding emit_all first_fault
  emit_all-Gives [] h = ([], refl)
  emit_all-Gives (op ∷ ops) (h, k) =
      append-Gives (emit (names t) op) (emit_all (names t) ops) (operation_fault t.symbols op)
        (first_fault t.symbols ops) (emit-Gives op h) (emit_all-Gives ops k)

plan-from-Gives :
    (ast : TransactionAst) (g : Outcome Texts)
    → Gathers ast.operations no_texts g
    → Gives (and_then g (λ t. plan_from ast (names t))) (fault_of ast.operations)
unfolding fault_of
plan-from-Gives ast (done t) (e, grows, covers, symbols) =
    let (is, ei) = emit_all-Gives t ast.operations covers in
    let faults : first_fault t.symbols ast.operations
        ≡ first_fault (allocated ast.operations) ast.operations =
      ap (λ l. first_fault l ast.operations) symbols in
    (
      plan_frame ast.namespace (names t) is,
      rw (ei, faults, e) (ends (first_fault (allocated ast.operations) ast.operations) is),
    )
  where
    ends :
        (f : Option LoweringError) (is : List Instruction)
        → and_then (unless f (done is)) (λ is. done (plan_frame ast.namespace (names t) is))
          ≡ unless f (done (plan_frame ast.namespace (names t) is))
    ends none is = refl
    ends (some f) is = refl
plan-from-Gives ast (failed x) e = (plan_frame ast.namespace no_texts [], rw e refl)
plan-from-Gives ast panic e = absurd e

-- The lowering never panics. It gives the error of the first repeated allocation, if there is one;
-- else that of the first operation that uses a symbol allocated nowhere in the transaction (its
-- subject before its object) or expects a symbol as an object; and else a frame. A count of locals
-- that overflows is not an error.
pub lower_to_sisa-fault_of :
    (ast : TransactionAst) (ctx : LoweringContext)
    → (frame : InstructionStreamFrame) × ((lower_to_sisa_with ast ctx).0
        ≡ unless (fault_of ast.operations) (done frame))
unfolding plan
lower_to_sisa-fault_of ast ctx =
    let (frame, e) =
      plan-from-Gives ast (gather_all ast.operations no_texts)
        (gather_all-Gathers ast.operations no_texts) in
    (frame, lower_to_sisa_with-plan ast ctx ∙ e)
