-- ===== src/Lowering/Lower.antt =====
-- transaction_ast.rs: the lowering.
use forthdb.Prelude.{
  ℕ, zero, suc, ◌+◌, ◌%◌, ◌^◌, Bool, true, false, List, [], ◌∷◌, ◌++◌, Option, none, some, length,
}
use forthdb.StackVm.Instruction.{Opcode, Instruction, instruction, none_ref}
use forthdb.StackVm.Instruction.Make
use forthdb.SemanticIsa.Utf8.{Text}
use forthdb.SemanticIsa.Stream.{InstructionStreamFrame, semantic_isa_version_1}
use forthdb.Lowering.Syntax.{
  AtomRef, entity, literal, symbol, TransactionOp, allocate, expect_world, expect_object, define,
  forget, reject, TransactionAst, operation, duplicate_allocation, undefined_symbol,
  unsupported_dynamic_symbol_expect_object,
}
use forthdb.Lowering.Context.{
  StrRef, as_str, LoweringContext, empty_context, clear, Outcome, Lower, ◌>>=◌, ◌>>◌, pure, fail,
  reading, modify,
}
use forthdb.Lowering.Handles.{unwrap, tidy, binary_search_by_key, position, any}

unfoldable pub push_slot : StrRef → Lower (Unit {0})
push_slot r = modify λ ctx. record ctx { scratch_slots = ctx.scratch_slots ++ r ∷ [] }

unfoldable pub push_predicate : StrRef → Lower (Unit {0})
push_predicate r =
    modify λ ctx. record ctx { scratch_predicates = ctx.scratch_predicates ++ r ∷ [] }

-- `if let AtomRefView::Literal(_) = atom { self.scratch_literals.push(reference) }`
unfoldable pub push_literal : StrRef → AtomRef → Lower (Unit {0})
push_literal r (literal _) =
    modify λ ctx. record ctx { scratch_literals = ctx.scratch_literals ++ r ∷ [] }
push_literal r (entity _) = pure tt
push_literal r (symbol _) = pure tt

unfoldable pub push_symbol : StrRef → Lower (Unit {0})
push_symbol r = modify λ ctx. record ctx { scratch_symbols = ctx.scratch_symbols ++ r ∷ [] }

unfoldable pub push_instruction : Instruction → Lower (Unit {0})
push_instruction i = modify λ ctx. record ctx { instructions = ctx.instructions ++ i ∷ [] }

-- `for i in 0..source.len() { let op = source.operation(i); … }`, with `count` rounds to go.
unfoldable pub for_operations :
    List TransactionOp → ℕ → ℕ → (ℕ → TransactionOp → Lower (Unit {0})) → Lower (Unit {0})
for_operations ops zero i body = pure tt
for_operations ops (suc count) i body = do
  op ← reading λ _. operation ops i
  body i op
  for_operations ops count (suc i) body

module _ (ops : List TransactionOp) where
  abbrev allocate_symbol : ℕ → Text → Bool → Lower (Unit {0})
  allocate_symbol i result true = fail (duplicate_allocation result)
  allocate_symbol i result false = push_symbol (StrRef.alloc i)

  -- The first pass.
  unfoldable pub collect_operation : ℕ → TransactionOp → Lower (Unit {0})
  collect_operation i (allocate result) = do
    seen ← reading λ ctx. any ops result ctx.scratch_symbols
    allocate_symbol i result seen
  collect_operation i (expect_world _) = pure tt
  collect_operation i (expect_object _ expected) = do
    push_slot (StrRef.expect_slot i)
    push_literal (StrRef.expect_expected i) expected
  collect_operation i (define _ subject _ object) = do
    push_slot (StrRef.def_slot i)
    push_predicate (StrRef.def_predicate i)
    push_literal (StrRef.def_subject i) subject
    push_literal (StrRef.def_object i) object
  collect_operation i (forget _) = push_slot (StrRef.forget_slot i)
  collect_operation i reject = pure tt

  unfoldable pub sort_scratch : Lower (Unit {0})
  sort_scratch = do
    slots ← reading λ ctx. tidy ops ctx.scratch_slots
    modify λ ctx. record ctx { scratch_slots = slots }
    predicates ← reading λ ctx. tidy ops ctx.scratch_predicates
    modify λ ctx. record ctx { scratch_predicates = predicates }
    literals ← reading λ ctx. tidy ops ctx.scratch_literals
    modify λ ctx. record ctx { scratch_literals = literals }

  -- `literal_offset` is the number of predicates.
  unfoldable pub literal_cell : Text → Lower ℕ
  literal_cell l = do
    index ← reading λ ctx. unwrap (binary_search_by_key ops l ctx.scratch_literals)
    literal_offset ← reading λ ctx. some (length ctx.scratch_predicates)
    pure (index + literal_offset)

  unfoldable pub slot_token : Text → Lower ℕ
  slot_token slot = do
    index ← reading λ ctx. unwrap (binary_search_by_key ops slot ctx.scratch_slots)
    pure (index % 2 ^ 32)

  abbrev pub load_symbol : Text → Option ℕ → Lower Instruction
  load_symbol s (some local) = pure (Make.load_local (local % 2 ^ 32))
  load_symbol s none = fail (undefined_symbol s)

  unfoldable pub load_atom : AtomRef → Lower Instruction
  load_atom (entity e) = pure (Make.push e)
  load_atom (literal l) = do cell ← literal_cell l; pure (Make.push cell)
  load_atom (symbol s) = do
    local ← reading λ ctx. position ops s ctx.scratch_symbols
    load_symbol s local

  unfoldable pub expected_cell : AtomRef → Lower ℕ
  expected_cell (entity e) = pure e
  expected_cell (literal l) = literal_cell l
  expected_cell (symbol _) = fail unsupported_dynamic_symbol_expect_object

  -- The second pass.
  unfoldable pub emit_operation : ℕ → TransactionOp → Lower (Unit {0})
  emit_operation i (allocate result) = do
    local ← reading λ ctx. unwrap (position ops result ctx.scratch_symbols)
    push_instruction Make.allocate
    push_instruction (Make.store_local (local % 2 ^ 32))
  emit_operation i (expect_world expected) =
      push_instruction (instruction Opcode.expect_object none_ref expected)
  emit_operation i (expect_object slot expected) = do
    token ← slot_token slot
    cell ← expected_cell expected
    push_instruction (instruction Opcode.expect_object token cell)
  emit_operation i (define slot subject predicate object) = do
    first ← load_atom subject
    push_instruction first
    index ← reading λ ctx. unwrap (binary_search_by_key ops predicate ctx.scratch_predicates)
    push_instruction (Make.push index)
    second ← load_atom object
    push_instruction second
    token ← slot_token slot
    push_instruction (Make.define token)
  emit_operation i (forget slot) = do token ← slot_token slot; push_instruction (Make.forget token)
  emit_operation i reject = push_instruction Make.reject

  -- What follows the first pass.
  unfoldable pub emit_sorted : Lower ℕ
  emit_sorted = do
    local_count ← reading λ ctx. some (length ctx.scratch_symbols % 2 ^ 32)
    sort_scratch
    for_operations ops (length ops) 0 emit_operation
    pure local_count

  unfoldable pub lower_transient : Lower ℕ
  lower_transient = do
    modify clear
    for_operations ops (length ops) 0 collect_operation
    emit_sorted

  -- The loops over `scratch.iter().enumerate()`: a number and the text that a handle reads.
  unfoldable pub push_dict_slots : List StrRef → ℕ → Lower (Unit {0})
  push_dict_slots [] i = pure tt
  push_dict_slots (r ∷ rs) i = do
    text ← reading λ _. as_str ops r
    modify λ ctx. record ctx { dict_slots = ctx.dict_slots ++ (i % 2 ^ 32, text) ∷ [] }
    push_dict_slots rs (suc i)

  unfoldable pub push_dict_predicates : List StrRef → ℕ → Lower (Unit {0})
  push_dict_predicates [] i = pure tt
  push_dict_predicates (r ∷ rs) i = do
    text ← reading λ _. as_str ops r
    modify λ ctx. record ctx { dict_predicates = ctx.dict_predicates ++ (i, text) ∷ [] }
    push_dict_predicates rs (suc i)

  unfoldable pub push_dict_literals : ℕ → List StrRef → ℕ → Lower (Unit {0})
  push_dict_literals literal_offset [] i = pure tt
  push_dict_literals literal_offset (r ∷ rs) i = do
    text ← reading λ _. as_str ops r
    modify
        λ ctx. record ctx { dict_literals = ctx.dict_literals ++ (i + literal_offset, text) ∷ [] }
    push_dict_literals literal_offset rs (suc i)

  abbrev frame_of : ℕ → ℕ → LoweringContext → InstructionStreamFrame
  frame_of namespace local_count ctx = record {
    version = semantic_isa_version_1;
    namespace = namespace;
    dictionary = record {
      slots = ctx.dict_slots;
      predicates = ctx.dict_predicates;
      literals = ctx.dict_literals;
    };
    local_count = local_count;
    instructions = ctx.instructions;
  }

  -- What follows `lower_transient`: the dictionaries, and the vectors moved into the frame.
  unfoldable pub build_frame : ℕ → ℕ → Lower InstructionStreamFrame
  build_frame namespace local_count = do
    slots ← reading λ ctx. some ctx.scratch_slots
    push_dict_slots slots 0
    predicates ← reading λ ctx. some ctx.scratch_predicates
    push_dict_predicates predicates 0
    literals ← reading λ ctx. some ctx.scratch_literals
    push_dict_literals (length predicates) literals 0
    frame ← reading λ ctx. some (frame_of namespace local_count ctx)
    modify λ ctx. record ctx {
      dict_slots = [];
      dict_predicates = [];
      dict_literals = [];
      instructions = [];
    }
    pure frame

  unfoldable pub lower_from_source : ℕ → Lower InstructionStreamFrame
  lower_from_source namespace = do local_count ← lower_transient; build_frame namespace local_count

-- `lower_to_sisa_with`, of a transaction and of a view.
unfoldable pub lower_to_sisa_with : TransactionAst → Lower InstructionStreamFrame
lower_to_sisa_with ast = lower_from_source ast.operations ast.namespace

unfoldable pub lower_to_sisa : TransactionAst → Outcome InstructionStreamFrame
lower_to_sisa ast = (lower_to_sisa_with ast empty_context).0
