-- ===== src/SemanticIsa/Stream.antt =====
-- semantic_isa.rs: the frame of an instruction stream, its encoder and its decoder.
pub mod Decodes
pub mod RoundTrip
use forthdb.Prelude.{
  ℕ, zero, suc, ◌%◌, ◌^◌, List, [], ◌∷◌, ◌++◌, length, ◌==◌, foldl, ◌&&◌, Bool, true, false,
}
use forthdb.StackVm.Instruction.{
  Cell, SlotToken, Opcode, to_u8, from_u8, OpcodeResult, known, unknown, Instruction, instruction,
}
use forthdb.SemanticIsa.Utf8.{Text}
use forthdb.SemanticIsa.Cursor.{
  Bytes, bad_magic, unsupported_version, unknown_opcode, Decoder, ◌>>=◌, ◌>>◌, pure, fail, require,
  put_u32, put_u64, put_string, read_exact, take_u8, take_u32, take_u64, take_string,
}

abbrev pub semantic_isa_version_1 : ℕ
semantic_isa_version_1 = 1

-- b"SISA"
abbrev pub stream_magic : Bytes
stream_magic = b'S' ∷ b'I' ∷ b'S' ∷ b'A' ∷ []

pub record StreamDictionary : Type 0 where
  pub slots : List (SlotToken × Text)
  pub predicates : List (Cell × Text)
  pub literals : List (Cell × Text)

pub record InstructionStreamFrame : Type 0 where
  pub version : ℕ
  pub namespace : ℕ
  pub dictionary : StreamDictionary
  pub local_count : ℕ
  pub instructions : List Instruction

unfoldable pub encode_instruction : Bytes → Instruction → Bytes
encode_instruction output inst =
    put_u64 (put_u32 (output ++ to_u8 inst.opcode ∷ []) inst.argument) inst.immediate

-- The bodies of the encoder's loops.
put_slot : Bytes → SlotToken × Text → Bytes
put_slot output (token, slot) = put_string (put_u32 output token) slot

put_cell : Bytes → Cell × Text → Bytes
put_cell output (cell, text) = put_string (put_u64 output cell) text

put_dictionary : StreamDictionary → Bytes → Bytes
unfolding put_slot put_cell
put_dictionary d output =
    let slots = foldl put_slot (put_u32 output (length d.slots % 2 ^ 32)) d.slots in
    let predicates = foldl put_cell (put_u32 slots (length d.predicates % 2 ^ 32)) d.predicates in
    foldl put_cell (put_u32 predicates (length d.literals % 2 ^ 32)) d.literals

unfoldable pub encode_instruction_stream_frame : InstructionStreamFrame → Bytes → Bytes
unfolding put_dictionary encode_instruction
encode_instruction_stream_frame frame output =
    let header = put_u64 (put_u32 (output ++ stream_magic) frame.version) frame.namespace in
    let body = put_u32 (put_dictionary frame.dictionary header) frame.local_count in
    foldl encode_instruction (put_u32 body (length frame.instructions % 2 ^ 32)) frame.instructions

abbrev or_unknown : ℕ → ℕ → OpcodeResult → Decoder Instruction
or_unknown argument immediate (known opcode) = pure (instruction opcode argument immediate)
or_unknown argument immediate (unknown byte) = fail (unknown_opcode byte)

unfoldable pub decode_instruction : Decoder Instruction
decode_instruction = do
  opcode_byte ← take_u8
  argument ← take_u32
  immediate ← take_u64
  or_unknown argument immediate (from_u8 opcode_byte)

-- `for _ in 0..count { values.push(body?) }`
unfoldable pub repeat : {A : Type 0} → ℕ → Decoder A → Decoder (List A)
repeat zero body = pure []
repeat (suc count) body = do value ← body; values ← repeat count body; pure (value ∷ values)

take_slot : Decoder (SlotToken × Text)
take_slot = do token ← take_u32; slot ← take_string; pure (token, slot)

take_cell : Decoder (Cell × Text)
take_cell = do cell ← take_u64; text ← take_string; pure (cell, text)

take_counted : {A : Type 0} → Decoder A → Decoder (List A)
take_counted body = do count ← take_u32; repeat count body

take_dictionary : Decoder StreamDictionary
take_dictionary = do
  slots ← take_counted take_slot
  predicates ← take_counted take_cell
  literals ← take_counted take_cell
  pure (record { slots = slots; predicates = predicates; literals = literals })

abbrev pub bytes_eq : Bytes → Bytes → Bool
bytes_eq [] [] = true
bytes_eq (x ∷ xs) (y ∷ ys) = x == y && bytes_eq xs ys
bytes_eq _ _ = false

unfoldable pub decode_instruction_stream_frame : Decoder InstructionStreamFrame
unfolding take_slot take_cell take_counted take_dictionary repeat decode_instruction
decode_instruction_stream_frame = do
  magic ← read_exact 4
  require (bytes_eq magic stream_magic) (bad_magic magic)
  version ← take_u32
  require (version == semantic_isa_version_1) (unsupported_version version)
  namespace ← take_u64
  dictionary ← take_dictionary
  local_count ← take_u32
  instructions ← take_counted decode_instruction
  pure (record {
    version = version;
    namespace = namespace;
    dictionary = dictionary;
    local_count = local_count;
    instructions = instructions;
  })
