-- ===== src/SemanticIsa/Stream/Decodes.antt =====
-- semantic_isa.rs: the bytes of a stream frame, and the decoder on them.
use forthdb.Prelude.{◌^◌, ◌<◌, ◌≡◌, refl, List, [], ◌∷◌, ◌++◌, arith, length, true}
use forthdb.StackVm.Instruction.{
  Cell, SlotToken, Opcode, to_u8, from_u8, Instruction, instruction, from_u8-known_iff,
}
use forthdb.SemanticIsa.Utf8.{Text, valid_utf8}
use forthdb.SemanticIsa.Cursor.{
  Bytes, Decoder, ◌>>=◌, pure, to_le_bytes, take_u32, take_u64, take_string,
}
use forthdb.SemanticIsa.Cursor.Parses.{
  Parses, Parses-pure, Parses-bind, Parses-map, Parses-require, read_exact-Parses, take_u32-Parses,
  take_u64-Parses, take_u8-Parses, string_bytes, take_string-Parses,
}
use forthdb.SemanticIsa.Stream.{
  semantic_isa_version_1, stream_magic, StreamDictionary, InstructionStreamFrame, or_unknown,
  decode_instruction, repeat, take_slot, take_cell, take_counted, take_dictionary,
  decode_instruction_stream_frame,
}

-- The bytes of the parts
abbrev pub flat : {A : Type 0} → (A → Bytes) → List A → Bytes
flat item [] = []
flat item (x ∷ xs) = item x ++ flat item xs

abbrev pub counted_bytes : {A : Type 0} → (A → Bytes) → List A → Bytes
counted_bytes item xs = to_le_bytes 4 (length xs) ++ flat item xs

abbrev pub slot_bytes : SlotToken × Text → Bytes
slot_bytes (token, slot) = to_le_bytes 4 token ++ string_bytes slot

abbrev pub cell_bytes : Cell × Text → Bytes
cell_bytes (cell, text) = to_le_bytes 8 cell ++ string_bytes text

abbrev pub instruction_bytes : Instruction → Bytes
instruction_bytes i =
    (to_u8 i.opcode ∷ []) ++ (to_le_bytes 4 i.argument ++ to_le_bytes 8 i.immediate)

abbrev pub dictionary_bytes : StreamDictionary → Bytes
dictionary_bytes d =
    counted_bytes slot_bytes d.slots
    ++ (counted_bytes cell_bytes d.predicates ++ counted_bytes cell_bytes d.literals)

abbrev pub frame_bytes : InstructionStreamFrame → Bytes
frame_bytes f =
    stream_magic
    ++ (to_le_bytes 4 f.version
        ++ (to_le_bytes 8 f.namespace
            ++ (dictionary_bytes f.dictionary
                ++ (to_le_bytes 4 f.local_count
                    ++ counted_bytes instruction_bytes f.instructions))))

-- What the types of the source's fields say: `u32`, `u64` and `String`, and fewer than 2^32 items.
abbrev pub Each : {A : Type 0} → (A → Type 0) → List A → Type 0
Each P [] = Unit
Each P (x ∷ xs) = P x × Each P xs

abbrev IsText : Text → Type 0
IsText text = (valid_utf8 text ≡ true) × (length text < 2 ^ 32)

abbrev pub IsSlot : SlotToken × Text → Type 0
IsSlot (token, slot) = (token < 2 ^ 32) × IsText slot

abbrev pub IsCell : Cell × Text → Type 0
IsCell (cell, text) = (cell < 2 ^ 64) × IsText text

abbrev pub IsWord : Instruction → Type 0
IsWord i = (i.argument < 2 ^ 32) × (i.immediate < 2 ^ 64)

abbrev pub IsCounted : {A : Type 0} → (A → Type 0) → List A → Type 0
IsCounted P xs = (length xs < 2 ^ 32) × Each P xs

pub record IsFrame (f : InstructionStreamFrame) : Type 0 where
  pub version : f.version ≡ semantic_isa_version_1
  pub namespace : f.namespace < 2 ^ 64
  pub slots : IsCounted IsSlot f.dictionary.slots
  pub predicates : IsCounted IsCell f.dictionary.predicates
  pub literals : IsCounted IsCell f.dictionary.literals
  pub local_count : f.local_count < 2 ^ 32
  pub instructions : IsCounted IsWord f.instructions

-- The decoders parse them
pub repeat-Parses :
    {A : Type 0} {P : A → Type 0} {body : Decoder A} {item : A → Bytes}
    (parses : (x : A) → P x → Parses body (item x) x) (xs : List A)
    → Each P xs
    → Parses (repeat (length xs) body) (flat item xs) xs
unfolding repeat
repeat-Parses parses [] each = Parses-pure []
repeat-Parses {body = body} parses (x ∷ xs) (good, each) =
    Parses-bind (λ value. repeat (length xs) body >>= λ values. pure (value ∷ values))
      (parses x good) (Parses-map (λ values. x ∷ values) (repeat-Parses parses xs each))

take_counted-Parses :
    {A : Type 0} {P : A → Type 0} {body : Decoder A} {item : A → Bytes}
    (parses : (x : A) → P x → Parses body (item x) x) (xs : List A)
    → IsCounted P xs
    → Parses (take_counted body) (counted_bytes item xs) xs
unfolding take_counted
take_counted-Parses {body = body} parses xs (short, each) =
    Parses-bind (λ count. repeat count body) (take_u32-Parses (length xs) short)
      (repeat-Parses parses xs each)

take_slot-Parses : (s : SlotToken × Text) → IsSlot s → Parses take_slot (slot_bytes s) s
unfolding take_slot
take_slot-Parses (token, slot) (small, (valid, short)) =
    Parses-bind (λ t. take_string >>= λ s. pure (t, s)) (take_u32-Parses token small)
      (Parses-map (λ s. (token, s)) (take_string-Parses slot valid short))

take_cell-Parses : (c : Cell × Text) → IsCell c → Parses take_cell (cell_bytes c) c
unfolding take_cell
take_cell-Parses (cell, text) (small, (valid, short)) =
    Parses-bind (λ t. take_string >>= λ s. pure (t, s)) (take_u64-Parses cell small)
      (Parses-map (λ s. (cell, s)) (take_string-Parses text valid short))

to_u8-small : (op : Opcode) → to_u8 op < 256
unfolding to_u8
to_u8-small op = ground arith

decode_instruction-Parses :
    (i : Instruction) → IsWord i → Parses decode_instruction (instruction_bytes i) i
unfolding decode_instruction
decode_instruction-Parses i (argument, immediate) =
    Parses-bind
      (λ byte. take_u32 >>= λ argument.
        take_u64 >>= λ immediate. or_unknown argument immediate (from_u8 byte))
      (take_u8-Parses (to_u8 i.opcode) (to_u8-small i.opcode))
      (Parses-bind
        (λ argument.
          take_u64 >>= λ immediate. or_unknown argument immediate (from_u8 (to_u8 i.opcode)))
        (take_u32-Parses i.argument argument)
        (rw ((from_u8-known_iff (to_u8 i.opcode) i.opcode).1 refl) (
          Parses-map (λ immediate. instruction i.opcode i.argument immediate)
            (take_u64-Parses i.immediate immediate))))

take_dictionary-Parses :
    (f : InstructionStreamFrame)
    → IsFrame f
    → Parses take_dictionary (dictionary_bytes f.dictionary) f.dictionary
unfolding take_dictionary
take_dictionary-Parses f w =
    let d = f.dictionary in
    Parses-bind
      (λ slots. take_counted take_cell >>= λ predicates. take_counted take_cell >>= λ literals.
        pure (record { slots = slots; predicates = predicates; literals = literals }))
      (take_counted-Parses take_slot-Parses d.slots w.slots)
      (Parses-bind
        (λ predicates. take_counted take_cell >>= λ literals.
          pure (record { slots = d.slots; predicates = predicates; literals = literals }))
        (take_counted-Parses take_cell-Parses d.predicates w.predicates)
        (Parses-map
          (λ literals. record { slots = d.slots; predicates = d.predicates; literals = literals })
          (take_counted-Parses take_cell-Parses d.literals w.literals)))

version_small : (f : InstructionStreamFrame) → IsFrame f → f.version < 2 ^ 32
version_small f w = let v = w.version in ground arith

pub decode_instruction_stream_frame-Parses :
    (f : InstructionStreamFrame)
    → IsFrame f
    → Parses decode_instruction_stream_frame (frame_bytes f) f
unfolding decode_instruction_stream_frame
decode_instruction_stream_frame-Parses f w = Parses-bind _ (read_exact-Parses stream_magic) (
    Parses-require _ _ _ refl (
      Parses-bind _ (take_u32-Parses f.version (version_small f w)) (
        Parses-require _ _ _ (ground (arith, w.version)) (
          Parses-bind _ (take_u64-Parses f.namespace w.namespace) (
            Parses-bind _ (take_dictionary-Parses f w) (
              Parses-bind _ (take_u32-Parses f.local_count w.local_count) (
                Parses-map
                  (λ instructions. record {
                    version = f.version;
                    namespace = f.namespace;
                    dictionary = f.dictionary;
                    local_count = f.local_count;
                    instructions = instructions;
                  })
                  (take_counted-Parses decode_instruction-Parses f.instructions
                    w.instructions))))))))
