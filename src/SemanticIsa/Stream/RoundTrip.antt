-- ===== src/SemanticIsa/Stream/RoundTrip.antt =====
-- The stream's decoder reads back what its encoder wrote.
use native.Mathlib.Nat.{mod-eq_of_lt}
use mathlib.Core.List.{append_assoc, append-nil}
use forthdb.Prelude.{◌%◌, ◌^◌, ◌≤◌, ◌≡◌, sym, ◌∙◌, List, [], ◌∷◌, ◌++◌, length, foldl, u64_max}
use forthdb.StackVm.Instruction.{Cell, SlotToken, Instruction}
use forthdb.SemanticIsa.Utf8.{Text}
use forthdb.SemanticIsa.Cursor.{Bytes, ok, to_le_bytes, put_u32, put_u64, put_string}
use forthdb.SemanticIsa.Cursor.Parses.{Parses-appended, string_bytes}
use forthdb.SemanticIsa.Stream.{
  stream_magic, InstructionStreamFrame, encode_instruction, put_slot, put_cell, put_dictionary,
  encode_instruction_stream_frame, decode_instruction_stream_frame,
}
use forthdb.SemanticIsa.Stream.Decodes.{
  flat, counted_bytes, slot_bytes, cell_bytes, instruction_bytes, dictionary_bytes, frame_bytes,
  Each, IsSlot, IsCell, IsWord, IsCounted, IsFrame, decode_instruction_stream_frame-Parses,
}

-- The encoder writes them
pub foldl-flat :
    {A : Type 0} {P : A → Type 0} {put : Bytes → A → Bytes} {item : A → Bytes}
    (writes : (output : Bytes) (x : A) → P x → put output x ≡ output ++ item x) (output : Bytes)
    (xs : List A)
    → Each P xs
    → foldl put output xs ≡ output ++ flat item xs
foldl-flat writes output [] each = sym (append-nil output)
foldl-flat {item = item} writes output (x ∷ xs) (good, each) =
    rw (writes output x good)
      (foldl-flat writes (output ++ item x) xs each ∙ append_assoc output (item x) (flat item xs))

put_counted :
    {A : Type 0} {P : A → Type 0} {put : Bytes → A → Bytes} {item : A → Bytes}
    (writes : (output : Bytes) (x : A) → P x → put output x ≡ output ++ item x) (output : Bytes)
    (xs : List A)
    → IsCounted P xs
    → foldl put (put_u32 output (length xs % 2 ^ 32)) xs ≡ output ++ counted_bytes item xs
unfolding put_u32
put_counted {item = item} writes output xs (short, each) = rw (mod-eq_of_lt short) (
    foldl-flat writes (output ++ to_le_bytes 4 (length xs)) xs each
    ∙ append_assoc output (to_le_bytes 4 (length xs)) (flat item xs))

put_slot_lem :
    (output : Bytes) (s : SlotToken × Text) → IsSlot s → put_slot output s ≡ output ++ slot_bytes s
unfolding put_slot put_u32 put_string string_bytes
put_slot_lem output (token, slot) (small, (valid, short)) = simp (append_assoc, mod-eq_of_lt short)

put_cell_lem :
    (output : Bytes) (c : Cell × Text) → IsCell c → put_cell output c ≡ output ++ cell_bytes c
unfolding put_cell put_u64 put_u32 put_string string_bytes
put_cell_lem output (cell, text) (small, (valid, short)) = simp (append_assoc, mod-eq_of_lt short)

encode_instruction_lem :
    (output : Bytes) (i : Instruction)
    → IsWord i
    → encode_instruction output i ≡ output ++ instruction_bytes i
unfolding encode_instruction put_u64 put_u32
encode_instruction_lem output i w = simp (append_assoc)

put_dictionary_lem :
    (f : InstructionStreamFrame) (output : Bytes)
    → IsFrame f
    → put_dictionary f.dictionary output ≡ output ++ dictionary_bytes f.dictionary
unfolding put_dictionary
put_dictionary_lem f output w =
    let d = f.dictionary in
    rw
      (
        put_counted put_slot_lem output d.slots w.slots,
        put_counted put_cell_lem (output ++ counted_bytes slot_bytes d.slots) d.predicates
            w.predicates,
        put_counted put_cell_lem
            ((output ++ counted_bytes slot_bytes d.slots) ++ counted_bytes cell_bytes d.predicates)
            d.literals w.literals,
      )
      (simp (append_assoc))

encode_instruction_stream_frame_lem :
    (f : InstructionStreamFrame) (output : Bytes)
    → IsFrame f
    → encode_instruction_stream_frame f output ≡ output ++ frame_bytes f
unfolding encode_instruction_stream_frame put_u32 put_u64
encode_instruction_stream_frame_lem f output w =
    let header =
      ((output ++ stream_magic) ++ to_le_bytes 4 f.version) ++ to_le_bytes 8 f.namespace in
    rw
      (
        put_dictionary_lem f header w,
        put_counted encode_instruction_lem
            ((header ++ dictionary_bytes f.dictionary) ++ to_le_bytes 4 f.local_count)
            f.instructions w.instructions,
      )
      (simp (append_assoc))

-- A frame is decoded from the bytes that the encoder appends to a buffer, whatever follows them: a
-- cursor at the end of the old buffer returns the same frame and moves to where the rest starts.
-- The frame's fields fit their types, its lists and texts have fewer than 2^32 items, its version
-- is 1, and the whole buffer has at most `usize::MAX` bytes.
pub decode-encode :
    (frame : InstructionStreamFrame) (output rest : Bytes)
    → IsFrame frame
    → length (encode_instruction_stream_frame frame output ++ rest) ≤ u64_max
    → (let buffer = encode_instruction_stream_frame frame output ++ rest in
        decode_instruction_stream_frame (record { buffer = buffer; position = length output })
        ≡ ok (
          frame,
          record {
            buffer = buffer;
            position = length (encode_instruction_stream_frame frame output);
          },
        ))
decode-encode frame output rest w =
    rw (encode_instruction_stream_frame_lem frame output w)
      (Parses-appended (decode_instruction_stream_frame-Parses frame w) output rest)
