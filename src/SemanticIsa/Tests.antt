-- ===== src/SemanticIsa/Tests.antt =====
-- The stream's codec run on a small frame between other bytes.
use forthdb.Prelude.{ℕ, ◌^◌, ◌≡◌, refl, List, [], ◌∷◌, ◌++◌, arith, length, false}
use forthdb.StackVm.Instruction.Make
use forthdb.SemanticIsa.Utf8.{valid_utf8}
use forthdb.SemanticIsa.Cursor.{Bytes, ok, put_u64, put_u32, put_string, to_le_bytes}
use forthdb.SemanticIsa.Stream.{
  InstructionStreamFrame, semantic_isa_version_1, encode_instruction_stream_frame,
  decode_instruction_stream_frame,
}
use forthdb.SemanticIsa.Stream.RoundTrip.{decode-encode}
use forthdb.SemanticIsa.Stream.Decodes.{IsFrame}

abbrev abc : List ℕ
abc = b'a' ∷ b'b' ∷ b'c' ∷ []

-- "é" in UTF-8
abbrev e_acute : List ℕ
e_acute = 0xc3 ∷ 0xa9 ∷ []

abbrev frame : InstructionStreamFrame
frame = record {
  version = semantic_isa_version_1;
  namespace = 7;
  dictionary = record {
    slots = (0, abc) ∷ (1, e_acute) ∷ [];
    predicates = (2 ^ 63, abc) ∷ [];
    literals = [];
  };
  local_count = 1;
  instructions = Make.push 2 ∷ Make.push (2 ^ 40) ∷ Make.push 9 ∷ Make.define 1 ∷ [];
}

overlong_is_invalid : valid_utf8 (0xc0 ∷ 0x80 ∷ []) ≡ false
unfolding valid_utf8
overlong_is_invalid = refl

frame-IsFrame : IsFrame frame
unfolding valid_utf8
frame-IsFrame = record {
  version = refl;
  namespace = omega arith;
  slots =
      (omega arith, ((omega arith, (refl, omega arith)), ((omega arith, (refl, omega arith)), tt)));
  predicates = (omega arith, ((omega arith, (refl, omega arith)), tt));
  literals = (omega arith, tt);
  local_count = omega arith;
  instructions = (
    omega arith,
    (
      (omega arith, omega arith),
      ((omega arith, omega arith), ((omega arith, omega arith), ((omega arith, omega arith), tt))),
    ),
  );
}

abbrev buffer : Bytes
buffer = encode_instruction_stream_frame frame (1 ∷ []) ++ (5 ∷ [])

decode-encode_example :
    decode_instruction_stream_frame (record { buffer = buffer; position = 1 })
    ≡ ok (
      frame,
      record {
        buffer = buffer;
        position = length (encode_instruction_stream_frame frame (1 ∷ []));
      },
    )
unfolding encode_instruction_stream_frame put_u64 put_u32 put_string to_le_bytes
decode-encode_example = decode-encode frame (1 ∷ []) (5 ∷ []) frame-IsFrame (omega arith)
