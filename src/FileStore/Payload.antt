-- ===== src/FileStore/Payload.antt =====
-- file_store.rs: the bytes of a commit frame. A `usize` has 64 bits, so that a `u64` always fits.
pub mod RoundTrip
use forthdb.Prelude.{
  ℕ, zero, suc, ◌+◌, Bool, List, [], ◌∷◌, ◌++◌, foldl, length, drop, ltb, leb, ◌==◌, if◌then◌else◌,
  u64_max,
}
use forthdb.Prelude
use forthdb.Kernel.Value.{Atom, Fact}
use forthdb.SemanticIsa.Utf8.{Text, valid_utf8}
use forthdb.SemanticIsa.Cursor.{
  Bytes, DecodeError, invalid_utf8, cursor_overflow, unexpected_end, unknown_operation_tag,
  unknown_atom_tag, trailing_bytes, too_many_operations, Result, ok, err, Cursor, Decoder, ◌>>=◌,
  ◌>>◌, pure, fail, require, from_le_bytes, put_u64,
}
use forthdb.SemanticIsa.Stream.{repeat}
use forthdb.World.Commit.{Operation, allocate_entity, define, forget, CommitFrame}

abbrev pub max_operations_per_frame : ℕ
max_operations_per_frame = 1_000_000

unfoldable pub put_string : Bytes → Text → Bytes
put_string output value = put_u64 output (length value) ++ value

unfoldable pub put_atom : Bytes → Atom → Bytes
put_atom output (Atom.entity e) = put_u64 (output ++ 0 ∷ []) e
put_atom output (Atom.literal l) = put_string (output ++ 1 ∷ []) l

-- The body of the loop of `encode_payload`.
unfoldable pub put_operation : Bytes → Operation → Bytes
put_operation output (allocate_entity e) = put_u64 (output ++ 0 ∷ []) e
put_operation output (define slot fact) =
    let subject = put_atom (put_string (output ++ 1 ∷ []) slot) fact.subject in
    put_atom (put_string subject fact.predicate) fact.object
put_operation output (forget slot) = put_string (output ++ 2 ∷ []) slot

unfoldable pub encode_payload : CommitFrame → Bytes
encode_payload f =
    let worlds = put_u64 (put_u64 [] f.parent_world) f.resulting_world in
    let versions = put_u64 (put_u64 worlds f.parent_version) f.resulting_version in
    let header = put_u64 (put_u64 versions f.resulting_allocator) (length f.operations) in
    foldl put_operation header f.operations

-- `Decoder::take`
unfoldable pub take : ℕ → Decoder Bytes
take count c =
    let end = c.position + count in
    if ltb u64_max end
    then err cursor_overflow
    else if ltb (length c.buffer) end
    then err unexpected_end
    else ok (Prelude.take count (drop c.position c.buffer), record c { position = end })

unfoldable pub byte : Decoder ℕ
byte = do bytes ← take 1; pure (from_le_bytes bytes)

unfoldable pub u64 : Decoder ℕ
u64 = do bytes ← take 8; pure (from_le_bytes bytes)

unfoldable pub string : Decoder Text
string = do count ← u64; value ← take count; require (valid_utf8 value) invalid_utf8; pure value

unfoldable pub atom : Decoder Atom
atom = do
  tag ← byte
  if tag == 0
      then (u64 >>= λ e. pure (Atom.entity e))
      else if tag == 1
      then (string >>= λ l. pure (Atom.literal l))
      else fail (unknown_atom_tag tag)

-- The second arm of the loop of `decode_payload`.
unfoldable pub definition : Decoder Operation
definition = do
  slot ← string
  subject ← atom
  predicate ← string
  object ← atom
  pure (define slot (record { subject = subject; predicate = predicate; object = object }))

unfoldable pub operation : Decoder Operation
operation = do
  tag ← byte
  if tag == 0
      then (u64 >>= λ e. pure (allocate_entity e))
      else if tag == 1
      then definition
      else if tag == 2
      then (string >>= λ slot. pure (forget slot))
      else fail (unknown_operation_tag tag)

unfoldable pub finish : Decoder (Unit {0})
finish c = if c.position == length c.buffer then ok (tt, c) else err trailing_bytes

-- The fields, before `finish`.
unfoldable pub frame : Decoder CommitFrame
frame = do
  parent_world ← u64
  resulting_world ← u64
  parent_version ← u64
  resulting_version ← u64
  resulting_allocator ← u64
  operation_count ← u64
  require (leb operation_count max_operations_per_frame) (too_many_operations operation_count)
  operations ← repeat operation_count operation
  pure (record {
    parent_world = parent_world;
    resulting_world = resulting_world;
    parent_version = parent_version;
    resulting_version = resulting_version;
    resulting_allocator = resulting_allocator;
    operations = operations;
  })

abbrev without_cursor : {A : Type 0} → Result (A × Cursor) → Result A
without_cursor (ok (a, c)) = ok a
without_cursor (err e) = err e

unfoldable pub decode_payload : Bytes → Result CommitFrame
decode_payload payload =
    without_cursor
      ((frame >>= λ f. finish >>= λ _. pure f) (record { buffer = payload; position = 0 }))
