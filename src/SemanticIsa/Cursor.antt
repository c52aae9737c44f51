-- ===== src/SemanticIsa/Cursor.antt =====
-- semantic_isa.rs: the `put_` functions, and the `take_` functions over a cursor.
pub mod Parses
use forthdb.Prelude.{
  ℕ, zero, suc, ◌+◌, ◌*◌, ◌/◌, ◌%◌, ◌^◌, Option, none, some, List, [], ◌∷◌, ◌++◌, length, take,
  drop, ltb, leb, if◌then◌else◌, u64_max, Bool,
}
use forthdb.SemanticIsa.Utf8.{Text, valid_utf8}

abbrev pub Bytes : Type 0
Bytes = List ℕ

-- The messages, as data: those of this file, then those of file_store.rs.
pub data DecodeError : Type 0 where
  read_failed string_length_overflow truncated_string invalid_utf8 : DecodeError
  bad_magic : Bytes → DecodeError
  unsupported_version unknown_opcode : ℕ → DecodeError
  cursor_overflow unexpected_end trailing_bytes : DecodeError
  unknown_operation_tag unknown_atom_tag too_many_operations : ℕ → DecodeError

pub data Result (A : Type 0) : Type 0 where
  ok : A → Result A
  err : DecodeError → Result A

-- `std::io::Cursor<&[u8]>`
pub record Cursor : Type 0 where
  pub buffer : Bytes
  pub position : ℕ

abbrev pub Decoder : Type 0 → Type 0
Decoder A = Cursor → Result (A × Cursor)

abbrev pub after : {A B : Type 0} → (A → Decoder B) → Result (A × Cursor) → Result (B × Cursor)
after f (ok (a, c)) = f a c
after f (err e) = err e

infixl 5 ◌>>=◌ ◌>>◌
unfoldable pub ◌>>=◌ : {A B : Type 0} → Decoder A → (A → Decoder B) → Decoder B
◌>>=◌ m f c = after f (m c)

abbrev pub ◌>>◌ : {B : Type 0} → Decoder (Unit {0}) → Decoder B → Decoder B
m >> k = m >>= λ _. k

unfoldable pub pure : {A : Type 0} → A → Decoder A
pure a c = ok (a, c)

unfoldable pub fail : {A : Type 0} → DecodeError → Decoder A
fail e c = err e

-- `if bad { return Err(e) }`
unfoldable pub require : Bool → DecodeError → Decoder (Unit {0})
require good e c = if good then ok (tt, c) else err e

-- `u32::to_le_bytes`, `u64::to_le_bytes` and their inverses, for a width in bytes.
unfoldable pub to_le_bytes : ℕ → ℕ → Bytes
to_le_bytes zero value = []
to_le_bytes (suc width) value = value % 256 ∷ to_le_bytes width (value / 256)

unfoldable pub from_le_bytes : Bytes → ℕ
from_le_bytes [] = 0
from_le_bytes (b ∷ bytes) = b + 256 * from_le_bytes bytes

unfoldable pub put_u32 : Bytes → ℕ → Bytes
put_u32 output value = output ++ to_le_bytes 4 value

unfoldable pub put_u64 : Bytes → ℕ → Bytes
put_u64 output value = output ++ to_le_bytes 8 value

unfoldable pub put_string : Bytes → Text → Bytes
put_string output text = put_u32 output (length text % 2 ^ 32) ++ text

-- `Cursor::read_exact` into a buffer of `count` bytes.
unfoldable pub read_exact : ℕ → Decoder Bytes
read_exact count c =
    if leb count (length (drop c.position c.buffer))
    then ok (take count (drop c.position c.buffer), record c { position = c.position + count })
    else err read_failed

unfoldable pub take_u8 : Decoder ℕ
take_u8 = do bytes ← read_exact 1; pure (from_le_bytes bytes)

unfoldable pub take_u32 : Decoder ℕ
take_u32 = do bytes ← read_exact 4; pure (from_le_bytes bytes)

unfoldable pub take_u64 : Decoder ℕ
take_u64 = do bytes ← read_exact 8; pure (from_le_bytes bytes)

-- `from_utf8(&buf[pos..end])`, then the new position.
abbrev checked_text : Text → ℕ → Cursor → Result (Text × Cursor)
checked_text text end c =
    if valid_utf8 text then ok (text, record c { position = end }) else err invalid_utf8

string_body : ℕ → Decoder Text
string_body len c =
    let end = c.position + len in
    if ltb u64_max end
    then err string_length_overflow
    else if ltb (length c.buffer) end
    then err truncated_string
    else checked_text (take len (drop c.position c.buffer)) end c

unfoldable pub take_string : Decoder Text
unfolding string_body
take_string = do len ← take_u32; string_body len
