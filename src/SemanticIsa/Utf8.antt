-- ===== src/SemanticIsa/Utf8.antt =====
-- A `str` is a list of bytes that `std::str::from_utf8` accepts: well-formed UTF-8, which excludes
-- overlong forms, surrogates and code points above U+10FFFF.
use Prim.Native.Nat.{pred}
use forthdb.Prelude.{ℕ, Bool, true, false, ◌&&◌, List, [], ◌∷◌, ltb, leb, ◌==◌, if◌then◌else◌}

abbrev pub Text : Type 0
Text = List ℕ

abbrev within : ℕ → ℕ → ℕ → Bool
within lo hi b = leb lo b && leb b hi

-- What the next byte has to be: the start of a character, or a byte of a range with a number of
-- continuation bytes (0x80 to 0xbf) after it.
pub data Expect : Type 0 where
  start : Expect
  range : ℕ → ℕ → ℕ → Expect
  nothing : Expect

after_start : ℕ → Expect
after_start b =
    if ltb b 0x80
    then start
    else if within 0xc2 0xdf b
    then range 0x80 0xbf 0
    else if b == 0xe0
    then range 0xa0 0xbf 1
    else if b == 0xed
    then range 0x80 0x9f 1
    else if within 0xe1 0xef b
    then range 0x80 0xbf 1
    else if b == 0xf0
    then range 0x90 0xbf 2
    else if b == 0xf4
    then range 0x80 0x8f 2
    else if within 0xf1 0xf3 b
    then range 0x80 0xbf 2
    else nothing

continue : ℕ → Expect
continue n = if n == 0 then start else range 0x80 0xbf (pred n)

after : Expect → ℕ → Expect
unfolding after_start continue
after start b = after_start b
after (range lo hi n) b = if within lo hi b then continue n else nothing
after nothing b = nothing

ends : Expect → Bool
ends start = true
ends _ = false

scan : Expect → Text → Bool
unfolding after ends
scan e [] = ends e
scan e (b ∷ rest) = scan (after e b) rest

-- `std::str::from_utf8(bytes).is_ok()`
unfoldable pub valid_utf8 : Text → Bool
unfolding scan
valid_utf8 = scan start
