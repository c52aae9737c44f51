-- ===== src/SemanticIsa/Cursor/Parses.antt =====
-- A decoder parses the bytes of a value: wherever they stand next, it returns the value and moves
-- over them, whatever follows.
use native.Mathlib.Nat.{mod-eq_of_lt, zero-add, suc-add, pow-suc}
use forthdb.Prelude.{
  ℕ, zero, suc, ◌+◌, ◌/◌, ◌^◌, ◌≤◌, ◌<◌, ◌≡◌, refl, sym, ap, ◌∙◌, subst, [], ◌∷◌, ◌++◌, arith,
  length, drop, length-append, length-drop, take-length, take-append_left, drop-length-append,
  leb-true, ltb-false, Bool, true, u64_max,
}
use mathlib.Core.List.{append_assoc, append-nil}
use forthdb.SemanticIsa.Utf8.{Text, valid_utf8}
use forthdb.SemanticIsa.Cursor.{
  Bytes, DecodeError, ok, Cursor, Decoder, ◌>>=◌, pure, require, to_le_bytes, from_le_bytes,
  read_exact, take_u8, take_u32, take_u64, take_string, string_body,
}

abbrev pub remaining : Cursor → Bytes
remaining c = drop c.position c.buffer

-- A cursor inside a buffer of at most `usize::MAX` bytes.
pub record IsInside (c : Cursor) : Type 0 where
  pub small : length c.buffer ≤ u64_max
  pub within : c.position ≤ length c.buffer

-- `c'` is `c` moved over `count` bytes, with `rest` left.
pub record Moved (c : Cursor) (count : ℕ) (rest : Bytes) (c' : Cursor) : Type 0 where
  pub left : remaining c' ≡ rest
  pub buffer : c'.buffer ≡ c.buffer
  pub position : c'.position ≡ c.position + count
  pub inside : IsInside c'

pub record Parses {A : Type 0} (d : Decoder A) (bytes : Bytes) (value : A) : Type 0 where
  pub at :
      (c : Cursor) (rest : Bytes)
      → IsInside c
      → remaining c ≡ bytes ++ rest
      → (c' : Cursor) × (d c ≡ ok (value, c')) × Moved c (length bytes) rest c'

pub Parses-pure : {A : Type 0} (value : A) → Parses (pure value) [] value
unfolding pure
Parses-pure value = record {
  at = λ c rest i e.
      (c, refl, record { left = e; buffer = refl; position = omega arith; inside = i });
}

pub Parses-bind :
    {A B : Type 0} {d : Decoder A} (f : A → Decoder B) {xs ys : Bytes} {a : A} {b : B}
    → Parses d xs a
    → Parses (f a) ys b
    → Parses (d >>= f) (xs ++ ys) b
unfolding ◌>>=◌
Parses-bind f {xs} {ys} p q = record {
  at = λ c rest i e.
      let (c₁, e₁, m₁) = p.at c (ys ++ rest) i (e ∙ append_assoc xs ys rest) in
      let (c₂, e₂, m₂) = q.at c₁ rest m₁.inside m₁.left in
      (
        c₂,
        rw e₁ e₂,
        record {
          left = m₂.left;
          buffer = m₂.buffer ∙ m₁.buffer;
          position = omega (arith, m₁.position, m₂.position, length-append xs ys);
          inside = m₂.inside;
        },
      );
}

pub Parses-map :
    {A B : Type 0} {d : Decoder A} (g : A → B) {xs : Bytes} {a : A}
    → Parses d xs a
    → Parses (d >>= λ x. pure (g x)) xs (g a)
Parses-map {d = d} g {xs} {a} p =
    subst (λ bytes. Parses (d >>= λ x. pure (g x)) bytes (g a)) (append-nil xs)
      (Parses-bind (λ x. pure (g x)) p (Parses-pure (g a)))

pub Parses-require :
    {B : Type 0} (good : Bool) (e : DecodeError) (k : Unit {0} → Decoder B) {ys : Bytes} {b : B}
    → good ≡ true
    → Parses (k tt) ys b
    → Parses (require good e >>= k) ys b
unfolding ◌>>=◌ require
Parses-require good e k g q = record { at = λ c rest i r. rw g (q.at c rest i r) }

pub drop-drop : (n m : ℕ) (xs : Bytes) → drop m (drop n xs) ≡ drop (n + m) xs
drop-drop zero m xs = rw zero-add
drop-drop (suc n) zero [] = ground arith
drop-drop (suc n) (suc m) [] = rw suc-add
drop-drop (suc n) m (x ∷ xs) = rw suc-add (drop-drop n m xs)

pub read_exact-Parses : (bytes : Bytes) → Parses (read_exact (length bytes)) bytes bytes
unfolding read_exact
read_exact-Parses bytes = record {
  at = λ c rest i e.
      let fits : length bytes ≤ length (remaining c) =
        rw e (omega (arith, length-append bytes rest)) in
      let size = length-drop c.position c.buffer in
      (
        record c { position = c.position + length bytes },
        rw (
          leb-true (length bytes) (length (remaining c)) fits,
          e,
          take-append_left (length bytes) bytes rest (omega arith),
          take-length,
        ),
        record {
          left =
              sym (drop-drop c.position (length bytes) c.buffer)
              ∙ rw e (drop-length-append bytes rest);
          buffer = refl;
          position = refl;
          inside = record { small = i.small; within = let w = i.within in omega arith };
        },
      );
}

pub length-to_le_bytes : (width value : ℕ) → length (to_le_bytes width value) ≡ width
unfolding to_le_bytes
length-to_le_bytes zero value = refl
length-to_le_bytes (suc width) value = ap suc (length-to_le_bytes width (value / 256))

pub from_le_bytes-to_le_bytes :
    (width value : ℕ) → value < 256 ^ width → from_le_bytes (to_le_bytes width value) ≡ value
unfolding from_le_bytes to_le_bytes
from_le_bytes-to_le_bytes zero value h = omega arith
from_le_bytes-to_le_bytes (suc width) value h =
    let p = pow-suc 256 width in
    let rest = from_le_bytes-to_le_bytes width (value / 256) (omega arith) in omega arith

-- A number of `width` bytes.
pub number-Parses :
    (width value : ℕ)
    → value < 256 ^ width
    → Parses
        (read_exact width >>= λ bytes. pure (from_le_bytes bytes))
        (to_le_bytes width value)
        value
number-Parses width value h =
    subst
      (λ v.
        Parses (read_exact width >>= λ bytes. pure (from_le_bytes bytes)) (to_le_bytes width value)
          v)
      (from_le_bytes-to_le_bytes width value h)
      (Parses-map from_le_bytes (
        subst (λ w. Parses (read_exact w) (to_le_bytes width value) (to_le_bytes width value))
          (length-to_le_bytes width value) (read_exact-Parses (to_le_bytes width value))))

pub take_u32-Parses : (value : ℕ) → value < 2 ^ 32 → Parses take_u32 (to_le_bytes 4 value) value
unfolding take_u32
take_u32-Parses value h = number-Parses 4 value (omega arith)

pub take_u64-Parses : (value : ℕ) → value < 2 ^ 64 → Parses take_u64 (to_le_bytes 8 value) value
unfolding take_u64
take_u64-Parses value h = number-Parses 8 value (omega arith)

pub take_u8-Parses : (value : ℕ) → value < 256 → Parses take_u8 (value ∷ []) value
unfolding take_u8 to_le_bytes
take_u8-Parses value h =
    subst (λ byte. Parses take_u8 (byte ∷ []) value) (mod-eq_of_lt h)
      (number-Parses 1 value (omega arith))

string_body-Parses :
    (text : Text) → valid_utf8 text ≡ true → Parses (string_body (length text)) text text
unfolding string_body
string_body-Parses text valid = record {
  at = λ c rest i e.
      let fits : length text ≤ length (remaining c) =
        rw e (omega (arith, length-append text rest)) in
      let size = length-drop c.position c.buffer in
      let small = i.small in
      let within = i.within in
      (
        record c { position = c.position + length text },
        rw (
          ltb-false u64_max (c.position + length text) (omega arith),
          ltb-false (length c.buffer) (c.position + length text) (omega arith),
          e,
          take-append_left (length text) text rest (omega arith),
          take-length text,
          valid,
        ),
        record {
          left =
              sym (drop-drop c.position (length text) c.buffer)
              ∙ rw e (drop-length-append text rest);
          buffer = refl;
          position = refl;
          inside = record { small = i.small; within = omega arith };
        },
      );
}

unfoldable pub string_bytes : Text → Bytes
string_bytes text = to_le_bytes 4 (length text) ++ text

pub take_string-Parses :
    (text : Text)
    → valid_utf8 text ≡ true
    → length text < 2 ^ 32
    → Parses take_string (string_bytes text) text
unfolding take_string string_bytes
take_string-Parses text valid short =
    Parses-bind string_body (take_u32-Parses (length text) short) (string_body-Parses text valid)

Cursor-ext : (c c' : Cursor) → c.buffer ≡ c'.buffer → c.position ≡ c'.position → c ≡ c'
Cursor-ext c c' p q = λ i. record { buffer = p i; position = q i }

-- What is appended to a buffer is decoded from where the buffer ended.
pub Parses-appended :
    {A : Type 0} {d : Decoder A} {bytes : Bytes} {value : A}
    → Parses d bytes value
    → (output rest : Bytes) → length ((output ++ bytes) ++ rest) ≤ u64_max
    → d (record { buffer = (output ++ bytes) ++ rest; position = length output })
      ≡ ok (
        value,
        record { buffer = (output ++ bytes) ++ rest; position = length (output ++ bytes) },
      )
Parses-appended {bytes = bytes} {value = value} p output rest small =
    let size = length-append output bytes in
    let (c, decoded, moved) =
      p.at (record { buffer = (output ++ bytes) ++ rest; position = length output }) rest
        (record { small = small; within = omega (arith, length-append (output ++ bytes) rest) })
        (ap (drop (length output)) (append_assoc output bytes rest)
          ∙ drop-length-append output (bytes ++ rest)) in
    let end : Cursor = record {
      buffer = (output ++ bytes) ++ rest;
      position = length (output ++ bytes);
    } in
    decoded ∙ ap (λ c. ok (value, c)) (Cursor-ext c end moved.buffer (moved.position ∙ sym size))
