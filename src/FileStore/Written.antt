-- ===== src/FileStore/Written.antt =====
-- file_store.rs: the bytes that a sequence of appends leaves, and what one round of the decoder
-- reads from a whole record and from a torn one.
use forthdb.Prelude.{
  ℕ, ◌+◌, ◌*◌, ◌%◌, ◌^◌, ◌≤◌, ◌<◌, ◌≡◌, refl, sym, ap, ◌∙◌, subst, none, inl, inr, List, [], ◌∷◌,
  ◌++◌, arith, length, take, drop, foldl, length-append, length-take, take-append-drop,
  take-append_left, take-length, take-take, drop-length-append, drop-append_left, length-drop, ltb,
  ltb-false, ltb-true, ==_refl, Bool-cases,
}
use mathlib.Core.List.{append_assoc, append-nil}
use Prim.Native.Nat.{bit_xor}
use forthdb.SemanticIsa.Cursor.{Bytes, to_le_bytes, from_le_bytes}
use forthdb.SemanticIsa.Cursor.Parses.{drop-drop, length-to_le_bytes, from_le_bytes-to_le_bytes}
use forthdb.World.Commit.{CommitFrame}
use forthdb.FileStore.Payload.{encode_payload, max_operations_per_frame}
use forthdb.FileStore.Payload.RoundTrip.{IsFrame, decode_payload-encode_payload}
use forthdb.FileStore.{
  frame_magic, frame_trailer, max_frame_bytes, checksum, record_bytes, encoded, encode_record,
  position_fault, torn, read, read_body, read_record,
}

-- The frame fits its types and the limits of the format.
pub record IsStorable (f : CommitFrame) : Type 0 where
  pub fields : IsFrame f
  pub few : length f.operations ≤ max_operations_per_frame
  pub short : length (encode_payload f) ≤ max_frame_bytes

unfoldable pub record_of : CommitFrame → Bytes
record_of f = record_bytes (encode_payload f)

pub encode_record_lem : (f : CommitFrame) → IsStorable f → encode_record f ≡ encoded (record_of f)
unfolding encode_record record_of
encode_record_lem f s = rw (ltb-false max_frame_bytes (length (encode_payload f)) s.short) refl

checksum_from-small :
    (bytes : Bytes) (value : ℕ)
    → value < 2 ^ 64
    → foldl (λ value byte. bit_xor value byte * 0x100_0000_01b3 % 2 ^ 64) value bytes < 2 ^ 64
checksum_from-small [] value h = h
checksum_from-small (b ∷ bytes) value h = checksum_from-small bytes _ (omega arith)

checksum-small : (bytes : Bytes) → checksum bytes < 2 ^ 64
unfolding checksum
checksum-small bytes = checksum_from-small bytes _ (omega arith)

take_number :
    (value : ℕ) (rest : Bytes) → take 8 (to_le_bytes 8 value ++ rest) ≡ to_le_bytes 8 value
take_number value rest =
    subst (λ n. take n (to_le_bytes 8 value ++ rest) ≡ to_le_bytes 8 value)
      (length-to_le_bytes 8 value)
      (take-append_left (length (to_le_bytes 8 value)) (to_le_bytes 8 value) rest (omega arith)
        ∙ take-length (to_le_bytes 8 value))

drop_number : (value : ℕ) (rest : Bytes) → drop 8 (to_le_bytes 8 value ++ rest) ≡ rest
drop_number value rest =
    subst (λ n. drop n (to_le_bytes 8 value ++ rest) ≡ rest) (length-to_le_bytes 8 value)
      (drop-length-append (to_le_bytes 8 value) rest)

read_number :
    (value : ℕ) (rest : Bytes)
    → value < 2 ^ 64
    → from_le_bytes (take 8 (to_le_bytes 8 value ++ rest)) ≡ value
read_number value rest h =
    ap from_le_bytes (take_number value rest) ∙ from_le_bytes-to_le_bytes 8 value (omega arith)

module _ (payload more : Bytes) where
  -- The record behind its magic, and the parts behind that.
  abbrev after_length : Bytes
  after_length = to_le_bytes 8 (checksum payload) ++ (payload ++ (frame_trailer ++ more))

  abbrev whole : Bytes
  whole = frame_magic ++ (to_le_bytes 8 (length payload) ++ after_length)

  whole_lem : record_bytes payload ++ more ≡ whole
  whole_lem = simp append_assoc

  length-whole : length whole ≡ 20 + length payload + 4 + length more
  length-whole = omega (
    arith,
    length-append (to_le_bytes 8 (length payload)) after_length,
    length-append (to_le_bytes 8 (checksum payload)) (payload ++ (frame_trailer ++ more)),
    length-append payload (frame_trailer ++ more),
    length-append frame_trailer more,
    length-to_le_bytes 8 (length payload),
    length-to_le_bytes 8 (checksum payload),
  )

  drop-4 : drop 4 whole ≡ to_le_bytes 8 (length payload) ++ after_length
  drop-4 = refl

  drop-12 : drop 12 whole ≡ after_length
  drop-12 = drop_number (length payload) after_length

  drop-20 : drop 20 whole ≡ payload ++ (frame_trailer ++ more)
  drop-20 =
      sym (drop-drop 12 8 whole)
      ∙ ap (drop 8) drop-12
      ∙ drop_number (checksum payload) (payload ++ (frame_trailer ++ more))

  read_length :
      length payload ≤ max_frame_bytes → from_le_bytes (take 8 (drop 4 whole)) ≡ length payload
  read_length short = read_number (length payload) after_length (omega arith)

  read_checksum : from_le_bytes (take 8 (drop 12 whole)) ≡ checksum payload
  read_checksum =
      ap (λ bytes. from_le_bytes (take 8 bytes)) drop-12
      ∙ read_number (checksum payload) _ (checksum-small payload)

  read_payload : take (length payload) (drop 20 whole) ≡ payload
  read_payload =
      ap (take (length payload)) drop-20
      ∙ take-append_left (length payload) payload (frame_trailer ++ more) (omega arith)
      ∙ take-length payload

  read_trailer : take 4 (drop (20 + length payload) whole) ≡ frame_trailer
  read_trailer = ap (take 4) (
      sym (drop-drop 20 (length payload) whole)
      ∙ ap (drop (length payload)) drop-20
      ∙ drop-length-append payload (frame_trailer ++ more))

-- A whole record is read, whatever follows it.
pub read_record-whole :
    (offset : ℕ) (frames : List CommitFrame) (f : CommitFrame) (more : Bytes)
    → IsStorable f
    → position_fault frames f ≡ none
    → read_record offset frames (record_of f ++ more) ≡ read f (length (record_of f))
unfolding read_record read_body record_of
read_record-whole offset frames f more s place =
    let p = encode_payload f in
    let short = s.short in
    let size = length-whole p more in
    let size' = length-whole p [] in
    let total : 20 + length p + 4 ≡ length (record_bytes p) =
      let e : length (record_bytes p ++ []) ≡ length (whole p []) = ap length (whole_lem p []) in
      omega (arith, length-append (record_bytes p) []) in
    ap (read_record offset frames) (whole_lem p more)
    ∙ rw
        (
          read_length p more short,
          ltb-false (length (whole p more)) 20 (omega arith),
          ltb-false max_frame_bytes (length p) short,
          ltb-false (length (whole p more)) (20 + length p + 4) (omega arith),
          read_trailer p more,
          read_payload p more,
          read_checksum p more,
          ==_refl (checksum p),
          decode_payload-encode_payload f s.fields s.few (omega arith),
          place,
          total,
        )
        refl

-- What a slice of a list is, read from a prefix that holds it.
prefix-slice :
    (n m k : ℕ) (xs : Bytes)
    → m + n ≤ k
    → k ≤ length xs
    → take n (drop m (take k xs)) ≡ take n (drop m xs)
prefix-slice n m k xs inside fits =
    let size = length-take k xs fits in
    sym (
      ap (λ l. take n (drop m l)) (sym (take-append-drop k xs))
      ∙ ap (take n) (drop-append_left m (take k xs) (drop k xs) (omega arith))
      ∙ take-append_left n (drop m (take k xs)) (drop k xs)
          (omega (arith, length-drop m (take k xs))))

-- A record that is not whole is torn, wherever it was cut.
pub read_record-torn :
    (offset : ℕ) (frames : List CommitFrame) (f : CommitFrame) (k : ℕ)
    → IsStorable f
    → k < length (record_of f)
    → read_record offset frames (take k (record_of f)) ≡ torn
unfolding read_record record_of
read_record-torn offset frames f k s cut =
    let p = encode_payload f in
    let short = s.short in
    let same : record_bytes p ≡ whole p [] = sym (append-nil (record_bytes p)) ∙ whole_lem p [] in
    let size = length-whole p [] in
    let total : k < length (whole p []) = subst (λ l. k < length l) same cut in
    let held = length-take k (whole p []) (omega arith) in
    ap (λ l. read_record offset frames (take k l)) same ∙ elim (Bool-cases (ltb k 20)) [
      | inl few ↦ rw (held, few) refl
      | inr many ↦
          let enough : 20 ≤ k = ground arith in
          rw
            (
              held,
              many,
              take-take 4 k (whole p []) (omega arith),
              prefix-slice 8 4 k (whole p []) (omega arith) (omega arith),
              read_length p [] short,
              ltb-false max_frame_bytes (length p) short,
              ltb-true k (20 + length p + 4) (omega arith),
            )
            refl
    ]
