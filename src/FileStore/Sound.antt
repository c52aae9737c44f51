-- ===== src/FileStore/Sound.antt =====
-- file_store.rs: `decode_file` ends on every file, with a linear history that lies within it.
use forthdb.Prelude.{
  ℕ, zero, suc, subst, length-drop, ◌+◌, ◌-◌, ◌≤◌, ◌<◌, ◌≡◌, refl, sym, ◌∙◌, Option, none, some,
  inl, inr, List, [], ◌∷◌, ◌++◌, arith, length, take, drop, ltb, ◌==◌, not, Bool, true, false,
  Bool-cases, if◌then◌else◌,
}
use mathlib.Core.List.{append_assoc, append-nil}
use forthdb.SemanticIsa.Cursor.{Bytes, Result, ok, err, from_le_bytes}
use forthdb.SemanticIsa.Stream.{bytes_eq}
use forthdb.World.Commit.{CommitFrame}
use forthdb.FileStore.Payload.{decode_payload}
use forthdb.FileStore.{
  Reason, file_magic, file_version, file_flags, frame_magic, frame_trailer, max_frame_bytes,
  checksum, position_fault, Reading, torn, read, placed, decoded_at, read_body, read_record,
  Decoded, decoded, advance, decode_records, decode_file,
}

-- Each frame starts from the world and the version where the frames before it end.
abbrev pub IsChain : List CommitFrame → List CommitFrame → Type 0
IsChain before [] = Unit
IsChain before (f ∷ fs) = (position_fault before f ≡ none) × IsChain (before ++ f ∷ []) fs

-- A record that is read is in its place and not empty.
abbrev IsPlaced : List CommitFrame → ℕ → Reading → Type 0
IsPlaced frames room torn = Unit
IsPlaced frames room (Reading.refused e) = Unit
IsPlaced frames room (read f total) =
    (position_fault frames f ≡ none) × (1 ≤ total) × (total ≤ room)

module _ (frames : List CommitFrame) (room : ℕ) where
  IsPlaced-if :
      (b : Bool) (r q : Reading)
      → IsPlaced frames room r
      → (b ≡ false → IsPlaced frames room q)
      → IsPlaced frames room (if b then r else q)
  IsPlaced-if true r q h k = h
  IsPlaced-if false r q h k = k refl

  decoded_at-IsPlaced :
      (offset total : ℕ) (r : Result CommitFrame)
      → 1 ≤ total
      → total ≤ room
      → IsPlaced frames room (decoded_at offset frames total r)
  decoded_at-IsPlaced offset total (err e) some_bytes fits = tt
  decoded_at-IsPlaced offset total (ok f) some_bytes fits = go (position_fault frames f) refl
    where
      go :
          (o : Option Reason)
          → position_fault frames f ≡ o
          → IsPlaced frames room (placed offset o f total)
      go none e = (e, some_bytes, fits)
      go (some reason) e = tt

read_record-IsPlaced :
    (offset : ℕ) (frames : List CommitFrame) (rest : Bytes)
    → IsPlaced frames (length rest) (read_record offset frames rest)
unfolding read_record read_body
read_record-IsPlaced offset frames rest =
    let len = from_le_bytes (take 8 (drop 4 rest)) in
    let step = IsPlaced-if frames (length rest) in
    step (ltb (length rest) 20) _ _ tt (λ _.
      step (not (bytes_eq (take 4 rest) frame_magic)) _ _ tt (λ _.
        step (ltb max_frame_bytes len) _ _ tt (λ _.
          step (ltb (length rest) (20 + len + 4)) _ _ tt (λ fits.
            step (not (bytes_eq (take 4 (drop (20 + len) rest)) frame_trailer)) _ _ tt (λ _.
              step
                (not (checksum (take len (drop 20 rest)) == from_le_bytes (take 8 (drop 12 rest))))
                _ _ tt
                (λ _.
                  decoded_at-IsPlaced frames (length rest) offset (20 + len + 4)
                    (decode_payload (take len (drop 20 rest))) (omega arith) (ground arith)))))))

-- The decoder ends, and what it accepts goes on from `before` and lies within the bytes.
abbrev pub Extends : List CommitFrame → Bytes → Decoded → Type 0
Extends before bytes (decoded frames end) =
    (more : List CommitFrame) × (frames ≡ before ++ more)
    × IsChain before more
    × (end ≤ length bytes)
Extends before bytes (Decoded.refused e) = Unit
Extends before bytes Decoded.out_of_fuel = ⊥

module _ (bytes : Bytes) where
  Extends-if :
      (before : List CommitFrame) (b : Bool) (r q : Decoded)
      → (b ≡ true → Extends before bytes r)
      → Extends before bytes q
      → Extends before bytes (if b then r else q)
  Extends-if before true r q h k = h refl
  Extends-if before false r q h k = k

  Extends-cons :
      (before : List CommitFrame) (f : CommitFrame) (r : Decoded)
      → position_fault before f ≡ none
      → Extends (before ++ f ∷ []) bytes r
      → Extends before bytes r
  Extends-cons before f (decoded frames end) place (more, e, chain, within) =
      (f ∷ more, e ∙ append_assoc before (f ∷ []) more, (place, chain), within)
  Extends-cons before f (Decoded.refused e) place h = tt
  Extends-cons before f Decoded.out_of_fuel place h = h

  advance-Extends :
      (before : List CommitFrame) (offset : ℕ) (next : CommitFrame → ℕ → Decoded) (r : Reading)
      → offset ≤ length bytes
      → IsPlaced before (length bytes - offset) r
      → ((f : CommitFrame) (total : ℕ)
          → 1 ≤ total
          → total ≤ length bytes - offset
          → Extends (before ++ f ∷ []) bytes (next f total))
      → Extends before bytes (advance before offset next r)
  advance-Extends before offset next torn within h k = ([], sym (append-nil before), tt, within)
  advance-Extends before offset next (Reading.refused e) within h k = tt
  advance-Extends before offset next (read f total) within (place, some_bytes, fits) k =
      Extends-cons before f (next f total) place (k f total some_bytes fits)

  decode_records-Extends :
      (fuel offset : ℕ) (before : List CommitFrame)
      → offset ≤ length bytes
      → length bytes - offset < fuel
      → Extends before bytes (decode_records fuel bytes offset before)
  unfolding decode_records
  decode_records-Extends zero offset before within enough = absurd (omega arith)
  decode_records-Extends (suc fuel) offset before within enough =
      Extends-if before (ltb offset (length bytes)) _ _
        (λ _.
          advance-Extends before offset _ (read_record offset before (drop offset bytes)) within
            (subst (λ room. IsPlaced before room (read_record offset before (drop offset bytes)))
              (length-drop offset bytes) (read_record-IsPlaced offset before (drop offset bytes)))
            (λ f total some_bytes fits.
              decode_records-Extends fuel (offset + total) (before ++ f ∷ []) (omega arith)
                (omega arith)))
        ([], sym (append-nil before), tt, within)

-- On every file the decoder ends: it refuses the file, or it returns frames each of which starts
-- from the world and version where those before it end, and an offset within the file.
pub decode_file-Extends : (bytes : Bytes) → Extends [] bytes (decode_file bytes)
unfolding decode_file
decode_file-Extends bytes = elim (Bool-cases (ltb (length bytes) 16)) [
  | inl p ↦ rw p tt
  | inr p ↦
      let body =
        decode_records-Extends bytes (suc (length bytes)) 16 [] (ground arith) (omega arith) in
      rw p (
        go (not (bytes_eq (take 8 bytes) file_magic)) _ _ tt (
          go (not (from_le_bytes (take 4 (drop 8 bytes)) == file_version)) _ _ tt
            (go (not (from_le_bytes (take 4 (drop 12 bytes)) == file_flags)) _ _ tt body)))
]
  where
    go :
        (b : Bool) (r q : Decoded)
        → Extends [] bytes r
        → Extends [] bytes q
        → Extends [] bytes (if b then r else q)
    go true r q h k = h
    go false r q h k = k
