-- ===== src/FileStore/Recovery.antt =====
-- file_store.rs: what opening a log file recovers after appends, the last of which may be torn.
use forthdb.Prelude.{
  ℕ, suc, ◌+◌, ◌-◌, ◌≤◌, ◌<◌, ◌≡◌, refl, sym, ap, ◌∙◌, none, List, [], ◌∷◌, ◌++◌, arith, length,
  take, drop, length-append, length-take, take-append_left, take-length, drop-length-append, ltb,
  ltb-false, ltb-true, Bool, true, false, if◌then◌else◌,
}
use mathlib.Core.List.{append_assoc, append-nil}
use native.Mathlib.Nat.{zero-add, suc-add}
use forthdb.SemanticIsa.Cursor.{Bytes, to_le_bytes, from_le_bytes}
use forthdb.World.Commit.{CommitFrame}
use forthdb.FileStore.{file_header, position_fault, decoded, decode_records, decode_file}
use forthdb.FileStore.Store.{opened, or_header, open_file}
use forthdb.FileStore.Written.{IsStorable, record_of, read_record-whole, read_record-torn}

abbrev pub records_of : List CommitFrame → Bytes
records_of [] = []
records_of (f ∷ fs) = record_of f ++ records_of fs

-- Frames that fit the format, each starting where the frames before it end.
abbrev pub IsLinear : List CommitFrame → List CommitFrame → Type 0
IsLinear before [] = Unit
IsLinear before (f ∷ fs) =
    IsStorable f × (position_fault before f ≡ none) × IsLinear (before ++ f ∷ []) fs

record_of-some : (f : CommitFrame) → 1 ≤ length (record_of f)
unfolding record_of
record_of-some f = omega arith

module _ (bytes : Bytes) where
  -- One round over a whole record.
  decode_records-step :
      (front more : Bytes) (f : CommitFrame) (before : List CommitFrame) (fuel : ℕ)
      → bytes ≡ front ++ (record_of f ++ more)
      → IsStorable f
      → position_fault before f ≡ none
      → decode_records (suc fuel) bytes (length front) before
        ≡ decode_records fuel bytes (length (front ++ record_of f)) (before ++ f ∷ [])
  unfolding decode_records
  decode_records-step front more f before fuel e s place =
      let inside : length front < length bytes = rw e (
        omega (
          arith,
          length-append front (record_of f ++ more),
          length-append (record_of f) more,
          record_of-some f,
        )) in
      let here : drop (length front) bytes ≡ record_of f ++ more =
        ap (drop (length front)) e ∙ drop-length-append front (record_of f ++ more) in
      rw
        (
          ltb-true (length front) (length bytes) inside,
          here,
          read_record-whole (length front) before f more s place,
          length-append front (record_of f),
        )
        refl

  -- The loop reads the frames that stand in front of it.
  decode_records-whole :
      (fs before : List CommitFrame) (front tail : Bytes) (fuel : ℕ)
      → bytes ≡ front ++ (records_of fs ++ tail)
      → IsLinear before fs
      → decode_records (length fs + fuel) bytes (length front) before
        ≡ decode_records fuel bytes (length (front ++ records_of fs)) (before ++ fs)
  decode_records-whole [] before front tail fuel e h = rw (zero-add, append-nil, append-nil) refl
  decode_records-whole (f ∷ fs) before front tail fuel e (s, place, h) =
      let e' : bytes ≡ front ++ (record_of f ++ (records_of fs ++ tail)) =
        e ∙ ap (λ l. front ++ l) (append_assoc (record_of f) (records_of fs) tail) in
      let e'' : bytes ≡ (front ++ record_of f) ++ (records_of fs ++ tail) =
        e' ∙ sym (append_assoc front (record_of f) (records_of fs ++ tail)) in
      rw (suc-add) (
        decode_records-step front (records_of fs ++ tail) f before (length fs + fuel) e' s place
        ∙ decode_records-whole fs (before ++ f ∷ []) (front ++ record_of f) tail fuel e'' h
        ∙ rw (append_assoc, append_assoc) refl)

  -- It stops at the end of the bytes, and at a torn record.
  decode_records-end :
      (before : List CommitFrame) (fuel : ℕ)
      → decode_records (suc fuel) bytes (length bytes) before ≡ decoded before (length bytes)
  unfolding decode_records
  decode_records-end before fuel = rw (ltb-false (length bytes) (length bytes) (omega arith)) refl

  decode_records-torn :
      (front : Bytes) (f : CommitFrame) (k : ℕ) (before : List CommitFrame) (fuel : ℕ)
      → bytes ≡ front ++ take k (record_of f)
      → IsStorable f
      → k < length (record_of f)
      → decode_records (suc fuel) bytes (length front) before ≡ decoded before (length front)
  unfolding decode_records
  decode_records-torn front f k before fuel e s cut =
      let here : drop (length front) bytes ≡ take k (record_of f) =
        ap (drop (length front)) e ∙ drop-length-append front (take k (record_of f)) in
      rw (here, read_record-torn (length front) before f k s cut)
        (same_branches (ltb (length front) (length bytes)))
    where
      same_branches :
          (b : Bool)
          → (if b then decoded before (length front) else decoded before (length front))
            ≡ decoded before (length front)
      same_branches true = refl
      same_branches false = refl

-- The log of a sequence of frames.
unfoldable pub log_of : List CommitFrame → Bytes
log_of fs = file_header ++ records_of fs

length-records_of : (fs : List CommitFrame) → length fs ≤ length (records_of fs)
length-records_of [] = omega arith
length-records_of (f ∷ fs) =
    omega
      (arith, record_of-some f, length-append (record_of f) (records_of fs), length-records_of fs)

-- A file that starts with the header is decoded from behind it.
decode_file-header :
    (rest : Bytes)
    → decode_file (file_header ++ rest)
      ≡ decode_records
          (suc (length (file_header ++ rest)))
          (file_header ++ rest)
          (length file_header)
          []
unfolding decode_file file_header to_le_bytes from_le_bytes
decode_file-header rest = rw (ltb-false (length (file_header ++ rest)) 16 (omega arith)) refl

-- The log of linear frames, with a torn record behind it or none, is decoded to the frames.
decode_file-torn :
    (fs : List CommitFrame) (f : CommitFrame) (k : ℕ)
    → IsLinear [] fs
    → IsStorable f
    → k < length (record_of f)
    → decode_file (log_of fs ++ take k (record_of f)) ≡ decoded fs (length (log_of fs))
unfolding log_of
decode_file-torn fs f k h s cut =
    let tail = take k (record_of f) in
    let bytes = file_header ++ (records_of fs ++ tail) in
    let size : length fs ≤ length bytes = omega (
      arith,
      length-append file_header (records_of fs ++ tail),
      length-append (records_of fs) tail,
      length-records_of fs,
    ) in
    let fuel : suc (length bytes) ≡ length fs + suc (length bytes - length fs) = omega arith in
    ap decode_file (append_assoc file_header (records_of fs) tail)
    ∙ decode_file-header (records_of fs ++ tail)
    ∙ ap (λ n. decode_records n bytes (length file_header) []) fuel
    ∙ decode_records-whole bytes fs [] file_header tail (suc (length bytes - length fs)) refl h
    ∙ decode_records-torn bytes (file_header ++ records_of fs) f k fs (length bytes - length fs)
        (sym (append_assoc file_header (records_of fs) tail)) s cut

-- A log without a torn record is decoded to its end.
decode_file-log :
    (fs : List CommitFrame)
    → IsLinear [] fs
    → decode_file (log_of fs) ≡ decoded fs (length (log_of fs))
unfolding log_of
decode_file-log fs h =
    let bytes = file_header ++ records_of fs in
    let size : length fs ≤ length bytes =
      omega (arith, length-append file_header (records_of fs), length-records_of fs) in
    let fuel : suc (length bytes) ≡ length fs + suc (length bytes - length fs) = omega arith in
    decode_file-header (records_of fs)
    ∙ ap (λ n. decode_records n bytes (length file_header) []) fuel
    ∙ decode_records-whole bytes fs [] file_header [] (suc (length bytes - length fs))
        (ap (λ l. file_header ++ l) (sym (append-nil (records_of fs)))) h
    ∙ decode_records-end bytes fs (length bytes - length fs)

or_header-log :
    (fs : List CommitFrame) (tail : Bytes) → or_header (log_of fs ++ tail) ≡ log_of fs ++ tail
unfolding log_of file_header
or_header-log fs tail = refl

-- Opening the log of linear frames with the first `k` bytes of a further record behind it recovers
-- the frames and cuts the file back to their log.
pub open_file-torn :
    (fs : List CommitFrame) (f : CommitFrame) (k : ℕ)
    → IsLinear [] fs
    → IsStorable f
    → k < length (record_of f)
    → open_file (log_of fs ++ take k (record_of f))
      ≡ opened record { file = log_of fs; frames = fs; recovered_tail_bytes = k }
unfolding open_file
open_file-torn fs f k h s cut =
    let tail = take k (record_of f) in
    let bytes = log_of fs ++ tail in
    let rest : length bytes - length (log_of fs) ≡ k =
      omega (arith, length-append (log_of fs) tail, length-take k (record_of f) (omega arith)) in
    let front : take (length (log_of fs)) bytes ≡ log_of fs =
      take-append_left (length (log_of fs)) (log_of fs) tail (omega arith)
      ∙ take-length (log_of fs) in
    rw (or_header-log fs tail, decode_file-torn fs f k h s cut, front, rest) refl

pub open_file-log :
    (fs : List CommitFrame)
    → IsLinear [] fs
    → open_file (log_of fs)
      ≡ opened record { file = log_of fs; frames = fs; recovered_tail_bytes = 0 }
unfolding open_file
open_file-log fs h =
    let same : or_header (log_of fs) ≡ log_of fs =
      ap or_header (sym (append-nil (log_of fs))) ∙ or_header-log fs [] ∙ append-nil (log_of fs) in
    let rest : length (log_of fs) - length (log_of fs) ≡ 0 = omega arith in
    rw (same, decode_file-log fs h, take-length (log_of fs), rest) refl
