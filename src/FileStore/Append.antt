-- ===== src/FileStore/Append.antt =====
-- file_store.rs: a frame that `append` acknowledges survives, and a failed append tears nothing.
use forthdb.Prelude.{
  ℕ, ◌≡◌, sym, ap, ◌∙◌, Option, none, some, ◌⊎◌, inl, inr, List, [], ◌∷◌, ◌++◌, arith, length, take,
  take_all, ltb, Bool, true, false, Bool-cases, Option-cases,
}
use mathlib.Core.List.{append_assoc, append-nil}
use forthdb.World.Commit.{CommitFrame}
use forthdb.FileStore.{FileCommitStoreError, file_header, position_fault}
use forthdb.FileStore.Store.{
  opened, done, write_failed, sync_failed, seek_failed, Opened, open_file, FileCommitStore, Answer,
  answered, append,
}
use forthdb.FileStore.Written.{IsStorable, record_of, encode_record_lem}
use forthdb.FileStore.Recovery.{records_of, IsLinear, log_of, open_file-torn, open_file-log}

-- The file of the store is the log of its frames.
pub record IsLog (s : FileCommitStore) : Type 0 where
  pub linear : IsLinear [] s.frames
  pub logged : s.file ≡ log_of s.frames

abbrev pub frames_of : Opened → Option (List CommitFrame)
frames_of (opened s) = some s.frames
frames_of (Opened.refused e) = none
frames_of Opened.out_of_fuel = none

-- What is recovered after an append that returned this.
abbrev pub Survives :
    List CommitFrame
    → CommitFrame
    → Option FileCommitStoreError
    → Option (List CommitFrame)
    → Type 0
Survives before f none recovered = recovered ≡ some (before ++ f ∷ [])
Survives before f (some e) recovered =
    (recovered ≡ some before) ⊎ (recovered ≡ some (before ++ f ∷ []))

pub IsLinear-snoc :
    (before fs : List CommitFrame) (f : CommitFrame)
    → IsLinear before fs
    → IsStorable f
    → position_fault (before ++ fs) f ≡ none
    → IsLinear before (fs ++ f ∷ [])
IsLinear-snoc before [] f h s place =
    (s, ap (λ l. position_fault l f) (sym (append-nil before)) ∙ place, tt)
IsLinear-snoc before (g ∷ fs) f (sg, pg, h) s place = (
  sg,
  pg,
  IsLinear-snoc (before ++ g ∷ []) fs f h s
      (ap (λ l. position_fault l f) (append_assoc before (g ∷ []) fs) ∙ place),
)

log_of-snoc :
    (fs : List CommitFrame) (f : CommitFrame) → log_of (fs ++ f ∷ []) ≡ log_of fs ++ record_of f
unfolding log_of
log_of-snoc fs f =
    ap (λ l. file_header ++ l) (go fs)
    ∙ sym (append_assoc file_header (records_of fs) (record_of f))
  where
    go : (fs : List CommitFrame) → records_of (fs ++ f ∷ []) ≡ records_of fs ++ record_of f
    go [] = append-nil (record_of f)
    go (g ∷ fs) =
        ap (λ l. record_of g ++ l) (go fs)
        ∙ sym (append_assoc (record_of g) (records_of fs) (record_of f))

module _ (s : FileCommitStore) (f : CommitFrame) (log : IsLog s) (fits : IsStorable f)
    (place : position_fault s.frames f ≡ none) where
  -- What opening the old file, the new one, and one with a part of the record recovers.
  kept : frames_of (open_file s.file) ≡ some s.frames
  kept =
      ap (λ l. frames_of (open_file l)) log.logged
      ∙ ap frames_of (open_file-log s.frames log.linear)

  gained : frames_of (open_file (s.file ++ record_of f)) ≡ some (s.frames ++ f ∷ [])
  gained =
      ap (λ l. frames_of (open_file (l ++ record_of f))) log.logged
      ∙ ap (λ l. frames_of (open_file l)) (sym (log_of-snoc s.frames f))
      ∙ ap frames_of
          (open_file-log (s.frames ++ f ∷ []) (IsLinear-snoc [] s.frames f log.linear fits place))

  cut :
      (count : ℕ)
      → (frames_of (open_file (s.file ++ take count (record_of f))) ≡ some s.frames)
        ⊎ (frames_of (open_file (s.file ++ take count (record_of f))) ≡ some (s.frames ++ f ∷ []))
  cut count = elim (Bool-cases (ltb count (length (record_of f)))) [
    | inl p ↦ inl (
        ap (λ l. frames_of (open_file (l ++ take count (record_of f)))) log.logged
        ∙ ap frames_of (open_file-torn s.frames f count log.linear fits (ground arith)))
    | inr p ↦ inr (
        ap (λ l. frames_of (open_file (s.file ++ l))) (take_all count (record_of f) (ground arith))
        ∙ gained)
  ]

  answered-Survives :
      (answer : Answer) (rolls : Bool)
      → Survives s.frames f
          (answered answer rolls f (record_of f) s).0
          (frames_of (open_file (answered answer rolls f (record_of f) s).1.file))
  answered-Survives done rolls = gained
  answered-Survives (write_failed count) true = inl kept
  answered-Survives (write_failed count) false = cut count
  answered-Survives seek_failed rolls = inl kept
  answered-Survives sync_failed true = inl kept
  answered-Survives sync_failed false = inr gained

-- Whatever the system answers to the write and to a rollback, opening the file that `append` leaves
-- recovers the old frames with the new one if `append` acknowledged it, and otherwise the old
-- frames, with the new one or without. The store's file is the log of its frames before the call,
-- and the frame fits the format.
pub append-Survives :
    (answer : Answer) (rolls : Bool) (f : CommitFrame) (s : FileCommitStore)
    → IsLog s
    → IsStorable f
    → Survives s.frames f
        (append answer rolls f s).0
        (frames_of (open_file (append answer rolls f s).1.file))
unfolding append
append-Survives answer rolls f s log fits = elim (Option-cases (position_fault s.frames f)) [
  | inl e ↦ rw (e, encode_record_lem f fits) (answered-Survives s f log fits e answer rolls)
  | inr (reason, e) ↦ rw e (
      inl (
        ap (λ l. frames_of (open_file l)) log.logged
        ∙ ap frames_of (open_file-log s.frames log.linear)))
]
