-- ===== src/FileStore/Store.antt =====
-- file_store.rs: the open store, how it is opened, and appending with what the system answers.

use forthdb.Prelude.{
  ℕ, ◌-◌, Bool, true, false, Option, none, some, List, [], ◌∷◌, ◌++◌, length, take,
}
use forthdb.FileStore.{
  FileCommitStoreError, io, non_linear_append, Reason, Encoded, encoded, encode_record,
  position_fault, file_header, Decoded, decoded, decode_file,
}
use forthdb.SemanticIsa.Cursor.{Bytes}
use forthdb.World.Commit.{CommitFrame}

pub record FileCommitStore : Type 0 where
  pub file : Bytes
  pub frames : List CommitFrame
  pub recovered_tail_bytes : ℕ

pub data Opened : Type 0 where
  opened : FileCommitStore → Opened
  refused : FileCommitStoreError → Opened
  out_of_fuel : Opened

abbrev pub truncated : Bytes → Decoded → Opened
truncated bytes (decoded frames last_good_offset) = opened record {
  file = take last_good_offset bytes;
  frames = frames;
  recovered_tail_bytes = length bytes - last_good_offset;
}
truncated bytes (Decoded.refused e) = Opened.refused e
truncated bytes Decoded.out_of_fuel = Opened.out_of_fuel

abbrev pub or_header : Bytes → Bytes
or_header [] = file_header
or_header (b ∷ bytes) = b ∷ bytes

-- `FileCommitStore::open` up to `World::reconstruct`, where no call of the system fails.
unfoldable pub open_file : Bytes → Opened
open_file bytes = truncated (or_header bytes) (decode_file (or_header bytes))

-- What the system answers to `seek`, `write_all` and `sync_data`: a failed write has written some bytes.
pub data Answer : Type 0 where
  done : Answer
  write_failed : ℕ → Answer
  sync_failed : Answer
  seek_failed : Answer

-- The file after `rollback_failed_append`, whose own failure is ignored.
abbrev pub rolled_back : Bool → Bytes → Bytes → Bytes
rolled_back true before after = before
rolled_back false before after = after

abbrev pub answered :
    Answer
    → Bool
    → CommitFrame
    → Bytes
    → FileCommitStore
    → Option FileCommitStoreError × FileCommitStore
answered done rolls f bytes s = (
  none,
  record s { file = s.file ++ bytes; frames = s.frames ++ f ∷ []; recovered_tail_bytes = 0 },
)
answered (write_failed count) rolls f bytes s =
    (some io, record s { file = rolled_back rolls s.file (s.file ++ take count bytes) })
answered seek_failed rolls f bytes s = (some io, s)
answered sync_failed rolls f bytes s =
    (some io, record s { file = rolled_back rolls s.file (s.file ++ bytes) })

abbrev pub append_encoded :
    Answer
    → Bool
    → CommitFrame
    → Encoded
    → FileCommitStore
    → Option FileCommitStoreError × FileCommitStore
append_encoded answer rolls f (Encoded.refused e) s = (some e, s)
append_encoded answer rolls f (encoded bytes) s = answered answer rolls f bytes s

abbrev pub append_placed :
    Answer
    → Bool
    → CommitFrame
    → Option Reason
    → FileCommitStore
    → Option FileCommitStoreError × FileCommitStore
append_placed answer rolls f (some reason) s = (some (non_linear_append reason), s)
append_placed answer rolls f none s = append_encoded answer rolls f (encode_record f) s

-- `append`, with what the system answers and whether a rollback succeeds.
unfoldable pub append :
    Answer → Bool → CommitFrame → FileCommitStore → Option FileCommitStoreError × FileCommitStore
append answer rolls f s = append_placed answer rolls f (position_fault s.frames f) s
