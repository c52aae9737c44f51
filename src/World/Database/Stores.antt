-- ===== src/World/Database/Stores.antt =====
-- lib.rs and file_store.rs: the two implementations of `CommitStore`, and a database on a log file.
use forthdb.Prelude.{Option, none, some, List, [], ◌∷◌, ◌++◌, Bool, true}
use forthdb.SemanticIsa.Cursor.{Bytes}
use forthdb.FileStore.{FileCommitStoreError}
use forthdb.FileStore.Store.{done, opened, FileCommitStore, Answer, Opened, open_file, append}
use forthdb.World.Commit.{CommitFrame}
use forthdb.World.Replay.{CandidateError, Checked, ok, err, panic, World}
use forthdb.World.Database.{CommitStore, Database, database}

-- `MemoryCommitStore`: its frames, and an error type without values.
pub data Infallible : Type 0 where

unfoldable pub memory_store : CommitStore (List CommitFrame) Infallible
memory_store = record { append = λ f s. (none, s ++ f ∷ []); frames = λ s. s }

-- `impl CommitStore for FileCommitStore`, with the system's answers to one append.
unfoldable pub file_store : Answer → Bool → CommitStore FileCommitStore FileCommitStoreError
file_store answer rolls = record { append = append answer rolls; frames = λ s. s.frames }

-- `FileCommitStore::open`, whose last step is the check of the history, and `Database::new`.
pub data Restarted : Type 0 where
  restarted : Database FileCommitStore → Restarted
  history : CandidateError → Restarted
  refused : FileCommitStoreError → Restarted
  panicked : Restarted
  out_of_fuel : Restarted

abbrev pub rebuilt : Checked (Database FileCommitStore) → Restarted
rebuilt (ok db) = restarted db
rebuilt (err e) = history e
rebuilt panic = Restarted.panicked

abbrev pub restarted_on : Opened → Restarted
restarted_on (opened s) = rebuilt (database (file_store done true) s)
restarted_on (Opened.refused e) = Restarted.refused e
restarted_on Opened.out_of_fuel = Restarted.out_of_fuel

abbrev pub world_of : Restarted → Option World
world_of (restarted db) = some db.current
world_of (history e) = none
world_of (Restarted.refused e) = none
world_of Restarted.panicked = none
world_of Restarted.out_of_fuel = none

unfoldable pub restart : Bytes → Restarted
restart bytes = restarted_on (open_file bytes)
