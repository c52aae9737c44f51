-- ===== src/World/Database/Reopen.antt =====
-- file_store.rs and lib.rs: a database over the log file, and what is found when it is opened again.
use forthdb.Prelude.{
  ◌≡◌, refl, ap, ◌∙◌, subst, Option, none, some, ◌⊎◌, inl, inr, List, [], ◌∷◌, ◌++◌, Bool,
  Bool-cases, ◌==◌, arith,
}
use forthdb.SemanticIsa.Utf8.{Text}
use forthdb.SemanticIsa.Cursor.{Bytes}
use forthdb.FileStore.{FileCommitStoreError}
use forthdb.FileStore.Store.{opened, FileCommitStore, Answer, Opened, open_file, append}
use forthdb.FileStore.Written.{IsStorable}
use forthdb.FileStore.Recovery.{open_file-log}
use forthdb.FileStore.Append.{IsLog, frames_of, Survives, append-Survives}
use forthdb.World.Commit.{CommitFrame}
use forthdb.World.Replay.{
  Checked, ok, err, panic, World, CandidateWorld, construct, commit_frame, into_world, replay,
  reconstruct,
}
use forthdb.World.Replay.Candidate.{Replays, construct-Replays}
use forthdb.World.Database.{
  Transaction, candidate, first_refusal, Database, database, stale_transaction, candidate_error,
  validation, store_error, Committed, committed, stored, admitted, constructed, commit,
}
use forthdb.World.Database.Stores.{file_store, restarted_on, world_of, restart}
use forthdb.World.Database.Durable.{reconstruct-append}

-- The world after a restart, by the frames that the log holds.
restart-world :
    (bytes : Bytes) (fs : List CommitFrame) (w : World)
    → frames_of (open_file bytes) ≡ some fs
    → reconstruct fs ≡ ok w
    → world_of (restart bytes) ≡ some w
unfolding restart database file_store
restart-world bytes fs w found made = go (open_file bytes) found
  where
    go : (o : Opened) → frames_of o ≡ some fs → world_of (restarted_on o) ≡ some w
    go (opened s) e =
        let same : s.frames ≡ fs = let e : some s.frames ≡ some fs = e in cc in
        let again : reconstruct s.frames ≡ ok w = ap reconstruct same ∙ made in rw again refl
    go (Opened.refused x) e = absurd (let e : none ≡ some fs = e in cc)
    go Opened.out_of_fuel e = absurd (let e : none ≡ some fs = e in cc)

-- The world of a commit whose append failed.
pub record Attempted (t : Transaction) (db : Database FileCommitStore) (bytes : Bytes)
    : Type 0 where
  pub made : CandidateWorld
  pub construct-eq : candidate t ≡ ok made
  pub found :
      world_of (restart bytes) ≡ some (into_world made (commit_frame made) db.current.frames)

-- What a restart finds after a commit that returned this.
abbrev pub Reopens :
    Transaction
    → Database FileCommitStore
    → Committed FileCommitStoreError × Database FileCommitStore
    → Type 0
Reopens t db (committed w, db') = world_of (restart db'.store.file) ≡ some w
Reopens t db (Committed.refused (store_error e), db') =
    (world_of (restart db'.store.file) ≡ some db.current) ⊎ Attempted t db db'.store.file
Reopens t db (Committed.refused (stale_transaction a b), db') =
    world_of (restart db'.store.file) ≡ some db.current
Reopens t db (Committed.refused (candidate_error e), db') =
    world_of (restart db'.store.file) ≡ some db.current
Reopens t db (Committed.refused (validation m), db') =
    world_of (restart db'.store.file) ≡ some db.current
Reopens t db (Committed.panicked, db') = world_of (restart db'.store.file) ≡ some db.current

module _ (answer : Answer) (rolls : Bool) (t : Transaction) (db : Database FileCommitStore)
    (log : IsLog db.store) (durable : reconstruct db.store.frames ≡ ok db.current) where
  unchanged : world_of (restart db.store.file) ≡ some db.current
  unchanged =
      restart-world db.store.file db.store.frames db.current
        (ap (λ l. frames_of (open_file l)) log.logged
          ∙ ap frames_of (open_file-log db.store.frames log.linear))
        durable

  stored-Reopens :
      (c : CandidateWorld)
      → candidate t ≡ ok c
      → replay db.current (commit_frame c) ≡ ok (into_world c (commit_frame c) db.current.frames)
      → IsStorable (commit_frame c)
      → Reopens t db
          (stored (file_store answer rolls) c (append answer rolls (commit_frame c) db.store) db)
  stored-Reopens c made again fits =
      go (append answer rolls (commit_frame c) db.store)
        (append-Survives answer rolls (commit_frame c) db.store log fits)
    where
      gained :
          reconstruct (db.store.frames ++ commit_frame c ∷ [])
          ≡ ok (into_world c (commit_frame c) db.current.frames)
      gained = reconstruct-append db.current db.store.frames (commit_frame c) durable ∙ again

      go :
          (r : Option FileCommitStoreError × FileCommitStore)
          → Survives db.store.frames (commit_frame c) r.0 (frames_of (open_file r.1.file))
          → Reopens t db (stored (file_store answer rolls) c r db)
      go (none, s) h = restart-world s.file _ _ h gained
      go (some e, s) (inl h) = inl (restart-world s.file db.store.frames db.current h durable)
      go (some e, s) (inr h) =
          inr (record { made = c; construct-eq = made; found = restart-world s.file _ _ h gained })

  constructed-Reopens :
      (r : Checked CandidateWorld)
      → candidate t ≡ r
      → Replays db.current r
      → ((c : CandidateWorld) → candidate t ≡ ok c → IsStorable (commit_frame c))
      → Reopens t db (constructed (file_store answer rolls) r db)
  unfolding file_store
  constructed-Reopens (ok c) made again fits = go (first_refusal db.validators c)
    where
      go : (o : Option Text) → Reopens t db (admitted (file_store answer rolls) c o db)
      go (some message) = unchanged
      go none = stored-Reopens c made again (fits c made)
  constructed-Reopens (err e) made again fits = unchanged
  constructed-Reopens panic made again fits = unchanged

-- After a commit on a database over a log file, whatever the system answers to the write and to a
-- rollback, a restart finds the world that the commit returned. After a commit that the store refused
-- it finds the old world or the one that was to be committed, and after any other the old world. The
-- file is the log of the database's history, the candidate's frame fits the format, and the
-- transaction's base is the current world wherever their identities, which are hashes, are equal.
pub commit-Reopens :
    (answer : Answer) (rolls : Bool) (t : Transaction) (db : Database FileCommitStore)
    → IsLog db.store
    → reconstruct db.store.frames ≡ ok db.current
    → (t.base.id ≡ db.current.id → t.base ≡ db.current)
    → ((c : CandidateWorld) → candidate t ≡ ok c → IsStorable (commit_frame c))
    → Reopens t db (commit (file_store answer rolls) t db)
unfolding commit candidate
commit-Reopens answer rolls t db log durable same fits =
    elim (Bool-cases (t.base.id == db.current.id)) [
      | inl p ↦
          let base : t.base ≡ db.current = same (ground arith) in
          rw p (constructed-Reopens answer rolls t db log durable (candidate t) refl (go base) fits)
      | inr p ↦ rw p (unchanged answer rolls t db log durable)
    ]
  where
    go : t.base ≡ db.current → Replays db.current (candidate t)
    go base =
        subst (λ w. Replays w (construct t.base t.operations)) base
          (construct-Replays t.base t.operations)
