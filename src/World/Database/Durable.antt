-- ===== src/World/Database/Durable.antt =====
-- lib.rs: a file store always holds the history of the current world.
use forthdb.Prelude.{
  ◌≡◌, refl, ap, ◌∙◌, subst, Option, none, some, inl, inr, List, [], ◌∷◌, ◌++◌, Bool-cases, ◌==◌,
  arith, Bool,
}
use forthdb.SemanticIsa.Utf8.{Text}
use forthdb.World.Commit.{CommitFrame}
use forthdb.World.Replay.{
  Checked, ok, err, panic, and_then, World, CandidateWorld, genesis, construct, commit_frame,
  into_world, replay, reconstruct,
}
use forthdb.World.Replay.Candidate.{Replays, construct-Replays, replay_all-append}
use forthdb.FileStore.{
  FileCommitStoreError, Encoded, encoded, encode_record, position_fault, Reason,
}
use forthdb.FileStore.Store.{
  done, write_failed, sync_failed, seek_failed, FileCommitStore, Answer, append, append_placed,
  append_encoded,
}
use forthdb.World.Database.Stores.{file_store}
use forthdb.World.Database.{
  Transaction, candidate, first_refusal, Database, Committed, committed, stored, admitted,
  constructed, commit,
}

pub reconstruct-append :
    (w : World) (fs : List CommitFrame) (f : CommitFrame)
    → reconstruct fs ≡ ok w
    → reconstruct (fs ++ f ∷ []) ≡ replay w f
unfolding reconstruct
reconstruct-append w fs f h =
    replay_all-append genesis fs f ∙ ap (λ r. and_then r (λ w. replay w f)) h

-- What `append` does to the frames in memory.
abbrev Adds : CommitFrame → FileCommitStore → Option FileCommitStoreError × FileCommitStore → Type 0
Adds f s (none, s') = s'.frames ≡ s.frames ++ f ∷ []
Adds f s (some e, s') = s'.frames ≡ s.frames

append-Adds :
    (answer : Answer) (rolls : Bool) (f : CommitFrame) (s : FileCommitStore)
    → Adds f s (append answer rolls f s)
unfolding append
append-Adds answer rolls f s = placed (position_fault s.frames f)
  where
    tried : (a : Answer) (e : Encoded) → Adds f s (append_encoded a rolls f e s)
    tried a (Encoded.refused e) = refl
    tried done (encoded bytes) = refl
    tried (write_failed count) (encoded bytes) = refl
    tried sync_failed (encoded bytes) = refl
    tried seek_failed (encoded bytes) = refl

    placed : (o : Option Reason) → Adds f s (append_placed answer rolls f o s)
    placed (some reason) = refl
    placed none = tried answer (encode_record f)

-- `Database::new` on the store's frames would give the current world, history included.
pub record IsDurable (db : Database FileCommitStore) : Type 0 where
  pub rebuilt : reconstruct db.store.frames ≡ ok db.current

-- A commit that returns an error or panics leaves the world and the frames as they were.
abbrev pub Keeps :
    Database FileCommitStore → Committed FileCommitStoreError × Database FileCommitStore → Type 0
Keeps db (committed w, db') = (db'.current ≡ w) × IsDurable db'
Keeps db (Committed.refused e, db') =
    (db'.current ≡ db.current) × (db'.store.frames ≡ db.store.frames)
Keeps db (Committed.panicked, db') =
    (db'.current ≡ db.current) × (db'.store.frames ≡ db.store.frames)

module _ (answer : Answer) (rolls : Bool) (db : Database FileCommitStore)
    (durable : IsDurable db) where
  stored-Keeps :
      (c : CandidateWorld)
      → replay db.current (commit_frame c) ≡ ok (into_world c (commit_frame c) db.current.frames)
      → (r : Option FileCommitStoreError × FileCommitStore) → Adds (commit_frame c) db.store r
      → Keeps db (stored (file_store answer rolls) c r db)
  stored-Keeps c again (none, s) added = (
    refl,
    record {
      rebuilt =
          ap reconstruct added
          ∙ reconstruct-append db.current db.store.frames (commit_frame c) durable.rebuilt
          ∙ again;
    },
  )
  stored-Keeps c again (some x, s) same = (refl, same)

  constructed-Keeps :
      (r : Checked CandidateWorld)
      → Replays db.current r
      → Keeps db (constructed (file_store answer rolls) r db)
  unfolding file_store
  constructed-Keeps (ok c) again = go (first_refusal db.validators c)
    where
      go : (o : Option Text) → Keeps db (admitted (file_store answer rolls) c o db)
      go (some message) = (refl, refl)
      go none =
          stored-Keeps c again (append answer rolls (commit_frame c) db.store)
            (append-Adds answer rolls (commit_frame c) db.store)
  constructed-Keeps (err e) again = (refl, refl)
  constructed-Keeps panic again = (refl, refl)

-- On a file store, whatever the system answers: if the frames in memory rebuild the current world,
-- then after a commit that returns a world they rebuild that world, which is current, and after any
-- other they and the world are as before. The transaction's base is the current world wherever their
-- identities, which are hashes, are equal.
pub commit-Keeps :
    (answer : Answer) (rolls : Bool) (t : Transaction) (db : Database FileCommitStore)
    → IsDurable db
    → (t.base.id ≡ db.current.id → t.base ≡ db.current)
    → Keeps db (commit (file_store answer rolls) t db)
unfolding commit candidate
commit-Keeps answer rolls t db durable same = elim (Bool-cases (t.base.id == db.current.id)) [
  | inl p ↦
      let base : t.base ≡ db.current = same (ground arith) in
      let again : Replays db.current (construct t.base t.operations) =
        subst (λ w. Replays w (construct t.base t.operations)) base
          (construct-Replays t.base t.operations) in
      rw p (constructed-Keeps answer rolls db durable (construct t.base t.operations) again)
  | inr p ↦ rw p (refl, refl)
]
