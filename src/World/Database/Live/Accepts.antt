-- ===== src/World/Database/Live/Accepts.antt =====
-- lib.rs: the commit of a transaction that was built on the current world.
use forthdb.Prelude.{◌≡◌, refl, ap, ◌∙◌, Option, none, some, [], ◌∷◌, ◌++◌, ◌==◌, ==_refl, true}
use forthdb.Kernel.Shared.Sound.{validate-eq}
use forthdb.World.Commit.{CommitFrame}
use forthdb.World.Replay.{
  ok, World, CandidateWorld, candidate_of, construct, commit_frame, into_world,
}
use forthdb.World.Database.{
  CommitStore, Transaction, candidate, first_refusal, Database, committed, stored, commit,
}
use forthdb.World.Database.Live.{Builds, IsLive, transaction-Lives}

-- The candidate that an accepted transaction makes.
record Candidate (base : World) (t : Transaction) : Type 0 where
  pub made : CandidateWorld
  pub construct-eq : candidate t ≡ ok made
  pub operations : made.operations ≡ t.operations
  pub next_entity : made.next_entity ≡ t.next_entity
  pub live : IsLive made.kernel made.next_entity

transaction-Candidate :
    (base : World) (t : Transaction)
    → IsLive base.kernel base.next_entity
    → Builds base t
    → Candidate base t
unfolding candidate construct
transaction-Candidate base t live b =
    let (same, (kernel, applied, live')) = transaction-Lives base t live b in
    let valid = validate-eq kernel live'.stacks live'.sound in
    record {
      made = candidate_of base t.operations (kernel, t.next_entity);
      construct-eq = rw (same, applied, valid) refl;
      operations = refl;
      next_entity = refl;
      live = live';
    }

module _ {S E : Type 0} (store : CommitStore S E) where
  -- The new current world has the transaction's operations and allocator, and is again one on which
  -- transactions can be built.
  pub record Commits (t : Transaction) (db : Database S) : Type 0 where
    pub world : World
    pub after : Database S
    pub returned : commit store t db ≡ (committed world, after)
    pub current : after.current ≡ world
    pub frame : CommitFrame
    pub frames : world.frames ≡ db.current.frames ++ frame ∷ []
    pub operations : frame.operations ≡ t.operations
    pub next_entity : world.next_entity ≡ t.next_entity
    pub live : IsLive world.kernel world.next_entity

  -- On a world whose kernel is sound, a transaction built by its own operations is committed when the
  -- validators accept its candidate and the store the candidate's frame.
  pub commit-Commits :
      (t : Transaction) (db : Database S)
      → Builds db.current t
      → IsLive db.current.kernel db.current.next_entity
      → ((c : CandidateWorld)
          → candidate t ≡ ok c
          → (first_refusal db.validators c ≡ none)
            × ((store.append (commit_frame c) db.store).0 ≡ none))
      → Commits t db
  unfolding commit into_world commit_frame
  commit-Commits t db b live accepts =
      let (same, _) = transaction-Lives db.current t live b in
      let fresh : (t.base.id == db.current.id) ≡ true =
        ap (λ w. w.id == db.current.id) same ∙ ==_refl db.current.id in
      let c = transaction-Candidate db.current t live b in
      record {
        world = into_world c.made (commit_frame c.made) db.current.frames;
        after = record db {
          current = into_world c.made (commit_frame c.made) db.current.frames;
          store = (store.append (commit_frame c.made) db.store).1;
        };
        returned =
            rw (fresh, c.construct-eq, (accepts c.made c.construct-eq).0)
              (appended c.made (store.append (commit_frame c.made) db.store)
                (accepts c.made c.construct-eq).1);
        current = refl;
        frame = commit_frame c.made;
        frames = refl;
        operations = c.operations;
        next_entity = c.next_entity;
        live = c.live;
      }
    where
      appended :
          (m : CandidateWorld) (r : Option E × S)
          → r.0 ≡ none
          → stored store m r db ≡ (
            committed (into_world m (commit_frame m) db.current.frames),
            record db { current = into_world m (commit_frame m) db.current.frames; store = r.1 },
          )
      appended m (none, s) e = refl
      appended m (some x, s) e = absurd (let e : some x ≡ none = e in cc)
