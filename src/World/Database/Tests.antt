-- ===== src/World/Database/Tests.antt =====
-- lib.rs: commits on a log file, and each theorem at one of them.
use forthdb.Prelude.{◌≡◌, ◌∙◌, refl, sym, subst, [], ◌∷◌, arith, none, true, false}
use forthdb.Kernel.Value.{Atom, Fact}
use forthdb.Kernel.Store.Stacks.{no_facts}
use forthdb.Kernel.Shared
use forthdb.Kernel.Shared.Sound.{new-IsSound, entity-IsSound, validate-eq}
use forthdb.SemanticIsa.Utf8.{valid_utf8}
use forthdb.SemanticIsa.Cursor.{to_le_bytes, put_u64}
use forthdb.FileStore.Store.{write_failed, sync_failed, done, FileCommitStore, append}
use forthdb.FileStore.{position_fault}
use forthdb.FileStore.Payload.{put_operation, encode_payload}
use forthdb.FileStore.Written.{IsStorable, encode_record_lem}
use forthdb.FileStore.Recovery.{log_of}
use forthdb.FileStore.Append.{IsLog}
use forthdb.World.Replay.{
  ok, genesis, candidate_of, reconstruct, apply_all, construct, commit_frame, CandidateWorld,
  calculate_world_id, hash_u64, hash_bytes, hash_operation,
}
use forthdb.World.Database.{
  Transaction, begin, entity, define_fact, candidate, first_refusal, Database, commit,
}
use forthdb.World.Database.Durable.{IsDurable, Keeps, commit-Keeps}
use forthdb.World.Database.Live.{Builds, begins, allocates, defines, genesis-IsLive}
use forthdb.World.Database.Live.Accepts.{Commits, commit-Commits}
use forthdb.World.Database.Stores.{file_store}
use forthdb.World.Database.Reopen.{Reopens, commit-Reopens}

abbrev likes : Fact
likes = record { subject = Atom.entity 1; predicate = b'p' ∷ []; object = Atom.literal (b'x' ∷ []) }

abbrev transaction : Transaction
transaction = define_fact (b's' ∷ []) likes (entity (begin genesis)).1

transaction-Builds : Builds genesis transaction
transaction-Builds = defines (b's' ∷ []) likes (allocates begins)

abbrev on_file : Database FileCommitStore
on_file = record {
  current = genesis;
  store = record { file = log_of []; frames = []; recovered_tail_bytes = 0 };
  validators = [];
}

on_file-IsLog : IsLog on_file.store
on_file-IsLog = record { linear = tt; logged = refl }

on_file-IsDurable : IsDurable on_file
unfolding reconstruct
on_file-IsDurable = record { rebuilt = refl }

-- A sync that fails, and a rollback that fails.
commit-Keeps_example : Keeps on_file (commit (file_store sync_failed false) transaction on_file)
unfolding begin entity define_fact
commit-Keeps_example =
    commit-Keeps sync_failed false transaction on_file on_file-IsDurable (λ _. refl)

abbrev allocation : Transaction
allocation = (entity (begin genesis)).1

abbrev made : CandidateWorld
made = candidate_of genesis allocation.operations ((Shared.entity Shared.new).1, 2)

made-IsStorable : IsStorable (commit_frame made)
unfolding begin entity commit_frame Shared.entity calculate_world_id hash_u64 hash_bytes
    hash_operation to_le_bytes encode_payload put_operation put_u64 valid_utf8
made-IsStorable = record {
  fields = record {
    parent_world = omega arith;
    resulting_world = omega arith;
    parent_version = omega arith;
    resulting_version = omega arith;
    resulting_allocator = omega arith;
    operations = (omega arith, tt);
  };
  few = omega arith;
  short = omega arith;
}

allocation-made : candidate allocation ≡ ok made
unfolding candidate construct apply_all begin entity Shared.entity
allocation-made =
    rw
      (validate-eq (Shared.entity Shared.new).1 no_facts
        (entity-IsSound Shared.new no_facts new-IsSound))
      refl

allocation-IsStorable :
    (c : CandidateWorld) → candidate allocation ≡ ok c → IsStorable (commit_frame c)
allocation-IsStorable c e =
    let same : made ≡ c = let e' : ok made ≡ ok c = sym allocation-made ∙ e in cc in
    subst (λ m. IsStorable (commit_frame m)) same made-IsStorable

made-accepted : (append done true (commit_frame made) on_file.store).0 ≡ none
unfolding append position_fault commit_frame
made-accepted = rw (encode_record_lem (commit_frame made) made-IsStorable) refl

allocation-accepted :
    (c : CandidateWorld)
    → candidate allocation ≡ ok c
    → (first_refusal [] c ≡ none) × ((append done true (commit_frame c) on_file.store).0 ≡ none)
unfolding first_refusal
allocation-accepted c e =
    let same : made ≡ c = let e' : ok made ≡ ok c = sym allocation-made ∙ e in cc in
    (
      refl,
      subst (λ m. (append done true (commit_frame m) on_file.store).0 ≡ none) same made-accepted,
    )

commit-Commits_example : Commits (file_store done true) allocation on_file
unfolding file_store
commit-Commits_example =
    commit-Commits (file_store done true) allocation on_file (allocates begins) genesis-IsLive
      allocation-accepted

-- A write that stops after 30 bytes, and a rollback that fails.
commit-Reopens_example :
    Reopens allocation on_file (commit (file_store (write_failed 30) false) allocation on_file)
unfolding reconstruct begin entity
commit-Reopens_example =
    commit-Reopens (write_failed 30) false allocation on_file on_file-IsLog refl (λ _. refl)
      allocation-IsStorable
