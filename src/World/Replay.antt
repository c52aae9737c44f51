-- ===== src/World/Replay.antt =====
-- lib.rs: world identities, worlds, the construction of a candidate and the replay of commit frames.
-- A world holds its kernel and its frames; the projections that the source builds on demand from
-- them are left out. `panic` is a panic of the kernel.
pub mod Candidate
use Prim.Native.Nat.{bit_xor}
use forthdb.Prelude.{
  ℕ, ◌+◌, ◌*◌, ◌%◌, ◌^◌, Bool, true, false, not, Option, none, some, List, [], ◌∷◌, ◌++◌, foldl,
  length, ◌==◌, if◌then◌else◌,
}
use forthdb.Kernel.Value.{EntityId, Atom, Fact}
use forthdb.Kernel.Shared.{ForthDb}
use forthdb.Kernel.Shared
use forthdb.SemanticIsa.Utf8.{Text}
use forthdb.SemanticIsa.Cursor.{Bytes, to_le_bytes}
use forthdb.World.Commit.{
  WorldId, genesis_id, Operation, allocate_entity, define, forget, CommitFrame,
}

-- `StableHasher`, whose state is a number.
unfoldable pub hash_bytes : ℕ → Bytes → ℕ
hash_bytes = foldl (λ hash byte. bit_xor hash byte * 0x100_0000_01b3 % 2 ^ 64)

unfoldable pub hash_u64 : ℕ → ℕ → ℕ
unfolding hash_bytes
hash_u64 hash value = hash_bytes hash (to_le_bytes 8 value)

unfoldable pub hash_string : ℕ → Text → ℕ
unfolding hash_bytes hash_u64
hash_string hash value = hash_bytes (hash_u64 hash (length value)) value

unfoldable pub hash_atom : ℕ → Atom → ℕ
unfolding hash_bytes hash_u64 hash_string
hash_atom hash (Atom.entity e) = hash_u64 (hash_bytes hash (0 ∷ [])) e
hash_atom hash (Atom.literal l) = hash_string (hash_bytes hash (1 ∷ [])) l

unfoldable pub hash_fact : ℕ → Fact → ℕ
unfolding hash_atom hash_string
hash_fact hash fact =
    hash_atom (hash_string (hash_atom hash fact.subject) fact.predicate) fact.object

unfoldable pub hash_operation : ℕ → Operation → ℕ
unfolding hash_fact hash_string hash_bytes hash_u64
hash_operation hash (allocate_entity e) = hash_u64 (hash_bytes hash (0 ∷ [])) e
hash_operation hash (define slot fact) =
    hash_fact (hash_string (hash_bytes hash (1 ∷ [])) slot) fact
hash_operation hash (forget slot) = hash_string (hash_bytes hash (2 ∷ [])) slot

unfoldable pub calculate_world_id : WorldId → ℕ → ℕ → List Operation → WorldId
unfolding hash_u64 hash_operation
calculate_world_id parent version allocator operations =
    let header = hash_u64 (hash_u64 (hash_u64 genesis_id parent) version) allocator in
    foldl hash_operation (hash_u64 header (length operations)) operations

-- Expected and actual; the kernel's message is left out.
pub data CandidateError : Type 0 where
  history_parent_mismatch history_version_mismatch : ℕ → ℕ → CandidateError
  allocator_operation_mismatch allocator_state_mismatch : ℕ → ℕ → CandidateError
  world_identity_mismatch : ℕ → ℕ → CandidateError
  kernel_invariant : CandidateError

pub data Checked (A : Type 0) : Type 0 where
  ok : A → Checked A
  err : CandidateError → Checked A
  panic : Checked A

abbrev pub and_then : {A B : Type 0} → Checked A → (A → Checked B) → Checked B
and_then (ok a) f = f a
and_then (err e) f = err e
and_then panic f = panic

-- The kernel after an operation of it.
abbrev pub changed : {A : Type 0} → Option (A × ForthDb) → ℕ → Checked (ForthDb × ℕ)
changed none next_entity = panic
changed (some (_, kernel)) next_entity = ok (kernel, next_entity)

unfoldable pub apply_operation : Operation → ForthDb × ℕ → Checked (ForthDb × ℕ)
apply_operation (allocate_entity e) (kernel, next_entity) =
    let (actual, after) = Shared.entity kernel in
    if not (e == next_entity)
    then err (allocator_operation_mismatch next_entity e)
    else if not (actual == e)
    then err (allocator_operation_mismatch e actual)
    else ok (after, (next_entity + 1) % 2 ^ 64)
apply_operation (define slot fact) (kernel, next_entity) =
    changed (Shared.define slot fact kernel) next_entity
apply_operation (forget slot) (kernel, next_entity) =
    changed (Shared.forget slot kernel) next_entity

unfoldable pub apply_all : List Operation → ForthDb × ℕ → Checked (ForthDb × ℕ)
unfolding apply_operation
apply_all [] state = ok state
apply_all (o ∷ operations) state = and_then (apply_operation o state) (apply_all operations)

-- `kernel.validate().map_err(CandidateError::KernelInvariant)?`
abbrev pub validated : Bool → Checked (Unit {0})
validated false = err kernel_invariant
validated true = ok tt

pub record World : Type 0 where
  pub id : WorldId
  pub version : ℕ
  pub next_entity : ℕ
  pub operation_count : ℕ
  pub active_slot_count : ℕ
  pub record_count : ℕ
  pub kernel : ForthDb
  pub frames : List CommitFrame

abbrev pub genesis : World
genesis = record {
  id = genesis_id;
  version = 0;
  next_entity = 1;
  operation_count = 0;
  active_slot_count = 0;
  record_count = 0;
  kernel = Shared.new;
  frames = [];
}

pub record CandidateWorld : Type 0 where
  pub base_world : WorldId
  pub base_version : ℕ
  pub id : WorldId
  pub version : ℕ
  pub next_entity : ℕ
  pub base_operation_count : ℕ
  pub operations : List Operation
  pub kernel : ForthDb

abbrev pub candidate_of : World → List Operation → ForthDb × ℕ → CandidateWorld
candidate_of base operations (kernel, next_entity) =
    let version = (base.version + 1) % 2 ^ 64 in
    record {
      base_world = base.id;
      base_version = base.version;
      id = calculate_world_id base.id version next_entity operations;
      version = version;
      next_entity = next_entity;
      base_operation_count = base.operation_count;
      operations = operations;
      kernel = kernel;
    }

-- `CandidateWorld::construct`
unfoldable pub construct : World → List Operation → Checked CandidateWorld
construct base operations =
    and_then (apply_all operations (base.kernel, base.next_entity)) (λ state.
      and_then (validated (Shared.validate state.0)) (λ _. ok (candidate_of base operations state)))

unfoldable pub commit_frame : CandidateWorld → CommitFrame
commit_frame c = record {
  parent_world = c.base_world;
  resulting_world = c.id;
  parent_version = c.base_version;
  resulting_version = c.version;
  resulting_allocator = c.next_entity;
  operations = c.operations;
}

unfoldable pub into_world : CandidateWorld → CommitFrame → List CommitFrame → World
into_world c frame parent_history = record {
  id = c.id;
  version = c.version;
  next_entity = c.next_entity;
  operation_count = c.base_operation_count + length c.operations;
  active_slot_count = Shared.active_slot_count c.kernel;
  record_count = Shared.record_count c.kernel;
  kernel = c.kernel;
  frames = parent_history ++ frame ∷ [];
}

abbrev pub replayed : CommitFrame → World → ForthDb × ℕ → Checked World
replayed f w (kernel, next_entity) =
    let expected =
      calculate_world_id f.parent_world f.resulting_version f.resulting_allocator f.operations in
    let next = ok (record {
      id = f.resulting_world;
      version = f.resulting_version;
      next_entity = f.resulting_allocator;
      operation_count = w.operation_count + length f.operations;
      active_slot_count = Shared.active_slot_count kernel;
      record_count = Shared.record_count kernel;
      kernel = kernel;
      frames = w.frames ++ f ∷ [];
    }) in
    if not (next_entity == f.resulting_allocator)
    then err (allocator_state_mismatch f.resulting_allocator next_entity)
    else and_then (validated (Shared.validate kernel)) (λ _.
      if not (expected == f.resulting_world)
      then err (world_identity_mismatch expected f.resulting_world)
      else next)

-- One round of `World::reconstruct`, whose `kernel` is that of the world.
unfoldable pub replay : World → CommitFrame → Checked World
replay w f =
    let rest = and_then (apply_all f.operations (w.kernel, w.next_entity)) (replayed f w) in
    if not (f.parent_world == w.id)
    then err (history_parent_mismatch w.id f.parent_world)
    else if not (f.parent_version == w.version)
    then err (history_version_mismatch w.version f.parent_version)
    else rest

unfoldable pub replay_all : World → List CommitFrame → Checked World
unfolding replay
replay_all w [] = ok w
replay_all w (f ∷ fs) = and_then (replay w f) (λ w. replay_all w fs)

unfoldable pub reconstruct : List CommitFrame → Checked World
unfolding replay_all
reconstruct fs = replay_all genesis fs
