-- ===== src/World/Database.antt =====
-- lib.rs: transactions, commit stores, and a database whose commits are one after another: `commit`
-- holds a lock from its first read to its last write.
pub mod Durable
pub mod Live
pub mod Stores
pub mod Reopen
mod Tests
use forthdb.Prelude.{
  ℕ, ◌+◌, ◌%◌, ◌^◌, ◌≡◌, Bool, not, Option, none, some, List, [], ◌∷◌, ◌++◌, ◌==◌, if◌then◌else◌,
}
use forthdb.Kernel.Value.{EntityId, SlotId, Symbol, Atom, Fact}
use forthdb.Kernel.Symbols.{display_slot, symbol_slot, display_name_predicate, resolves_to}
use forthdb.SemanticIsa.Utf8.{Text}
use forthdb.World.Commit.{WorldId, Operation, allocate_entity, define, forget, CommitFrame}
use forthdb.World.Replay.{
  CandidateError, Checked, ok, err, panic, World, CandidateWorld, construct, commit_frame,
  into_world, and_then, reconstruct,
}

-- The trait `CommitStore`, of which nothing else is known.
pub record CommitStore (S E : Type 0) : Type 0 where
  pub append : CommitFrame → S → Option E × S
  pub frames : S → List CommitFrame

pub record Transaction : Type 0 where
  pub base : World
  pub next_entity : ℕ
  pub operations : List Operation

-- `Transaction::new`, of the snapshot that `begin` takes.
unfoldable pub begin : World → Transaction
begin base = record { base = base; next_entity = base.next_entity; operations = [] }

unfoldable pub entity : Transaction → EntityId × Transaction
entity t = (
  t.next_entity,
  record t {
    next_entity = (t.next_entity + 1) % 2 ^ 64;
    operations = t.operations ++ allocate_entity t.next_entity ∷ [];
  },
)

unfoldable pub define_fact : SlotId → Fact → Transaction → Transaction
define_fact slot fact t = record t { operations = t.operations ++ define slot fact ∷ [] }

unfoldable pub forget_slot : SlotId → Transaction → Transaction
forget_slot slot t = record t { operations = t.operations ++ forget slot ∷ [] }

unfoldable pub define_display_name : EntityId → Text → Transaction → Transaction
unfolding define_fact
define_display_name entity name = define_fact (display_slot entity) (record {
  subject = Atom.entity entity;
  predicate = display_name_predicate;
  object = Atom.literal name;
})

unfoldable pub bind_symbol : Text → Symbol → EntityId → Transaction → Transaction
unfolding define_fact
bind_symbol namespace symbol entity = define_fact (symbol_slot namespace symbol) (record {
  subject = Atom.literal (namespace ++ b':' ∷ symbol);
  predicate = resolves_to;
  object = Atom.entity entity;
})

unfoldable pub candidate : Transaction → Checked CandidateWorld
candidate t = construct t.base t.operations

-- A validator returns a message for what it refuses.
abbrev pub Validator : Type 0
Validator = CandidateWorld → Option Text

unfoldable pub first_refusal : List Validator → CandidateWorld → Option Text
first_refusal [] c = none
first_refusal (v ∷ vs) c = or_later (v c) (first_refusal vs c)
  where
    or_later : Option Text → Option Text → Option Text
    or_later (some message) later = some message
    or_later none later = later

pub record Database (S : Type 0) : Type 0 where
  pub current : World
  pub store : S
  pub validators : List Validator

-- `Database::new`
unfoldable pub database : {S E : Type 0} → CommitStore S E → S → Checked (Database S)
database store s =
    and_then (reconstruct (store.frames s))
      (λ world. ok (record { current = world; store = s; validators = [] }))

unfoldable pub register_validator : {S : Type 0} → Validator → Database S → Database S
register_validator validator db = record db { validators = db.validators ++ validator ∷ [] }

pub data CommitError (E : Type 0) : Type 0 where
  stale_transaction : WorldId → WorldId → CommitError E
  candidate_error : CandidateError → CommitError E
  validation : Text → CommitError E
  store_error : E → CommitError E

pub data Committed (E : Type 0) : Type 0 where
  committed : World → Committed E
  refused : CommitError E → Committed E
  panicked : Committed E

module _ {S E : Type 0} (store : CommitStore S E) where
  abbrev pub stored : CandidateWorld → Option E × S → Database S → Committed E × Database S
  stored c (some e, s) db = (Committed.refused (store_error e), record db { store = s })
  stored c (none, s) db =
      let world = into_world c (commit_frame c) db.current.frames in
      (committed world, record db { current = world; store = s })

  abbrev pub admitted : CandidateWorld → Option Text → Database S → Committed E × Database S
  admitted c (some message) db = (Committed.refused (validation message), db)
  admitted c none db = stored c (store.append (commit_frame c) db.store) db

  abbrev pub constructed : Checked CandidateWorld → Database S → Committed E × Database S
  constructed (ok c) db = admitted c (first_refusal db.validators c) db
  constructed (err e) db = (Committed.refused (candidate_error e), db)
  constructed panic db = (panicked, db)

  unfoldable pub commit : Transaction → Database S → Committed E × Database S
  commit t db =
      if not (t.base.id == db.current.id)
      then (Committed.refused (stale_transaction t.base.id db.current.id), db)
      else constructed (candidate t) db
