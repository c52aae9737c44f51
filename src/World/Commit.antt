-- ===== src/World/Commit.antt =====
-- lib.rs: `WorldId`, `Operation` and `CommitFrame`. An `Arc` is the value that it shares.
use forthdb.Prelude.{ℕ, List}
use forthdb.Kernel.Value.{EntityId, SlotId, Fact}

abbrev pub WorldId : Type 0
WorldId = ℕ

-- `WorldId::GENESIS`
abbrev pub genesis_id : WorldId
genesis_id = 0xcbf2_9ce4_8422_2325

pub data Operation : Type 0 where
  allocate_entity : EntityId → Operation
  define : SlotId → Fact → Operation
  forget : SlotId → Operation

pub record CommitFrame : Type 0 where
  pub parent_world : WorldId
  pub resulting_world : WorldId
  pub parent_version : ℕ
  pub resulting_version : ℕ
  pub resulting_allocator : ℕ
  pub operations : List Operation
