-- ===== src/Kernel/Db/Sound.antt =====
-- The invariant of `ForthDb`, with the stacks of facts that it stands for.

use forthdb.Prelude.Map.{IsMap}
use forthdb.Prelude.Equality.{nat_equality, list_equality}
use forthdb.Kernel.Store.Stacks.{Stacks, no_facts, Represents, empty_store-Represents}
use forthdb.Kernel.Store.History.{IsHistory, empty_store-IsHistory}
use forthdb.Kernel.Store.Active.{active}
use forthdb.Kernel.View.Sound.{IsView, empty_view-IsView}
use forthdb.Kernel.Db.{ForthDb, new, entity}

pub record IsSound (db : ForthDb) (stacks : Stacks) : Type 0 where
  pub represents : Represents db.store stacks
  pub history : IsHistory db.store
  pub view : IsView (active db.store) db.view
  pub heads : IsMap db.store.head

pub new-IsSound : IsSound new no_facts
new-IsSound = record {
  represents = empty_store-Represents;
  history = empty_store-IsHistory;
  view = empty_view-IsView;
  heads = tt;
}

pub entity-IsSound :
    (db : ForthDb) (stacks : Stacks) → IsSound db stacks → IsSound (entity db).1 stacks
unfolding entity
entity-IsSound db stacks h = record {
  represents = h.represents;
  history = h.history;
  view = h.view;
  heads = h.heads;
}
