-- ===== src/Kernel/Db.antt =====
-- forthdb-core/src/lib.rs: `ForthDb`, a definition store with its current view. The outer option of
-- an operation is a panic.
pub mod Sound
pub mod Heads
pub mod Steps
pub mod Runs
use mathlib.Core.Option
use forthdb.Prelude.{
  ℕ, ◌+◌, ◌%◌, ◌^◌, Bool, true, false, ◌&&◌, Option, none, some, List, [], ◌∷◌, ◌++◌, ◌==◌,
  if◌then◌else◌,
}
use forthdb.Prelude.Map.{Map, get, values}
use forthdb.Prelude.Equality.{nat_equality, list_equality}
use forthdb.Kernel.Value.{
  EntityId, RecordId, SlotId, Text, Symbol, Predicate, Atom, Term, PredicateTerm, SourceTerm, Fact,
  Pattern,
}
use forthdb.Kernel.Store.{
  RecordKind, Record, DefinitionStore, empty_store, find_record, append_define, forget_to,
  append_forget, resolve_record,
}
use forthdb.Kernel.Store
use forthdb.Kernel.View.{CurrentView, empty_view}
use forthdb.Kernel.View

pub record ForthDb : Type 0 where
  pub store : DefinitionStore
  pub view : CurrentView
  pub next_entity : ℕ

abbrev pub new : ForthDb
new = record { store = empty_store; view = empty_view; next_entity = 1 }

unfoldable pub entity : ForthDb → EntityId × ForthDb
entity db = (db.next_entity, record db { next_entity = (db.next_entity + 1) % 2 ^ 64 })

abbrev pub bind_option : {A B : Type 0} → Option A → (A → Option B) → Option B
bind_option none f = none
bind_option (some a) f = f a

-- `if let Some(head) = head { self.view.remove(head, &self.store) }`
unfoldable pub remove_head : Option RecordId → DefinitionStore → CurrentView → Option CurrentView
remove_head none store view = some view
remove_head (some id) store view = View.remove id store view

-- `if let Some(revealed) = revealed { self.view.add(revealed, &self.store) }`
unfoldable pub add_head : Option RecordId → DefinitionStore → CurrentView → Option CurrentView
add_head none store view = some view
add_head (some id) store view = View.add id store view

abbrev pub with_parts : RecordId → DefinitionStore → ℕ → CurrentView → RecordId × ForthDb
with_parts id store next view = (id, record { store = store; view = view; next_entity = next })

unfoldable pub define : SlotId → Fact → ForthDb → Option (RecordId × ForthDb)
define slot fact db = bind_option (remove_head (get slot db.store.head) db.store db.view) (λ view.
    let ((id, _), store) = append_define slot fact db.store in
    Option.map (with_parts id store db.next_entity) (View.add id store view))

unfoldable pub forget : SlotId → ForthDb → Option (RecordId × ForthDb)
forget slot db = bind_option (remove_head (get slot db.store.head) db.store db.view) (λ view.
    bind_option (append_forget slot db.store) (λ appended.
      let ((id, (_, revealed)), store) = appended in
      Option.map (with_parts id store db.next_entity) (add_head revealed store view)))

-- `record.fact.as_ref()` of a head, inside the panic.
abbrev pub fact_of_head : Option (Option Record) → Option (Option Fact)
fact_of_head none = none
fact_of_head (some none) = some none
fact_of_head (some (some r)) = some r.fact

unfoldable pub resolve : SlotId → ForthDb → Option (Option Fact)
resolve slot db = fact_of_head (resolve_record slot db.store)

unfoldable pub definitions : SlotId → ForthDb → Option (List Fact)
definitions slot db = Option.map Store.Stacks.facts_of (Store.definitions slot db.store)

unfoldable pub history : SlotId → ForthDb → Option (List Record)
history slot db = Store.history slot db.store

unfoldable pub active_slot_count : ForthDb → ℕ
active_slot_count db = Store.active_slot_count db.store

unfoldable pub record_count : ForthDb → ℕ
record_count db = Store.record_count db.store

-- `validate`: the heads are definitions, and the indexes match them. `Ok(())` is true.
abbrev is_define : RecordKind → Bool
is_define RecordKind.define = true
is_define RecordKind.forget = false

abbrev is_some : Option Fact → Bool
is_some none = false
is_some (some f) = true

abbrev is_definition : Option Record → Option Bool
is_definition none = none
is_definition (some r) = some (is_define r.kind && is_some r.fact)

heads_defined : List RecordId → DefinitionStore → Option Bool
heads_defined [] store = some true
heads_defined (id ∷ ids) store =
    let rest = heads_defined ids store in
    bind_option (is_definition (find_record id store)) (λ good. if good then rest else some false)

unfoldable pub validate : ForthDb → Option Bool
unfolding heads_defined
validate db =
    bind_option (heads_defined (values db.store.head) db.store)
      (λ good. some (good && View.validate db.store db.view))
