-- ===== src/Kernel/Shared.antt =====
-- forthdb-core/src/shared_types_v5.rs, shared_view_v2.rs and shared_db_v2.rs: the kernel that the
-- worlds run. Its chunked log, sharded maps and persistent sets are the list, maps and sets that
-- they hold. A database of shared_reaped.rs is its inner database: what it adds is a thread that
-- frees memory. `none` is a panic. A count is below 2^64, as it counts records in memory.
pub mod Signature
pub mod Moves
pub mod Sound
pub mod Runs
mod Tests
use mathlib.Core.Option
use Prim.Native.Nat.{bit_xor}
use forthdb.Prelude.{
  ℕ, ◌+◌, ◌-◌, ◌*◌, ◌/◌, ◌%◌, ◌^◌, Bool, ◌&&◌, not, Option, none, some, length, ◌==◌, ltb,
  if◌then◌else◌,
}
use forthdb.Prelude.Map
use forthdb.Prelude.Map.{get}
use forthdb.Prelude.IdSet
use forthdb.Prelude.IdSet.{IdSet}
use forthdb.Prelude.Equality.{Equality, same, nat_equality, pair_equality, list_equality}
use forthdb.Kernel.Value.{EntityId, RecordId, SlotId, Fact, atom_equality, fact_equality}
use forthdb.Kernel.Index.{Index, insert_index, remove_index}
use forthdb.Kernel.Store.{DefinitionStore, empty_store, fact_at}
use forthdb.Kernel.Store
use forthdb.Kernel.View.{CurrentView, empty_view, add_fact, remove_fact}
use forthdb.Kernel.Db.{bind_option}

pub record ActiveSignature : Type 0 where
  pub count : ℕ
  pub xor : ℕ
  pub sum : ℕ

abbrev pub no_signature : ActiveSignature
no_signature = record { count = 0; xor = 0; sum = 0 }

unfoldable pub record_token : RecordId → ℕ
record_token id =
    let a = (id + 0x9e37_79b9_7f4a_7c15) % 2 ^ 64 in
    let b = bit_xor a (a / 2 ^ 30) * 0xbf58_476d_1ce4_e5b9 % 2 ^ 64 in
    let c = bit_xor b (b / 2 ^ 27) * 0x94d0_49bb_1331_11eb % 2 ^ 64 in bit_xor c (c / 2 ^ 31)

unfoldable pub add_token : RecordId → ActiveSignature → ActiveSignature
add_token id s = record {
  count = s.count + 1;
  xor = bit_xor s.xor (record_token id);
  sum = (s.sum + record_token id) % 2 ^ 64;
}

unfoldable pub remove_token : RecordId → ActiveSignature → ActiveSignature
remove_token id s = record {
  count = if s.count == 0 then 2 ^ 64 - 1 else s.count - 1;
  xor = bit_xor s.xor (record_token id);
  sum = (s.sum + (2 ^ 64 - record_token id)) % 2 ^ 64;
}

-- The fields `log`, `head` and `slot_history` are those of a `DefinitionStore`.
pub record SharedDefinitionStore : Type 0 where
  pub definitions : DefinitionStore
  pub active_signature : ActiveSignature

abbrev pub removed_token : Option RecordId → ActiveSignature → ActiveSignature
removed_token none s = s
removed_token (some id) s = remove_token id s

abbrev pub added_token : Option RecordId → ActiveSignature → ActiveSignature
added_token none s = s
added_token (some id) s = add_token id s

-- What `replace_head` does to the signature.
unfoldable pub replaced : Option RecordId → Option RecordId → ActiveSignature → ActiveSignature
replaced previous next s = added_token next (removed_token previous s)

unfoldable pub append_define :
    SlotId → Fact → SharedDefinitionStore → RecordId × SharedDefinitionStore
append_define slot fact store =
    let ((id, previous), definitions) = Store.append_define slot fact store.definitions in
    (
      id,
      record {
        definitions = definitions;
        active_signature = replaced previous (some id) store.active_signature;
      },
    )

abbrev pub forgotten :
    SharedDefinitionStore
    → (RecordId × (Option RecordId × Option RecordId)) × DefinitionStore
    → (RecordId × Option RecordId) × SharedDefinitionStore
forgotten store ((id, (current, revealed)), definitions) = (
  (id, revealed),
  record {
    definitions = definitions;
    active_signature = replaced current revealed store.active_signature;
  },
)

unfoldable pub append_forget :
    SlotId → SharedDefinitionStore → Option ((RecordId × Option RecordId) × SharedDefinitionStore)
append_forget slot store = Option.map (forgotten store) (Store.append_forget slot store.definitions)

unfoldable pub store_valid : SharedDefinitionStore → Bool
store_valid store =
    length store.definitions.head == store.active_signature.count
    && not (ltb (length store.definitions.log) store.active_signature.count)

-- The fields of the seven indexes are those of a `CurrentView`; `insert_index` and `remove_index`
-- do to an index what the ones of the other kernel do.
pub record SharedCurrentView : Type 0 where
  pub indexes : CurrentView
  pub active_signature : ActiveSignature

module _ {K : Type 0} ⦃e : Equality K⦄ where
  abbrev pub replace_in : Option IdSet → K → RecordId → RecordId → Index K → Index K
  replace_in none key old new index = index
  replace_in (some ids) key old new index =
      Map.insert key (IdSet.insert new (IdSet.remove old ids)) index

  unfoldable pub replace_index : K → RecordId → RecordId → Index K → Index K
  replace_index key old new index = replace_in (get key index) key old new index

  -- One of the seven tests of `replace`.
  unfoldable pub move_index : K → K → RecordId → RecordId → Index K → Index K
  unfolding replace_index
  move_index from to old new index =
      if same from to
      then replace_index from old new index
      else insert_index to new (remove_index from old index)

unfoldable pub add : RecordId → DefinitionStore → SharedCurrentView → Option SharedCurrentView
add id store view =
    Option.map
      (λ fact. record {
        indexes = add_fact id view.indexes fact;
        active_signature = add_token id view.active_signature;
      })
      (fact_at id store)

unfoldable pub remove : RecordId → DefinitionStore → SharedCurrentView → Option SharedCurrentView
remove id store view =
    Option.map
      (λ fact. record {
        indexes = remove_fact id view.indexes fact;
        active_signature = remove_token id view.active_signature;
      })
      (fact_at id store)

unfoldable pub move_fact : RecordId → RecordId → Fact → Fact → CurrentView → CurrentView
unfolding move_index
move_fact old new f g view = record {
  by_subject = move_index f.subject g.subject old new view.by_subject;
  by_predicate = move_index f.predicate g.predicate old new view.by_predicate;
  by_object = move_index f.object g.object old new view.by_object;
  by_subject_predicate =
      move_index (f.subject, f.predicate) (g.subject, g.predicate) old new
        view.by_subject_predicate;
  by_subject_object =
      move_index (f.subject, f.object) (g.subject, g.object) old new view.by_subject_object;
  by_predicate_object =
      move_index (f.predicate, f.object) (g.predicate, g.object) old new view.by_predicate_object;
  by_exact = move_index f g old new view.by_exact;
}

unfoldable pub replace :
    RecordId → RecordId → DefinitionStore → SharedCurrentView → Option SharedCurrentView
replace old new store view = bind_option (fact_at old store) (λ old_fact.
    Option.map
      (λ new_fact. record {
        indexes = move_fact old new old_fact new_fact view.indexes;
        active_signature = add_token new (remove_token old view.active_signature);
      })
      (fact_at new store))

pub record ForthDb : Type 0 where
  pub store : SharedDefinitionStore
  pub view : SharedCurrentView
  pub next_entity : ℕ

abbrev pub new : ForthDb
new = record {
  store = record { definitions = empty_store; active_signature = no_signature };
  view = record { indexes = empty_view; active_signature = no_signature };
  next_entity = 1;
}

unfoldable pub entity : ForthDb → EntityId × ForthDb
entity db = (db.next_entity, record db { next_entity = (db.next_entity + 1) % 2 ^ 64 })

-- How `define` and `forget` change the view when the head of a slot changes.
unfoldable pub move_head :
    Option RecordId
    → Option RecordId
    → DefinitionStore
    → SharedCurrentView
    → Option SharedCurrentView
move_head none none store view = some view
move_head none (some next) store view = add next store view
move_head (some old) none store view = remove old store view
move_head (some old) (some next) store view = replace old next store view

abbrev pub with_parts :
    RecordId → SharedDefinitionStore → ℕ → SharedCurrentView → RecordId × ForthDb
with_parts id store next view = (id, record { store = store; view = view; next_entity = next })

unfoldable pub define : SlotId → Fact → ForthDb → Option (RecordId × ForthDb)
define slot fact db =
    let (id, store) = append_define slot fact db.store in
    Option.map (with_parts id store db.next_entity)
      (move_head (get slot db.store.definitions.head) (some id) store.definitions db.view)

unfoldable pub forget : SlotId → ForthDb → Option (RecordId × ForthDb)
forget slot db = bind_option (append_forget slot db.store) (λ appended.
    let ((id, revealed), store) = appended in
    Option.map (with_parts id store db.next_entity)
      (move_head (get slot db.store.definitions.head) revealed store.definitions db.view))

unfoldable pub active_slot_count : ForthDb → ℕ
active_slot_count db = length db.store.definitions.head

unfoldable pub record_count : ForthDb → ℕ
record_count db = length db.store.definitions.log

abbrev pub same_signature : ActiveSignature → ActiveSignature → Bool
same_signature s t = s.count == t.count && (s.xor == t.xor && s.sum == t.sum)

-- `validate`, which is `validate_fast` of the store and of the view; `Ok(())` is true.
unfoldable pub validate : ForthDb → Bool
validate db =
    store_valid db.store && same_signature db.view.active_signature db.store.active_signature
