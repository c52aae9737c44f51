-- ===== src/Kernel/Db/Heads.antt =====
-- The slot heads of a sound database, and the view when a head is taken away or put in.
use forthdb.Prelude.{
  ℕ, ◌≡◌, refl, ap, inl, inr, Option, none, some, List, [], ◌∷◌, get_elem?, true, false, ◌==◌,
  arith, if◌then◌else◌, Bool-cases, ==_refl,
}
use forthdb.Prelude.Map.{get}
use forthdb.Prelude.Equality.{nat_equality, list_equality}
use forthdb.Kernel.Value.{RecordId, SlotId, Fact}
use forthdb.Kernel.Store.{Record, DefinitionStore, fact_at, revealed_by}
use forthdb.Kernel.Store.Stacks.{Chain}
use forthdb.Kernel.Store.Active.{points, active}
use forthdb.Kernel.Index.{updated}
use forthdb.Kernel.View.{CurrentView}
use forthdb.Kernel.View.Sound.{IsView, IsView-ext, add-IsView, remove-IsView}
use forthdb.Kernel.Db.{new, remove_head, add_head}

-- A head is an active definition of its slot.
pub record IsHead (store : DefinitionStore) (s : SlotId) (i : RecordId) : Type 0 where
  pub r : Record
  pub f : Fact
  pub found : get_elem? store.log i ≡ some r
  pub slot : r.slot ≡ s
  pub fact : r.fact ≡ some f

pub Chain-IsHead :
    (store : DefinitionStore) (slot : SlotId) (bound : ℕ) (head : Option RecordId) (fs : List Fact)
    → Chain store.log slot bound head fs
    → (i : RecordId) → points head i ≡ true
    → IsHead store slot i
Chain-IsHead store slot bound head [] c i p = absurd (ground (arith, c))
Chain-IsHead store slot bound head (f ∷ fs) (id, r, here, below, d, c) i p =
    let eq : i ≡ id = ground (arith, here) in
    record { r = r; f = f; found = rw eq d.found; slot = d.slot; fact = d.fact }

pub older :
    (store : DefinitionStore) (slot : SlotId) (bound : ℕ) (head : Option RecordId) (fs : List Fact)
    → Chain store.log slot bound head fs
    → (i : RecordId) → points head i ≡ true
    → (i == bound) ≡ false
older store slot bound head [] c i p = absurd (ground (arith, c))
older store slot bound head (f ∷ fs) (id, r, here, below, d, c) i p = ground (arith, here)

pub updated-fact :
    (store : DefinitionStore) (id : RecordId) (f : Fact) (act : RecordId → Option Fact)
    (i : RecordId)
    → fact_at id store ≡ some f
    → updated id (some f) act i ≡ (if points (some id) i then fact_at i store else act i)
updated-fact store id f act i found = elim (Bool-cases (i == id)) [
  | inl p ↦ let eq : i ≡ id = ground arith in rw (p, eq, found) refl
  | inr p ↦ rw p refl
]

pub revealed-IsHead :
    (store : DefinitionStore) (slot : SlotId) (bound : ℕ) (head revealed : Option RecordId)
    (fs : List Fact)
    → Chain store.log slot bound head fs
    → revealed_by head store ≡ some revealed
    → (i : RecordId) → points revealed i ≡ true
    → IsHead store slot i × (points head i ≡ false)
unfolding revealed_by
revealed-IsHead store slot bound head revealed [] c e i p =
    let first : revealed_by head store ≡ some none = rw c refl in
    let eq : revealed ≡ none = cc in absurd (ground (arith, eq))
revealed-IsHead store slot bound head revealed (f ∷ fs) (id, r, here, below, d, c) e i p =
    let first : revealed_by head store ≡ some r.previous_head = rw (here, d.found) refl in
    let eq : r.previous_head ≡ revealed = cc in
    let found : points r.previous_head i ≡ true = rw eq p in
    (
      Chain-IsHead store slot id r.previous_head fs c i found,
      rw here (older store slot id r.previous_head fs c i found),
    )

-- The definitions without the one that a head points to, and with the one that a new head points to.
abbrev pub without : Option RecordId → (RecordId → Option Fact) → RecordId → Option Fact
without ref act i = if points ref i then none else act i

abbrev pub with_head :
    Option RecordId → DefinitionStore → (RecordId → Option Fact) → RecordId → Option Fact
with_head ref store act i = if points ref i then fact_at i store else act i

pub remove_head-IsView :
    (ref : Option RecordId) (store : DefinitionStore) (view : CurrentView)
    (act : RecordId → Option Fact)
    → ((i : RecordId)
        → points ref i ≡ true
        → (f : Fact) × (fact_at i store ≡ some f) × (act i ≡ some f))
    → IsView act view
    → (view' : CurrentView) × (remove_head ref store view ≡ some view')
      × IsView (without ref act) view'
unfolding remove_head
remove_head-IsView none store view act h v = (view, refl, v)
remove_head-IsView (some id) store view act h v =
    let (f, found, old) = h id (==_refl id) in remove-IsView view store id f found old v

pub add_head-IsView :
    (ref : Option RecordId) (store : DefinitionStore) (view : CurrentView)
    (act : RecordId → Option Fact)
    → ((i : RecordId)
        → points ref i ≡ true
        → (f : Fact) × (fact_at i store ≡ some f) × (act i ≡ none))
    → IsView act view
    → (view' : CurrentView) × (add_head ref store view ≡ some view')
      × IsView (with_head ref store act) view'
unfolding add_head
add_head-IsView none store view act h v = (view, refl, v)
add_head-IsView (some id) store view act h v =
    let (f, found, new) = h id (==_refl id) in
    let (view', done, v') = add-IsView view store id f found new v in
    (view', done, IsView-ext (λ i. updated-fact store id f act i found) v')

pub active-IsHead :
    (store : DefinitionStore) (slot : SlotId) (i : RecordId)
    → (h : IsHead store slot i)
    → active store i ≡ (if points (get slot store.head) i then some h.f else none)
active-IsHead store slot i h =
    rw h.found (ground (arith, ap (λ s. points (get s store.head) i) h.slot, h.fact))

pub IsHead-fact_at :
    (store : DefinitionStore) (slot : SlotId) (i : RecordId) (h : IsHead store slot i)
    → fact_at i store ≡ some h.f
IsHead-fact_at store slot i h = rw h.found h.fact
