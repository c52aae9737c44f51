-- ===== src/Kernel/Store/Active.antt =====
-- The active definitions: the records that a slot's head points to.
use forthdb.Prelude.{
  ◌≡◌, refl, sym, ap, ◌∙◌, inl, inr, Option, none, some, List, [], ◌∷◌, ◌++◌, length, get_elem?,
  get_elem?-append_length, get_elem?-append-other, get_elem?-length, arith, if◌then◌else◌,
  Bool-cases, Option-cases, Bool, true, false, ◌==◌,
}
use forthdb.Prelude.Map.{Map, get}
use forthdb.Prelude.Equality.{same, same_refl, same-eq, nat_equality, list_equality}
use forthdb.Kernel.Value.{RecordId, SlotId, Fact}
use forthdb.Kernel.Store.Stacks.{set_head-get}
use forthdb.Kernel.Store.{Record, DefinitionStore, set_head, fact_in}

abbrev pub points : Option RecordId → RecordId → Bool
points none i = false
points (some j) i = i == j

abbrev pub active_in : Option Record → RecordId → Map SlotId RecordId → Option Fact
active_in none i head = none
active_in (some r) i head = if points (get r.slot head) i then r.fact else none

abbrev pub active_at : List Record → Map SlotId RecordId → RecordId → Option Fact
active_at log head i = active_in (get_elem? log i) i head

-- The fact of a record that some slot's head points to.
abbrev pub active : DefinitionStore → RecordId → Option Fact
active store = active_at store.log store.head

-- The record that a reference points to, if any, is one of the slot.
abbrev pub IsOf : List Record → SlotId → Option RecordId → Type 0
IsOf log slot ref =
    (i : RecordId)
    → points ref i ≡ true
    → (r : Record) × (get_elem? log i ≡ some r) × (r.slot ≡ slot)

not-active :
    (log : List Record) (head : Map SlotId RecordId) (slot : SlotId) (new : Option RecordId)
    (i : RecordId)
    → IsOf log slot (get slot head)
    → points new i ≡ false
    → active_in (get_elem? log i) i (set_head slot new head)
      ≡ (if points (get slot head) i then none else active_at log head i)
not-active log head slot new i old_of p = elim (Option-cases (get_elem? log i)) [
  | inl e ↦ rw e (ground arith)
  | inr (r', e) ↦ elim (Bool-cases (same r'.slot slot)) [
    | inl q ↦
        let of = ap (λ s. points (get s head) i) (same-eq r'.slot slot q) in
        rw (e, set_head-get r'.slot slot new head, q, p, of) (ground arith)
    | inr q ↦ elim (Bool-cases (points (get slot head) i)) [
      | inl o ↦
          let (r'', found, of) = old_of i o in
          let eq : r'' ≡ r' = cc in
          absurd (
            ground (arith, ap (λ r. same r.slot slot) eq, ap (λ s. same s slot) of, same_refl slot))
      | inr o ↦ rw (e, set_head-get r'.slot slot new head, q, o) refl
    ]
  ]
]

-- A step that appends a record of a slot and moves the slot's head to `new` deactivates the old
-- head and activates the new one.
pub active-move :
    (log : List Record) (head : Map SlotId RecordId) (slot : SlotId) (r : Record)
    (new : Option RecordId)
    → r.slot ≡ slot
    → IsOf log slot (get slot head)
    → IsOf (log ++ r ∷ []) slot new
    → (i : RecordId)
    → active_at (log ++ r ∷ []) (set_head slot new head) i ≡ (
        if points new i
        then fact_in (get_elem? (log ++ r ∷ []) i)
        else if points (get slot head) i
        then none
        else active_at log head i)
active-move log head slot r new here old_of new_of i = elim (Bool-cases (points new i)) [
  | inl p ↦
      let (r', found, of) = new_of i p in
      rw (p, found, set_head-get r'.slot slot new head, of, same_refl slot, p) refl
  | inr p ↦ elim (Bool-cases (i == length log)) [
    | inl q ↦
        let eq : i ≡ length log = ground arith in
        let p' : points new (length log) ≡ false = ap (points new) (sym eq) ∙ p in
        rw
          (
            eq,
            get_elem?-append_length log r [],
            set_head-get r.slot slot new head,
            here,
            same_refl slot,
            p',
            get_elem?-length log,
          )
          (ground arith)
    | inr q ↦
        rw (get_elem?-append-other log r i (λ e. ground (arith, e)), p)
          (not-active log head slot new i old_of p)
  ]
]
