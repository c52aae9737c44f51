-- ===== src/Kernel/Store/Stacks.antt =====
-- What a definition store promises: a stack of facts for each slot. A define pushes and a forget
-- pops.
use forthdb.Prelude.{
  ℕ, zero, suc, ◌≤◌, ◌<◌, ◌≡◌, refl, ◌∙◌, inl, inr, Option, none, some, List, [], ◌∷◌, ◌++◌, length,
  get_elem?, get_elem?-bound, get_elem?-append_left, get_elem?-append_length, length-append, arith,
  if◌then◌else◌, Bool-cases,
}
use forthdb.Prelude.Map.{Map, get, get-insert, get-remove}
use forthdb.Prelude.Equality.{same, same_refl, same-eq, nat_equality, list_equality}
use forthdb.Kernel.Value.{RecordId, SlotId, Fact}
use forthdb.Kernel.Store.{
  RecordKind, Record, DefinitionStore, empty_store, define_record, append_define, forget_record,
  revealed_by, set_head, forget_to, append_forget, definitions_from, definitions,
}

abbrev pub Stacks : Type 0
Stacks = SlotId → List Fact

abbrev pub no_facts : Stacks
no_facts slot = []

abbrev pub tail : List Fact → List Fact
tail [] = []
tail (f ∷ fs) = fs

abbrev pub pushed : SlotId → Fact → Stacks → Stacks
pushed slot f stacks s = if same s slot then f ∷ stacks s else stacks s

abbrev pub popped : SlotId → Stacks → Stacks
popped slot stacks s = if same s slot then tail (stacks s) else stacks s

-- The record `id` of the log is a definition of the slot, with this fact.
pub record IsDefinition (log : List Record) (s : SlotId) (id : RecordId) (f : Fact) (r : Record)
    : Type 0 where
  pub found : get_elem? log id ≡ some r
  pub kind : r.kind ≡ RecordKind.define
  pub slot : r.slot ≡ s
  pub fact : r.fact ≡ some f

-- From a head, the definitions have these facts, each older than the one above it.
abbrev pub Chain : List Record → SlotId → ℕ → Option RecordId → List Fact → Type 0
Chain log slot bound head [] = head ≡ none
Chain log slot bound head (f ∷ fs) =
    (id : RecordId) × (r : Record) × (head ≡ some id)
    × (id < bound)
    × IsDefinition log slot id f r
    × Chain log slot id r.previous_head fs

abbrev pub Represents : DefinitionStore → Stacks → Type 0
Represents store stacks =
    (slot : SlotId) → Chain store.log slot (length store.log) (get slot store.head) (stacks slot)

pub empty_store-Represents : Represents empty_store no_facts
unfolding get
empty_store-Represents slot = refl

-- What a log still holds when it has grown.
abbrev pub Grows : List Record → List Record → Type 0
Grows log log' =
    (id : RecordId) (r : Record) → get_elem? log id ≡ some r → get_elem? log' id ≡ some r

pub append-Grows : (log more : List Record) → Grows log (log ++ more)
append-Grows log more id r e = get_elem?-append_left log more id (get_elem?-bound log id e) ∙ e

IsDefinition-Grows :
    {log log' : List Record} {slot : SlotId} {id : RecordId} {f : Fact} {r : Record}
    → Grows log log'
    → IsDefinition log slot id f r
    → IsDefinition log' slot id f r
IsDefinition-Grows {id = id} {r = r} g d = record {
  found = g id r d.found;
  kind = d.kind;
  slot = d.slot;
  fact = d.fact;
}

Chain-Grows :
    (log log' : List Record) (slot : SlotId) (low high : ℕ) (head : Option RecordId)
    (fs : List Fact)
    → Grows log log'
    → low ≤ high
    → Chain log slot low head fs
    → Chain log' slot high head fs
Chain-Grows log log' slot low high head [] g le c = c
Chain-Grows log log' slot low high head (f ∷ fs) g le (id, r, here, below, d, c) = (
  id,
  r,
  here,
  omega arith,
  IsDefinition-Grows g d,
  Chain-Grows log log' slot id id r.previous_head fs g (omega arith) c,
)

-- What the loop of `definitions` collects
abbrev with_fact : Option Fact → List Fact → List Fact
with_fact none fs = fs
with_fact (some f) fs = f ∷ fs

-- `filter_map(|record| record.fact.as_ref())`
abbrev pub facts_of : List Record → List Fact
facts_of [] = []
facts_of (r ∷ rs) = with_fact r.fact (facts_of rs)

Chain-definitions :
    (store : DefinitionStore) (slot : SlotId) (fuel bound : ℕ) (head : Option RecordId)
    (fs : List Fact)
    → bound ≤ fuel
    → Chain store.log slot bound head fs
    → (rs : List Record) × (definitions_from (suc fuel) head store ≡ some rs) × (facts_of rs ≡ fs)
unfolding definitions_from
Chain-definitions store slot fuel bound head [] le c = ([], rw c refl, refl)
Chain-definitions store slot zero bound head (f ∷ fs) le (id, r, here, below, _, _) =
    absurd (omega arith)
Chain-definitions store slot (suc fuel) bound head (f ∷ fs) le (id, r, here, below, d, c) =
    let (rs, walk, facts) =
      Chain-definitions store slot fuel id r.previous_head fs (omega arith) c in
    (r ∷ rs, rw (here, d.found, walk) refl, rw (d.fact, facts) refl)

pub definitions-Represents :
    (store : DefinitionStore) (stacks : Stacks) (slot : SlotId)
    → Represents store stacks
    → (rs : List Record) × (definitions slot store ≡ some rs) × (facts_of rs ≡ stacks slot)
unfolding definitions
definitions-Represents store stacks slot h =
    Chain-definitions store slot (length store.log) (length store.log) (get slot store.head)
      (stacks slot) (omega arith) (h slot)

pub append_define-Represents :
    (slot : SlotId) (f : Fact) (store : DefinitionStore) (stacks : Stacks)
    → Represents store stacks
    → Represents (append_define slot f store).1 (pushed slot f stacks)
unfolding append_define define_record
append_define-Represents slot f store stacks h s =
    let g =
      append-Grows store.log (define_record (length store.log) slot f (get slot store.head) ∷ []) in
    let longer =
      length-append store.log
        (define_record (length store.log) slot f (get slot store.head) ∷ []) in
    elim (Bool-cases (same s slot)) [
      | inl p ↦
          rw (same-eq s slot p, get-insert slot slot (length store.log) store.head, same_refl slot)
            (
              length store.log,
              define_record (length store.log) slot f (get slot store.head),
              refl,
              omega (arith, longer),
              record {
                found = get_elem?-append_length store.log _ [];
                kind = refl;
                slot = refl;
                fact = refl;
              },
              Chain-Grows store.log _ slot (length store.log) _ (get slot store.head) (stacks slot)
                  g (omega arith) (h slot),
            )
      | inr p ↦
          rw (get-insert s slot (length store.log) store.head, p)
            (Chain-Grows store.log _ s (length store.log) _ (get s store.head) (stacks s) g
              (omega (arith, longer)) (h s))
    ]

revealed_by-eq :
    (store : DefinitionStore) (slot : SlotId) (bound : ℕ) (head : Option RecordId) (fs : List Fact)
    → Chain store.log slot bound head fs
    → (revealed : Option RecordId) × (revealed_by head store ≡ some revealed)
      × Chain store.log slot bound revealed (tail fs)
unfolding revealed_by
revealed_by-eq store slot bound head [] c = (none, rw c refl, refl)
revealed_by-eq store slot bound head (f ∷ fs) (id, r, here, below, d, c) = (
  r.previous_head,
  rw (here, d.found) refl,
  Chain-Grows store.log store.log slot id bound r.previous_head fs (λ _ _ e. e) (omega arith) c,
)

pub set_head-get :
    (s slot : SlotId) (revealed : Option RecordId) (head : Map SlotId RecordId)
    → get s (set_head slot revealed head) ≡ (if same s slot then revealed else get s head)
unfolding set_head
set_head-get s slot none head = get-remove s slot head
set_head-get s slot (some id) head = get-insert s slot id head

pub append_forget-Represents :
    (slot : SlotId) (store : DefinitionStore) (stacks : Stacks)
    → Represents store stacks
    → (revealed : Option RecordId) × (revealed_by (get slot store.head) store ≡ some revealed)
      × (append_forget slot store ≡ some (forget_to slot revealed store))
      × Represents (forget_to slot revealed store).1 (popped slot stacks)
unfolding append_forget
append_forget-Represents slot store stacks h =
    let (revealed, e, c) =
      revealed_by-eq store slot (length store.log) (get slot store.head) (stacks slot) (h slot) in
    let g =
      append-Grows store.log
        (forget_record (length store.log) slot (get slot store.head) revealed ∷ []) in
    let longer =
      length-append store.log
        (forget_record (length store.log) slot (get slot store.head) revealed ∷ []) in
    (
      revealed,
      e,
      rw e refl,
      λ s. elim (Bool-cases (same s slot)) [
        | inl p ↦
            rw (same-eq s slot p, set_head-get slot slot revealed store.head, same_refl slot)
              (Chain-Grows store.log _ slot (length store.log) _ revealed (tail (stacks slot)) g
                (omega (arith, longer)) c)
        | inr p ↦
            rw (set_head-get s slot revealed store.head, p)
              (Chain-Grows store.log _ s (length store.log) _ (get s store.head) (stacks s) g
                (omega (arith, longer)) (h s))
      ],
    )
