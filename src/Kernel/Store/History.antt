-- ===== src/Kernel/Store/History.antt =====
-- `history` against the log.
use forthdb.Prelude.{
  ◌≡◌, refl, ap, inl, inr, Option, none, some, List, [], ◌∷◌, ◌++◌, length, get_elem?,
  get_elem?-append_length, arith, if◌then◌else◌, Bool-cases,
}
use mathlib.Core.List.{append-nil}
use forthdb.Prelude.Map.{Map, get, get-insert}
use forthdb.Prelude.Equality.{same, same-eq, nat_equality, list_equality}
use forthdb.Kernel.Value.{RecordId, SlotId, Fact}
use forthdb.Kernel.Store.Stacks.{Grows, append-Grows}
use forthdb.Kernel.Store.{
  Record, DefinitionStore, empty_store, append_define, forget_to, consed, or_empty, push_history,
  find_records, history, define_record, forget_record,
}

-- The slot's records, in the order of the log.
abbrev pub of_slot : SlotId → List Record → List Record
of_slot slot [] = []
of_slot slot (r ∷ rs) = let rest = of_slot slot rs in if same slot r.slot then r ∷ rest else rest

abbrev pub IsHistory : DefinitionStore → Type 0
IsHistory store = (slot : SlotId) → history slot store ≡ some (of_slot slot store.log)

pub empty_store-IsHistory : IsHistory empty_store
unfolding history get find_records
empty_store-IsHistory slot = refl

consed-some :
    (o : Option Record) (l : Option (List Record)) {rs : List Record}
    → consed o l ≡ some rs
    → (r : Record) × (rest : List Record) × (o ≡ some r) × (l ≡ some rest) × (rs ≡ r ∷ rest)
consed-some (some r) (some rest) e = (r, rest, refl, refl, cc)
consed-some (some r) none e = cc
consed-some none (some rest) e = cc
consed-some none none e = cc

find_records-Grows :
    (ids : List RecordId) (log log' : List Record) (rs : List Record)
    → Grows log log'
    → find_records ids log ≡ some rs
    → find_records ids log' ≡ some rs
unfolding find_records
find_records-Grows [] log log' rs g e = e
find_records-Grows (id ∷ ids) log log' rs g e =
    let (r, rest, found, walk, eq) = consed-some (get_elem? log id) (find_records ids log) e in
    rw (g id r found, find_records-Grows ids log log' rest g walk, eq) refl

find_records-append :
    (ids : List RecordId) (id : RecordId) (log : List Record) (rs : List Record) (r : Record)
    → find_records ids log ≡ some rs
    → get_elem? log id ≡ some r
    → find_records (ids ++ id ∷ []) log ≡ some (rs ++ r ∷ [])
unfolding find_records
find_records-append [] id log rs r e found = let eq : rs ≡ [] = cc in rw (found, eq) refl
find_records-append (j ∷ ids) id log rs r e found =
    let (x, rest, here, walk, eq) = consed-some (get_elem? log j) (find_records ids log) e in
    rw (here, find_records-append ids id log rest r walk found, eq) refl

of_slot-append :
    (slot s : SlotId) (log : List Record) (r : Record)
    → r.slot ≡ s
    → of_slot slot (log ++ r ∷ []) ≡ of_slot slot log ++ (if same slot s then r ∷ [] else [])
of_slot-append slot s [] r e = ground (arith, ap (same slot) e)
of_slot-append slot s (x ∷ log) r e = ground (arith, of_slot-append slot s log r)

-- Any step that appends one record and its id.
appended-IsHistory :
    (log : List Record) (histories : Map SlotId (List RecordId)) (s : SlotId) (r : Record)
    → r.slot ≡ s
    → ((slot : SlotId) → find_records (or_empty (get slot histories)) log ≡ some (of_slot slot log))
    → (slot : SlotId)
    → find_records (or_empty (get slot (push_history s (length log) histories))) (log ++ r ∷ [])
      ≡ some (of_slot slot (log ++ r ∷ []))
unfolding push_history
appended-IsHistory log histories s r here h slot =
    let ids = or_empty (get slot histories) in
    let step = get-insert slot s (or_empty (get s histories) ++ length log ∷ []) histories in
    let kept =
      find_records-Grows ids log (log ++ r ∷ []) (of_slot slot log) (append-Grows log (r ∷ []))
        (h slot) in
    elim (Bool-cases (same slot s)) [
      | inl p ↦
          rw (step, of_slot-append slot s log r here, p, ← same-eq slot s p)
            (find_records-append ids (length log) (log ++ r ∷ []) (of_slot slot log) r kept
              (get_elem?-append_length log r []))
      | inr p ↦ rw (step, of_slot-append slot s log r here, p, append-nil (of_slot slot log)) kept
    ]

pub append_define-IsHistory :
    (slot : SlotId) (f : Fact) (store : DefinitionStore)
    → IsHistory store
    → IsHistory (append_define slot f store).1
unfolding append_define define_record history
append_define-IsHistory slot f store =
    appended-IsHistory store.log store.slot_history slot
      (define_record (length store.log) slot f (get slot store.head)) refl

pub forget_to-IsHistory :
    (slot : SlotId) (revealed : Option RecordId) (store : DefinitionStore)
    → IsHistory store
    → IsHistory (forget_to slot revealed store).1
unfolding forget_record history
forget_to-IsHistory slot revealed store =
    appended-IsHistory store.log store.slot_history slot
      (forget_record (length store.log) slot (get slot store.head) revealed) refl
