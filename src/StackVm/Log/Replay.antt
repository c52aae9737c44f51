-- ===== src/StackVm/Log/Replay.antt =====
-- Following the references of a valid log from a slot's head reads off the slot's definitions.
use mathlib.Core.List.{tail, foldl-append}
use native.Mathlib.Decide.{dec_le}
use forthdb.Prelude.{
  ◌⊎◌, take_all, ℕ, ◌≤◌, ◌<◌, ◌≡◌, refl, sym, subst, some, List, [], ◌∷◌, ◌++◌, arith, length,
  get_elem?, take, length-append, get_elem?-append_left, get_elem?-append_length, Bool-cases, inl,
  inr, ◌==◌, ==_iff, ◌∙◌, ap, take-append_left,
}
use forthdb.StackVm.Instruction.{none_ref}
use forthdb.StackVm.Record.{FactRecord, RecordKind}
use forthdb.StackVm.Log.{
  Log, Fact, fact_of, on_kind, apply, replay, head_from, head_of, later, revealed, result_of,
  IsNext, IsValidLog, start, next, Reads, bottom, entry,
}

pub head_from-snoc :
    (head : ℕ) (log : Log) (r : FactRecord) (slot : ℕ)
    → head_from head (log ++ r ∷ []) slot ≡ later slot (head_from head log slot) r
unfolding head_from
head_from-snoc head log r slot = foldl-append (later slot) head log (r ∷ [])

pub replay-snoc :
    (log : Log) (r : FactRecord) (slot : ℕ)
    → replay (log ++ r ∷ []) slot ≡ apply (replay log) r slot
unfolding replay
replay-snoc log r slot = ap (λ stacks. stacks slot) (foldl-append apply (λ _. []) log (r ∷ []))

pub Reads-append :
    {log : Log} {head : ℕ} {facts : List Fact} (more : Log)
    → Reads log head facts
    → Reads (log ++ more) head facts
Reads-append more (bottom e) = bottom e
Reads-append {log} {head} more (entry r e below small rest) =
    entry r (get_elem?-append_left log more head below ∙ e) (omega (arith, length-append log more))
      small (Reads-append more rest)

revealed-entry :
    (log : Log) (head : ℕ) (r : FactRecord)
    → head < none_ref
    → get_elem? log head ≡ some r
    → revealed log head ≡ r.previous_visible
revealed-entry log head r small e = ground arith

-- A forget uncovers the rest of the definitions.
Reads-revealed :
    {log : Log} {head : ℕ} {facts : List Fact}
    → Reads log head facts
    → Reads log (revealed log head) (tail facts)
Reads-revealed (bottom e) = bottom (rw e)
Reads-revealed {log} {head} (entry r {facts} e below small rest) =
    subst (λ h. Reads log h facts) (sym (revealed-entry log head r small e)) rest

module _ (before : Log) (r : FactRecord) (small : length before < none_ref) where
  -- The stack of the record's own slot after the record.
  Reads-kind :
      (kind : RecordKind) {facts : List Fact} {head : ℕ}
      → r.previous_visible ≡ head
      → r.resulting_visible ≡ result_of before kind head
      → Reads before head facts
      → Reads (before ++ r ∷ []) r.resulting_visible (on_kind kind (fact_of r) facts)
  Reads-kind RecordKind.define {facts} {head} previous resulting below =
      subst (λ h. Reads (before ++ r ∷ []) h (fact_of r ∷ facts)) (sym resulting)
        (entry r (get_elem?-append_length before r [])
          (omega (arith, length-append before (r ∷ []))) small
          (subst (λ h. Reads (before ++ r ∷ []) h facts) (sym previous)
            (Reads-append (r ∷ []) below)))
  Reads-kind RecordKind.forget {facts} {head} previous resulting below =
      subst (λ h. Reads (before ++ r ∷ []) h (tail facts)) (sym resulting)
        (Reads-append (r ∷ []) (Reads-revealed below))

  Reads-apply :
      (slot : ℕ)
      → IsNext before r
      → ((s : ℕ) → Reads before (head_of before s) (replay before s))
      → Reads (before ++ r ∷ []) (later slot (head_of before slot) r) (apply (replay before) r slot)
  Reads-apply slot step below = elim (Bool-cases (r.slot == slot)) [
    | inl own ↦
        let e : r.slot ≡ slot = (==_iff r.slot slot).0 own in
        rw own (
          Reads-kind r.kind (step.previous ∙ ap (head_of before) e)
            (step.resulting ∙ ap (λ s. result_of before r.kind (head_of before s)) e) (below slot))
    | inr other ↦ rw other (Reads-append (r ∷ []) (below slot))
  ]

-- In a log of fewer than 2 ^ 32 records, following the references from the head of any slot reads
-- off that slot's definitions, the visible one first.
pub IsValidLog-Reads :
    {log : Log}
    → length log ≤ none_ref
    → IsValidLog log
    → (slot : ℕ) → Reads log (head_of log slot) (replay log slot)
IsValidLog-Reads {log} small (start e) slot =
    subst (λ l. Reads l (head_of l slot) (replay l slot)) (sym e)
      (unfold head_from replay in bottom refl)
IsValidLog-Reads {log} small (next before r valid step e) slot =
    let room : length before < none_ref =
      omega (arith, length-append before (r ∷ []), ap length e) in
    subst (λ l. Reads l (head_of l slot) (replay l slot)) (sym e)
      (rw (head_from-snoc, replay-snoc)
        (Reads-apply before r room slot step (IsValidLog-Reads (omega arith) valid)))

-- Every prefix of a valid log is a valid log.
pub IsValidLog-take : {log : Log} (n : ℕ) → IsValidLog log → IsValidLog (take n log)
IsValidLog-take {log} n (start e) = start (rw e (take_all n [] (omega arith)))
IsValidLog-take {log} n (next before r valid step e) = elim (dec_le n (length before)) [
  | yes short ↦ rw (e, take-append_left n before (r ∷ []) short) (IsValidLog-take n valid)
  | no long ↦
      rw (e, take_all n (before ++ r ∷ []) (omega (arith, length-append before (r ∷ []))))
        (next before r valid step refl)
]

-- A head is NONE or the index of a record.
pub Reads-bound :
    {log : Log} {head : ℕ} {facts : List Fact}
    → Reads log head facts
    → (head ≡ none_ref) ⊎ (head < length log)
Reads-bound (bottom e) = inl e
Reads-bound (entry r e below small rest) = inr below

module _ (log : Log) (small : length log ≤ none_ref) (valid : IsValidLog log) (slot : ℕ) where
  pub head_of-bound : (head_of log slot ≡ none_ref) ⊎ (head_of log slot < length log)
  head_of-bound = Reads-bound (IsValidLog-Reads small valid slot)

  pub revealed-bound :
      (revealed log (head_of log slot) ≡ none_ref) ⊎ (revealed log (head_of log slot) < length log)
  revealed-bound = Reads-bound (Reads-revealed (IsValidLog-Reads small valid slot))
