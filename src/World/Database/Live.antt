-- ===== src/World/Database/Live.antt =====
-- lib.rs: a transaction built by its own operations on the current world is committed, unless a
-- validator or the store refuses it.
pub mod Accepts
use mathlib.Core.Option
use forthdb.Prelude.{
  ℕ, ◌+◌, ◌%◌, ◌^◌, ◌≡◌, refl, sym, ap, ◌∙◌, subst, Option, none, some, List, [], ◌∷◌, ◌++◌, ◌==◌,
  ==_refl, true, false, not, arith,
}
use forthdb.Prelude.Map.{get}
use forthdb.Prelude.Equality.{nat_equality, list_equality}
use forthdb.Kernel.Value.{RecordId, SlotId, Fact}
use forthdb.Kernel.Store.{DefinitionStore, append_define, append_forget}
use forthdb.Kernel.View.{CurrentView}
use forthdb.Kernel.View
use forthdb.Kernel.Store.Stacks.{Stacks, no_facts}
use forthdb.Kernel.Shared.{ForthDb}
use forthdb.Kernel.Shared
use forthdb.Kernel.Shared.Sound.{
  IsSound, new-IsSound, entity-IsSound, define-IsSound, forget-IsSound,
}
use forthdb.World.Commit.{Operation, allocate_entity, define, forget, CommitFrame}
use forthdb.World.Replay.{
  Checked, ok, err, panic, and_then, changed, validated, World, CandidateWorld, candidate_of,
  genesis, construct, commit_frame, into_world, apply_operation, apply_all,
}
use forthdb.World.Database.{
  CommitStore, Transaction, begin, entity, define_fact, forget_slot, candidate, first_refusal,
  Database, Committed, committed, commit,
}

-- The operations of a transaction that began at `base`; a display name and a symbol are facts that it
-- defines.
pub data Builds (base : World) : Transaction → Type 0 where
  begins : Builds base (begin base)
  allocates : {t : Transaction} → Builds base t → Builds base (entity t).1
  defines :
      {t : Transaction} (slot : SlotId) (fact : Fact)
      → Builds base t
      → Builds base (define_fact slot fact t)
  forgets : {t : Transaction} (slot : SlotId) → Builds base t → Builds base (forget_slot slot t)

-- The kernel is sound, and its allocator is the world's.
pub record IsLive (kernel : ForthDb) (next_entity : ℕ) : Type 0 where
  pub stacks : Stacks
  pub sound : IsSound kernel stacks
  pub allocator : kernel.next_entity ≡ next_entity

pub genesis-IsLive : IsLive genesis.kernel genesis.next_entity
genesis-IsLive = record { stacks = no_facts; sound = new-IsSound; allocator = refl }

-- The state after operations that succeed.
abbrev Lives : Checked (ForthDb × ℕ) → ℕ → Type 0
Lives r next_entity =
    (kernel : ForthDb) × (r ≡ ok (kernel, next_entity)) × IsLive kernel next_entity

-- An allocation takes the next entity.
abbrev IsOwn : Operation → ℕ → Type 0
IsOwn (allocate_entity e) n = e ≡ n
IsOwn (define slot fact) n = Unit
IsOwn (forget slot) n = Unit

abbrev after : Operation → ℕ → ℕ
after (allocate_entity e) n = (n + 1) % 2 ^ 64
after (define slot fact) n = n
after (forget slot) n = n

apply_operation-Lives :
    (o : Operation) (kernel : ForthDb) (n : ℕ)
    → IsLive kernel n
    → IsOwn o n
    → Lives (apply_operation o (kernel, n)) (after o n)
unfolding apply_operation Shared.entity
apply_operation-Lives (allocate_entity e) kernel n live own =
    let given : (e == n) ≡ true = ground arith in
    let taken : (kernel.next_entity == e) ≡ true = let h = live.allocator in ground arith in
    (
      (Shared.entity kernel).1,
      rw (given, taken) refl,
      record {
        stacks = live.stacks;
        sound = entity-IsSound kernel live.stacks live.sound;
        allocator = ap (λ m. (m + 1) % 2 ^ 64) live.allocator;
      },
    )
apply_operation-Lives (define slot fact) kernel n live own =
    let (db, e, same, s) = define-IsSound slot kernel live.stacks live.sound fact in
    (db, rw e refl, record { stacks = _; sound = s; allocator = same ∙ live.allocator })
apply_operation-Lives (forget slot) kernel n live own =
    let (db, e, same, s) = forget-IsSound slot kernel live.stacks live.sound in
    (db, rw e refl, record { stacks = _; sound = s; allocator = same ∙ live.allocator })

apply_all-append :
    (operations : List Operation) (o : Operation) (state : ForthDb × ℕ)
    → apply_all (operations ++ o ∷ []) state
      ≡ and_then (apply_all operations state) (apply_operation o)
unfolding apply_all
apply_all-append [] o state = go (apply_operation o state)
  where
    go : (r : Checked (ForthDb × ℕ)) → and_then r (λ s. ok s) ≡ r
    go (ok s) = refl
    go (err e) = refl
    go panic = refl
apply_all-append (p ∷ operations) o state =
    go (apply_operation p state) (apply_all-append operations o)
  where
    go :
        (r : Checked (ForthDb × ℕ))
        → ((s : ForthDb × ℕ)
            → apply_all (operations ++ o ∷ []) s
              ≡ and_then (apply_all operations s) (apply_operation o))
        → and_then r (apply_all (operations ++ o ∷ []))
          ≡ and_then (and_then r (apply_all operations)) (apply_operation o)
    go (ok s) h = h s
    go (err e) h = refl
    go panic h = refl

append-Lives :
    (operations : List Operation) (o : Operation) (state : ForthDb × ℕ) (n : ℕ)
    → Lives (apply_all operations state) n
    → IsOwn o n
    → Lives (apply_all (operations ++ o ∷ []) state) (after o n)
append-Lives operations o state n (kernel, e, live) own =
    let (later, e', live') = apply_operation-Lives o kernel n live own in
    (
      later,
      apply_all-append operations o state ∙ ap (λ r. and_then r (apply_operation o)) e ∙ e',
      live',
    )

pub transaction-Lives :
    (base : World) (t : Transaction)
    → IsLive base.kernel base.next_entity
    → Builds base t
    → (t.base ≡ base) × Lives (apply_all t.operations (base.kernel, base.next_entity)) t.next_entity
unfolding begin entity define_fact forget_slot apply_all
transaction-Lives base _ live begins = (refl, (base.kernel, refl, live))
transaction-Lives base _ live (allocates {t} b) =
    let (same, lives) = transaction-Lives base t live b in
    (same, append-Lives t.operations (allocate_entity t.next_entity) _ t.next_entity lives refl)
transaction-Lives base _ live (defines {t} slot fact b) =
    let (same, lives) = transaction-Lives base t live b in
    (same, append-Lives t.operations (define slot fact) _ t.next_entity lives tt)
transaction-Lives base _ live (forgets {t} slot b) =
    let (same, lives) = transaction-Lives base t live b in
    (same, append-Lives t.operations (forget slot) _ t.next_entity lives tt)
