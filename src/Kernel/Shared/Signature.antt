-- ===== src/Kernel/Shared/Signature.antt =====
-- shared_types_v5.rs: the counts of the signature and of the heads.
use forthdb.Prelude.{
  ◌+◌, ◌≤◌, ◌≡◌, refl, inl, inr, Option, none, some, [], ◌∷◌, length, Bool-cases, Option-cases,
  arith,
}
use forthdb.Prelude.Map.{Map, get, insert, remove, IsMap}
use forthdb.Prelude.Equality.{Equality, same, same-eq, nat_equality, list_equality}
use forthdb.Kernel.Value.{RecordId, SlotId}
use forthdb.Kernel.Store.{set_head}
use forthdb.Kernel.Shared.{ActiveSignature, add_token, remove_token, replaced}

module _ {K V : Type 0} ⦃e : Equality K⦄ where
  length-remove-none : (k : K) (m : Map K V) → get k m ≡ none → length (remove k m) ≡ length m
  unfolding get remove
  length-remove-none k [] h = refl
  length-remove-none k ((j, v) ∷ m) h = elim (Bool-cases (same k j)) [
    | inl p ↦ absurd (let e : some v ≡ none = rw p at h in cc)
    | inr p ↦ rw p (let r = length-remove-none k m (rw p at h) in omega arith)
  ]

  length-remove-some :
      (k : K) (m : Map K V) (w : V)
      → IsMap m
      → get k m ≡ some w
      → length (remove k m) + 1 ≡ length m
  unfolding get remove
  length-remove-some k [] w h found = cc
  length-remove-some k ((j, v) ∷ m) w (fresh, h) found = elim (Bool-cases (same k j)) [
    | inl p ↦ rw p (let r = length-remove-none k m (rw (same-eq k j p) fresh) in omega arith)
    | inr p ↦ rw p (let r = length-remove-some k m w h (rw p at found) in omega arith)
  ]

-- Moving the head of a slot keeps the count of the signature at the number of heads.
pub replaced-count :
    (slot : SlotId) (head : Map SlotId RecordId) (next : Option RecordId) (s : ActiveSignature)
    → IsMap head
    → s.count ≡ length head
    → (replaced (get slot head) next s).count ≡ length (set_head slot next head)
unfolding replaced add_token remove_token set_head insert
replaced-count slot head next s h e = elim (Option-cases (get slot head)) [
  | inl p ↦ let r = length-remove-none slot head p in rw p (with_none next r)
  | inr (old, p) ↦ let r = length-remove-some slot head old h p in rw p (with_some old next r)
]
  where
    with_none :
        (n : Option RecordId)
        → length (remove slot head) ≡ length head
        → (replaced none n s).count ≡ length (set_head slot n head)
    with_none none r = omega arith
    with_none (some id) r = omega arith

    with_some :
        (old : RecordId) (n : Option RecordId)
        → length (remove slot head) + 1 ≡ length head
        → (replaced (some old) n s).count ≡ length (set_head slot n head)
    with_some old none r = ground arith
    with_some old (some id) r = ground arith

pub length-set_head :
    (slot : SlotId) (head : Map SlotId RecordId) (next : Option RecordId)
    → IsMap head
    → length (set_head slot next head) ≤ length head + 1
unfolding set_head insert
length-set_head slot head next h = elim (Option-cases (get slot head)) [
  | inl p ↦ let r = length-remove-none slot head p in go next (omega arith)
  | inr (old, p) ↦ let r = length-remove-some slot head old h p in go next (omega arith)
]
  where
    go :
        (n : Option RecordId)
        → length (remove slot head) ≤ length head
        → length (set_head slot n head) ≤ length head + 1
    go none r = omega arith
    go (some id) r = omega arith
