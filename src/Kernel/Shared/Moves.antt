-- ===== src/Kernel/Shared/Moves.antt =====
-- shared_view_v2.rs: replacing a record in the indexes is taking it out and putting the new one in.
use forthdb.Prelude.{
  ◌≡◌, refl, ap, ◌∙◌, inl, inr, Option, none, some, Bool-cases, Option-cases, true, false,
}
use forthdb.Prelude.IdSet
use forthdb.Prelude.Map.{get, IsMap, get-insert, insert-IsMap}
use forthdb.Prelude.IdSet.{contains}
use forthdb.Prelude.Equality.{
  Equality, same, same_refl, same-eq, pair_equality, list_equality, nat_equality,
}
use forthdb.Kernel.Value.{RecordId, Fact, atom_equality, fact_equality}
use forthdb.Kernel.Index.{
  Index, bucket, insert_index, remove_index, bucket-insert_index, bucket-remove_index, IsIndexOf,
  updated, insert_index-IsIndexOf, remove_index-IsIndexOf,
}
use forthdb.Kernel.View.{CurrentView}
use forthdb.Kernel.View.Sound.{IsView}
use forthdb.Kernel.Shared.{replace_index, move_index, move_fact}

module _ {K : Type 0} ⦃e : Equality K⦄ where
  bucket-replace_index :
      (key j : K) (old new : RecordId) (index : Index K)
      → contains old (bucket j index) ≡ true
      → bucket key (replace_index j old new index)
        ≡ bucket key (insert_index j new (remove_index j old index))
  unfolding replace_index contains
  bucket-replace_index key j old new index c = elim (Option-cases (get j index)) [
    | inl p ↦ absurd (let h : contains old (bucket j index) ≡ false = rw p refl in cc)
    | inr (ids, p) ↦
        rw
          (
            p,
            get-insert key j (IdSet.insert new (IdSet.remove old ids)) index,
            bucket-insert_index key j new (remove_index j old index),
            bucket-remove_index key j old index,
          )
          (elim (Bool-cases (same key j)) [
            | inl q ↦ rw (q, same-eq key j q, p) refl
            | inr q ↦ rw q refl
          ])
  ]

  replace_index-IsMap :
      (j : K) (old new : RecordId) (index : Index K)
      → IsMap index
      → IsMap (replace_index j old new index)
  unfolding replace_index
  replace_index-IsMap j old new index h = elim (Option-cases (get j index)) [
    | inl p ↦ rw p h
    | inr (ids, p) ↦ rw p (insert-IsMap j (IdSet.insert new (IdSet.remove old ids)) index h)
  ]

module _ {K : Type 0} ⦃e : Equality K⦄ (k : Fact → K) where
  move_index-IsIndexOf :
      {active : RecordId → Option Fact} {index : Index K} (old new : RecordId) (f g : Fact)
      → active old ≡ some f
      → updated old none active new ≡ none
      → IsIndexOf k active index
      → IsIndexOf k
          (updated new (some g) (updated old none active))
          (move_index (k f) (k g) old new index)
  unfolding move_index
  move_index-IsIndexOf {active} {index} old new f g here fresh h =
      let h' = insert_index-IsIndexOf k new g fresh (remove_index-IsIndexOf k old f here h) in
      elim (Bool-cases (same (k f) (k g))) [
        | inl p ↦
            let key_eq : k f ≡ k g = same-eq (k f) (k g) p in
            let c : contains old (bucket (k f) index) ≡ true =
              h.members (k f) old ∙ rw here (same_refl (k f)) in
            let eq : (key : K)
                → bucket key (replace_index (k f) old new index)
                  ≡ bucket key (insert_index (k g) new (remove_index (k f) old index)) =
              λ key.
                bucket-replace_index key (k f) old new index c
                ∙ ap (λ j. bucket key (insert_index j new (remove_index (k f) old index))) key_eq in
            rw p (record {
              members = λ key id. ap (λ b. contains id b) (eq key) ∙ h'.members key id;
              sorted = λ key. rw (eq key) (h'.sorted key);
              single = replace_index-IsMap (k f) old new index h.single;
            })
        | inr p ↦ rw p h'
      ]

pub move_fact-IsView :
    {active : RecordId → Option Fact} {view : CurrentView} (old new : RecordId) (f g : Fact)
    → active old ≡ some f
    → updated old none active new ≡ none
    → IsView active view
    → IsView (updated new (some g) (updated old none active)) (move_fact old new f g view)
unfolding move_fact
move_fact-IsView old new f g here fresh v = record {
  subject = move_index-IsIndexOf _ old new f g here fresh v.subject;
  predicate = move_index-IsIndexOf _ old new f g here fresh v.predicate;
  object = move_index-IsIndexOf _ old new f g here fresh v.object;
  subject_predicate = move_index-IsIndexOf _ old new f g here fresh v.subject_predicate;
  subject_object = move_index-IsIndexOf _ old new f g here fresh v.subject_object;
  predicate_object = move_index-IsIndexOf _ old new f g here fresh v.predicate_object;
  exact = move_index-IsIndexOf _ old new f g here fresh v.exact;
}
