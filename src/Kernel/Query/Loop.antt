-- ===== src/Kernel/Query/Loop.antt =====
-- The loop over the candidates appends the answers that they give.
use forthdb.Prelude.{
  ◌≡◌, refl, sym, ap, ◌∙◌, inl, inr, none, some, List, [], ◌∷◌, ◌++◌, true, arith, subst,
  Bool-cases, Option-cases, ◌==◌, ==_refl,
}
use mathlib.Core.List.{append_assoc, append-nil}
use forthdb.Prelude.IdSet.{contains}
use forthdb.Prelude.Equality.{nat_equality, list_equality}
use forthdb.Kernel.Value.{RecordId, Fact, Pattern, atom_equality}
use forthdb.Kernel.Binding.{Binding}
use forthdb.Kernel.Unify.{unify_pattern, Matches, Extends, Extends-trans, Matches-Extends}
use forthdb.Kernel.Unify.Least.{unify_pattern-Matches, unify_pattern-least}
use forthdb.Kernel.Store.{Record, DefinitionStore, find_record}
use forthdb.Kernel.Store.Active.{active}
use forthdb.Kernel.Query.{Frame, Walk, Outcome, emitted, loop}
use forthdb.Kernel.Query.Spec.{
  All, Any, All-append, Any-append_left, Any-append_right, All-map, AllHold, IsAnswer, Answers,
  Appends,
}

pub active-record :
    (store : DefinitionStore) (id : RecordId) (f : Fact)
    → active store id ≡ some f
    → (r : Record) × (find_record id store ≡ some r) × (r.fact ≡ some f)
active-record store id f e = elim (Option-cases (find_record id store)) [
  | inl gone ↦ absurd (ground (arith, gone, e))
  | inr (r, found) ↦ (r, found, ground (arith, found, e))
]

-- The loop over the candidates
module _ (store : DefinitionStore) (visit : Frame → Walk → Outcome) (chosen : Pattern)
    (rest : List Pattern) (frame : Frame)
    (visits : (next : Frame) (w : Walk)
      → Appends (visit next w) w (Answers store rest next.binding)) where
  abbrev pub Covers : List RecordId → List Frame → Type 0
  Covers ids frames =
      (theta : Binding) (id : RecordId) (f : Fact)
      → contains id ids ≡ true
      → active store id ≡ some f
      → Extends frame.binding theta
      → Matches chosen f theta
      → AllHold store rest theta
      → Any (λ next. Extends next.binding theta) frames

  -- What the candidates so far have given.
  pub record LoopAnswers (ids : List RecordId) (frames : List Frame) : Type 0 where
    pub sound : All (IsAnswer store (chosen ∷ rest) frame.binding) frames
    pub complete : Covers ids frames

  pub miss :
      (id : RecordId) (ids : List RecordId) (f : Fact) (frames : List Frame)
      → active store id ≡ some f
      → unify_pattern chosen f frame.binding ≡ none
      → LoopAnswers ids frames
      → LoopAnswers (id ∷ ids) frames
  unfolding contains
  miss id ids f frames live fails a = record {
    sound = a.sound;
    complete = λ theta i g c act e m rest_holds. elim (Bool-cases (i == id)) [
      | inl p ↦
          let eq : i ≡ id = ground arith in
          let same_fact : g ≡ f = let here = ap (active store) eq in cc in
          let (b, found, _) =
            unify_pattern-least chosen f frame.binding theta e
              (subst (λ g. Matches chosen g theta) same_fact m) in
          absurd (ground (arith, fails, found))
      | inr p ↦ a.complete theta i g (ground (arith, c, p)) act e m rest_holds
    ];
  }

  pub hit_sound :
      (id : RecordId) (f : Fact) (b : Binding)
      → active store id ≡ some f
      → unify_pattern chosen f frame.binding ≡ some b
      → (next : Frame) → IsAnswer store rest b next
      → IsAnswer store (chosen ∷ rest) frame.binding next
  hit_sound id f b live found next (e, holds) =
      let (x, m) = unify_pattern-Matches chosen f frame.binding found in
      (
        Extends-trans x e,
        (
          record { id = id; fact = f; active = live; matches = Matches-Extends chosen f e m },
          holds,
        ),
      )

  pub hit :
      (id : RecordId) (ids : List RecordId) (f : Fact) (b : Binding) (first more : List Frame)
      → active store id ≡ some f
      → unify_pattern chosen f frame.binding ≡ some b
      → Answers store rest b first
      → LoopAnswers ids more
      → LoopAnswers (id ∷ ids) (first ++ more)
  unfolding contains
  hit id ids f b first more live found one a = record {
    sound =
        All-append (IsAnswer store (chosen ∷ rest) frame.binding) first more
          (All-map (hit_sound id f b live found) first one.sound) a.sound;
    complete = λ theta i g c act e m rest_holds. elim (Bool-cases (i == id)) [
      | inl p ↦
          let eq : i ≡ id = ground arith in
          let same_fact : g ≡ f = let here = ap (active store) eq in cc in
          let (b', found', x) =
            unify_pattern-least chosen f frame.binding theta e
              (subst (λ g. Matches chosen g theta) same_fact m) in
          let same_binding : b' ≡ b = cc in
          Any-append_left (λ next. Extends next.binding theta) first more
            (one.complete theta (subst (λ b. Extends b theta) same_binding x) rest_holds)
      | inr p ↦
          Any-append_right (λ next. Extends next.binding theta) first more
            (a.complete theta i g (ground (arith, c, p)) act e m rest_holds)
    ];
  }

  pub loop-Appends :
      (ids : List RecordId) (w : Walk)
      → ((id : RecordId) → contains id ids ≡ true → (f : Fact) × (active store id ≡ some f))
      → Appends (loop store visit chosen frame ids w) w (LoopAnswers ids)
  unfolding loop contains emitted
  loop-Appends [] w live = record {
    frames = [];
    after = w;
    returns = refl;
    output = sym (append-nil w.output);
    good = record { sound = tt; complete = λ theta id f none_of. cc };
  }
  loop-Appends (id ∷ ids) w live =
      let (f, act) = live id (ground (arith, ==_refl id)) in
      let later : (i : RecordId) → contains i ids ≡ true → (f : Fact) × (active store i ≡ some f) =
        λ i c. live i (ground (arith, c)) in
      let (r, found, fact) = active-record store id f act in
      elim (Option-cases (unify_pattern chosen f frame.binding)) [
        | inl fails ↦
            let a = loop-Appends ids w later in
            record {
              frames = a.frames;
              after = a.after;
              returns = rw (found, fact, fails) a.returns;
              output = a.output;
              good = miss id ids f a.frames act fails a.good;
            }
        | inr (b, unified) ↦
            let next : Frame = record {
              binding = b;
              provenance = frame.provenance ++ r.slot ∷ [];
            } in
            let one = visits next (emitted w) in
            let a = loop-Appends ids one.after later in
            record {
              frames = one.frames ++ a.frames;
              after = a.after;
              returns = rw (found, fact, unified, one.returns) a.returns;
              output =
                  a.output
                  ∙ ap (λ o. o ++ a.frames) one.output
                  ∙ append_assoc w.output one.frames a.frames;
              good = hit id ids f b one.frames a.frames act unified one.good a.good;
            }
      ]
