-- ===== src/Kernel/Query/Answers.antt =====
-- What a query without a limit answers: the least bindings under which every pattern is an active
-- fact. The choice of the order of the patterns does not matter.

use forthdb.Prelude.{
  ℕ, zero, suc, ◌≤◌, ◌≡◌, refl, sym, ap, ◌∙◌, inl, inr, Option, none, some, List, [], ◌∷◌, ◌++◌,
  length, true, arith, Option-cases,
}
use forthdb.Prelude.Map.{get}
use forthdb.Prelude.Equality.{same_refl, nat_equality, list_equality}
use forthdb.Kernel.Value.{
  Fact, Pattern, Atom, Predicate, Term, PredicateTerm, BoundValue, bound_of, as_atom, as_predicate,
  atom_equality,
}
use forthdb.Kernel.Binding.{Binding}
use forthdb.Kernel.Unify.{Matches, Extends, Extends-refl, value_of, predicate_value}
use forthdb.Kernel.Store.{DefinitionStore}
use forthdb.Kernel.Store.Active.{active}
use forthdb.Kernel.View.{candidates, resolved_atom, resolved_predicate}
use forthdb.Kernel.View.Candidates.{IsExact, fits, agrees}
use forthdb.Kernel.Db.{ForthDb}
use forthdb.Kernel.Query.{Frame, QueryOptions, Walk, emit, chosen_index, enter, walk_query}
use forthdb.Kernel.Query.Spec.{All-map, Holds, Answers, Appends}
use forthdb.Kernel.Query.Choice.{take_out-Splits, chosen_index-bound}
use forthdb.Kernel.Query.Loop.{loop-Appends}

-- A pattern that is a fact under an extension of a binding agrees with the fact in what the
-- binding resolves.
as_atom-bound_of : (a : Atom) → as_atom (bound_of a) ≡ some a
unfolding as_atom bound_of
as_atom-bound_of (Atom.entity e) = refl
as_atom-bound_of (Atom.literal l) = refl

resolved_atom-agrees :
    (t : Term) (a : Atom) (b theta : Binding)
    → Extends b theta
    → value_of t theta ≡ some (bound_of a)
    → agrees (resolved_atom t b) a ≡ true
unfolding resolved_atom
resolved_atom-agrees (Term.atom x) a b theta e h =
    let bound : bound_of x ≡ bound_of a = cc in
    let some_eq = sym (as_atom-bound_of x) ∙ ap as_atom bound ∙ as_atom-bound_of a in
    let eq : x ≡ a = cc in rw eq (same_refl a)
resolved_atom-agrees (Term.variable name) a b theta e h = elim (Option-cases (get name b)) [
  | inl new ↦ rw new refl
  | inr (v, old) ↦
      let kept = e.keeps name v old in
      let eq : v ≡ bound_of a = cc in rw (old, eq, as_atom-bound_of a) (same_refl a)
]

resolved_predicate-agrees :
    (t : PredicateTerm) (p : Predicate) (b theta : Binding)
    → Extends b theta
    → predicate_value t theta ≡ some (BoundValue.predicate p)
    → agrees (resolved_predicate t b) p ≡ true
unfolding resolved_predicate as_predicate
resolved_predicate-agrees (PredicateTerm.predicate x) p b theta e h =
    let eq : x ≡ p = cc in rw eq (same_refl p)
resolved_predicate-agrees (PredicateTerm.variable name) p b theta e h =
    elim (Option-cases (get name b)) [
      | inl new ↦ rw new refl
      | inr (v, old) ↦
          let kept = e.keeps name v old in
          let eq : v ≡ BoundValue.predicate p = cc in rw (old, eq) (same_refl p)
    ]

fits-Matches :
    (pattern : Pattern) (f : Fact) (b theta : Binding)
    → Extends b theta
    → Matches pattern f theta
    → fits
        (resolved_atom pattern.subject b)
        (resolved_predicate pattern.predicate b)
        (resolved_atom pattern.object b)
        (some f)
      ≡ true
fits-Matches pattern f b theta e m =
    rw
      (
        resolved_atom-agrees pattern.subject f.subject b theta e m.subject,
        resolved_predicate-agrees pattern.predicate f.predicate b theta e m.predicate,
        resolved_atom-agrees pattern.object f.object b theta e m.object,
      )
      refl

abbrev pub CandidatesExact : ForthDb → Type 0
CandidatesExact db =
    (pattern : Pattern) (b : Binding)
    → IsExact (candidates pattern b db.store db.view)
        (fits (resolved_atom pattern.subject b) (resolved_predicate pattern.predicate b)
          (resolved_atom pattern.object b))
        db.store

pub fits-active :
    (s : Option Atom) (p : Option Predicate) (o : Option Atom) (fact : Option Fact)
    → fits s p o fact ≡ true
    → (f : Fact) × (fact ≡ some f)
fits-active s p o none h = cc
fits-active s p o (some f) h = (f, refl)

emit-Appends :
    (store : DefinitionStore) (options : QueryOptions) (frame : Frame) (w : Walk)
    → options.limit ≡ none
    → Appends (emit options frame w) w (Answers store [] frame.binding)
unfolding emit
emit-Appends store options frame w limit = record {
  frames = frame ∷ [];
  after = record w { output = w.output ++ frame ∷ [] };
  returns = rw limit refl;
  output = refl;
  good = record { sound = ((Extends-refl frame.binding, tt), tt); complete = λ theta e h. inl e };
}

pub walk_query-Appends :
    (db : ForthDb) (options : QueryOptions)
    → CandidatesExact db
    → options.limit ≡ none
    → (fuel depth : ℕ) (patterns : List Pattern) (frame : Frame) (w : Walk) → length patterns ≤ fuel
    → Appends
        (walk_query db options fuel depth patterns frame w)
        w
        (Answers db.store patterns frame.binding)
unfolding walk_query enter
walk_query-Appends db options exact limit fuel depth [] frame w fits_in =
    emit-Appends db.store options frame w limit
walk_query-Appends db options exact limit zero depth (p ∷ ps) frame w fits_in = absurd (omega arith)
walk_query-Appends db options exact limit (suc fuel) depth (p ∷ ps) frame w fits_in =
    let (chosen, rest, e, s) =
      take_out-Splits (chosen_index db options frame (p ∷ ps)) (p ∷ ps)
        (chosen_index-bound db options frame p ps) in
    let size = s.size in
    let ids = candidates chosen frame.binding db.store db.view in
    let ex = exact chosen frame.binding in
    let a =
      loop-Appends db.store (walk_query db options fuel (suc depth) rest) chosen rest frame
        (λ next w.
          walk_query-Appends db options exact limit fuel (suc depth) rest next w (omega arith))
        ids (enter depth chosen (length ids) w)
        (λ id c. fits-active _ _ _ (active db.store id) (sym (ex.members id) ∙ c)) in
    record {
      frames = a.frames;
      after = a.after;
      returns = rw e a.returns;
      output = a.output;
      good = record {
        sound =
            All-map (λ next g. (g.0, s.back (λ p. Holds db.store p next.binding) g.1.0 g.1.1))
              a.frames a.good.sound;
        complete = λ theta ext holds.
            let (h, hs) = s.there (λ p. Holds db.store p theta) holds in
            a.good.complete theta h.id h.fact
              (ex.members h.id
                ∙ rw h.active (fits-Matches chosen h.fact frame.binding theta ext h.matches))
              h.active ext h.matches hs;
      };
    }
