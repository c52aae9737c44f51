-- ===== src/Kernel/Unify/Least.antt =====
-- `unify_pattern` succeeds exactly when some extension of the binding makes the pattern the fact,
-- and returns the least one.
use forthdb.Prelude.{
  ◌≡◌, refl, sym, ap, ◌∙◌, inl, inr, Option, none, some, if◌then◌else◌, Bool-cases, Option-cases,
}
use forthdb.Prelude.Map.{get}
use forthdb.Prelude.Equality.{Equality, same, same_refl, same-eq, nat_equality, list_equality}
use forthdb.Kernel.Value.{
  Variable, Atom, Predicate, Term, PredicateTerm, Fact, Pattern, BoundValue, bound_of, as_atom,
  as_predicate, atom_equality, value_equality, Text,
}
use forthdb.Kernel.Binding.{Binding, bind, get-bind}
use forthdb.Kernel.Unify.{
  unify_variable, if_same, unify_term, unify_predicate, unify_pattern, and_then, value_of,
  predicate_value, Matches, Extends, Extends-refl, Extends-trans, value_of-Extends,
  predicate_value-Extends,
}

bind-Extends :
    (name : Variable) (value : BoundValue) (binding : Binding)
    → get name binding ≡ none
    → Extends binding (bind name value binding)
bind-Extends name value binding new = record {
  keeps = λ k v e. elim (Bool-cases (same k name)) [
    | inl p ↦ let clash = ap (λ n. get n binding) (same-eq k name p) in cc
    | inr p ↦ get-bind k name value binding ∙ rw p e
  ];
}

unify_variable_sound :
    (name : Variable) (value : BoundValue) (b : Binding) {c : Binding}
    → unify_variable name value b ≡ some c
    → Extends b c × (get name c ≡ some value)
unfolding unify_variable
unify_variable_sound name value b {c} e = elim (Option-cases (get name b)) [
  | inl new ↦
      let step : unify_variable name value b ≡ some (bind name value b) = rw new refl in
      let eq : bind name value b ≡ c = cc in
      rw (← eq)
        (bind-Extends name value b new, get-bind name name value b ∙ rw (same_refl name) refl)
  | inr (v, old) ↦ elim (Bool-cases (same v value)) [
    | inl p ↦
        let step : unify_variable name value b ≡ some b = rw (old, p) refl in
        let eq : b ≡ c = cc in rw (← eq) (Extends-refl b, old ∙ ap some (same-eq v value p))
    | inr p ↦ let step : unify_variable name value b ≡ none = rw (old, p) refl in cc
  ]
]

bound-by :
    (name : Variable) (value : BoundValue) (b theta : Binding)
    → Extends b theta
    → get name theta ≡ some value
    → (k : Text) (v : BoundValue) → (if same k name then some value else get k b) ≡ some v
    → get k theta ≡ some v
bound-by name value b theta e h k v g = elim (Bool-cases (same k name)) [
  | inl p ↦ let eq : some value ≡ some v = sym (rw p refl) ∙ g in rw (same-eq k name p) (h ∙ eq)
  | inr p ↦ e.keeps k v (sym (rw p refl) ∙ g)
]

unify_variable_complete :
    (name : Variable) (value : BoundValue) (b theta : Binding)
    → Extends b theta
    → get name theta ≡ some value
    → (c : Binding) × (unify_variable name value b ≡ some c) × Extends c theta
unfolding unify_variable
unify_variable_complete name value b theta e h = elim (Option-cases (get name b)) [
  | inl new ↦ (
    bind name value b,
    rw new refl,
    record {
      keeps = λ k v g. bound-by name value b theta e h k v (sym (get-bind k name value b) ∙ g);
    },
  )
  | inr (v, old) ↦
      let eq : v ≡ value = let g = e.keeps name v old in cc in
      (b, rw (old, eq, same_refl value) refl, e)
]

bound_of-as_atom : (a : Atom) → as_atom (bound_of a) ≡ some a
unfolding as_atom bound_of
bound_of-as_atom (Atom.entity e) = refl
bound_of-as_atom (Atom.literal l) = refl

if_same-some :
    {A : Type 0} ⦃e : Equality A⦄ (a expected : A) (b : Binding) {c : Binding}
    → if_same (some a) expected b ≡ some c
    → (a ≡ expected) × (b ≡ c)
if_same-some a expected b {c} h = elim (Bool-cases (same a expected)) [
  | inl p ↦
      let step : if_same (some a) expected b ≡ some b = rw p refl in (same-eq a expected p, cc)
  | inr p ↦ let step : if_same (some a) expected b ≡ none = rw p refl in cc
]

unify_term_sound :
    (t : Term) (a : Atom) (b : Binding) {c : Binding}
    → unify_term t (bound_of a) b ≡ some c
    → Extends b c × (value_of t c ≡ some (bound_of a))
unfolding unify_term
unify_term_sound (Term.variable name) a b e = unify_variable_sound name (bound_of a) b e
unify_term_sound (Term.atom x) a b {c} e =
    let (same_atom, eq) =
      if_same-some a x b (ap (λ v. if_same v x b) (sym (bound_of-as_atom a)) ∙ e) in
    (rw (← eq) (Extends-refl b), ap (λ x. some (bound_of x)) (sym same_atom))

unify_term_complete :
    (t : Term) (a : Atom) (b theta : Binding)
    → Extends b theta
    → value_of t theta ≡ some (bound_of a)
    → (c : Binding) × (unify_term t (bound_of a) b ≡ some c) × Extends c theta
unfolding unify_term
unify_term_complete (Term.variable name) a b theta e h =
    unify_variable_complete name (bound_of a) b theta e h
unify_term_complete (Term.atom x) a b theta e h =
    let bound : bound_of x ≡ bound_of a = cc in
    let some_eq = sym (bound_of-as_atom x) ∙ ap as_atom bound ∙ bound_of-as_atom a in
    let eq : x ≡ a = cc in (b, rw (bound_of-as_atom a, eq, same_refl a) refl, e)

unify_predicate_sound :
    (t : PredicateTerm) (p : Predicate) (b : Binding) {c : Binding}
    → unify_predicate t (BoundValue.predicate p) b ≡ some c
    → Extends b c × (predicate_value t c ≡ some (BoundValue.predicate p))
unfolding unify_predicate as_predicate
unify_predicate_sound (PredicateTerm.variable name) p b e =
    unify_variable_sound name (BoundValue.predicate p) b e
unify_predicate_sound (PredicateTerm.predicate x) p b {c} e =
    let (same_name, eq) = if_same-some p x b e in
    (rw (← eq) (Extends-refl b), ap (λ x. some (BoundValue.predicate x)) (sym same_name))

unify_predicate_complete :
    (t : PredicateTerm) (p : Predicate) (b theta : Binding)
    → Extends b theta
    → predicate_value t theta ≡ some (BoundValue.predicate p)
    → (c : Binding) × (unify_predicate t (BoundValue.predicate p) b ≡ some c) × Extends c theta
unfolding unify_predicate as_predicate
unify_predicate_complete (PredicateTerm.variable name) p b theta e h =
    unify_variable_complete name (BoundValue.predicate p) b theta e h
unify_predicate_complete (PredicateTerm.predicate x) p b theta e h =
    let eq : x ≡ p = cc in (b, rw (eq, same_refl p) refl, e)

and_then-some :
    (o : Option Binding) (f : Binding → Option Binding) {c : Binding}
    → and_then o f ≡ some c
    → (b : Binding) × (o ≡ some b) × (f b ≡ some c)
and_then-some (some b) f e = (b, refl, e)
and_then-some none f e = cc

-- When `unify_pattern` returns a binding, it extends the given one and makes the pattern the fact.
pub unify_pattern-Matches :
    (pattern : Pattern) (fact : Fact) (b : Binding) {c : Binding}
    → unify_pattern pattern fact b ≡ some c
    → Extends b c × Matches pattern fact c
unfolding unify_pattern
unify_pattern-Matches pattern fact b {c} e =
    let (b₁, e₁, rest) = and_then-some (unify_term pattern.subject (bound_of fact.subject) b) _ e in
    let (b₂, e₂, e₃) =
      and_then-some (unify_predicate pattern.predicate (BoundValue.predicate fact.predicate) b₁) _
        rest in
    let (x₁, v₁) = unify_term_sound pattern.subject fact.subject b e₁ in
    let (x₂, v₂) = unify_predicate_sound pattern.predicate fact.predicate b₁ e₂ in
    let (x₃, v₃) = unify_term_sound pattern.object fact.object b₂ e₃ in
    (
      Extends-trans x₁ (Extends-trans x₂ x₃),
      record {
        subject = value_of-Extends pattern.subject (bound_of fact.subject) (Extends-trans x₂ x₃) v₁;
        predicate =
            predicate_value-Extends pattern.predicate (BoundValue.predicate fact.predicate) x₃ v₂;
        object = v₃;
      },
    )

-- When some extension of a binding makes a pattern the fact, `unify_pattern` returns a binding
-- that this one extends.
pub unify_pattern-least :
    (pattern : Pattern) (fact : Fact) (b theta : Binding)
    → Extends b theta
    → Matches pattern fact theta
    → (c : Binding) × (unify_pattern pattern fact b ≡ some c) × Extends c theta
unfolding unify_pattern
unify_pattern-least pattern fact b theta e m =
    let (b₁, e₁, x₁) = unify_term_complete pattern.subject fact.subject b theta e m.subject in
    let (b₂, e₂, x₂) =
      unify_predicate_complete pattern.predicate fact.predicate b₁ theta x₁ m.predicate in
    let (b₃, e₃, x₃) = unify_term_complete pattern.object fact.object b₂ theta x₂ m.object in
    (b₃, rw (e₁, e₂) e₃, x₃)
