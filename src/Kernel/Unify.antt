-- ===== src/Kernel/Unify.antt =====
-- forthdb-core/src/lib.rs: `unify_pattern`, and what it computes: the least extension of a binding
-- under which a pattern is a fact.
pub mod Least
use forthdb.Prelude.{
  ℕ, ◌≡◌, refl, sym, ap, ◌∙◌, ◌⊎◌, inl, inr, Option, none, some, List, [], ◌∷◌, Bool, true, false,
  arith, if◌then◌else◌, Bool-cases, Option-cases,
}
use forthdb.Prelude.Map.{get}
use forthdb.Prelude.Equality.{Equality, same, same_refl, same-eq, nat_equality, list_equality}
use forthdb.Kernel.Value.{
  Variable, Atom, Predicate, Term, PredicateTerm, Fact, Pattern, BoundValue, bound_of, as_atom,
  as_predicate, atom_equality, value_equality, Text,
}
use forthdb.Kernel.Binding.{Binding, bind, get-bind}

-- The match on `binding.get(name)`.
abbrev unify_bound : Option BoundValue → Variable → BoundValue → Binding → Option Binding
unify_bound (some existing) name value binding = if same existing value then some binding else none
unify_bound none name value binding = some (bind name value binding)

unfoldable pub unify_variable : Variable → BoundValue → Binding → Option Binding
unify_variable name value binding = unify_bound (get name binding) name value binding

-- `actual.as_ref() == Some(expected)`
abbrev if_same : {A : Type 0} ⦃e : Equality A⦄ → Option A → A → Binding → Option Binding
if_same none expected binding = none
if_same (some actual) expected binding = if same actual expected then some binding else none

unfoldable pub unify_term : Term → BoundValue → Binding → Option Binding
unify_term (Term.atom a) value binding = if_same (as_atom value) a binding
unify_term (Term.variable name) value binding = unify_variable name value binding

unfoldable pub unify_predicate : PredicateTerm → BoundValue → Binding → Option Binding
unify_predicate (PredicateTerm.predicate p) value binding = if_same (as_predicate value) p binding
unify_predicate (PredicateTerm.variable name) value binding = unify_variable name value binding

abbrev pub and_then : Option Binding → (Binding → Option Binding) → Option Binding
and_then none f = none
and_then (some b) f = f b

unfoldable pub unify_pattern : Pattern → Fact → Binding → Option Binding
unify_pattern pattern fact binding =
    and_then (unify_term pattern.subject (bound_of fact.subject) binding) (λ binding.
      and_then (unify_predicate pattern.predicate (BoundValue.predicate fact.predicate) binding)
        (λ binding. unify_term pattern.object (bound_of fact.object) binding))

-- The meaning: what a term and a predicate term stand for under a binding.
abbrev pub value_of : Term → Binding → Option BoundValue
value_of (Term.atom a) binding = some (bound_of a)
value_of (Term.variable name) binding = get name binding

abbrev pub predicate_value : PredicateTerm → Binding → Option BoundValue
predicate_value (PredicateTerm.predicate p) binding = some (BoundValue.predicate p)
predicate_value (PredicateTerm.variable name) binding = get name binding

-- Under the binding, the pattern is the fact.
pub record Matches (pattern : Pattern) (fact : Fact) (binding : Binding) : Type 0 where
  pub subject : value_of pattern.subject binding ≡ some (bound_of fact.subject)
  pub predicate :
      predicate_value pattern.predicate binding ≡ some (BoundValue.predicate fact.predicate)
  pub object : value_of pattern.object binding ≡ some (bound_of fact.object)

pub record Extends (b c : Binding) : Type 0 where
  pub keeps : (name : Text) (value : BoundValue) → get name b ≡ some value → get name c ≡ some value

pub Extends-refl : (b : Binding) → Extends b b
Extends-refl b = record { keeps = λ name value e. e }

pub Extends-trans : {a b c : Binding} → Extends a b → Extends b c → Extends a c
Extends-trans e f = record { keeps = λ name value g. f.keeps name value (e.keeps name value g) }

pub value_of-Extends :
    {b c : Binding} (t : Term) (v : BoundValue)
    → Extends b c
    → value_of t b ≡ some v
    → value_of t c ≡ some v
value_of-Extends (Term.atom a) v e h = h
value_of-Extends (Term.variable name) v e h = e.keeps name v h

pub predicate_value-Extends :
    {b c : Binding} (t : PredicateTerm) (v : BoundValue)
    → Extends b c
    → predicate_value t b ≡ some v
    → predicate_value t c ≡ some v
predicate_value-Extends (PredicateTerm.predicate a) v e h = h
predicate_value-Extends (PredicateTerm.variable name) v e h = e.keeps name v h

pub Matches-Extends :
    {b c : Binding} (pattern : Pattern) (fact : Fact)
    → Extends b c
    → Matches pattern fact b
    → Matches pattern fact c
Matches-Extends pattern fact e m = record {
  subject = value_of-Extends pattern.subject (bound_of fact.subject) e m.subject;
  predicate =
      predicate_value-Extends pattern.predicate (BoundValue.predicate fact.predicate) e m.predicate;
  object = value_of-Extends pattern.object (bound_of fact.object) e m.object;
}
