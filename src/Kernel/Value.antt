-- ===== src/Kernel/Value.antt =====
-- forthdb-core/src/lib.rs: atoms, terms, facts, patterns and bound values. A Rust `String` is a
-- list of bytes, and the newtypes over `String`, `u64` and `usize` are the types that they wrap.
use forthdb.Prelude.{
  ℕ, ◌≡◌, ◌↔◌, Bool, true, false, ◌&&◌, Option, none, some, List, [], ◌∷◌, arith, ◌==◌,
  if◌then◌else◌,
}
use forthdb.Prelude.Equality.{
  Equality, same, same_refl, same-eq, nat_equality, pair_equality, list_equality,
}

abbrev pub EntityId : Type 0
EntityId = ℕ

abbrev pub RecordId : Type 0
RecordId = ℕ

abbrev pub Text : Type 0
Text = List ℕ

abbrev pub SlotId : Type 0
SlotId = Text

abbrev pub Literal : Type 0
Literal = Text

abbrev pub Predicate : Type 0
Predicate = Text

abbrev pub Symbol : Type 0
Symbol = Text

abbrev pub Variable : Type 0
Variable = Text

-- `Variable::new`: a name that is empty or starts with '?' is refused, and given back.
pub data VariableResult : Type 0 where
  valid invalid : Text → VariableResult

unfoldable pub new_variable : Text → VariableResult
new_variable [] = invalid []
new_variable (c ∷ name) = if c == b'?' then invalid (c ∷ name) else valid (c ∷ name)

pub data Atom : Type 0 where
  entity : EntityId → Atom
  literal : Literal → Atom

pub data Term : Type 0 where
  atom : Atom → Term
  variable : Variable → Term

pub data PredicateTerm : Type 0 where
  predicate : Predicate → PredicateTerm
  variable : Variable → PredicateTerm

pub data SourceTerm : Type 0 where
  atom : Atom → SourceTerm
  variable : Variable → SourceTerm
  symbol : Symbol → SourceTerm

pub record Fact : Type 0 where
  pub subject : Atom
  pub predicate : Predicate
  pub object : Atom

pub record Pattern : Type 0 where
  pub subject : Term
  pub predicate : PredicateTerm
  pub object : Term

pub data BoundValue : Type 0 where
  entity : EntityId → BoundValue
  literal : Literal → BoundValue
  predicate : Predicate → BoundValue

-- `BoundValue::from`
unfoldable pub bound_of : Atom → BoundValue
bound_of (Atom.entity e) = BoundValue.entity e
bound_of (Atom.literal l) = BoundValue.literal l

unfoldable pub as_atom : BoundValue → Option Atom
as_atom (BoundValue.entity e) = some (Atom.entity e)
as_atom (BoundValue.literal l) = some (Atom.literal l)
as_atom (BoundValue.predicate p) = none

unfoldable pub as_predicate : BoundValue → Option Predicate
as_predicate (BoundValue.predicate p) = some p
as_predicate (BoundValue.entity e) = none
as_predicate (BoundValue.literal l) = none

-- The derived `Eq`s.
abbrev pub same_atom : Atom → Atom → Bool
same_atom (Atom.entity e) (Atom.entity f) = same e f
same_atom (Atom.literal l) (Atom.literal m) = same l m
same_atom (Atom.entity e) (Atom.literal m) = false
same_atom (Atom.literal l) (Atom.entity f) = false

same_atom_refl : (a : Atom) → same_atom a a ≡ true
same_atom_refl (Atom.entity e) = same_refl e
same_atom_refl (Atom.literal l) = same_refl l

same_atom-eq : (a b : Atom) → same_atom a b ≡ true → a ≡ b
same_atom-eq (Atom.entity e) (Atom.entity f) h = let p = same-eq e f h in λ i. Atom.entity (p i)
same_atom-eq (Atom.literal l) (Atom.literal m) h = let p = same-eq l m h in λ i. Atom.literal (p i)
same_atom-eq (Atom.entity e) (Atom.literal m) h = cc
same_atom-eq (Atom.literal l) (Atom.entity f) h = cc

pub same_atom_iff : (a b : Atom) → (same_atom a b ≡ true) ↔ (a ≡ b)
same_atom_iff a b = (same_atom-eq a b, λ h. rw (← h) (same_atom_refl a))

instance abbrev pub atom_equality : Equality Atom
atom_equality = record { equals = same_atom; equals_iff = same_atom_iff }

abbrev pub same_fact : Fact → Fact → Bool
same_fact f g = same f.subject g.subject && (same f.predicate g.predicate && same f.object g.object)

pub same_fact_iff : (f g : Fact) → (same_fact f g ≡ true) ↔ (f ≡ g)
same_fact_iff f g = (
  λ h. λ i. record {
    subject = same-eq f.subject g.subject (ground arith) i;
    predicate = same-eq f.predicate g.predicate (ground arith) i;
    object = same-eq f.object g.object (ground arith) i;
  },
  λ h. rw (← h) (ground (arith, same_refl f.subject, same_refl f.predicate, same_refl f.object)),
)

instance abbrev pub fact_equality : Equality Fact
fact_equality = record { equals = same_fact; equals_iff = same_fact_iff }

abbrev pub same_value : BoundValue → BoundValue → Bool
same_value (BoundValue.entity e) (BoundValue.entity f) = same e f
same_value (BoundValue.literal l) (BoundValue.literal m) = same l m
same_value (BoundValue.predicate p) (BoundValue.predicate q) = same p q
same_value (BoundValue.entity e) (BoundValue.literal m) = false
same_value (BoundValue.entity e) (BoundValue.predicate m) = false
same_value (BoundValue.literal e) (BoundValue.entity m) = false
same_value (BoundValue.literal e) (BoundValue.predicate m) = false
same_value (BoundValue.predicate e) (BoundValue.entity m) = false
same_value (BoundValue.predicate e) (BoundValue.literal m) = false

same_value_refl : (a : BoundValue) → same_value a a ≡ true
same_value_refl (BoundValue.entity e) = same_refl e
same_value_refl (BoundValue.literal l) = same_refl l
same_value_refl (BoundValue.predicate p) = same_refl p

same_value-eq : (a b : BoundValue) → same_value a b ≡ true → a ≡ b
same_value-eq (BoundValue.entity e) (BoundValue.entity f) h =
    let p = same-eq e f h in λ i. BoundValue.entity (p i)
same_value-eq (BoundValue.literal e) (BoundValue.literal f) h =
    let p = same-eq e f h in λ i. BoundValue.literal (p i)
same_value-eq (BoundValue.predicate e) (BoundValue.predicate f) h =
    let p = same-eq e f h in λ i. BoundValue.predicate (p i)
same_value-eq (BoundValue.entity e) (BoundValue.literal m) h = cc
same_value-eq (BoundValue.entity e) (BoundValue.predicate m) h = cc
same_value-eq (BoundValue.literal e) (BoundValue.entity m) h = cc
same_value-eq (BoundValue.literal e) (BoundValue.predicate m) h = cc
same_value-eq (BoundValue.predicate e) (BoundValue.entity m) h = cc
same_value-eq (BoundValue.predicate e) (BoundValue.literal m) h = cc

pub same_value_iff : (a b : BoundValue) → (same_value a b ≡ true) ↔ (a ≡ b)
same_value_iff a b = (same_value-eq a b, λ h. rw (← h) (same_value_refl a))

instance abbrev pub value_equality : Equality BoundValue
value_equality = record { equals = same_value; equals_iff = same_value_iff }
