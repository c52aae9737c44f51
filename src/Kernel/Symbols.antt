-- ===== src/Kernel/Symbols.antt =====
-- forthdb-core/src/lib.rs: display names and symbols, which are facts of slots with derived names,
-- and the compilation of source terms. The outer option is a panic.
use native.Mathlib.Nat.{pow-suc}
use mathlib.Core.Option
use mathlib.Core.List.{reverse, reverse-reverse}
use forthdb.Prelude.{
  ℕ, zero, suc, drop, ◌-◌, ◌+◌, ◌*◌, ◌/◌, ◌%◌, ◌^◌, ◌<◌, ◌≡◌, refl, ap, sym, ◌∙◌, Option, none,
  some, [], ◌∷◌, ◌++◌, arith, ltb, if◌then◌else◌, Bool-cases, inl, inr,
}
use forthdb.Prelude.Equality.{same_refl, nat_equality, list_equality}
use forthdb.Kernel.Value.{
  Text, EntityId, RecordId, SlotId, Symbol, Predicate, Atom, Term, PredicateTerm, SourceTerm, Fact,
  Pattern, BoundValue,
}
use forthdb.Kernel.Store.Stacks.{Stacks, pushed}
use forthdb.Kernel.Db.{ForthDb, define, resolve}
use forthdb.Kernel.Db.Sound.{IsSound}
use forthdb.Kernel.Db.Steps.{define-IsSound}
use forthdb.Kernel.Db.Runs.{resolve-eq}

-- A number's decimal digits, the last one first; 20 digits are enough for a `u64`.
unfoldable pub digits : ℕ → ℕ → Text
digits zero n = []
digits (suc fuel) n =
    let rest = digits fuel (n / 10) in if ltb n 10 then (b'0' + n) ∷ [] else (b'0' + n % 10) ∷ rest

unfoldable pub decimal : ℕ → Text
decimal n = reverse (digits 20 n)

-- "display/", "namespace/" and "Entity_"
abbrev display_prefix : Text
display_prefix = b'd' ∷ b'i' ∷ b's' ∷ b'p' ∷ b'l' ∷ b'a' ∷ b'y' ∷ b'/' ∷ []

abbrev namespace_prefix : Text
namespace_prefix = b'n' ∷ b'a' ∷ b'm' ∷ b'e' ∷ b's' ∷ b'p' ∷ b'a' ∷ b'c' ∷ b'e' ∷ b'/' ∷ []

abbrev entity_prefix : Text
entity_prefix = b'E' ∷ b'n' ∷ b't' ∷ b'i' ∷ b't' ∷ b'y' ∷ b'_' ∷ []

-- "display_name" and "resolves_to"
abbrev pub display_name_predicate : Predicate
display_name_predicate =
    b'd' ∷ b'i' ∷ b's' ∷ b'p' ∷ b'l' ∷ b'a' ∷ b'y' ∷ b'_' ∷ b'n' ∷ b'a' ∷ b'm' ∷ b'e' ∷ []

abbrev pub resolves_to : Predicate
resolves_to = b'r' ∷ b'e' ∷ b's' ∷ b'o' ∷ b'l' ∷ b'v' ∷ b'e' ∷ b's' ∷ b'_' ∷ b't' ∷ b'o' ∷ []

unfoldable pub display_slot : EntityId → SlotId
display_slot entity = display_prefix ++ decimal entity

unfoldable pub symbol_slot : Text → Symbol → SlotId
symbol_slot namespace symbol = namespace_prefix ++ (namespace ++ b'/' ∷ symbol)

unfoldable pub define_display_name : EntityId → Text → ForthDb → Option (RecordId × ForthDb)
define_display_name entity name = define (display_slot entity) (record {
  subject = Atom.entity entity;
  predicate = display_name_predicate;
  object = Atom.literal name;
})

abbrev as_literal : Atom → Option Text
as_literal (Atom.literal value) = some value
as_literal (Atom.entity e) = none

abbrev literal_of : Option Fact → Option Text
literal_of none = none
literal_of (some fact) = as_literal fact.object

abbrev or_else : Option Text → Text → Text
or_else none name = name
or_else (some value) name = value

unfoldable pub display_name : EntityId → ForthDb → Option Text
display_name entity db =
    Option.map (λ fact. or_else (literal_of fact) (entity_prefix ++ decimal entity))
      (resolve (display_slot entity) db)

unfoldable pub bind_symbol : Text → Symbol → EntityId → ForthDb → Option (RecordId × ForthDb)
bind_symbol namespace symbol entity = define (symbol_slot namespace symbol) (record {
  subject = Atom.literal (namespace ++ b':' ∷ symbol);
  predicate = resolves_to;
  object = Atom.entity entity;
})

abbrev as_entity : Atom → Option EntityId
as_entity (Atom.entity e) = some e
as_entity (Atom.literal value) = none

abbrev entity_of : Option Fact → Option EntityId
entity_of none = none
entity_of (some fact) = as_entity fact.object

unfoldable pub resolve_symbol : Text → Symbol → ForthDb → Option (Option EntityId)
resolve_symbol namespace symbol db =
    Option.map entity_of (resolve (symbol_slot namespace symbol) db)

-- `Err` carries the name that is not bound.
pub data Compiled (A : Type 0) : Type 0 where
  compiled : A → Compiled A
  unbound_symbol : Text → Compiled A

abbrev or_unbound : Text → Option EntityId → Compiled Term
or_unbound name none = unbound_symbol name
or_unbound name (some e) = compiled (Term.atom (Atom.entity e))

unfoldable pub compile_term : Text → SourceTerm → ForthDb → Option (Compiled Term)
compile_term namespace (SourceTerm.atom a) db = some (compiled (Term.atom a))
compile_term namespace (SourceTerm.variable v) db = some (compiled (Term.variable v))
compile_term namespace (SourceTerm.symbol s) db =
    Option.map (or_unbound (namespace ++ b':' ∷ s)) (resolve_symbol namespace s db)

abbrev pattern_of :
    Predicate → Option (Compiled Term) → Option (Compiled Term) → Option (Compiled Pattern)
pattern_of p none object = none
pattern_of p (some (unbound_symbol name)) object = some (unbound_symbol name)
pattern_of p (some (compiled s)) none = none
pattern_of p (some (compiled s)) (some (unbound_symbol name)) = some (unbound_symbol name)
pattern_of p (some (compiled s)) (some (compiled o)) =
    some (compiled (record { subject = s; predicate = PredicateTerm.predicate p; object = o }))

unfoldable pub compile_pattern :
    Text → SourceTerm → Predicate → SourceTerm → ForthDb → Option (Compiled Pattern)
compile_pattern namespace subject predicate object db =
    pattern_of predicate (compile_term namespace subject db) (compile_term namespace object db)

unfoldable pub render_value : BoundValue → ForthDb → Option Text
render_value (BoundValue.entity e) db = display_name e db
render_value (BoundValue.literal l) db = some l
render_value (BoundValue.predicate p) db = some p

-- A symbol that is bound in a sound database resolves to its entity.
pub resolve_symbol-bind_symbol :
    (namespace : Text) (symbol : Symbol) (entity : EntityId) (db : ForthDb) (stacks : Stacks)
    → IsSound db stacks
    → (id : RecordId) × (db' : ForthDb) × (bind_symbol namespace symbol entity db ≡ some (id, db'))
      × (resolve_symbol namespace symbol db' ≡ some (some entity))
unfolding bind_symbol resolve_symbol
resolve_symbol-bind_symbol namespace symbol entity db stacks h =
    let slot = symbol_slot namespace symbol in
    let fact : Fact = record {
      subject = Atom.literal (namespace ++ b':' ∷ symbol);
      predicate = resolves_to;
      object = Atom.entity entity;
    } in
    let (db', defined, h') = define-IsSound slot fact db stacks h in
    let resolved = resolve-eq db' (pushed slot fact stacks) slot h' in
    (_, db', defined, rw (resolved, same_refl slot) refl)

from_digits : Text → ℕ
from_digits [] = 0
from_digits (d ∷ ds) = (d - b'0') + 10 * from_digits ds

from_digits-digits : (fuel n : ℕ) → n < 10 ^ fuel → from_digits (digits fuel n) ≡ n
unfolding from_digits digits
from_digits-digits zero n h = omega arith
from_digits-digits (suc fuel) n h =
    let p = pow-suc 10 fuel in
    let rest = from_digits-digits fuel (n / 10) (omega arith) in
    elim (Bool-cases (ltb n 10)) [
      | inl small ↦ rw small (omega arith)
      | inr large ↦ rw (large, rest) (omega arith)
    ]

-- Two entities, as `u64` numbers, with the same display slot are the same.
pub display_slot-injective :
    (e f : EntityId) → e < 2 ^ 64 → f < 2 ^ 64 → display_slot e ≡ display_slot f → e ≡ f
unfolding display_slot decimal
display_slot-injective e f small_e small_f h =
    let names : reverse (digits 20 e) ≡ reverse (digits 20 f) = ap (drop 8) h in
    let same_digits : digits 20 e ≡ digits 20 f =
      sym (reverse-reverse (digits 20 e)) ∙ ap reverse names ∙ reverse-reverse (digits 20 f) in
    sym (from_digits-digits 20 e (omega arith))
    ∙ ap from_digits same_digits
    ∙ from_digits-digits 20 f (omega arith)
