-- ===== src/Lowering/Faults/Covers.antt =====
-- transaction_ast.rs: every `unwrap` of the second pass finds its name, so that the lowering ends
-- with a frame or with the error that the transaction has.

use mathlib.Core.List.{append_assoc, append-nil}
use forthdb.Prelude.{
  ◌≡◌, refl, sym, ap, ◌∙◌, inl, inr, true, ◌||◌, List, [], ◌∷◌, ◌++◌, none, some, Bool-cases, arith,
}
use forthdb.Prelude.Equality.{same_refl, list_equality, nat_equality}
use forthdb.SemanticIsa.Utf8.{Text}
use forthdb.Lowering.Names.{contains}
use forthdb.Lowering.Syntax.{
  AtomRef, entity, literal, symbol, TransactionOp, allocate, expect_world, expect_object, define,
  forget, reject, duplicate_allocation,
}
use forthdb.Lowering.Context.{Outcome, done, failed, panic}
use forthdb.Lowering.Plan.{Texts, literals_of, gather, repeated, gather_all}
use forthdb.Lowering.Faults.{allocated, first_repeat}

contains-append :
    (t : Text) (xs ys : List Text) → contains t (xs ++ ys) ≡ (contains t xs || contains t ys)
unfolding contains
contains-append t [] ys = refl
contains-append t (x ∷ xs) ys = ground (arith, contains-append t xs ys)

-- The texts hold every name that an operation uses.
abbrev pub CoversAtom : Texts → AtomRef → Type 0
CoversAtom t (literal l) = contains l t.literals ≡ true
CoversAtom t (entity _) = Unit
CoversAtom t (symbol _) = Unit

abbrev pub Covers : Texts → TransactionOp → Type 0
Covers t (allocate result) = contains result t.symbols ≡ true
Covers t (expect_world _) = Unit
Covers t (expect_object slot expected) = (contains slot t.slots ≡ true) × CoversAtom t expected
Covers t (define slot subject predicate object) =
    (contains slot t.slots ≡ true)
    × (contains predicate t.predicates ≡ true)
    × CoversAtom t subject
    × CoversAtom t object
Covers t (forget slot) = contains slot t.slots ≡ true
Covers t reject = Unit

abbrev pub CoversAll : Texts → List TransactionOp → Type 0
CoversAll t [] = Unit
CoversAll t (op ∷ ops) = Covers t op × CoversAll t ops

-- Later texts hold what earlier ones held.
pub record Grows (t u : Texts) : Type 0 where
  slots : (x : Text) → contains x t.slots ≡ true → contains x u.slots ≡ true
  predicates : (x : Text) → contains x t.predicates ≡ true → contains x u.predicates ≡ true
  literals : (x : Text) → contains x t.literals ≡ true → contains x u.literals ≡ true
  symbols : (x : Text) → contains x t.symbols ≡ true → contains x u.symbols ≡ true

Grows-refl : (t : Texts) → Grows t t
Grows-refl t = record {
  slots = λ x h. h;
  predicates = λ x h. h;
  literals = λ x h. h;
  symbols = λ x h. h;
}

Grows-trans : (t u v : Texts) → Grows t u → Grows u v → Grows t v
Grows-trans t u v g h = record {
  slots = λ x k. h.slots x (g.slots x k);
  predicates = λ x k. h.predicates x (g.predicates x k);
  literals = λ x k. h.literals x (g.literals x k);
  symbols = λ x k. h.symbols x (g.symbols x k);
}

kept : (x : Text) (xs ys : List Text) → contains x xs ≡ true → contains x (xs ++ ys) ≡ true
kept x xs ys h = ground (arith, contains-append x xs ys)

gather-Grows : (op : TransactionOp) (t : Texts) → Grows t (gather op t)
unfolding gather
gather-Grows (allocate result) t = record {
  slots = λ x h. h;
  predicates = λ x h. h;
  literals = λ x h. h;
  symbols = λ x h. kept x t.symbols (result ∷ []) h;
}
gather-Grows (expect_world w) t = Grows-refl t
gather-Grows (expect_object slot expected) t = record {
  slots = λ x h. kept x t.slots (slot ∷ []) h;
  predicates = λ x h. h;
  literals = λ x h. kept x t.literals (literals_of expected) h;
  symbols = λ x h. h;
}
gather-Grows (define slot subject predicate object) t = record {
  slots = λ x h. kept x t.slots (slot ∷ []) h;
  predicates = λ x h. kept x t.predicates (predicate ∷ []) h;
  literals = λ x h.
      kept x (t.literals ++ literals_of subject) (literals_of object)
        (kept x t.literals (literals_of subject) h);
  symbols = λ x h. h;
}
gather-Grows (forget slot) t = record {
  slots = λ x h. kept x t.slots (slot ∷ []) h;
  predicates = λ x h. h;
  literals = λ x h. h;
  symbols = λ x h. h;
}
gather-Grows reject t = Grows-refl t

Grows-CoversAtom : (t u : Texts) (a : AtomRef) → Grows t u → CoversAtom t a → CoversAtom u a
Grows-CoversAtom t u (literal l) g h = g.literals l h
Grows-CoversAtom t u (entity e) g h = h
Grows-CoversAtom t u (symbol s) g h = h

Grows-Covers : (t u : Texts) (op : TransactionOp) → Grows t u → Covers t op → Covers u op
Grows-Covers t u (allocate result) g h = g.symbols result h
Grows-Covers t u (expect_world w) g h = h
Grows-Covers t u (expect_object slot expected) g (h, k) =
    (g.slots slot h, Grows-CoversAtom t u expected g k)
Grows-Covers t u (define slot subject predicate object) g (h, k, a, b) = (
  g.slots slot h,
  g.predicates predicate k,
  Grows-CoversAtom t u subject g a,
  Grows-CoversAtom t u object g b,
)
Grows-Covers t u (forget slot) g h = g.slots slot h
Grows-Covers t u reject g h = h

last_contained : (x : Text) (xs : List Text) → contains x (xs ++ x ∷ []) ≡ true
unfolding contains
last_contained x xs = contains-append x xs (x ∷ []) ∙ ground (arith, same_refl x)

literal-CoversAtom :
    (t : Texts) (ls : List Text) (a : AtomRef) → t.literals ≡ ls ++ literals_of a → CoversAtom t a
literal-CoversAtom t ls (literal l) e = ap (contains l) e ∙ last_contained l ls
literal-CoversAtom t ls (entity _) e = tt
literal-CoversAtom t ls (symbol _) e = tt

kept-CoversAtom :
    (t u : Texts) (a : AtomRef)
    → ((x : Text) → contains x t.literals ≡ true → contains x u.literals ≡ true)
    → CoversAtom t a
    → CoversAtom u a
kept-CoversAtom t u (literal l) g h = g l h
kept-CoversAtom t u (entity _) g h = h
kept-CoversAtom t u (symbol _) g h = h

gather-Covers : (op : TransactionOp) (t : Texts) → Covers (gather op t) op
unfolding gather
gather-Covers (allocate result) t = last_contained result t.symbols
gather-Covers (expect_world w) t = tt
gather-Covers (expect_object slot expected) t = (
  last_contained slot t.slots,
  literal-CoversAtom (gather (expect_object slot expected) t) t.literals expected refl,
)
gather-Covers (define slot subject predicate object) t =
    let t1 : Texts = record t { literals = t.literals ++ literals_of subject } in
    let t2 = gather (define slot subject predicate object) t in
    (
      last_contained slot t.slots,
      last_contained predicate t.predicates,
      kept-CoversAtom t1 t2 subject
          (λ x h. kept x (t.literals ++ literals_of subject) (literals_of object) h)
          (literal-CoversAtom t1 t.literals subject refl),
      literal-CoversAtom t2 (t.literals ++ literals_of subject) object refl,
    )
gather-Covers (forget slot) t = last_contained slot t.slots
gather-Covers reject t = tt

-- What the first pass gives.
abbrev pub Gathers : List TransactionOp → Texts → Outcome Texts → Type 0
Gathers ops t (done u) =
    (first_repeat t.symbols ops ≡ none)
    × Grows t u
    × CoversAll u ops
    × (u.symbols ≡ t.symbols ++ allocated ops)
Gathers ops t (failed e) = first_repeat t.symbols ops ≡ some e
Gathers ops t panic = ⊥

-- One operation further, if it repeats no symbol.
Gathers-cons :
    (op : TransactionOp) (ops : List TransactionOp) (t : Texts) (o : Outcome Texts)
    → first_repeat t.symbols (op ∷ ops) ≡ first_repeat (gather op t).symbols ops
    → (gather op t).symbols ++ allocated ops ≡ t.symbols ++ allocated (op ∷ ops)
    → Gathers ops (gather op t) o
    → Gathers (op ∷ ops) t o
Gathers-cons op ops t (done u) er es (e, g, c, s) = (
  er ∙ e,
  Grows-trans t (gather op t) u (gather-Grows op t) g,
  (Grows-Covers (gather op t) u op g (gather-Covers op t), c),
  s ∙ es,
)
Gathers-cons op ops t (failed x) er es e = er ∙ e
Gathers-cons op ops t panic er es e = e

pub gather_all-Gathers : (ops : List TransactionOp) (t : Texts) → Gathers ops t (gather_all ops t)
unfolding gather_all first_repeat allocated repeated gather
gather_all-Gathers [] t = (refl, Grows-refl t, tt, sym (append-nil t.symbols))
gather_all-Gathers (allocate result ∷ ops) t = elim (Bool-cases (contains result t.symbols)) [
  | inl p ↦
      let e : first_repeat t.symbols (allocate result ∷ ops) ≡ some (duplicate_allocation result) =
        rw p refl in
      rw p e
  | inr p ↦ rw p (
      Gathers-cons (allocate result) ops t (gather_all ops (gather (allocate result) t)) (rw p refl)
        (append_assoc t.symbols (result ∷ []) (allocated ops))
        (gather_all-Gathers ops (gather (allocate result) t)))
]
gather_all-Gathers (expect_world w ∷ ops) t =
    Gathers-cons (expect_world w) ops t _ refl refl
      (gather_all-Gathers ops (gather (expect_world w) t))
gather_all-Gathers (expect_object slot a ∷ ops) t =
    Gathers-cons (expect_object slot a) ops t _ refl refl
      (gather_all-Gathers ops (gather (expect_object slot a) t))
gather_all-Gathers (define slot a p b ∷ ops) t =
    Gathers-cons (define slot a p b) ops t _ refl refl
      (gather_all-Gathers ops (gather (define slot a p b) t))
gather_all-Gathers (forget slot ∷ ops) t =
    Gathers-cons (forget slot) ops t _ refl refl (gather_all-Gathers ops (gather (forget slot) t))
gather_all-Gathers (reject ∷ ops) t =
    Gathers-cons reject ops t _ refl refl (gather_all-Gathers ops (gather reject t))
