-- ===== src/Kernel/Query/Order.antt =====
-- forthdb-core/src/lib.rs: the derived orders that `query` sorts its frames by.
use Prim.Native.Nat.{compare, Ordering}
use forthdb.Prelude.{List, [], ◌∷◌}
use forthdb.Kernel.Value.{Text, BoundValue, SlotId}
use forthdb.Kernel.Binding.{Binding}

-- `Ordering::then`
abbrev pub then_compare : Ordering → Ordering → Ordering
then_compare Ordering.eq o = o
then_compare Ordering.lt o = Ordering.lt
then_compare Ordering.gt o = Ordering.gt

-- `Iterator::cmp`, and the order of a `String`, which is that of its bytes.
unfoldable pub list_cmp : {A : Type 0} → (A → A → Ordering) → List A → List A → Ordering
list_cmp cmp [] [] = Ordering.eq
list_cmp cmp [] (y ∷ ys) = Ordering.lt
list_cmp cmp (x ∷ xs) [] = Ordering.gt
list_cmp cmp (x ∷ xs) (y ∷ ys) = then_compare (cmp x y) (list_cmp cmp xs ys)

abbrev pub text_cmp : Text → Text → Ordering
text_cmp = list_cmp compare

-- The derived order of `BoundValue`: by variant, then by content.
unfoldable pub value_cmp : BoundValue → BoundValue → Ordering
value_cmp (BoundValue.entity e) (BoundValue.entity f) = compare e f
value_cmp (BoundValue.entity e) (BoundValue.literal m) = Ordering.lt
value_cmp (BoundValue.entity e) (BoundValue.predicate q) = Ordering.lt
value_cmp (BoundValue.literal l) (BoundValue.entity f) = Ordering.gt
value_cmp (BoundValue.literal l) (BoundValue.literal m) = text_cmp l m
value_cmp (BoundValue.literal l) (BoundValue.predicate q) = Ordering.lt
value_cmp (BoundValue.predicate p) (BoundValue.entity f) = Ordering.gt
value_cmp (BoundValue.predicate p) (BoundValue.literal m) = Ordering.gt
value_cmp (BoundValue.predicate p) (BoundValue.predicate q) = text_cmp p q

abbrev entry_cmp : Text × BoundValue → Text × BoundValue → Ordering
entry_cmp (k, v) (j, w) = then_compare (text_cmp k j) (value_cmp v w)

abbrev pub binding_cmp : Binding → Binding → Ordering
binding_cmp = list_cmp entry_cmp

abbrev pub provenance_cmp : List SlotId → List SlotId → Ordering
provenance_cmp = list_cmp text_cmp
