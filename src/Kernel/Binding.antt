-- ===== src/Kernel/Binding.antt =====
-- forthdb-core/src/lib.rs: `Binding`, a `BTreeMap` from names to bound values, as an association
-- list that `bind` keeps sorted by name.
use forthdb.Prelude.{
  ◌≡◌, refl, Bool, true, false, some, [], ◌∷◌, arith, ltb, ◌==◌, if◌then◌else◌, Bool-cases, inl,
  inr,
}
use forthdb.Prelude.Map.{Map, get}
use forthdb.Prelude.Equality.{same, same_refl, same-eq, nat_equality, list_equality}
use forthdb.Kernel.Value.{Text, BoundValue}

abbrev pub Binding : Type 0
Binding = Map Text BoundValue

-- `String::cmp` compares bytes.
unfoldable pub text_less : Text → Text → Bool
text_less [] [] = false
text_less [] (c ∷ t) = true
text_less (b ∷ s) [] = false
text_less (b ∷ s) (c ∷ t) = let rest = text_less s t in if b == c then rest else ltb b c

-- `extended.insert(name, value)`
unfoldable pub bind : Text → BoundValue → Binding → Binding
bind name value [] = (name, value) ∷ []
bind name value ((j, w) ∷ binding) =
    let rest = bind name value binding in
    if same name j
    then (name, value) ∷ binding
    else if text_less name j
    then (name, value) ∷ (j, w) ∷ binding
    else (j, w) ∷ rest

pub get-bind :
    (k name : Text) (value : BoundValue) (binding : Binding)
    → get k (bind name value binding) ≡ (if same k name then some value else get k binding)
unfolding get bind
get-bind k name value [] = refl
get-bind k name value ((j, w) ∷ binding) = elim (Bool-cases (same name j)) [
  | inl p ↦ rw (p, same-eq name j p) (ground arith)
  | inr p ↦ elim (Bool-cases (same k name)) [
    | inl q ↦
        rw (same-eq k name q, p, same_refl name)
          (ground (arith, get-bind name name value binding, same_refl name))
    | inr q ↦ rw (p, q) (ground (arith, get-bind k name value binding))
  ]
]
