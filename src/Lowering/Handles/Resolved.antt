-- ===== src/Lowering/Handles/Resolved.antt =====
-- Handles that all read a name: sorting and searching them is sorting and searching the names.
use mathlib.Core.Option
use forthdb.Prelude.{
  suc, ◌≡◌, refl, ap, ◌∙◌, Bool, true, false, ◌||◌, List, [], ◌∷◌, ◌++◌, Option, none, some, length,
  if◌then◌else◌, subst,
}
use forthdb.Prelude.Equality.{same, list_equality, nat_equality}
use forthdb.Kernel.Binding.{text_less}
use forthdb.SemanticIsa.Utf8.{Text}
use forthdb.Lowering.Names
use forthdb.Lowering.Names.{collect}
use forthdb.Lowering.Names.Sorted.{dedup-sort}
use forthdb.Lowering.Syntax.{TransactionOp}
use forthdb.Lowering.Context.{StrRef, as_str}
use forthdb.Lowering.Handles.{
  choose, and_then, place_by_key, sort_by_key, dedup_after, dedup_by, tidy, binary_search_by_key,
  position, any,
}

module _ (ops : List TransactionOp) where
  abbrev pub Resolve : List StrRef → List Text → Type 0
  Resolve [] [] = Unit
  Resolve (r ∷ rs) (t ∷ ts) = (as_str ops r ≡ some t) × Resolve rs ts
  Resolve [] (t ∷ ts) = ⊥
  Resolve (r ∷ rs) [] = ⊥

  -- An action on handles gives handles for the names.
  abbrev Gives : Option (List StrRef) → List Text → Type 0
  Gives none ts = ⊥
  Gives (some rs) ts = Resolve rs ts

  Gives-cons :
      (r : StrRef) (t : Text) (o : Option (List StrRef)) (ts : List Text)
      → as_str ops r ≡ some t
      → Gives o ts
      → Gives (Option.map (λ rs. r ∷ rs) o) (t ∷ ts)
  Gives-cons r t (some rs) ts h g = (h, g)
  Gives-cons r t none ts h g = absurd g

  choose-Gives :
      (b : Bool) (o p : Option (List StrRef)) (ts us : List Text)
      → Gives o ts
      → Gives p us
      → Gives (choose (some b) o p) (if b then ts else us)
  choose-Gives true o p ts us g k = g
  choose-Gives false o p ts us g k = k

  and_then-Gives :
      (o : Option (List StrRef)) (f : List StrRef → Option (List StrRef)) (ts us : List Text)
      → Gives o ts
      → ((rs : List StrRef) → Resolve rs ts → Gives (f rs) us)
      → Gives (and_then o f) us
  and_then-Gives none f ts us g k = absurd g
  and_then-Gives (some rs) f ts us g k = k rs g

  pub Resolve-append :
      (rs qs : List StrRef) (ts us : List Text)
      → Resolve rs ts
      → Resolve qs us
      → Resolve (rs ++ qs) (ts ++ us)
  Resolve-append [] qs [] us h k = k
  Resolve-append (r ∷ rs) qs (t ∷ ts) us (here, h) k = (here, Resolve-append rs qs ts us h k)
  Resolve-append [] qs (t ∷ ts) us h k = absurd h
  Resolve-append (r ∷ rs) qs [] us h k = absurd h

  pub Resolve-length : (rs : List StrRef) (ts : List Text) → Resolve rs ts → length rs ≡ length ts
  Resolve-length [] [] h = refl
  Resolve-length (r ∷ rs) (t ∷ ts) (here, h) = ap suc (Resolve-length rs ts h)
  Resolve-length [] (t ∷ ts) h = absurd h
  Resolve-length (r ∷ rs) [] h = absurd h

  place_by_key-Gives :
      (r : StrRef) (t : Text) (qs : List StrRef) (us : List Text)
      → as_str ops r ≡ some t
      → Resolve qs us
      → Gives (place_by_key ops r qs) (Names.place t us)
  unfolding place_by_key Names.place
  place_by_key-Gives r t [] [] h g = (h, tt)
  place_by_key-Gives r t (q ∷ qs) (u ∷ us) h (here, g) =
      let rest =
        Gives-cons q u (place_by_key ops r qs) (Names.place t us) here
          (place_by_key-Gives r t qs us h g) in
      rw (here, h)
        (choose-Gives (text_less u t) _ (some (r ∷ q ∷ qs)) (u ∷ Names.place t us) (t ∷ u ∷ us) rest
          (h, (here, g)))
  place_by_key-Gives r t [] (u ∷ us) h g = absurd g
  place_by_key-Gives r t (q ∷ qs) [] h g = absurd g

  sort_by_key-Gives :
      (rs : List StrRef) (ts : List Text)
      → Resolve rs ts
      → Gives (sort_by_key ops rs) (Names.sort ts)
  unfolding sort_by_key Names.sort
  sort_by_key-Gives [] [] h = tt
  sort_by_key-Gives (r ∷ rs) (t ∷ ts) (here, h) =
      and_then-Gives (sort_by_key ops rs) (place_by_key ops r) (Names.sort ts) _
        (sort_by_key-Gives rs ts h) (λ qs. place_by_key-Gives r t qs (Names.sort ts) here)
  sort_by_key-Gives [] (t ∷ ts) h = absurd h
  sort_by_key-Gives (r ∷ rs) [] h = absurd h

  dedup_after-Gives :
      (last : StrRef) (l : Text) (rs : List StrRef) (ts : List Text)
      → as_str ops last ≡ some l
      → Resolve rs ts
      → Gives (dedup_after ops last rs) (Names.dedup_after l ts)
  unfolding dedup_after Names.dedup_after
  dedup_after-Gives last l [] [] e h = tt
  dedup_after-Gives last l (r ∷ rs) (t ∷ ts) e (here, h) =
      let kept =
        Gives-cons r t (dedup_after ops r rs) (Names.dedup_after t ts) here
          (dedup_after-Gives r t rs ts here h) in
      rw (here, e)
        (choose-Gives (same t l) _ _ (Names.dedup_after l ts) (t ∷ Names.dedup_after t ts)
          (dedup_after-Gives last l rs ts e h) kept)
  dedup_after-Gives last l [] (t ∷ ts) e h = absurd h
  dedup_after-Gives last l (r ∷ rs) [] e h = absurd h

  dedup_by-Gives :
      (rs : List StrRef) (ts : List Text) → Resolve rs ts → Gives (dedup_by ops rs) (Names.dedup ts)
  unfolding dedup_by Names.dedup
  dedup_by-Gives [] [] h = tt
  dedup_by-Gives (r ∷ rs) (t ∷ ts) (here, h) =
      Gives-cons r t (dedup_after ops r rs) (Names.dedup_after t ts) here
        (dedup_after-Gives r t rs ts here h)
  dedup_by-Gives [] (t ∷ ts) h = absurd h
  dedup_by-Gives (r ∷ rs) [] h = absurd h

  Gives-some :
      (o : Option (List StrRef)) (ts : List Text)
      → Gives o ts
      → (rs : List StrRef) × (o ≡ some rs) × Resolve rs ts
  Gives-some none ts g = absurd g
  Gives-some (some rs) ts g = (rs, refl, g)

  -- Sorting handles and removing repetitions never panics and leaves the set of the names.
  pub tidy-Resolve :
      (rs : List StrRef) (ts : List Text)
      → Resolve rs ts
      → (qs : List StrRef) × (tidy ops rs ≡ some qs) × Resolve qs (collect ts)
  unfolding tidy
  tidy-Resolve rs ts h = Gives-some (tidy ops rs) (collect ts) (
      and_then-Gives (sort_by_key ops rs) (dedup_by ops) (Names.sort ts) (collect ts)
        (sort_by_key-Gives rs ts h)
        (λ qs g.
          subst (Gives (dedup_by ops qs)) (dedup-sort ts) (dedup_by-Gives qs (Names.sort ts) g)))

  choose-some :
      {A : Type 0} (b : Bool) {o p : Option A} {x y : A}
      → o ≡ some x
      → p ≡ some y
      → choose (some b) o p ≡ some (if b then x else y)
  choose-some true e f = e
  choose-some false e f = f

  pub binary_search_by_key-Resolve :
      (key : Text) (rs : List StrRef) (ts : List Text)
      → Resolve rs ts
      → binary_search_by_key ops key rs ≡ some (Names.search key ts)
  unfolding binary_search_by_key Names.search
  binary_search_by_key-Resolve key [] [] h = refl
  binary_search_by_key-Resolve key (r ∷ rs) (t ∷ ts) (here, h) =
      rw (here, binary_search_by_key-Resolve key rs ts h)
        (choose-some (same key t) refl (choose-some (text_less key t) refl refl))
  binary_search_by_key-Resolve key [] (t ∷ ts) h = absurd h
  binary_search_by_key-Resolve key (r ∷ rs) [] h = absurd h

  pub position-Resolve :
      (key : Text) (rs : List StrRef) (ts : List Text)
      → Resolve rs ts
      → position ops key rs ≡ some (Names.position key ts)
  unfolding position Names.position
  position-Resolve key [] [] h = refl
  position-Resolve key (r ∷ rs) (t ∷ ts) (here, h) =
      rw (here, position-Resolve key rs ts h) (choose-some (same key t) refl refl)
  position-Resolve key [] (t ∷ ts) h = absurd h
  position-Resolve key (r ∷ rs) [] h = absurd h

  or_else : (b c : Bool) → (if b then true else c) ≡ (b || c)
  or_else true c = refl
  or_else false c = refl

  pub any-Resolve :
      (key : Text) (rs : List StrRef) (ts : List Text)
      → Resolve rs ts
      → any ops key rs ≡ some (Names.contains key ts)
  unfolding any Names.contains
  any-Resolve key [] [] h = refl
  any-Resolve key (r ∷ rs) (t ∷ ts) (here, h) =
      rw (here, any-Resolve key rs ts h)
        (choose-some (same key t) refl refl
          ∙ ap (λ x. some x) (or_else (same key t) (Names.contains key ts)))
  any-Resolve key [] (t ∷ ts) h = absurd h
  any-Resolve key (r ∷ rs) [] h = absurd h
