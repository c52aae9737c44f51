-- ===== src/StackVm/Exec/Meets.antt =====
-- Total correctness of an action: from `P` it does not panic, and where it returns `Q` holds.
use forthdb.Prelude.{◌≢◌, refl, Bool, true, false, if◌then◌else◌}
use forthdb.StackVm.Exec.{Result, ok, err, panic, Exec, pure, reading, resume, ◌>>=◌}

-- A refused action may stop anywhere: what it leaves is undone, not used.
abbrev pub Returns : {S A : Type 0} → (A → S → Type 0) → Result A → S → Type 0
Returns Q (ok a) s = Q a s
Returns Q (err e) s = Unit {0}
Returns Q panic s = ⊥

pub record Meets {S A : Type 0} (P : S → Type 0) (Q : A → S → Type 0) (m : Exec S A) : Type 0 where
  pub at : (s : S) → P s → Returns Q (m s).0 (m s).1

module _ {S A : Type 0} (Q : A → S → Type 0) where
  pub Returns-if :
      (b : Bool) (x y : Result A × S)
      → Returns Q x.0 x.1
      → Returns Q y.0 y.1
      → Returns Q (if b then x else y).0 (if b then x else y).1
  Returns-if true x y hx hy = hx
  Returns-if false x y hx hy = hy

module _ {S A : Type 0} where
  pub Returns-same :
      (Q : S → Type 0) (r : Result A) (s : S) → r ≢ panic → Q s → Returns (λ _. Q) r s
  Returns-same Q (ok a) s h q = q
  Returns-same Q (err e) s h q = tt
  Returns-same Q panic s h q = h refl

module _ {S A : Type 0} {Q R : A → S → Type 0} where
  pub Returns-mono :
      (r : Result A) (s : S) → ((a : A) (s : S) → Q a s → R a s) → Returns Q r s → Returns R r s
  Returns-mono (ok a) s f h = f a s h
  Returns-mono (err e) s f h = tt
  Returns-mono panic s f h = h

module _ {S A : Type 0} where
  pub Meets-pure :
      {P : S → Type 0} {Q : A → S → Type 0} (a : A) → ((s : S) → P s → Q a s) → Meets P Q (pure a)
  unfolding pure
  Meets-pure a h = record { at = h }

  -- Reading writes nothing; the result may be used.
  pub Meets-reading :
      {P : S → Type 0} {Q : A → S → Type 0} (f : S → Result A)
      → ((s : S) → P s → Returns Q (f s) s)
      → Meets P Q (reading f)
  unfolding reading
  Meets-reading f h = record { at = h }

module _ {S A : Type 0} {P : S → Type 0} {Q R : A → S → Type 0} where
  pub Meets-mono : {m : Exec S A} → ((a : A) (s : S) → Q a s → R a s) → Meets P Q m → Meets P R m
  Meets-mono {m} f k = record { at = λ s h. Returns-mono (m s).0 (m s).1 f (k.at s h) }

module _ {S A B : Type 0} {Q : A → S → Type 0} {R : B → S → Type 0} where
  Meets-resume :
      (f : A → Exec S B)
      → ((a : A) → Meets (Q a) R (f a))
      → (r : Result A) (s : S) → Returns Q r s
      → Returns R (resume f r s).0 (resume f r s).1
  Meets-resume f kf (ok a) s h = (kf a).at s h
  Meets-resume f kf (err e) s h = tt
  Meets-resume f kf panic s h = h

  pub Meets-bind :
      {P : S → Type 0} (m : Exec S A) (f : A → Exec S B)
      → Meets P Q m
      → ((a : A) → Meets (Q a) R (f a))
      → Meets P R (m >>= f)
  unfolding ◌>>=◌
  Meets-bind m f km kf = record { at = λ s h. Meets-resume f kf (m s).0 (m s).1 (km.at s h) }
