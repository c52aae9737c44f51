-- ===== src/StackVm/Exec/Preserves.antt =====
-- What an action preserves, whether it returns, is refused or panics.
use forthdb.Prelude.{Bool, true, false, if◌then◌else◌}
use forthdb.StackVm.Exec.{Result, ok, err, panic, Exec, pure, reading, resume, ◌>>=◌}

pub record Preserves {S A : Type 0} (P : S → Type 0) (m : Exec S A) : Type 0 where
  pub at : (s : S) → P s → P (m s).1

module _ {S A : Type 0} {P : S → Type 0} where
  pub Preserves-pure : (a : A) → Preserves P (pure a)
  unfolding pure
  Preserves-pure a = record { at = λ s h. h }

  pub Preserves-reading : (f : S → Result A) → Preserves P (reading f)
  unfolding reading
  Preserves-reading f = record { at = λ s h. h }

  pub Preserves-if :
      (b : Bool) (m n : Exec S A) → Preserves P m → Preserves P n → Preserves P (if b then m else n)
  Preserves-if true m n km kn = km
  Preserves-if false m n km kn = kn

module _ {S A B : Type 0} {P : S → Type 0} where
  Preserves-resume :
      (f : A → Exec S B)
      → ((a : A) → Preserves P (f a))
      → (r : Result A) (s : S) → P s
      → P (resume f r s).1
  Preserves-resume f kf (ok a) s h = (kf a).at s h
  Preserves-resume f kf (err e) s h = h
  Preserves-resume f kf panic s h = h

  pub Preserves-bind :
      (m : Exec S A) (f : A → Exec S B)
      → Preserves P m
      → ((a : A) → Preserves P (f a))
      → Preserves P (m >>= f)
  unfolding ◌>>=◌
  Preserves-bind m f km kf = record {
    at = λ s h. Preserves-resume f kf (m s).0 (m s).1 (km.at s h);
  }

pub ruleset preserves_rules = (Preserves-pure, Preserves-reading, Preserves-if, Preserves-bind)
