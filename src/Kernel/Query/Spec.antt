-- ===== src/Kernel/Query/Spec.antt =====
-- What the frames of a walk should be: the least bindings under which every pattern is an active
-- fact.
use forthdb.Prelude.{◌≡◌, ◌⊎◌, inl, inr, some, List, [], ◌∷◌, ◌++◌, false}
use forthdb.Prelude.Equality.{nat_equality, list_equality}
use forthdb.Kernel.Value.{RecordId, Fact, Pattern, atom_equality}
use forthdb.Kernel.Binding.{Binding}
use forthdb.Kernel.Unify.{Matches, Extends}
use forthdb.Kernel.Store.{DefinitionStore}
use forthdb.Kernel.Store.Active.{active}
use forthdb.Kernel.Query.{Frame, Walk, Outcome}

abbrev pub All : {A : Type 0} → (A → Type 0) → List A → Type 0
All P [] = Unit
All P (x ∷ xs) = P x × All P xs

abbrev pub Any : {A : Type 0} → (A → Type 0) → List A → Type 0
Any P [] = ⊥
Any P (x ∷ xs) = P x ⊎ Any P xs

module _ {A : Type 0} (P : A → Type 0) where
  pub All-append : (xs ys : List A) → All P xs → All P ys → All P (xs ++ ys)
  All-append [] ys p q = q
  All-append (x ∷ xs) ys (h, p) q = (h, All-append xs ys p q)

  pub Any-append_left : (xs ys : List A) → Any P xs → Any P (xs ++ ys)
  Any-append_left [] ys p = absurd p
  Any-append_left (x ∷ xs) ys (inl h) = inl h
  Any-append_left (x ∷ xs) ys (inr p) = inr (Any-append_left xs ys p)

  pub Any-append_right : (xs ys : List A) → Any P ys → Any P (xs ++ ys)
  Any-append_right [] ys p = p
  Any-append_right (x ∷ xs) ys p = inr (Any-append_right xs ys p)

module _ {A : Type 0} {P Q : A → Type 0} (f : (x : A) → P x → Q x) where
  pub All-map : (xs : List A) → All P xs → All Q xs
  All-map [] p = tt
  All-map (x ∷ xs) (h, p) = (f x h, All-map xs p)

-- Under the binding, the pattern is an active fact.
pub record Holds (store : DefinitionStore) (pattern : Pattern) (theta : Binding) : Type 0 where
  pub id : RecordId
  pub fact : Fact
  pub active : active store id ≡ some fact
  pub matches : Matches pattern fact theta

abbrev pub AllHold : DefinitionStore → List Pattern → Binding → Type 0
AllHold store patterns theta = All (λ pattern. Holds store pattern theta) patterns

abbrev pub IsAnswer : DefinitionStore → List Pattern → Binding → Frame → Type 0
IsAnswer store patterns b frame = Extends b frame.binding × AllHold store patterns frame.binding

-- Every frame is an answer, and every answer extends that of some frame.
pub record Answers (store : DefinitionStore) (patterns : List Pattern) (b : Binding)
    (frames : List Frame) : Type 0 where
  pub sound : All (IsAnswer store patterns b) frames
  pub complete :
      (theta : Binding)
      → Extends b theta
      → AllHold store patterns theta
      → Any (λ frame. Extends frame.binding theta) frames

-- A visit returns without reaching a limit and appends answers.
pub record Appends (outcome : Outcome) (w : Walk) (Good : List Frame → Type 0) : Type 0 where
  pub frames : List Frame
  pub after : Walk
  pub returns : outcome ≡ some (false, after)
  pub output : after.output ≡ w.output ++ frames
  pub good : Good frames
