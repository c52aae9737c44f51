-- ===== src/World/Replay/Candidate.antt =====
-- lib.rs: replaying the frame of a candidate gives the world that the commit makes.
use forthdb.Prelude.{ℕ, ◌≡◌, refl, List, [], ◌∷◌, ◌++◌, ==_refl, Bool, true, false}
use forthdb.Kernel.Shared.{ForthDb}
use forthdb.Kernel.Shared
use forthdb.World.Commit.{Operation, CommitFrame}
use forthdb.World.Replay.{
  Checked, ok, err, panic, and_then, validated, World, CandidateWorld, candidate_of, construct,
  commit_frame, into_world, apply_all, replay, replay_all,
}

-- The candidate was built from an accepted kernel.
abbrev pub Replays : World → Checked CandidateWorld → Type 0
Replays base (ok c) = replay base (commit_frame c) ≡ ok (into_world c (commit_frame c) base.frames)
Replays base (err e) = Unit
Replays base panic = Unit

pub construct-Replays :
    (base : World) (operations : List Operation) → Replays base (construct base operations)
unfolding construct replay commit_frame into_world
construct-Replays base operations = go (apply_all operations (base.kernel, base.next_entity)) refl
  where
    go :
        (r : Checked (ForthDb × ℕ))
        → apply_all operations (base.kernel, base.next_entity) ≡ r
        → Replays base (
            and_then r (λ state.
              and_then
                (validated (Shared.validate state.0))
                (λ _. ok (candidate_of base operations state))))
    go (ok (kernel, next_entity)) e = check (Shared.validate kernel) refl
      where
        check :
            (v : Bool)
            → Shared.validate kernel ≡ v
            → Replays base (
                and_then
                  (validated v)
                  (λ _. ok (candidate_of base operations (kernel, next_entity))))
        check true accepted =
            rw
              (
                ==_refl base.id,
                ==_refl base.version,
                e,
                ==_refl next_entity,
                accepted,
                ==_refl (candidate_of base operations (kernel, next_entity)).id,
              )
              refl
        check false accepted = tt
    go (err x) e = tt
    go panic e = tt

-- A history with one more frame.
pub replay_all-append :
    (w : World) (fs : List CommitFrame) (f : CommitFrame)
    → replay_all w (fs ++ f ∷ []) ≡ and_then (replay_all w fs) (λ w. replay w f)
unfolding replay_all
replay_all-append w [] f = and_then-ok (replay w f)
  where
    and_then-ok : (r : Checked World) → and_then r (λ w. ok w) ≡ r
    and_then-ok (ok w) = refl
    and_then-ok (err e) = refl
    and_then-ok panic = refl
replay_all-append w (g ∷ fs) f = go (replay w g) (λ v. replay_all-append v fs f)
  where
    go :
        (r : Checked World)
        → ((v : World) → replay_all v (fs ++ f ∷ []) ≡ and_then (replay_all v fs) (λ w. replay w f))
        → and_then r (λ v. replay_all v (fs ++ f ∷ []))
          ≡ and_then (and_then r (λ v. replay_all v fs)) (λ w. replay w f)
    go (ok v) h = h v
    go (err e) h = refl
    go panic h = refl
