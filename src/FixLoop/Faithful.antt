-- ===== src/FixLoop/Faithful.antt =====
-- graphs/delivery/lifecycle_propose.py: the build and the review of the fix loop's state belong together.
use mathlib.Core.Path.{subst}
use coxswain_graphs.Prelude.{
  ℕ, zero, suc, ◌≡◌, refl, Bool, true, false, not, ◌&&◌, Option, none, some, ok, arith, Bool-cases,
  inl, inr,
}
use coxswain_graphs.Review.{Round, is_approve, review_round}
use coxswain_graphs.Review.Judgment.{review_round-quarantined}
use coxswain_graphs.FixLoop.Resume.{Build, Outcome, finished, refused, revised, raised, out_of_fuel}
use coxswain_graphs.FixLoop.Handover.{Handoff, handoff_critique}
use coxswain_graphs.FixLoop.Steps.{is_left, after_review-by, review_retry-by, take_retry-by}
use coxswain_graphs.FixLoop.Bounds.{is_ended}
use coxswain_graphs.FixLoop.{
  Team, Runner, Loop, Stopped, End, ended, infra, raises, unfinished, Step, again, stay, leaves,
  is_complete, goes_on, ask_build, asking, spent, review_retry, reviewed, take_retry, turn,
  fix_loop,
}

-- Where the round of a build comes from: a review of that very build at its tier, behind a complete
-- handoff where the team has one; the refusal of its handoff; or no review.
pub data IsJudged (team : Team) (runner : Runner) (build : Build) (tier : ℕ)
    (handoff : Option Handoff) (round : Round) : Type 0 where
  by_review :
      (n : ℕ)
      → review_round team.bound (team.tier_of build) (runner.seats n build handoff) ≡ ok round
      → tier ≡ team.tier_of build
      → (team.has_handoff && not (is_complete handoff)) ≡ false
      → IsJudged team runner build tier handoff round
  by_handoff :
      (h : Handoff)
      → handoff ≡ some h
      → h.complete ≡ false
      → round ≡ handoff_critique h
      → IsJudged team runner build tier handoff round
  unread : is_approve round.verdict ≡ false → IsJudged team runner build tier handoff round

abbrev pub is_some {ℓ} : {A : Type ℓ} → Option A → Bool
is_some none = false
is_some (some a) = true

module _ (team : Team) (runner : Runner) where
  abbrev pub Judged : Loop → Type 0
  Judged l = IsJudged team runner l.build l.tier l.handoff l.round

  -- A stop is told only of a round that does not approve.
  abbrev pub Consistent : Loop → Type 0
  Consistent l = Judged l × ((is_some l.stopped && is_approve l.round.verdict) ≡ false)

  abbrev Faith : Step → Type 0
  Faith (again n) = Judged n × (n.stopped ≡ none)
  Faith (stay n) = Consistent n
  Faith (leaves e) = is_ended e ≡ false

  take_retry-Faith :
      (l : Loop) (b : Build)
      → Judged l
      → l.stopped ≡ none
      → is_approve l.round.verdict ≡ false
      → Faith (take_retry team runner l b)
  unfolding is_complete
  take_retry-Faith l b judged open_ rejected =
      take_retry-by Faith team runner l b left (judged, ground (arith, rejected))
        (λ w. review l.handoff (ground (arith, w))) (λ h _ w. review (some h) (ground (arith, w)))
        (λ h w. (by_handoff h refl w refl, open_))
    where
      left : (e : End) → is_left e ≡ true → is_ended e ≡ false
      left (ended m) e = ground (arith, e)
      left (infra x h f) e = refl
      left (raises o) e = refl
      left unfinished e = refl

      review :
          (x : Option Handoff)
          → (team.has_handoff && not (is_complete x)) ≡ false
          → Faith (review_retry team runner l b x)
      review x whole = review_retry-by Faith team runner l b left x (λ (round : Round) w.
          let j : Judged (reviewed team l b x round) = by_review l.calls w refl whole in
          after_review-by Faith (reviewed team l b x round)
            (λ q. (
              j,
              ground (
                arith,
                q,
                review_round-quarantined team.bound (team.tier_of b) (runner.seats l.calls b x)
                    round w,
              ),
            ))
            (λ v. (j, ground (arith, open_))) (λ v. (j, ground (arith, v))) (j, open_))

  turn-Faith :
      (patience : ℕ) (l : Loop)
      → Judged l
      → l.stopped ≡ none
      → is_approve l.round.verdict ≡ false
      → Faith (turn team runner patience l)
  unfolding turn
  turn-Faith patience l judged open_ rejected =
      outcome (ask_build team runner patience l).outcome refl
    where
      next : Loop
      next = spent (asking team l) (ask_build team runner patience l)

      outcome :
          (o : Outcome)
          → (ask_build team runner patience l).outcome ≡ o
          → Faith (turn team runner patience l)
      outcome (finished x) v = rw (v, turn) (take_retry-Faith next x judged open_ rejected)
      outcome (refused why) v = rw (v, turn) (judged, ground (arith, rejected))
      outcome (revised why) v = rw (v, turn) (judged, ground (arith, rejected))
      outcome raised v = rw (v, turn) refl
      outcome out_of_fuel v = rw (v, turn) refl

  goes_on-rejected : (l : Loop) → goes_on team l ≡ true → is_approve l.round.verdict ≡ false
  unfolding goes_on
  goes_on-rejected l on = ground (arith, on)

  -- The loop's states: a stop is told only where the loop does not go on, and never of an approval.
  abbrev pub Sound : Loop → Type 0
  Sound l = Consistent l × ((goes_on team l && is_some l.stopped) ≡ false)

  still-Sound : (l : Loop) → Judged l → l.stopped ≡ none → Sound l
  still-Sound l j s = ((j, ground (arith, s)), ground (arith, s))

  pub fix_loop-Consistent :
      (patience fuel : ℕ) (l last : Loop)
      → Sound l
      → fix_loop team runner patience fuel l ≡ ended last
      → Consistent last
  unfolding fix_loop
  fix_loop-Consistent patience zero l last (w, s) e = elim (Bool-cases (goes_on team l)) [
    | inl on ↦ absurd (ground (arith, e, on))
    | inr off ↦ let q : l ≡ last = ground (arith, e, off) in subst Consistent q w
  ]
  fix_loop-Consistent patience (suc fuel) l last (w, s) e = elim (Bool-cases (goes_on team l)) [
    | inr off ↦ let q : l ≡ last = ground (arith, e, off) in subst Consistent q w
    | inl on ↦
        split on (fix_loop-Consistent patience fuel) (turn team runner patience l) refl
          (turn-Faith patience l w.0 (unstopped on l.stopped refl) (goes_on-rejected l on))
  ]
    where
      unstopped : goes_on team l ≡ true → (x : Option Stopped) → l.stopped ≡ x → l.stopped ≡ none
      unstopped on none v = v
      unstopped on (some y) v = absurd (ground (arith, s, on, v))

      split :
          goes_on team l ≡ true
          → ((n m : Loop) → Sound n → fix_loop team runner patience fuel n ≡ ended m → Consistent m)
          → (x : Step) → turn team runner patience l ≡ x
          → Faith x
          → Consistent last
      split on ih (again n) v (j, o) = ih n last (still-Sound n j o) (ground (arith, e, on, v))
      split on ih (stay n) v c = let q : n ≡ last = ground (arith, e, on, v) in subst Consistent q c
      split on ih (leaves end) v c = absurd (ground (arith, e, on, v, c))
