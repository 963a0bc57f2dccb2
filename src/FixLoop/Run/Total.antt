-- ===== src/FixLoop/Run/Total.antt =====
-- graphs/delivery/lifecycle_propose.py: a task's run ends within the bounds.
use mathlib.Core.Path.{subst}
use coxswain_graphs.Prelude.{
  ℕ, ◌+◌, ◌*◌, ◌≤◌, ◌≡◌, refl, ap, Bool, true, false, not, Option, none, some, [], ◌∷◌,
  if◌then◌else◌, Result, ok, err, arith,
}
use coxswain_graphs.Review.{is_approve, Round, Fault, budget_stop, node_failure, review_round}
use coxswain_graphs.FixLoop.Resume.Continued.{IsPlain}
use coxswain_graphs.FixLoop.Scope.{at_handoff, at_review}
use coxswain_graphs.FixLoop.Handover.{
  Handoff, Handed, handed, held, handoff_fails, contract_violation, settle, handoff_critique,
}
use coxswain_graphs.FixLoop.Steps.{is_left}
use coxswain_graphs.FixLoop.Bounds.{is_unfinished, tally, fix_loop-Within}
use coxswain_graphs.FixLoop.Ends.{fix_loop-ends, fix_loop-Counted}
use coxswain_graphs.FixLoop.{
  Team, Runner, Loop, Stopped, attempts_exhausted, End, ended, infra, raises, unfinished,
  summary_of, is_complete, fix_loop,
}
use coxswain_graphs.FixLoop.Run.{
  Frozen, frozen_review, unreviewed, Opening, opened, first_review, start, Proposal, exhausted,
  proposal, Ran, recorded, broken, run,
}

module _ (P : Result End Loop → Type 0) (team : Team) (runner : Runner) (o : Opening)
    (left : (e : End) → is_left e ≡ true → P (err e)) where
  first_review-by :
      (handoff : Option Handoff)
      → ((round : Round)
          → review_round team.bound (team.tier_of o.build) (runner.seats o.calls o.build handoff)
            ≡ ok round
          → P (ok (opened team o handoff false round (summary_of 1 at_review round ∷ []))))
      → P (first_review team runner o handoff)
  unfolding first_review
  first_review-by handoff k =
      split (review_round team.bound (team.tier_of o.build) (runner.seats o.calls o.build handoff))
        refl
    where
      split :
          (r : Result Fault Round)
          → review_round team.bound (team.tier_of o.build) (runner.seats o.calls o.build handoff)
            ≡ r
          → P (first_review team runner o handoff)
      split (err budget_stop) w = rw (w, first_review) (left _ refl)
      split (err (node_failure role x y)) w = rw (w, first_review) (left _ refl)
      split (ok round) w = rw (w, first_review) (k round w)

  -- What holds of a start, from the three ways to the loop and the ways out.
  pub start-by :
      ((f : Frozen)
        → o.frozen ≡ some f
        → P (ok (opened team o none false (unreviewed (frozen_review f)) [])))
      → ((handoff : Option Handoff) (round : Round)
          → o.frozen ≡ none
          → is_complete handoff ≡ true
          → review_round team.bound (team.tier_of o.build) (runner.seats o.calls o.build handoff)
            ≡ ok round
          → P (ok (opened team o handoff false round (summary_of 1 at_review round ∷ []))))
      → ((h : Handoff)
          → o.frozen ≡ none
          → h.complete ≡ false
          → P (
              ok (
                opened team o
                  (some h)
                  true
                  (handoff_critique h)
                  (summary_of 1 at_handoff (handoff_critique h) ∷ []))))
      → P (start team runner o)
  unfolding start is_complete
  start-by frozen reviewed partial = at o.frozen refl
    where
      complete :
          o.frozen ≡ none
          → (h : Handoff) (v : Bool) → h.complete ≡ v
          → P (
              if v
              then first_review team runner o (some h)
              else ok (
                  opened team o
                    (some h)
                    true
                    (handoff_critique h)
                    (summary_of 1 at_handoff (handoff_critique h) ∷ [])))
      complete f h true e = first_review-by (some h) (λ round. reviewed (some h) round f e)
      complete f h false e = partial h f e

      settled :
          o.frozen ≡ none
          → (r : Result Handed Handoff)
          → P (elim r [
            | err (handoff_fails fault) ↦ err (infra o.build none fault)
            | err (held out) ↦ err (raises out)
            | err (handed h) ↦ err (raises contract_violation)
            | ok h ↦
                if h.complete
                then first_review team runner o (some h)
                else ok (
                    opened team o
                      (some h)
                      true
                      (handoff_critique h)
                      (summary_of 1 at_handoff (handoff_critique h) ∷ []))
          ])
      settled f (err (handoff_fails fault)) = left _ refl
      settled f (err (held out)) = left _ refl
      settled f (err (handed h)) = left _ refl
      settled f (ok h) = complete f h h.complete refl

      by_handoff :
          o.frozen ≡ none
          → (v : Bool)
          → P (
              if not v
              then first_review team runner o none
              else elim (settle team.shuttle o.build (runner.handoff o.calls o.build)) [
                | err (handoff_fails fault) ↦ err (infra o.build none fault)
                | err (held out) ↦ err (raises out)
                | err (handed h) ↦ err (raises contract_violation)
                | ok h ↦
                    if h.complete
                    then first_review team runner o (some h)
                    else ok (
                        opened team o
                          (some h)
                          true
                          (handoff_critique h)
                          (summary_of 1 at_handoff (handoff_critique h) ∷ []))
              ])
      by_handoff f false = first_review-by none (λ round. reviewed none round f refl)
      by_handoff f true = settled f (settle team.shuttle o.build (runner.handoff o.calls o.build))

      at : (x : Option Frozen) → o.frozen ≡ x → P (start team runner o)
      at (some f) w = rw (w, start) (frozen f w)
      at none w = rw (w, start) (by_handoff w team.has_handoff)

-- What the loop starts with.
abbrev pub IsEntered : Opening → Result End Loop → Type 0
IsEntered o (ok l) =
    (l.halves ≡ 2)
    × (l.continuations ≡ o.continuations)
    × (l.calls ≡ o.calls)
    × (tally l.rounds ≤ 2)
IsEntered o (err end) = is_unfinished end ≡ false

start-IsEntered : (team : Team) (runner : Runner) (o : Opening) → IsEntered o (start team runner o)
start-IsEntered team runner o =
    start-by (IsEntered o) team runner o left (λ f _. (refl, refl, refl, omega arith))
      (λ h r _ _ _. (refl, refl, refl, omega arith)) (λ h _ _. (refl, refl, refl, omega arith))
  where
    left : (e : End) → is_left e ≡ true → is_unfinished e ≡ false
    left (ended l) e = refl
    left (infra b h f) e = refl
    left (raises out) e = refl
    left unfinished e = ground (arith, e)

abbrev pub is_stuck : Ran → Bool
is_stuck (recorded l p) = false
is_stuck (broken end) = is_unfinished end

-- Where the build role has no ceiling of its own and the runner stops at no checkpoint, a task comes to
-- its record or to an exception, whatever the runner answers: twice the fix attempts are enough rounds,
-- and three are enough for a resumption.
pub run-ends :
    (team : Team) (runner : Runner) (patience fuel : ℕ) (o : Opening)
    → team.setting.hard_ceiling ≡ none
    → IsPlain runner.build
    → 3 ≤ patience
    → o.continuations ≤ 2
    → 2 * team.fix_attempts ≤ fuel
    → is_stuck (run team runner patience fuel o) ≡ false
unfolding run
run-ends team runner patience fuel o ceiling plain enough few fueled =
    split (start team runner o) refl (start-IsEntered team runner o)
  where
    looped :
        (e : End)
        → is_unfinished e ≡ false
        → is_stuck (elim e [
          | ended last ↦ recorded (exhausted last) (proposal last)
          | infra build handoff fault ↦ broken (infra build handoff fault)
          | raises out ↦ broken (raises out)
          | unfinished ↦ broken unfinished
        ])
          ≡ false
    looped (ended last) e = refl
    looped (infra b h f) e = refl
    looped (raises out) e = refl
    looped unfinished e = e

    split :
        (r : Result End Loop)
        → start team runner o ≡ r
        → IsEntered o r
        → is_stuck (run team runner patience fuel o) ≡ false
    split (err end) w e = rw (w, run) e
    split (ok l) w (h, c, _, _) =
        rw (w, run)
          (looped (fix_loop team runner patience fuel l) (
            fix_loop-ends team runner patience fuel l ceiling plain enough (omega (arith, c, few))
              (omega (arith, h, fueled))))

exhausted-same :
    (l : Loop)
    → ((exhausted l).halves ≡ l.halves)
      × ((exhausted l).rounds ≡ l.rounds)
      × ((exhausted l).calls ≡ l.calls)
exhausted-same l = split l.stopped
  where
    split :
        (s : Option Stopped)
        → let x : Loop = elim s [
          | some why ↦ l
          | none ↦
              if is_approve l.round.verdict
              then l
              else record l { stopped = some attempts_exhausted }
        ] in
          (x.halves ≡ l.halves) × (x.rounds ≡ l.rounds) × (x.calls ≡ l.calls)
    split (some why) = (refl, refl, refl)
    split none = ground arith

-- A recorded run went through a start and the loop.
pub run-recorded :
    (team : Team) (runner : Runner) (patience fuel : ℕ) (o : Opening) (m : Loop)
    (p : Option Proposal)
    → run team runner patience fuel o ≡ recorded m p
    → (l : Loop) × (last : Loop) × (start team runner o ≡ ok l)
      × (fix_loop team runner patience fuel l ≡ ended last)
      × (m ≡ exhausted last)
      × (p ≡ proposal last)
unfolding run
run-recorded team runner patience fuel o m p e = split (start team runner o) refl
  where
    looped :
        (l : Loop)
        → start team runner o ≡ ok l
        → (x : End) → fix_loop team runner patience fuel l ≡ x
        → (l : Loop) × (last : Loop) × (start team runner o ≡ ok l)
          × (fix_loop team runner patience fuel l ≡ ended last)
          × (m ≡ exhausted last)
          × (p ≡ proposal last)
    looped l w (ended last) v = (l, last, w, v, ground (arith, e, w, v), ground (arith, e, w, v))
    looped l w (infra b h f) v = absurd (ground (arith, e, w, v))
    looped l w (raises out) v = absurd (ground (arith, e, w, v))
    looped l w unfinished v = absurd (ground (arith, e, w, v))

    split :
        (r : Result End Loop)
        → start team runner o ≡ r
        → (l : Loop) × (last : Loop) × (start team runner o ≡ ok l)
          × (fix_loop team runner patience fuel l ≡ ended last)
          × (m ≡ exhausted last)
          × (p ≡ proposal last)
    split (err end) w = absurd (ground (arith, e, w))
    split (ok l) w = looped l w (fix_loop team runner patience fuel l) refl

-- The attempts of a recorded task are at most one more than the fix attempts, and the rounds of the record
-- are paid from them: two halves for each review, one for each incomplete handoff, whatever they answer.
pub run-costs :
    (team : Team) (runner : Runner) (patience fuel : ℕ) (o : Opening) (m : Loop)
    (p : Option Proposal)
    → run team runner patience fuel o ≡ recorded m p
    → (m.halves ≤ 2 * team.fix_attempts + 2) × (tally m.rounds ≤ m.halves)
run-costs team runner patience fuel o m p e =
    let (l, last, s, f, x, _) = run-recorded team runner patience fuel o m p e in
    let (h, c, k, t) = subst (IsEntered o) s (start-IsEntered team runner o) in
    let (a, b) =
      fix_loop-Within team runner patience fuel l last (omega (arith, h), omega (arith, h, t)) f in
    let (i, j, _) = exhausted-same last in
    (
      omega (arith, a, i, ap (λ y. y.halves) x),
      omega (arith, b, i, ap tally j, ap (λ y. y.halves) x, ap (λ y. tally y.rounds) x),
    )

-- Where the build role has no ceiling of its own and the runner stops at no checkpoint, a recorded task
-- calls the builder at most twice the fix attempts and two more times after its first build, less the
-- continuations that the first build took.
pub run-calls :
    (team : Team) (runner : Runner) (patience fuel : ℕ) (o : Opening) (m : Loop)
    (p : Option Proposal)
    → team.setting.hard_ceiling ≡ none
    → IsPlain runner.build
    → 3 ≤ patience
    → o.continuations ≤ 2
    → run team runner patience fuel o ≡ recorded m p
    → m.calls + o.continuations ≤ o.calls + (2 * team.fix_attempts + 2)
run-calls team runner patience fuel o m p ceiling plain enough few e =
    let (l, last, s, f, x, _) = run-recorded team runner patience fuel o m p e in
    let (h, c, k, t) = subst (IsEntered o) s (start-IsEntered team runner o) in
    let (a, b) =
      fix_loop-Counted team runner patience fuel l last ceiling plain enough (omega (arith, c, few))
        (omega (arith, h)) f in
    let (_, _, q) = exhausted-same last in omega (arith, a, b, h, c, k, q, ap (λ y. y.calls) x)
