-- ===== src/FixLoop/Bounds.antt =====
-- graphs/delivery/lifecycle_propose.py: how long the fix loop runs, and what its rounds may cost.
use coxswain_graphs.Prelude.{
  ℕ, zero, suc, ◌+◌, ◌*◌, ◌/◌, ◌≤◌, ◌<◌, ◌≡◌, refl, ap, Bool, true, false, Option, some, List, [],
  ◌∷◌, ◌++◌, arith, Bool-cases, inl, inr,
}
use mathlib.Core.Path.{subst}
use coxswain_graphs.Review.{Round}
use coxswain_graphs.FixLoop.Resume.{
  Build, Outcome, finished, refused, revised, raised, out_of_fuel, Resumed,
}
use coxswain_graphs.FixLoop.Scope.{Source, at_handoff, at_review, Summary}
use coxswain_graphs.FixLoop.Handover.{Handoff, handoff_critique}
use coxswain_graphs.FixLoop.Steps.{is_left, take_retry-by, review_retry-by}
use coxswain_graphs.FixLoop.{
  Team, Runner, Loop, End, ended, infra, raises, unfinished, Step, again, stay, leaves, goes_on,
  ask_build, after_review, review_retry, sent_back, take_retry, reviewed, turn, fix_loop,
  summary_of,
}

-- What the rounds cost, in halves of an attempt: a review a whole one, a handoff's refusal half of one.
abbrev pub cost : Source → ℕ
cost at_handoff = 1
cost at_review = 2

abbrev pub tally : List Summary → ℕ
tally [] = 0
tally (s ∷ ss) = cost s.source + tally ss

pub tally-append : (xs ys : List Summary) → tally (xs ++ ys) ≡ tally xs + tally ys
tally-append [] ys = omega arith
tally-append (x ∷ xs) ys = omega (arith, tally-append xs ys)

source_of : (n : ℕ) (s : Source) (r : Round) → (summary_of n s r).source ≡ s
source_of n s r = refl

tally-round :
    (xs : List Summary) (n : ℕ) (s : Source) (r : Round)
    → tally (xs ++ summary_of n s r ∷ []) ≡ tally xs + cost s
tally-round xs n s r =
    ground (arith, tally-append xs (summary_of n s r ∷ []), ap cost (source_of n s r))

-- From state `l` to `n`: no more than an attempt is spent, and the rounds are paid for.
abbrev pub Paid : Loop → Loop → Type 0
Paid l n = (n.halves ≤ l.halves + 2) × (tally n.rounds + l.halves ≤ tally l.rounds + n.halves)

abbrev pub is_ended : End → Bool
is_ended (ended l) = true
is_ended (infra b h f) = false
is_ended (raises o) = false
is_ended unfinished = false

-- The same of a step, and a step that goes on has spent something.
abbrev pub Spends : Loop → Step → Type 0
Spends l (again n) = (l.halves < n.halves) × Paid l n
Spends l (stay n) = Paid l n
Spends l (leaves e) = is_ended e ≡ false

after_review-Spends :
    (l n : Loop)
    → n.halves ≡ l.halves + 2
    → tally n.rounds ≡ tally l.rounds + 2
    → Spends l (after_review n)
unfolding after_review
after_review-Spends l n h t = ground (arith, h, t)

sent_back-Spends :
    (l n : Loop) (retry : Build) (h : Handoff)
    → n.halves ≡ l.halves + 2
    → n.rounds ≡ l.rounds
    → Spends l (again (sent_back n retry h))
sent_back-Spends l n retry h e t =
    let cost : tally (n.rounds ++ summary_of (n.halves / 2) at_handoff (handoff_critique h) ∷ [])
        ≡ tally n.rounds + 1 =
      tally-round n.rounds (n.halves / 2) at_handoff (handoff_critique h) in
    (omega (arith, e), (omega (arith, e), omega (arith, e, cost, ap tally t)))

take_retry-Spends :
    (team : Team) (runner : Runner) (l n : Loop) (b : Build)
    → n.halves ≡ l.halves + 2
    → n.rounds ≡ l.rounds
    → Spends l (take_retry team runner n b)
take_retry-Spends team runner l n b h t =
    take_retry-by (Spends l) team runner n b left (omega (arith, h), omega (arith, h, ap tally t))
      (λ _. judged n.handoff) (λ x _ _. judged (some x)) (λ x _. sent_back-Spends l n b x h t)
  where
    left : (e : End) → is_left e ≡ true → Spends l (leaves e)
    left (infra b x f) _ = refl
    left (raises o) _ = refl
    left (ended m) e = ground (arith, e)
    left unfinished e = refl

    judged : (x : Option Handoff) → Spends l (review_retry team runner n b x)
    judged x = review_retry-by (Spends l) team runner n b left x (λ (round : Round) _.
        after_review-Spends l (reviewed team n b x round) h
          (ground (arith, tally-round n.rounds (n.halves / 2) at_review round, ap tally t)))

pub turn-Spends :
    (team : Team) (runner : Runner) (patience : ℕ) (l : Loop)
    → Spends l (turn team runner patience l)
unfolding turn
turn-Spends team runner patience l = split (ask_build team runner patience l) refl
  where
    split :
        (r : Resumed)
        → ask_build team runner patience l ≡ r
        → Spends l (turn team runner patience l)
    split r w = outcome r.outcome (ap (λ x. x.outcome) w)
      where
        outcome :
            (o : Outcome)
            → (ask_build team runner patience l).outcome ≡ o
            → Spends l (turn team runner patience l)
        outcome (finished b) v = rw (v, turn) (take_retry-Spends team runner l _ b refl refl)
        outcome (refused why) v = rw (v, turn) (omega arith, omega arith)
        outcome (revised why) v = rw (v, turn) (omega arith, omega arith)
        outcome raised v = rw (v, turn) refl
        outcome out_of_fuel v = rw (v, turn) refl

pub goes_on-within :
    (team : Team) (l : Loop) → goes_on team l ≡ true → l.halves ≤ 2 * team.fix_attempts
unfolding goes_on
goes_on-within team l e = ground (arith, e)

-- The attempts, and what the rounds may have cost.
abbrev pub Within : Team → Loop → Type 0
Within team l = (l.halves ≤ 2 * team.fix_attempts + 2) × (tally l.rounds ≤ l.halves)

Paid-Within :
    (team : Team) (l n : Loop)
    → goes_on team l ≡ true
    → tally l.rounds ≤ l.halves
    → Paid l n
    → Within team n
Paid-Within team l n on t (a, b) = (omega (arith, goes_on-within team l on, a), omega (arith, b, t))

-- The record of a run of the loop is within the bounds that its start is in.
pub fix_loop-Within :
    (team : Team) (runner : Runner) (patience fuel : ℕ) (l last : Loop)
    → Within team l
    → fix_loop team runner patience fuel l ≡ ended last
    → Within team last
unfolding fix_loop
fix_loop-Within team runner patience zero l last w e = elim (Bool-cases (goes_on team l)) [
  | inl on ↦ absurd (ground (arith, e, on))
  | inr off ↦ let q : l ≡ last = ground (arith, e, off) in subst (Within team) q w
]
fix_loop-Within team runner patience (suc fuel) l last w e = elim (Bool-cases (goes_on team l)) [
  | inr off ↦ let q : l ≡ last = ground (arith, e, off) in subst (Within team) q w
  | inl on ↦
      split on (fix_loop-Within team runner patience fuel) (turn team runner patience l) refl
        (turn-Spends team runner patience l)
]
  where
    split :
        goes_on team l ≡ true
        → ((n m : Loop)
            → Within team n
            → fix_loop team runner patience fuel n ≡ ended m
            → Within team m)
        → (s : Step) → turn team runner patience l ≡ s
        → Spends l s
        → Within team last
    split on ih (again n) v (a, b) =
        ih n last (Paid-Within team l n on w.1 b) (ground (arith, e, on, v))
    split on ih (stay n) v b =
        let q : n ≡ last = ground (arith, e, on, v) in
        subst (Within team) q (Paid-Within team l n on w.1 b)
    split on ih (leaves end) v b = absurd (ground (arith, e, on, v, b))

-- A step that does not run out of patience, and the builder's calls in it: the retry, and one for each
-- continuation.
abbrev pub Calls : Loop → Loop → Type 0
Calls l n = (n.continuations ≤ 2) × (n.calls + l.continuations ≡ l.calls + (1 + n.continuations))

abbrev pub is_unfinished : End → Bool
is_unfinished (ended l) = false
is_unfinished (infra b h f) = false
is_unfinished (raises o) = false
is_unfinished unfinished = true

abbrev pub Ends : Loop → Step → Type 0
Ends l (again n) = Calls l n
Ends l (stay n) = Calls l n
Ends l (leaves e) = is_unfinished e ≡ false

after_review-Ends : (l n : Loop) → Calls l n → Ends l (after_review n)
unfolding after_review
after_review-Ends l n c = ground (arith, c)

pub take_retry-Ends :
    (team : Team) (runner : Runner) (l n : Loop) (b : Build)
    → Calls l n
    → Ends l (take_retry team runner n b)
take_retry-Ends team runner l n b c =
    take_retry-by (Ends l) team runner n b left c (λ _. judged n.handoff) (λ x _ _. judged (some x))
      (λ x _. c)
  where
    left : (e : End) → is_left e ≡ true → Ends l (leaves e)
    left (infra b x f) _ = refl
    left (raises o) _ = refl
    left (ended m) e = refl
    left unfinished e = ground (arith, e)

    judged : (x : Option Handoff) → Ends l (review_retry team runner n b x)
    judged x =
        review_retry-by (Ends l) team runner n b left x
          (λ (round : Round) _. after_review-Ends l (reviewed team n b x round) c)
