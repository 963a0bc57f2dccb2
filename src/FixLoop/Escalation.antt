-- ===== src/FixLoop/Escalation.antt =====
-- graphs/delivery/lifecycle_propose.py: when the builder is asked a tier up.
use mathlib.Core.Path.{subst}
use coxswain_graphs.Prelude.{
  ℕ, ◌/◌, ◌≤◌, ◌≡◌, refl, true, false, Option, some, nat_beq, nat_beq_iff, arith, Bool-cases, inl,
  inr,
}
use coxswain_graphs.Review.{Round}
use coxswain_graphs.FixLoop.Resume.{Build, Outcome, finished, refused, revised, raised, out_of_fuel}
use coxswain_graphs.FixLoop.Handover.{Handoff}
use coxswain_graphs.FixLoop.Steps.{after_review-by, review_retry-by, take_retry-by}
use coxswain_graphs.FixLoop.{
  Team, Runner, Loop, Step, again, stay, leaves, escalates, ask_build, asking, spent, review_retry,
  reviewed, take_retry, turn,
}

-- The states that the loop comes to from `l`, the turns counted from the first.
pub data Reached (team : Team) (runner : Runner) (patience : ℕ) (l : Loop) : Loop → Type 0 where
  first : {n : Loop} → turn team runner patience l ≡ again n → Reached team runner patience l n
  next :
      {m n : Loop}
      → Reached team runner patience l m
      → turn team runner patience m ≡ again n
      → Reached team runner patience l n

-- After a turn, half an attempt is given back only with a handoff that is still incomplete.
abbrev IsLate : Loop → Type 0
IsLate n = (3 ≤ n.halves) × (n.halves ≡ 3 → n.prior_handoff ≡ true)

escalates_late : (team : Team) (n : Loop) → IsLate n → escalates team n ≡ false
unfolding escalates
escalates_late team n (a, b) = elim (Bool-cases n.prior_handoff) [
  | inl p ↦ ground (arith, p)
  | inr p ↦ elim (Bool-cases (nat_beq (n.halves / 2) 1)) [
    | inr q ↦ ground (arith, q)
    | inl q ↦
        let h : n.halves ≡ 3 = omega (arith, a, (nat_beq_iff (n.halves / 2) 1).0 q) in
        absurd (ground (arith, p, b h))
  ]
]

abbrev Late : Step → Type 0
Late (again n) = IsLate n
Late (stay n) = Unit
Late (leaves e) = Unit

take_retry-Late :
    (team : Team) (runner : Runner) (l : Loop) (b : Build)
    → 4 ≤ l.halves
    → Late (take_retry team runner l b)
take_retry-Late team runner l b many =
    take_retry-by Late team runner l b (λ e _. tt) tt (λ _. review l.handoff)
      (λ h _ _. review (some h)) (λ h _. (omega (arith, many), λ _. refl))
  where
    review : (x : Option Handoff) → Late (review_retry team runner l b x)
    review x =
        review_retry-by Late team runner l b (λ e _. tt) x
          (λ (round : Round) _.
            after_review-by Late (reviewed team l b x round) (λ _. tt) (λ _. tt) (λ _. tt)
              (omega (arith, many), λ (e : l.halves ≡ 3). absurd (omega (arith, e, many))))

turn-Late :
    (team : Team) (runner : Runner) (patience : ℕ) (l : Loop)
    → 2 ≤ l.halves
    → Late (turn team runner patience l)
unfolding turn
turn-Late team runner patience l some_spent =
    outcome (ask_build team runner patience l).outcome refl
  where
    outcome :
        (o : Outcome)
        → (ask_build team runner patience l).outcome ≡ o
        → Late (turn team runner patience l)
    outcome (finished x) v =
        rw (v, turn)
          (take_retry-Late team runner (spent (asking team l) (ask_build team runner patience l)) x
            (omega (arith, some_spent)))
    outcome (refused why) v = rw (v, turn) tt
    outcome (revised why) v = rw (v, turn) tt
    outcome raised v = rw (v, turn) tt
    outcome out_of_fuel v = rw (v, turn) tt

reached-IsLate :
    (team : Team) (runner : Runner) (patience : ℕ) (l n : Loop)
    → 2 ≤ l.halves
    → Reached team runner patience l n
    → IsLate n
reached-IsLate team runner patience l n some_spent (Reached.first e) =
    subst Late e (turn-Late team runner patience l some_spent)
reached-IsLate team runner patience l n some_spent (Reached.next {m} r e) =
    let (a, b) = reached-IsLate team runner patience l m some_spent r in
    subst Late e (turn-Late team runner patience m (omega (arith, a)))

-- Only the second build can be asked a tier up: from the state ahead of the loop, no state that a turn leads
-- to escalates the next build.
pub escalates-once :
    (team : Team) (runner : Runner) (patience : ℕ) (l n : Loop)
    → 2 ≤ l.halves
    → Reached team runner patience l n
    → escalates team n ≡ false
escalates-once team runner patience l n some_spent r =
    escalates_late team n (reached-IsLate team runner patience l n some_spent r)
