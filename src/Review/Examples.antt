-- ===== src/Review/Examples.antt =====
-- Rounds of review, and the theorems at them.
use coxswain_graphs.Prelude.{
  ◌≡◌, refl, String, true, false, not, ◌||◌, none, some, [], ◌∷◌, is_empty, codes, ok,
}
use coxswain_graphs.Prelude.{nat_beq}
use coxswain_graphs.Review.Arbiter.{is_decided, review_round-unarbitrated}
use coxswain_graphs.Review.{
  Verdict, approve, revise, is_approve, Review, Adversary, with_adversary, answers, fails, Bound,
  Seats, Round, review_is_placeholder, adversary_is_placeholder, reviewer_answer, sole_round,
  full_round, concluded, review_round,
}
use coxswain_graphs.Review.Judgment.{opinions, decides, review_round-decides, review_round-genuine}

program : Unit {0}
unfolding review_is_placeholder adversary_is_placeholder reviewer_answer sole_round full_round
    concluded review_round
program = tt

abbrev says : Verdict → String → Review
says v text = record { verdict = v; findings = []; rationale = codes text }

abbrev objects : Adversary
objects = record {
  verdict = revise;
  objections = record { claim = codes "c"; why_wrong = codes "w" } ∷ [];
  strongest_objection = codes "c";
}

-- The charter reviewer says nothing twice; the adversary objects; the arbiter approves.
abbrev seats : Seats
seats = record {
  charter_first = answers (says approve "{}");
  charter_again = answers (says approve " ");
  adversary_first = λ r. answers objects;
  adversary_again = λ r. fails;
  arbiter =
      λ r a. answers (record { verdict = approve; sided_with = with_adversary; reasoning = [] });
}

abbrev bound : Bound
bound = record { has_adversary = true; has_arbiter = true }

round : (r : Round) × (review_round bound 1 seats ≡ ok r) × (is_approve r.verdict ≡ true)
unfolding program
round = (_, refl, refl)

review_round-decides_example :
    is_approve round.0.verdict ≡ decides round.0.arbitration (opinions bound 1 seats)
review_round-decides_example = review_round-decides bound 1 seats round.0 round.1

review_round-genuine_example :
    (round.0.quarantine ≡ is_empty (opinions bound 1 seats))
    × (review_is_placeholder round.0.review ≡ false)
    × ((round.0.quarantine
          || not (elim round.0.adversary [ none ↦ false | some a ↦ adversary_is_placeholder a ]))
        ≡ true)
review_round-genuine_example = review_round-genuine bound 1 seats round.0 round.1

-- Both reviewers approve at tier 2, so the arbiter is not asked.
abbrev agrees : Adversary
agrees = record { verdict = approve; objections = []; strongest_objection = codes "none" }

abbrev calm_seats : Seats
calm_seats = record {
  charter_first = answers (says approve "fine");
  charter_again = fails;
  adversary_first = λ r. answers agrees;
  adversary_again = λ r. fails;
  arbiter = λ r a. fails;
}

calm_round :
    (r : Round) × (review_round bound 2 calm_seats ≡ ok r)
    × (r.quarantine ≡ false)
    × (is_decided r.arbitration ≡ false)
unfolding program
calm_round = (_, refl, refl, refl)

review_round-unarbitrated_example :
    (v : Verdict) × (opinions bound 2 calm_seats ≡ v ∷ v ∷ [])
    × ((not (nat_beq 2 2) || is_approve v) ≡ true)
review_round-unarbitrated_example =
    review_round-unarbitrated bound 2 calm_seats calm_round.0 calm_round.1 refl refl calm_round.2
      calm_round.3
