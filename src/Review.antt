-- ===== src/Review.antt =====
-- graphs/delivery/lifecycle_propose.py: one round of review, the reviewers' placeholders and the arbiter.
-- A reviewer is what it answers; the prompts are not modelled, but what each call is shown is an argument
-- of its answer. `str.lower` and `str.strip` act on the ASCII characters.
pub mod Judgment
pub mod Arbiter
mod Examples
use coxswain_graphs.Prelude.{
  ℕ, zero, suc, ◌+◌, String, Bool, true, false, not, ◌&&◌, ◌||◌, Option, none, some, List, [], ◌∷◌,
  ◌++◌, map, all, any, select, length, if◌then◌else◌, ◌==◌, Eq, list_eq, nat_eq, nat_beq, leb, Text,
  codes, lower_code, strip, Result, ok, err, is_empty, elem, join,
}

-- The verdicts of the schemas.
pub data Verdict : Type 0 where
  approve revise reject : Verdict

abbrev pub is_approve : Verdict → Bool
is_approve approve = true
is_approve revise = false
is_approve reject = false

abbrev pub is_revise : Verdict → Bool
is_revise approve = false
is_revise revise = true
is_revise reject = false

abbrev pub same_verdict : Verdict → Verdict → Bool
same_verdict approve w = is_approve w
same_verdict revise w = is_revise w
same_verdict reject w = not (is_approve w || is_revise w)

-- REVIEW_SCHEMA
pub record Finding : Type 0 where
  pub charter_principle : Text
  pub detail : Text
  pub file : Text

pub record Review : Type 0 where
  pub verdict : Verdict
  pub findings : List Finding
  pub rationale : Text

-- ADVERSARY_SCHEMA
pub record Objection : Type 0 where
  pub claim : Text
  pub why_wrong : Text

pub record Adversary : Type 0 where
  pub verdict : Verdict
  pub objections : List Objection
  pub strongest_objection : Text

-- ARBITRATE_SCHEMA
pub data Side : Type 0 where
  with_charter with_adversary with_neither : Side

pub record Arbitration : Type 0 where
  pub verdict : Verdict
  pub sided_with : Side
  pub reasoning : Text

-- What a round says of the arbiter: None, ARBITER_SKIPPED, or its answer.
pub data Arbitrated : Type 0 where
  unasked skipped : Arbitrated
  decided : Arbitration → Arbitrated

-- `_PLACEHOLDER_MARKERS` of phase_validate.py
abbrev placeholder_markers : List Text
placeholder_markers = map codes (
    "placeholder pending" ∷ "pending verification" ∷ "pending file read" ∷ "will follow up"
    ∷ "will verify" ∷ "before finalizing" ∷ "provisional verdict" ∷ "need to verify"
    ∷ "would need to read" ∷ "cannot confirm from the evidence provided" ∷ "placeholder, will" ∷ [])

abbrev normal : Text → Text
normal t = map lower_code (strip t)

-- `text(item)` of a finding, and of an objection, whose `why_wrong` comes first.
abbrev finding_text : Finding → Text
finding_text f = normal f.detail

abbrev objection_text : Objection → Text
objection_text o = normal (if is_empty o.why_wrong then o.claim else o.why_wrong)

abbrev is_blank : Text → Bool
is_blank t = is_empty (strip t) || strip t == codes "{}"

abbrev is_marker : Text → Bool
is_marker t = t == codes "placeholder" || elem t placeholder_markers

-- `review_is_placeholder` at a review, and at an adversary's answer, which has no `rationale`.
unfoldable pub review_is_placeholder : Review → Bool
review_is_placeholder answer =
    let texts = map finding_text answer.findings in
    (not (is_empty texts) && all is_marker texts)
    || is_blank answer.rationale
    || (is_empty texts && is_revise answer.verdict && is_blank answer.rationale)

unfoldable pub adversary_is_placeholder : Adversary → Bool
adversary_is_placeholder answer =
    let texts = map objection_text answer.objections in
    (not (is_empty texts) && all is_marker texts)
    || (is_empty texts && is_revise answer.verdict && is_blank answer.strongest_objection)

-- A call of the runner: its answer, a stop at the budget, or another RunnerError.
pub data Reply {ℓ} (A : Type ℓ) : Type ℓ where
  answers : A → Reply A
  stops fails : Reply A

pub data Role : Type 0 where
  review_charter review_adversary arbitrate : Role

-- What a round raises: the BudgetStop itself, or a _NodeFailure with what the round has in hand.
pub data Fault : Type 0 where
  budget_stop : Fault
  node_failure : Role → Option Review → Option Adversary → Fault

-- `_reviewer_answer`: the second call is made only where the first is a placeholder.
unfoldable pub reviewer_answer {ℓ} :
    {A : Type ℓ} → Role → (A → Bool) → Reply A → Reply A → Result Fault (A × Bool)
reviewer_answer role is_placeholder (answers a) again =
    if not (is_placeholder a) then ok (a, false) else elim again [
      | answers b ↦ ok (b, is_placeholder b)
      | stops ↦ err budget_stop
      | fails ↦ err (node_failure role none none)
    ]
reviewer_answer role is_placeholder stops again = err budget_stop
reviewer_answer role is_placeholder fails again = err (node_failure role none none)

abbrev pub review_harness_fault : Review
review_harness_fault = record {
  verdict = revise;
  findings =
      record {
        charter_principle = codes "harness fault";
        detail = codes "both reviewers returned a placeholder twice and produced no judgment";
        file = [];
      }
      ∷ [];
  rationale = codes "harness fault: review placeholders";
}

abbrev pub patch_truncated_review : Text → Review
patch_truncated_review reason = record {
  verdict = revise;
  findings = record { charter_principle = codes "harness fault"; detail = reason; file = [] } ∷ [];
  rationale = codes "patch_truncated";
}

abbrev pub abstained_review : Review
abstained_review = record {
  verdict = revise;
  findings = [];
  rationale = codes "review_charter did not produce a judgment after a second attempt";
}

abbrev pub abstained_adversary : Adversary
abstained_adversary = record {
  verdict = revise;
  objections = [];
  strongest_objection = codes "review_adversary did not produce a judgment after a second attempt";
}

abbrev pub should_skip_arbiter : Verdict → Verdict → Bool
should_skip_arbiter charter_verdict adversary_verdict =
    is_approve charter_verdict && is_approve adversary_verdict

-- The optional seats that the team has bound.
pub record Bound : Type 0 where
  pub has_adversary : Bool
  pub has_arbiter : Bool

-- The runner in a round: each seat's answers, the adversary's by the review it is shown, and the
-- arbiter's by the two answers it is shown, where an abstention is no answer.
pub record Seats : Type 0 where
  pub charter_first : Reply Review
  pub charter_again : Reply Review
  pub adversary_first : Review → Reply Adversary
  pub adversary_again : Review → Reply Adversary
  pub arbiter : Option Review → Option Adversary → Reply Arbitration

pub record Round : Type 0 where
  pub review : Review
  pub adversary : Option Adversary
  pub arbitration : Arbitrated
  pub verdict : Verdict
  pub placeholder : Bool
  pub quarantine : Bool

-- What a round comes to when the arbiter is asked: its answer, or the failure with what is in hand.
abbrev arbitrated :
    Reply Arbitration → Review → Option Adversary → (Arbitration → Round) → Result Fault Round
arbitrated (answers a) review adversary k = ok (k a)
arbitrated stops review adversary k = err budget_stop
arbitrated fails review adversary k = err (node_failure arbitrate (some review) adversary)

-- The round after one reviewer has abstained: `verdict` is the survivor's.
unfoldable pub sole_round :
    Bound
    → Reply Arbitration
    → Review
    → Option Adversary
    → Review
    → Adversary
    → Verdict
    → Result Fault Round
sole_round bound reply raw raw_adversary review adversary verdict =
    if bound.has_arbiter
    then arbitrated reply raw raw_adversary (λ a. record {
      review = review;
      adversary = some adversary;
      arbitration = decided a;
      verdict = a.verdict;
      placeholder = true;
      quarantine = false;
    })
    else ok (record {
      review = review;
      adversary = some adversary;
      arbitration = unasked;
      verdict = verdict;
      placeholder = true;
      quarantine = false;
    })

-- The round where every reviewer asked has judged.
unfoldable pub full_round : Bound → ℕ → Seats → Review → Option Adversary → Result Fault Round
full_round bound tier seats review none = ok (record {
  review = review;
  adversary = none;
  arbitration = unasked;
  verdict = review.verdict;
  placeholder = false;
  quarantine = false;
})
full_round bound tier seats review (some adversary) =
    let disagreed = not (same_verdict adversary.verdict review.verdict) in
    let skip = should_skip_arbiter review.verdict adversary.verdict in
    if bound.has_arbiter && skip && nat_beq tier 2
    then ok (record {
      review = review;
      adversary = some adversary;
      arbitration = skipped;
      verdict = approve;
      placeholder = false;
      quarantine = false;
    })
    else if bound.has_arbiter && (disagreed || nat_beq tier 2)
    then arbitrated (seats.arbiter (some review) (some adversary)) review (some adversary) (λ a.
      record {
        review = review;
        adversary = some adversary;
        arbitration = decided a;
        verdict = a.verdict;
        placeholder = false;
        quarantine = false;
      })
    else ok (record {
      review = review;
      adversary = some adversary;
      arbitration = unasked;
      verdict =
          if is_approve review.verdict && is_approve adversary.verdict then approve else revise;
      placeholder = false;
      quarantine = false;
    })

-- The round once the charter reviewer and the adversary, where it is asked, have answered:
-- the review with whether it abstained, and the adversary's answer with the same.
unfoldable pub concluded :
    Bound → ℕ → Seats → Review × Bool → Option (Adversary × Bool) → Result Fault Round
concluded bound tier seats (review, true) none = ok (record {
  review = review_harness_fault;
  adversary = none;
  arbitration = unasked;
  verdict = revise;
  placeholder = true;
  quarantine = true;
})
concluded bound tier seats (review, true) (some (adversary, true)) = ok (record {
  review = review_harness_fault;
  adversary = some adversary;
  arbitration = unasked;
  verdict = revise;
  placeholder = true;
  quarantine = true;
})
concluded bound tier seats (review, true) (some (adversary, false)) =
    sole_round bound (seats.arbiter none (some adversary)) review (some adversary) abstained_review
      adversary adversary.verdict
concluded bound tier seats (review, false) (some (adversary, true)) =
    sole_round bound (seats.arbiter (some review) none) review (some adversary) review
      abstained_adversary review.verdict
concluded bound tier seats (review, false) none = full_round bound tier seats review none
concluded bound tier seats (review, false) (some (adversary, false)) =
    full_round bound tier seats review (some adversary)

-- A failure of the adversary's call carries the review that is in hand.
abbrev with_review : Review → Fault → Fault
with_review review budget_stop = budget_stop
with_review review (node_failure role none adversary) = node_failure role (some review) adversary
with_review review (node_failure role (some r) adversary) =
    node_failure role (some review) adversary

unfoldable pub review_round : Bound → ℕ → Seats → Result Fault Round
review_round bound tier seats =
    elim (reviewer_answer review_charter review_is_placeholder seats.charter_first
      seats.charter_again) [
        | err fault ↦ err fault
        | ok charter ↦
            if leb 1 tier && bound.has_adversary
            then elim (reviewer_answer review_adversary adversary_is_placeholder
                (seats.adversary_first (charter.0)) (seats.adversary_again (charter.0))) [
                  | err fault ↦ err (with_review charter.0 fault)
                  | ok adversary ↦ concluded bound tier seats charter (some adversary)
                ]
            else concluded bound tier seats charter none
      ]
