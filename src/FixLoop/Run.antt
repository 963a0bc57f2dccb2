-- ===== src/FixLoop/Run.antt =====
-- graphs/delivery/lifecycle_propose.py: `_run` from the first build to the task's record: the first review,
-- the fix loop, and the proposal.
pub mod Total
pub mod Approved
use coxswain_graphs.Prelude.{
  ℕ, zero, suc, ◌*◌, ◌+◌, Bool, true, false, not, ◌&&◌, ◌||◌, Option, none, some, List, [], ◌∷◌,
  if◌then◌else◌, ltb, Text, codes, Result, ok, err,
}
use coxswain_graphs.Review.{
  revise, is_approve, Review, Finding, unasked, node_failure, budget_stop, Round, review_round,
  patch_truncated_review,
}
use coxswain_graphs.FixLoop.Resume.{Build}
use coxswain_graphs.FixLoop.Scope.{at_handoff, at_review, Summary}
use coxswain_graphs.FixLoop.Handover.{
  Handoff, handed, held, handoff_fails, settle, handoff_critique, build_stop, contract_violation,
}
use coxswain_graphs.FixLoop.{
  Team, Runner, Loop, Stopped, checkpoint, patch_truncated, build_output_invalid,
  review_placeholders, attempts_exhausted, End, ended, infra, raises, unfinished, summary_of,
  fix_loop,
}

-- Why the first build is not reviewed: the checkpoint's message, the parser's, or the validity check's.
pub data Frozen : Type 0 where
  at_checkpoint truncated invalid : Text → Frozen

-- The review slot of a build that is not reviewed.
abbrev pub frozen_review : Frozen → Review
frozen_review (at_checkpoint reason) = record {
  verdict = revise;
  findings = record { charter_principle = codes "checkpoint"; detail = reason; file = [] } ∷ [];
  rationale = reason;
}
frozen_review (truncated reason) = patch_truncated_review reason
frozen_review (invalid reason) = record {
  verdict = revise;
  findings = record { charter_principle = codes "harness fault"; detail = reason; file = [] } ∷ [];
  rationale = codes "build_output_invalid";
}

abbrev pub frozen_stop : Frozen → Stopped
frozen_stop (at_checkpoint reason) = checkpoint
frozen_stop (truncated reason) = patch_truncated
frozen_stop (invalid reason) = build_output_invalid

abbrev pub unreviewed : Review → Round
unreviewed review = record {
  review = review;
  adversary = none;
  arbitration = unasked;
  verdict = revise;
  placeholder = false;
  quarantine = false;
}

-- The first build, with the calls and the continuations that it took.
pub record Opening : Type 0 where
  pub build : Build
  pub frozen : Option Frozen
  pub calls : ℕ
  pub continuations : ℕ
  pub previous_patch : Option Text

-- The state ahead of the loop, from the round that the first build got.
abbrev pub opened : Team → Opening → Option Handoff → Bool → Round → List Summary → Loop
opened team o handoff prior_handoff round rounds = record {
  build = o.build;
  tier = team.tier_of o.build;
  handoff = handoff;
  round = round;
  any_placeholder = round.placeholder;
  halves = 2;
  frozen = elim o.frozen [ none ↦ false | some f ↦ true ];
  prior_handoff = prior_handoff;
  standing = [];
  stopped = elim o.frozen [
    | some f ↦ some (frozen_stop f)
    | none ↦ if round.quarantine then some review_placeholders else none
  ];
  escalation = none;
  rounds = rounds;
  calls = o.calls;
  continuations = o.continuations;
  previous_patch = o.previous_patch;
  continuation_refused = none;
  checkpoint_reason = none;
}

unfoldable pub first_review : Team → Runner → Opening → Option Handoff → Result End Loop
first_review team runner o handoff =
    elim (review_round team.bound (team.tier_of o.build) (runner.seats o.calls o.build handoff)) [
      | err budget_stop ↦ err (raises build_stop)
      | err (node_failure role review adversary) ↦
          err (infra o.build handoff (node_failure role review adversary))
      | ok round ↦ ok (opened team o handoff false round (summary_of 1 at_review round ∷ []))
    ]

unfoldable pub start : Team → Runner → Opening → Result End Loop
start team runner o = elim o.frozen [
  | some f ↦ ok (opened team o none false (unreviewed (frozen_review f)) [])
  | none ↦
      if not team.has_handoff
      then first_review team runner o none
      else elim (settle team.shuttle o.build (runner.handoff o.calls o.build)) [
        | err (handoff_fails fault) ↦ err (infra o.build none fault)
        | err (held out) ↦ err (raises out)
        | err (handed h) ↦ err (raises contract_violation)
        | ok h ↦
            if h.complete
            then first_review team runner o (some h)
            else let round = handoff_critique h in
              ok (opened team o (some h) true round (summary_of 1 at_handoff round ∷ []))
      ]
]

-- The draft PR: the reviewer's rationale, the review tier, and the attempts in halves where there were several.
pub record Proposal : Type 0 where
  pub rationale : Text
  pub review_tier : ℕ
  pub attempts : Option ℕ

abbrev pub exhausted : Loop → Loop
exhausted l = elim l.stopped [
  | some why ↦ l
  | none ↦ if is_approve l.round.verdict then l else record l { stopped = some attempts_exhausted }
]

unfoldable pub proposal : Loop → Option Proposal
proposal l =
    if is_approve l.round.verdict
    then some (record {
      rationale = l.round.review.rationale;
      review_tier = l.tier;
      attempts = if ltb 2 l.halves then some l.halves else none;
    })
    else none

-- How a task ends: with its record and its proposal, or as the loop does.
pub data Ran : Type 0 where
  recorded : Loop → Option Proposal → Ran
  broken : End → Ran

unfoldable pub run : Team → Runner → ℕ → ℕ → Opening → Ran
run team runner patience fuel o = elim (start team runner o) [
  | err end ↦ broken end
  | ok l ↦ elim (fix_loop team runner patience fuel l) [
    | ended last ↦ recorded (exhausted last) (proposal last)
    | infra build handoff fault ↦ broken (infra build handoff fault)
    | raises out ↦ broken (raises out)
    | unfinished ↦ broken unfinished
  ]
]
