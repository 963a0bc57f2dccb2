-- ===== src/FixLoop.antt =====
-- graphs/delivery/lifecycle_propose.py: the bounded fix loop of `_run`, from a build to the task's record.
-- An attempt is counted in halves, since an incomplete handoff gives half of one back. The runner is what
-- its calls answer, by the number of build calls made before; the theorems hold for every runner.
pub mod Paths
pub mod Resume
pub mod Scope
pub mod Handover
pub mod Steps
pub mod Bounds
pub mod Ends
pub mod Escalation
pub mod Run
pub mod Faithful
pub mod Examples
use coxswain_graphs.Prelude.{
  ℕ, zero, suc, ◌+◌, ◌-◌, ◌*◌, ◌/◌, Bool, true, false, not, ◌&&◌, ◌||◌, Option, none, some, List,
  [], ◌∷◌, ◌++◌, map, any, if◌then◌else◌, ◌==◌, list_eq, nat_eq, nat_beq, leb, Text, codes, Result,
  ok, err, elem, is_empty,
}
use coxswain_graphs.Checkpoint.{Remedy}
use coxswain_graphs.Review.{
  Verdict, is_approve, is_revise, Fault, node_failure, budget_stop, Bound, Seats, Round,
  review_round,
}
use coxswain_graphs.FixLoop.Resume.{
  Build, BudgetStop, Call, built, stops, fails, Refused, Tier, standard, escalate, Setting, Outcome,
  finished, refused, revised, raised, out_of_fuel, Resumed, ends_at, resume_build,
}
use coxswain_graphs.FixLoop.Scope.{
  claims, arbiter_scope, no_file_moved, Source, at_handoff, at_review, Summary, round_summary,
}
use coxswain_graphs.FixLoop.Handover.{
  Handoff, Handed, handed, held, handoff_fails, Shuttle, settle, handoff_critique, Outside,
  build_stop, contract_violation, runner_error,
}

-- What the team and the ticket fix. `tier_of` is the review tier of a build's change facts, and `similar`
-- the ratio of difflib's SequenceMatcher at NO_PROGRESS_RATIO.
pub record Team : Type 0 where
  pub bound : Bound
  pub has_handoff : Bool
  pub fix_attempts : ℕ
  pub has_build_tier : Bool
  pub setting : Setting
  pub shuttle : Shuttle
  pub tier_of : Build → ℕ
  pub similar : Text → Text → Bool

pub record Runner : Type 0 where
  pub build : ℕ → Tier → Call
  pub handoff : ℕ → Build → Handed
  pub seats : ℕ → Build → Option Handoff → Seats

-- DEFAULT_FIX_ATTEMPTS, for a ticket that names none.
abbrev pub fix_attempts_of : Option ℕ → ℕ
fix_attempts_of none = 2
fix_attempts_of (some n) = n

-- Why the loop stopped without an approval.
pub data Stopped : Type 0 where
  checkpoint patch_truncated build_output_invalid review_placeholders budget no_progress
        objection_standing :
      Stopped
  attempts_exhausted : Stopped

pub record Loop : Type 0 where
  pub build : Build
  pub tier : ℕ
  pub handoff : Option Handoff
  pub round : Round
  pub any_placeholder : Bool
  pub halves : ℕ
  pub frozen : Bool
  pub prior_handoff : Bool
  pub standing : List Text
  pub stopped : Option Stopped
  pub escalation : Option Tier
  pub rounds : List Summary
  pub calls : ℕ
  pub continuations : ℕ
  pub previous_patch : Option Text
  pub continuation_refused : Option Refused
  pub checkpoint_reason : Option Remedy

-- How `_run` ends: a record, the record of a node that failed, or an exception that it does not catch.
pub data End : Type 0 where
  ended : Loop → End
  infra : Build → Option Handoff → Fault → End
  raises : Outside → End
  unfinished : End

pub data Step : Type 0 where
  again stay : Loop → Step
  leaves : End → Step

pub is_complete : Option Handoff → Bool
is_complete none = true
is_complete (some h) = h.complete

abbrev pub summary_of : ℕ → Source → Round → Summary
summary_of attempt source r =
    round_summary attempt source r.review r.adversary r.arbitration r.verdict

-- `while verdict != "approve" and attempts <= fix_attempts and not review_quarantine and not frozen`
pub goes_on : Team → Loop → Bool
goes_on team l =
    not (is_approve l.round.verdict)
    && leb l.halves (2 * team.fix_attempts)
    && not l.round.quarantine
    && not l.frozen

pub escalates : Team → Loop → Bool
escalates team l =
    nat_beq (l.halves / 2) 1
    && is_revise l.round.verdict
    && not l.prior_handoff
    && not team.has_build_tier

abbrev pub retry_tier : Team → Loop → Tier
retry_tier team l = if escalates team l then escalate standard else standard

-- The retry: the builder's call, resumed where it stops at the budget.
pub ask_build : Team → Runner → ℕ → Loop → Resumed
ask_build team runner patience l = elim (runner.build l.calls (retry_tier team l)) [
  | built b ↦ ends_at (finished b) (l.calls + 1) l.continuations no_stop l.previous_patch
  | fails ↦ ends_at raised (l.calls + 1) l.continuations no_stop l.previous_patch
  | stops stop ↦
      resume_build team.setting (retry_tier team l) runner.build patience stop l.continuations
        l.previous_patch (l.calls + 1)
]
  where
    no_stop : BudgetStop
    no_stop = record {
      has_session = false;
      spent = 0;
      partial_patch = [];
      checkpoint_index = none;
      num_turns = 0;
    }

abbrev same_commands : Build → Build → Bool
same_commands a b =
    map (λ c. c.0) a.commands_run == map (λ c. c.0) b.commands_run
    && map (λ c. c.1) a.commands_run == map (λ c. c.1) b.commands_run

pub makes_no_progress : Team → Loop → Build → Bool
makes_no_progress team l retry =
    let alike : Bool = elim (arbiter_scope l.round.verdict l.round.arbitration) [
      | none ↦ team.similar l.build.patch retry.patch
      | some scope ↦ no_file_moved scope l.build.patch retry.patch
    ] in
    if l.prior_handoff && alike
    then same_commands retry l.build && retry.summary == l.build.summary
    else alike

-- The state as the loop's body asks for the retry: the claims stand, and the escalation is told.
abbrev pub asking : Team → Loop → Loop
asking team l = record l {
  standing = l.standing ++ claims l.round.adversary;
  escalation = if escalates team l then some (retry_tier team l) else l.escalation;
}

-- What the retry's call leaves, with the attempt counted.
abbrev pub spent : Loop → Resumed → Loop
spent l r = record l {
  halves = l.halves + 2;
  calls = r.calls;
  continuations = r.continuations;
  previous_patch = r.previous_patch;
}

abbrev pub stopped_at : Stopped → Loop → Loop
stopped_at why l = record l { stopped = some why }

-- The end of a round: quarantined, approved, an objection that stands, or the loop's next turn.
pub after_review : Loop → Step
after_review l =
    if l.round.quarantine
    then stay (stopped_at review_placeholders l)
    else if is_approve l.round.verdict
    then stay l
    else if any (λ c. elem c l.standing) (claims l.round.adversary)
    then stay (stopped_at objection_standing l)
    else again l

-- The retry is kept, with the round that it got.
abbrev pub reviewed : Team → Loop → Build → Option Handoff → Round → Loop
reviewed team l retry handoff round = record l {
  build = retry;
  tier = team.tier_of retry;
  handoff = handoff;
  round = round;
  any_placeholder = l.any_placeholder || round.placeholder;
  prior_handoff = false;
  rounds = l.rounds ++ summary_of (l.halves / 2) at_review round ∷ [];
}

-- The review of the retry, which `handoff` hands over.
pub review_retry : Team → Runner → Loop → Build → Option Handoff → Step
review_retry team runner l retry handoff =
    elim (review_round team.bound (team.tier_of retry) (runner.seats l.calls retry handoff)) [
      | err budget_stop ↦ leaves (raises build_stop)
      | err (node_failure role review adversary) ↦
          leaves (infra retry handoff (node_failure role review adversary))
      | ok round ↦ after_review (reviewed team l retry handoff round)
    ]

-- The retry is sent back for its missing evidence, at half an attempt.
abbrev pub sent_back : Loop → Build → Handoff → Loop
sent_back l retry h =
    let round = handoff_critique h in
    record l {
      build = retry;
      handoff = some h;
      round = round;
      any_placeholder = l.any_placeholder || round.placeholder;
      halves = l.halves - 1;
      prior_handoff = true;
      rounds = l.rounds ++ summary_of (l.halves / 2) at_handoff round ∷ [];
    }

-- The loop's body behind the retry `b`.
pub take_retry : Team → Runner → Loop → Build → Step
take_retry team runner l b =
    if makes_no_progress team l b
    then stay (stopped_at no_progress l)
    else if not team.has_handoff
    then review_retry team runner l b l.handoff
    else elim (settle team.shuttle b (runner.handoff l.calls b)) [
      | err (handoff_fails fault) ↦ leaves (infra b l.handoff fault)
      | err (held out) ↦ leaves (raises out)
      | err (handed h) ↦ leaves (raises contract_violation)
      | ok h ↦ if h.complete then review_retry team runner l b (some h) else again (sent_back l b h)
    ]

-- One turn of the loop.
pub turn : Team → Runner → ℕ → Loop → Step
turn team runner patience l =
    let asked = ask_build team runner patience l in
    let next = spent (asking team l) asked in
    elim asked.outcome [
      | finished b ↦ take_retry team runner next b
      | revised remedy ↦
          stay (record (stopped_at checkpoint next) { checkpoint_reason = some remedy })
      | refused why ↦ stay (record (stopped_at budget next) { continuation_refused = some why })
      | raised ↦ leaves (raises runner_error)
      | out_of_fuel ↦ leaves unfinished
    ]

-- The loop, on fuel.
pub fix_loop : Team → Runner → ℕ → ℕ → Loop → End
fix_loop team runner patience zero l = if goes_on team l then unfinished else ended l
fix_loop team runner patience (suc fuel) l = elim (goes_on team l) [
  | false ↦ ended l
  | true ↦ elim (turn team runner patience l) [
    | again next ↦ fix_loop team runner patience fuel next
    | stay next ↦ ended next
    | leaves end ↦ end
  ]
]
