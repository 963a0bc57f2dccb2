-- ===== src/FixLoop/Examples.antt =====
-- A task that is sent back once and then approved, and the theorems at it.
use coxswain_graphs.Prelude.{
  ℕ, ◌+◌, ◌*◌, ◌≤◌, ◌≡◌, refl, String, true, false, not, ◌&&◌, Option, none, some, [], ◌==◌,
  list_eq, nat_eq, if◌then◌else◌, codes, arith, ok,
}
use coxswain_graphs.Review.{
  Verdict, approve, revise, Review, Adversary, Reply, answers, fails, Seats, reviewer_answer,
  review_is_placeholder, adversary_is_placeholder, review_round, concluded, full_round, sole_round,
}
use coxswain_graphs.Review.Judgment.{decides, opinions}
use coxswain_graphs.FixLoop.Resume.{
  Build, BudgetStop, Call, built, Tier, Setting, escalate, resume_build, judge_stop, continue_ok,
}
use coxswain_graphs.FixLoop.Resume.Continued.{IsPlain}
use coxswain_graphs.FixLoop.Paths.{touched_paths, files_outside_surfaces}
use coxswain_graphs.FixLoop.Scope.{claims, claims_of, arbiter_scope}
use coxswain_graphs.FixLoop.Handover.{Handoff, handed, settle, discharged_by}
use coxswain_graphs.FixLoop.{
  Team, Runner, Loop, goes_on, escalates, ask_build, makes_no_progress, after_review, review_retry,
  take_retry, turn, fix_loop, again, is_complete,
}
use coxswain_graphs.FixLoop.Bounds.{tally}
use coxswain_graphs.FixLoop.Escalation.{Reached, escalates-once}
use coxswain_graphs.FixLoop.Faithful.{is_some}
use coxswain_graphs.FixLoop.Run.{
  Opening, start, first_review, Proposal, proposal, Ran, recorded, run,
}
use coxswain_graphs.FixLoop.Run.Total.{is_stuck, run-ends, run-costs, run-calls}
use coxswain_graphs.FixLoop.Run.Approved.{run-proposal, run-stopped}

program : Unit {0}
unfolding reviewer_answer review_is_placeholder adversary_is_placeholder review_round concluded
    full_round sole_round escalate resume_build judge_stop continue_ok touched_paths
    files_outside_surfaces claims claims_of arbiter_scope settle discharged_by goes_on escalates
    ask_build makes_no_progress after_review review_retry take_retry turn fix_loop is_complete start
    first_review proposal run
program = tt

abbrev pub build_of : String → Build
build_of patch = record {
  patch = codes patch;
  summary = codes "done";
  files_touched = [];
  commands_run = [];
}

abbrev pub says : Verdict → Review
says v = record { verdict = v; findings = []; rationale = codes "read" }

abbrev pub no_adversary : Review → Reply Adversary
no_adversary r = fails

abbrev pub seats_at : ℕ → Build → Option Handoff → Seats
seats_at n b h = record {
  charter_first = answers (says (if b.patch == codes "two" then approve else revise));
  charter_again = fails;
  adversary_first = no_adversary;
  adversary_again = no_adversary;
  arbiter = λ r a. fails;
}

abbrev pub calls_at : ℕ → Tier → Call
calls_at n tier = built (build_of "two")

calls_at-IsPlain : IsPlain calls_at
calls_at-IsPlain n tier stop e = ground (arith, e)

abbrev pub answered : Handoff
answered = record { complete = true; blocking = false; missing = []; discharged = []; brief = [] }

abbrev pub runner : Runner
runner = record { build = calls_at; handoff = λ n b. handed answered; seats = seats_at }

abbrev pub setting : Setting
setting = record {
  surfaces = [];
  hard_ceiling = none;
  budget = none;
  role_budget = none;
  tier_budget = λ t. none;
  is_tracked = λ p. true;
  checks_pass = λ p s. true;
}

abbrev pub team : Team
team = record {
  bound = record { has_adversary = false; has_arbiter = false };
  has_handoff = true;
  fix_attempts = 2;
  has_build_tier = false;
  setting = setting;
  shuttle = record { measured = λ b m. none; is_impossible = λ m. false; deviations = λ b. [] };
  tier_of = λ b. 0;
  similar = λ a b. a == b;
}

abbrev pub opening : Opening
opening = record {
  build = build_of "one";
  frozen = none;
  calls = 1;
  continuations = 0;
  previous_patch = none;
}

abbrev loop_of : Ran → Loop → Loop
loop_of (recorded l p) d = l
loop_of (Ran.broken e) d = d

abbrev proposal_of : Ran → Option Proposal
proposal_of (recorded l p) = p
proposal_of (Ran.broken e) = none

abbrev pub proposed : Proposal
proposed = record { rationale = codes "read"; review_tier = 0; attempts = some 4 }

-- The task is approved on its second build, and the record says so.
pub ran : (l : Loop) × (run team runner 3 4 opening ≡ recorded l (some proposed)) × (l.halves ≡ 4)
unfolding program
ran = (_, refl, refl)

abbrev pub last : Loop
last = ran.0

run-ends_example : is_stuck (run team runner 3 4 opening) ≡ false
run-ends_example =
    run-ends team runner 3 4 opening refl calls_at-IsPlain (omega arith) (omega arith) (omega arith)

run-costs_example : (last.halves ≤ 2 * team.fix_attempts + 2) × (tally last.rounds ≤ last.halves)
run-costs_example = run-costs team runner 3 4 opening last (some proposed) ran.1

run-calls_example : last.calls + opening.continuations ≤ opening.calls + (2 * team.fix_attempts + 2)
run-calls_example =
    run-calls team runner 3 4 opening last (some proposed) refl calls_at-IsPlain (omega arith)
      (omega arith) ran.1

run-proposal_example :
    (n : ℕ) × (review_round team.bound
        (team.tier_of last.build)
        (runner.seats n last.build last.handoff)
      ≡ ok last.round)
    × (decides last.round.arbitration
          (opinions team.bound (team.tier_of last.build) (runner.seats n last.build last.handoff))
        ≡ true)
    × (proposed.review_tier ≡ team.tier_of last.build)
    × ((team.has_handoff && not (is_complete last.handoff)) ≡ false)
run-proposal_example = run-proposal team runner 3 4 opening last proposed ran.1

run-stopped_example : is_some (some proposed) ≡ not (is_some last.stopped)
run-stopped_example = run-stopped team runner 3 4 opening last (some proposed) ran.1

-- A runner whose second build is sent back too.
abbrev other_runner : Runner
other_runner = record {
  build = λ n tier. built (build_of "three");
  handoff = λ n b. handed answered;
  seats = seats_at;
}

started :
    (l : Loop) × (start team other_runner opening ≡ ok l)
    × (escalates team l ≡ true)
    × (2 ≤ l.halves)
unfolding program
started = (_, refl, refl, omega arith)

turned : (n : Loop) × (turn team other_runner 3 started.0 ≡ again n)
unfolding program started
turned = (_, refl)

escalates-once_example : escalates team turned.0 ≡ false
escalates-once_example =
    escalates-once team other_runner 3 started.0 turned.0 started.3 (Reached.first turned.1)

-- A build that stops with a part of its patch.
abbrev stop : BudgetStop
stop = record {
  has_session = true;
  spent = 300;
  partial_patch = codes "x";
  checkpoint_index = none;
  num_turns = 4;
}
