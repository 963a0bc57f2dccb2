-- ===== src/FixLoop/Resume.antt =====
-- graphs/delivery/lifecycle_propose.py: a build that stopped at its budget, resumed or refused.
-- Amounts are whole cents. The runner is what its n-th build call answers, the calls counted from 0.
pub mod Continued
use coxswain_graphs.Prelude.{
  ℕ, zero, suc, ◌+◌, Bool, true, false, not, ◌&&◌, ◌||◌, Option, none, some, List, [], ◌∷◌, map,
  select, if◌then◌else◌, ◌==◌, list_eq, nat_eq, nat_beq, ltb, Text, codes, strip, elem, is_empty,
  get_or, length, min, ◌-◌, Result, ok, err,
}
use coxswain_graphs.Checkpoint.{
  CheckpointSignals, Decision, resume, revise, Remedy, checkpoint_decision,
}
use coxswain_graphs.FixLoop.Paths.{touched_paths, files_outside_surfaces, scratch_ignored}

-- BUILD_SCHEMA
pub record Build : Type 0 where
  pub patch : Text
  pub summary : Text
  pub files_touched : List Text
  pub commands_run : List (Text × Text)

-- `BudgetStop`: a spend or a turn count that is missing reads as 0.
pub record BudgetStop : Type 0 where
  pub has_session : Bool
  pub spent : ℕ
  pub partial_patch : Text
  pub checkpoint_index : Option ℕ
  pub num_turns : ℕ

pub data Call : Type 0 where
  built : Build → Call
  stops : BudgetStop → Call
  fails : Call

-- Why a build is not continued.
pub data Refused : Type 0 where
  no_session no_change : Refused
  outside_surfaces : Text → Refused
  ceiling_reached cap_reached : (done untouched : List Text) → Refused

abbrev pub continuations_max : ℕ
continuations_max = 2

-- `none` is `(True, "")`.
unfoldable pub continue_ok : BudgetStop → List Text → ℕ → Option ℕ → Option Refused
continue_ok stop surfaces continuations hard_ceiling =
    let touched = touched_paths stop.partial_patch in
    let untouched = select (λ s. not (elem s touched)) surfaces in
    if not stop.has_session
    then some no_session
    else elim (files_outside_surfaces touched surfaces) [
      | first ∷ more ↦ some (outside_surfaces first)
      | [] ↦
          if is_empty (strip stop.partial_patch)
          then if nat_beq continuations 0 then none else some no_change
          else elim hard_ceiling [
            | some ceiling ↦
                if ltb stop.spent ceiling then none else some (ceiling_reached touched untouched)
            | none ↦
                if ltb continuations continuations_max
                then none
                else some (cap_reached touched untouched)
          ]
    ]

-- The model tiers, and `rank` on them.
pub data Tier : Type 0 where
  cheap standard deep : Tier

abbrev pub tiers : List Tier
tiers = cheap ∷ standard ∷ deep ∷ []

abbrev pub rank : Tier → ℕ
rank cheap = 0
rank standard = 1
rank deep = 2

unfoldable pub escalate : Tier → Tier
escalate tier = get_or tiers (min (rank tier + 1) (length tiers - 1)) deep

-- The tier of a call, from its literal and the ticket's tier for the role.
pub tier_for : Option Tier → Option Tier → Option Tier
tier_for literal none = literal
tier_for none (some mapped) = some mapped
tier_for (some literal) (some mapped) =
    if ltb (rank literal) (rank mapped) then some mapped else some literal

-- What a resumption reads besides the stop: the ceiling of the build role, the budgets, git's index, and
-- the ticket's checks at the partial patch without its scratch files.
pub record Setting : Type 0 where
  pub surfaces : List Text
  pub hard_ceiling : Option ℕ
  pub budget : Option ℕ
  pub role_budget : Option ℕ
  pub tier_budget : Tier → Option ℕ
  pub is_tracked : Text → Bool
  pub checks_pass : Text → List Text → Bool

-- A budget of 0 is a budget.
pub guide_usd : Setting → Tier → Option ℕ
guide_usd setting tier = elim setting.budget [
  | some b ↦ some b
  | none ↦ elim setting.role_budget [ some r ↦ some r | none ↦ setting.tier_budget tier ]
]

-- CHECKPOINT_FRACTIONS, in hundredths.
abbrev checkpoint_fractions : List ℕ
checkpoint_fractions = 100 ∷ 200 ∷ []

pub checkpoint_call : Setting → Tier → BudgetStop → ℕ → Option Text → Decision
checkpoint_call setting tier stop index previous_patch =
    let outside = files_outside_surfaces (touched_paths stop.partial_patch) setting.surfaces in
    let scratch = scratch_ignored setting.is_tracked outside in
    checkpoint_decision
      (record {
        spend_usd = stop.spent;
        guide_usd = elim (guide_usd setting tier) [ none ↦ 0 | some g ↦ g ];
        checkpoint_index = index;
        turns = stop.num_turns;
        diff_grew = elim previous_patch [ none ↦ true | some p ↦ not (stop.partial_patch == p) ];
        checks_pass = setting.checks_pass stop.partial_patch scratch;
        files_outside_surfaces = select (λ f. not (elem f scratch)) outside;
        scratch_ignored = scratch;
      })
      checkpoint_fractions

-- Where a resumption ends: a build, a refusal of `_continue_ok`, a checkpoint's `Revise`, or a
-- RunnerError of the runner, which is not caught.
pub data Outcome : Type 0 where
  finished : Build → Outcome
  refused : Refused → Outcome
  revised : Remedy → Outcome
  raised : Outcome
  out_of_fuel : Outcome

-- The calls made so far, the continuations, the last stop and the patch of the last checkpoint.
pub record Resumed : Type 0 where
  pub outcome : Outcome
  pub calls : ℕ
  pub continuations : ℕ
  pub stop : BudgetStop
  pub previous_patch : Option Text

-- Whether the stop is resumed: how it ends, or the patch to compare the next checkpoint with.
unfoldable pub judge_stop :
    Setting → Tier → BudgetStop → ℕ → Option Text → Result Outcome (Option Text)
judge_stop setting tier stop continuations previous = elim stop.checkpoint_index [
  | some index ↦ elim (checkpoint_call setting tier stop index previous) [
    | revise reason ↦ err (revised reason)
    | resume ↦ ok (some stop.partial_patch)
  ]
  | none ↦ elim (continue_ok stop setting.surfaces continuations setting.hard_ceiling) [
    | some reason ↦ err (refused reason)
    | none ↦ ok previous
  ]
]

abbrev pub ends_at : Outcome → ℕ → ℕ → BudgetStop → Option Text → Resumed
ends_at outcome calls continuations stop previous = record {
  outcome = outcome;
  calls = calls;
  continuations = continuations;
  stop = stop;
  previous_patch = previous;
}

-- `_resume_build`: its `while True` on fuel.
unfoldable pub resume_build :
    Setting → Tier → (ℕ → Tier → Call) → ℕ → BudgetStop → ℕ → Option Text → ℕ → Resumed
resume_build setting tier runner zero stop continuations previous calls =
    ends_at out_of_fuel calls continuations stop previous
resume_build setting tier runner (suc fuel) stop continuations previous calls =
    elim (judge_stop setting tier stop continuations previous) [
      | err outcome ↦ ends_at outcome calls continuations stop previous
      | ok previous' ↦ elim (runner calls tier) [
        | built build ↦ ends_at (finished build) (calls + 1) (continuations + 1) stop previous'
        | fails ↦ ends_at raised (calls + 1) continuations stop previous'
        | stops next ↦
            resume_build setting tier runner fuel next (continuations + 1) previous' (calls + 1)
      ]
    ]
