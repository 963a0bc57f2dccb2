-- ===== src/Driver.antt =====
-- harness/epic.py: what the driver decides from the records of a run, apart from its branches.
pub mod Refused
pub mod Views
pub mod Status
mod Examples
use coxswain_graphs.Prelude.{
  ℕ, zero, suc, ◌+◌, ◌-◌, String, Bool, true, false, not, ◌&&◌, ◌||◌, Option, none, some, List, [],
  ◌∷◌, ◌++◌, map, any, all, select, elem, is_empty, drop, length, if◌then◌else◌, ◌==◌, option_eq,
  list_eq, string_eq, nat_eq, Text, codes, starts_with, lookup, Dict, sort_by, text_ord, Result, ok,
  err,
}
use coxswain_graphs.Phases.{Item}

pub data Outcome : Type 0 where
  landed approved_not_landed rejected harness_fault : Outcome

-- `is_harness_fault` of harness/checks.py.
pub is_harness_fault : Text → Bool
is_harness_fault reason = starts_with reason (codes "harness fault:")

abbrev is_fault : Option Text → Bool
is_fault none = false
is_fault (some reason) = is_harness_fault reason

pub task_outcome : Option String → Option String → Option Text → Bool → Outcome
task_outcome review_verdict arbitration_verdict quarantine_reason is_landed =
    if is_landed
    then landed
    else if is_fault quarantine_reason
    then harness_fault
    else if review_verdict == some "approve" || arbitration_verdict == some "approve"
    then approved_not_landed
    else rejected

-- A value of the profile: a string, or something else that JSON holds.
pub data Value : Type 0 where
  text : Text → Value
  other : Value

abbrev work_states : List Text
work_states = codes "files" ∷ codes "store" ∷ []

pub checked_work_state : Value → Result Value Text
checked_work_state (text s) = if elem s work_states then ok s else err (text s)
checked_work_state other = err other

-- `str(profile.get("storage_url") or "")`: no other value prints as one of the prefixes.
pub is_postgres : Option Value → Bool
is_postgres (some (text url)) =
    starts_with url (codes "postgresql://")
    || starts_with url (codes "postgresql+psycopg://")
    || starts_with url (codes "postgres://")
is_postgres (some other) = false
is_postgres none = false

pub work_state_of : Dict String Value → Result Value Text
work_state_of profile = elim (lookup "work_state" profile) [
  | some value ↦ checked_work_state value
  | none ↦
      if is_postgres (lookup "storage_url" profile) then ok (codes "store") else ok (codes "files")
]

pub row_should_quarantine : Text → Option String → Bool → Bool
row_should_quarantine work_state current_state approved_is_open =
    let finished =
      if approved_is_open
      then "done" ∷ "quarantined" ∷ []
      else "approved" ∷ "done" ∷ "quarantined" ∷ [] in
    work_state == codes "store"
    && elim current_state [ none ↦ false | some state ↦ not (elem state finished) ]

-- An earlier quarantined run of a task.
pub record Attempt : Type 0 where
  pub run : Text
  pub ts : Text
  pub cause : Option String

abbrev pub attempt_cap : ℕ
attempt_cap = 2

-- `xs[-1:]`
abbrev pub last_one : List Attempt → List Attempt
last_one xs = drop (length xs - 1) xs

abbrev pub is_task_fault : Attempt → Bool
is_task_fault a = a.cause == some "ticket" || a.cause == some "code"

pub attempt_cap_for : List Attempt → ℕ
attempt_cap_for attempts =
    if any is_task_fault (last_one (sort_by (λ a. a.ts) attempts)) then 1 else attempt_cap

abbrev pub presented : Item → Item
presented item =
    if item.state == "approved" && item.merged then record item { state = "done" } else item

pub ready_view : List Item → List Item
ready_view items = map presented items

-- The validator's verdict.
pub record Verdict : Type 0 where
  pub goal_met : Bool
  pub reasoning : Option Text

pub data PhaseStatus : Type 0 where
  complete partial : Text → PhaseStatus

abbrev pub is_over : Text → Item → Bool
is_over phase item =
    not (item.phase == phase) || elem item.state ("done" ∷ "dropped" ∷ "approved" ∷ [])

-- `ready` and `quarantined` are given as their lengths.
pub phase_status : Option Verdict → Bool → ℕ → ℕ → List Item → Text → Bool → Text → PhaseStatus
phase_status verdict validated ready quarantined items phase is_landed branch =
    if ready == 0 && quarantined == 0 && all (is_over phase) items
    then complete (codes "every task in the phase was already done")
    else if not validated
    then partial (codes "no validator bound")
    else elim verdict [
      | none ↦ partial (codes "the validator produced no verdict")
      | some v ↦
          if not v.goal_met
          then partial (elim v.reasoning [
            | none ↦ codes "the phase goal was not met"
            | some why ↦ if is_empty why then codes "the phase goal was not met" else why
          ])
          else if not is_landed
          then partial (codes "the goal is met, but nothing was merged into " ++ branch)
          else complete []
    ]
