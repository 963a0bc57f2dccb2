-- ===== src/Landing.antt =====
-- harness/epic.py: what the driver decides from git's facts about branches, and what it calls kept work.
-- A message that the driver writes is a constructor; the names that it prints are its fields.
pub mod Unlanded
pub mod Kept
mod Examples
use coxswain_graphs.Prelude.{
  ℕ, zero, suc, ◌+◌, String, Bool, true, false, not, ◌&&◌, ◌||◌, Option, none, some, List, [], ◌∷◌,
  ◌++◌, map, if◌then◌else◌, ◌==◌, nat_eq, list_eq, string_eq, nat_beq, Text, codes, starts_with,
  find, take, drop, elem, all, any, select, subset, is_empty, Dict, lookup,
}

pub data BranchAction : Type 0 where
  proceed block recreate : BranchAction

pub branch_action : (reused head_moved has_own_commits : Bool) → BranchAction
branch_action reused head_moved has_own_commits =
    if not (reused && head_moved) then proceed else if has_own_commits then block else recreate

-- `subject.partition(": ")`, where the head is the driver's own.
pub task_of : Text → Option Text
task_of subject = elim (find subject (codes ": ")) [
  | none ↦ none
  | some i ↦
      if starts_with (take i subject) (codes "epic ") then some (drop (i + 2) subject) else none
]

-- `line.split(" ", n)[n]`, or none where the line has fewer blanks.
pub after_blanks : ℕ → Text → Option Text
after_blanks zero s = some s
after_blanks (suc n) [] = none
after_blanks (suc n) (c ∷ s) = if nat_beq c 32 then after_blanks n s else after_blanks (suc n) s

abbrev subject_of : Text → Text
subject_of line = elim (after_blanks 2 line) [ none ↦ [] | some subject ↦ subject ]

abbrev pub subjects : List Text → List Text
subjects cherry_lines = map subject_of (select (λ l. starts_with l (codes "+ ")) cherry_lines)

-- The comprehension's test: neither a done task's commit nor one of the driver's merges.
pub counts : List Text → Text → Bool
counts done_tasks subject = elim (task_of subject) [
  | none ↦ true
  | some t ↦ not (elem t done_tasks || starts_with t (codes "merge "))
]

pub unlanded : List Text → List Text → List Text
unlanded cherry_lines done_tasks = select (counts done_tasks) (subjects cherry_lines)

pub data Meaning : Type 0 where
  landed awaiting_land rebase blocked : Meaning

-- `task_states.get(t, "") if t is not None else ""`
pub state_of_subject : Dict Text String → Text → String
state_of_subject states subject = elim (task_of subject) [
  | none ↦ ""
  | some t ↦ elim (lookup t states) [ none ↦ "" | some s ↦ s ]
]

-- Equality of the sets of the elements.
abbrev same_set : List String → List String → Bool
same_set xs ys = subset xs ys && subset ys xs

pub classify_states : List String → Meaning
classify_states states =
    if is_empty states || same_set states ("done" ∷ [])
    then landed
    else if same_set states ("approved" ∷ [])
    then awaiting_land
    else if same_set states ("approved" ∷ "done" ∷ [])
    then rebase
    else blocked

pub classify_unlanded : List Text → Dict Text String → Meaning
classify_unlanded cherry_lines states =
    classify_states (map (state_of_subject states) (unlanded cherry_lines []))

-- Why an approved task's work is not on a branch that survives the run.
pub data Lost : Type 0 where
  draft_not_created draft_not_ahead draft_not_landed merge_not_attempted merge_refused : Lost
  merge_added_nothing : Lost
  branch_gone : Text → Lost
  merge_not_held : Text → Option Text → Lost

pub kept_work_refusal :
    (was_landed : Bool) → (merged : Option Bool) → (escalated ahead : Bool) → Option Lost
kept_work_refusal was_landed merged true ahead =
    if not was_landed
    then some draft_not_created
    else if not ahead
    then some draft_not_ahead
    else none
kept_work_refusal was_landed merged false ahead =
    if not was_landed then some draft_not_landed else elim merged [
      | none ↦ some merge_not_attempted
      | some did ↦
          if not did
          then some merge_refused
          else if not ahead
          then some merge_added_nothing
          else none
    ]

pub record BranchFacts : Type 0 where
  pub branch : Text
  pub draft : Option Text
  pub exists : Bool
  pub holds_merge : Bool
  pub ahead : Bool

pub end_of_run_refusal : BranchFacts → Bool → Option Lost
end_of_run_refusal facts merged =
    if not facts.exists
    then some (branch_gone facts.branch)
    else if merged && not facts.holds_merge
    then some (merge_not_held facts.branch facts.draft)
    else if merged
    then kept_work_refusal true (some true) false facts.ahead
    else kept_work_refusal true none true facts.ahead

-- A task record of the run, with the fields that the audit reads and writes.
pub record TaskRecord : Type 0 where
  pub ident : Text
  pub phase : Text
  pub state : String
  pub status : String
  pub merged : Bool
  pub draft : Option Text
  pub quarantine : Option Lost
  pub outcome : String

-- What git answers: a branch exists, is ahead of the default ref, and holds a commit's tip.
pub record Git : Type 0 where
  pub branch_exists : Text → Bool
  pub branch_ahead : Text → Bool
  pub is_ancestor : Text → Text → Bool

abbrev pub holds : Git → Option Text → Text → Bool
holds git none branch = false
holds git (some commit_branch) branch =
    if is_empty commit_branch then false else git.is_ancestor commit_branch branch

-- `ctx.phase_branch` and `ctx.scratch_branch` are given as functions of the phase and of the task.
module _ (git : Git) (phase_branch scratch_branch : Text → Text) where
  abbrev pub branch_for : TaskRecord → Text
  branch_for r = if r.merged then phase_branch r.phase else scratch_branch r.ident

  pub gather_branch_facts : TaskRecord → BranchFacts
  gather_branch_facts r = record {
    branch = branch_for r;
    draft = r.draft;
    exists = git.branch_exists (branch_for r);
    holds_merge = if r.merged then holds git r.draft (branch_for r) else true;
    ahead = git.branch_ahead (branch_for r);
  }

  abbrev pub is_audited : TaskRecord → Bool
  is_audited r = r.state == "approved" && elim r.quarantine [ none ↦ true | some why ↦ false ]

  abbrev pub quarantined : TaskRecord → Lost → TaskRecord
  quarantined r why = record r {
    state = "quarantined";
    status = "quarantined";
    quarantine = some why;
    outcome = "harness_fault";
  }

  pub audit_one : TaskRecord → TaskRecord
  audit_one r =
      if is_audited r
      then elim (end_of_run_refusal (gather_branch_facts r) r.merged) [
        | none ↦ r
        | some why ↦ quarantined r why
      ]
      else r

  pub audit_approved_kept : List TaskRecord → List TaskRecord
  audit_approved_kept records = map audit_one records
