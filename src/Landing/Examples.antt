-- ===== src/Landing/Examples.antt =====
-- Branches of a run, and the theorems at them.
use coxswain_graphs.Prelude.{
  String, ◌≡◌, refl, true, false, ◌||◌, none, some, List, [], ◌∷◌, ◌++◌, map, any, all, ◌==◌,
  string_eq, if◌then◌else◌, Text, codes, list_eq, nat_eq,
}
use coxswain_graphs.Landing.{
  Git, TaskRecord, branch_action, proceed, block, task_of, after_blanks, unlanded, counts,
  state_of_subject, classify_states, classify_unlanded, landed, awaiting_land, rebase, blocked,
  kept_work_refusal, end_of_run_refusal, gather_branch_facts, audit_one, audit_approved_kept,
}
use coxswain_graphs.Landing.Unlanded.{is_done, is_approved, classify_states-all}
use coxswain_graphs.Landing.Kept.{is_lost, audit_approved_kept-none_lost}

program : Unit {0}
unfolding branch_action task_of after_blanks unlanded counts state_of_subject classify_states
    classify_unlanded kept_work_refusal end_of_run_refusal gather_branch_facts audit_one
    audit_approved_kept
program = tt

abbrev git : Git
git = record {
  branch_exists = λ b. b == codes "phase/p1";
  branch_ahead = λ b. true;
  is_ancestor = λ draft b. draft == codes "draft/a";
}

abbrev task : String → TaskRecord
task ident = record {
  ident = codes ident;
  phase = codes "p1";
  state = "approved";
  status = "approved";
  merged = true;
  draft = some (codes "draft/" ++ codes ident);
  quarantine = none;
  outcome = "landed";
}

abbrev phase_branch : Text → Text
phase_branch p = codes "phase/" ++ p

abbrev scratch_branch : Text → Text
scratch_branch t = codes "draft/" ++ t

-- The branch holds the merge of `a` and not that of `b`.
audited :
    map
      (λ r. r.state)
      (audit_approved_kept git phase_branch scratch_branch (task "a" ∷ task "b" ∷ []))
    ≡ "approved" ∷ "quarantined" ∷ []
unfolding program
audited = refl

abbrev lines : List Text
lines = codes "+ 1a epic e: t1: add" ∷ codes "- 2b epic e: t2" ∷ codes "+ 3c epic e: t3" ∷ []

meanings :
    (classify_unlanded (codes "+ 1a epic e: t1" ∷ []) ((codes "t1", "approved") ∷ [])
      ≡ awaiting_land)
    × (classify_unlanded (codes "- 1a epic e: t1" ∷ []) [] ≡ landed)
    × (classify_unlanded lines [] ≡ blocked)
unfolding program
meanings = (refl, refl, refl)

actions : (branch_action true true true ≡ block) × (branch_action true false true ≡ proceed)
unfolding program
actions = (refl, refl)

audit_approved_kept-none_lost_example :
    any
      (is_lost git phase_branch scratch_branch)
      (audit_approved_kept git phase_branch scratch_branch (task "a" ∷ task "b" ∷ []))
    ≡ false
audit_approved_kept-none_lost_example =
    audit_approved_kept-none_lost git phase_branch scratch_branch (task "a" ∷ task "b" ∷ [])

classify_states-all_example : classify_states ("done" ∷ "approved" ∷ []) ≡ (
    if all is_done ("done" ∷ "approved" ∷ [])
    then landed
    else if all is_approved ("done" ∷ "approved" ∷ [])
    then awaiting_land
    else if all (λ s. is_approved s || is_done s) ("done" ∷ "approved" ∷ [])
    then rebase
    else blocked)
classify_states-all_example = classify_states-all ("done" ∷ "approved" ∷ [])
