-- ===== src/Landing/Kept.antt =====
-- The end-of-run audit: what stays approved is kept on a branch.
use coxswain_graphs.Prelude.{
  ◌≡◌, refl, sym, any, all, Bool, true, false, not, ◌&&◌, ◌||◌, Option, none, some, List, [], ◌∷◌,
  if◌then◌else◌, string_eq, Text, arith, Bool-cases, inl, inr, ◌↔◌,
}
use coxswain_graphs.Landing.{
  Lost, BranchFacts, kept_work_refusal, end_of_run_refusal, TaskRecord, Git, holds, branch_for,
  gather_branch_facts, is_audited, quarantined, audit_one, audit_approved_kept,
}

-- The audit finds nothing wrong exactly where the branch exists, has commits that the default ref
-- lacks and, for a merged task, contains the draft's tip.
pub end_of_run_refusal_iff :
    (facts : BranchFacts) (merged : Bool)
    → (end_of_run_refusal facts merged ≡ none)
      ↔ ((facts.exists && facts.ahead && (not merged || facts.holds_merge)) ≡ true)
unfolding end_of_run_refusal kept_work_refusal
end_of_run_refusal_iff facts merged = ground arith

-- Behind a landed draft and a merge that went through, or for an escalated task behind a draft branch,
-- work is kept exactly where its branch is ahead of the default ref.
pub kept_work_refusal_iff :
    (was_landed did escalated ahead : Bool)
    → (kept_work_refusal was_landed (some did) escalated ahead ≡ none)
      ↔ ((was_landed && ahead && (escalated || did)) ≡ true)
unfolding kept_work_refusal
kept_work_refusal_iff was_landed did escalated ahead = ground arith

module _ (git : Git) (phase_branch scratch_branch : Text → Text) where
  -- Git holds the work of the record on the branch that should have it.
  abbrev pub is_kept : TaskRecord → Bool
  is_kept r =
      let branch = branch_for git phase_branch scratch_branch r in
      git.branch_exists branch
      && git.branch_ahead branch
      && (not r.merged || holds git r.draft branch)

  refused :
      (r : TaskRecord)
      → (end_of_run_refusal (gather_branch_facts git phase_branch scratch_branch r) r.merged ≡ none)
        ↔ (is_kept r ≡ true)
  unfolding gather_branch_facts
  refused r = ground (
    arith,
    end_of_run_refusal_iff (gather_branch_facts git phase_branch scratch_branch r) r.merged,
  )

  audit_one-same :
      (r : TaskRecord) → is_kept r ≡ true → audit_one git phase_branch scratch_branch r ≡ r
  unfolding audit_one
  audit_one-same r k = ground (arith, refused r)

  -- `audit_one` at an answer of the two tests.
  audit_at :
      (r : TaskRecord) (a : Bool) (refusal : Option Lost)
      → (a ≡ is_audited git phase_branch scratch_branch r)
      → (refusal ≡ none) ↔ (is_kept r ≡ true)
      → is_kept r ≡ false
      → is_audited git phase_branch scratch_branch (
          if a
          then elim refusal [
            | none ↦ r
            | some why ↦ quarantined git phase_branch scratch_branch r why
          ]
          else r)
        ≡ false
  audit_at r true none e f k = absurd (ground arith)
  audit_at r true (some why) e f k = refl
  audit_at r false refusal e f k = sym e

  audit_one-lost :
      (r : TaskRecord)
      → is_kept r ≡ false
      → is_audited git phase_branch scratch_branch (audit_one git phase_branch scratch_branch r)
        ≡ false
  unfolding audit_one
  audit_one-lost r k =
      audit_at r (is_audited git phase_branch scratch_branch r)
        (end_of_run_refusal (gather_branch_facts git phase_branch scratch_branch r) r.merged) refl
        (refused r) k

  abbrev pub is_lost : TaskRecord → Bool
  is_lost r = is_audited git phase_branch scratch_branch r && not (is_kept r)

  audit_one-not_lost :
      (r : TaskRecord) → is_lost (audit_one git phase_branch scratch_branch r) ≡ false
  audit_one-not_lost r = elim (Bool-cases (is_kept r)) [
    | inl k ↦ rw (audit_one-same r k) (ground arith)
    | inr k ↦ ground (arith, audit_one-lost r k)
  ]

  -- After the audit no record is approved, unquarantined and without its work on its branch.
  pub audit_approved_kept-none_lost :
      (records : List TaskRecord)
      → any is_lost (audit_approved_kept git phase_branch scratch_branch records) ≡ false
  unfolding audit_approved_kept
  audit_approved_kept-none_lost [] = refl
  audit_approved_kept-none_lost (r ∷ records) =
      ground (arith, audit_one-not_lost r, audit_approved_kept-none_lost records)

  -- The audit changes no record whose work is on its branch.
  pub audit_approved_kept-same :
      (records : List TaskRecord)
      → all is_kept records ≡ true
      → audit_approved_kept git phase_branch scratch_branch records ≡ records
  unfolding audit_approved_kept
  audit_approved_kept-same [] k = refl
  audit_approved_kept-same (r ∷ records) k =
      ground (arith, audit_one-same r, audit_approved_kept-same records)
