-- ===== src/Driver/Refused.antt =====
-- harness/epic.py: why the fix loop refused a task (`_unapproved`).
-- A message is a record of the values that it prints.
use coxswain_graphs.Prelude.{
  ℕ, ◌≡◌, ◌↔◌, String, true, Option, none, some, List, [], ◌∷◌, any, is_empty, if◌then◌else◌, ◌==◌,
  string_eq, Text, codes, find, take, arith,
}

-- The arbitration, the last review and the adversary's objections of a result. A missing text is empty.
pub record Arbitration : Type 0 where
  pub verdict : Text
  pub sided_with : Text
  pub reasoning : Text

pub record LoopResult : Type 0 where
  pub proposal_kinds : List String
  pub stopped : Text
  pub attempts : ℕ
  pub arbitration : Option Arbitration
  pub review_verdict : Text
  pub objections : List Text

pub data Detail : Type 0 where
  no_detail : Detail
  objected : Text → Detail
  sided : Text → Text → Detail

pub record Refusal : Type 0 where
  pub stopped : Text
  pub attempts : ℕ
  pub verdict : Text
  pub detail : Detail

-- `s.split(p, 1)[0]`
pub before : Text → Text → Text
before p s = elim (find s p) [ none ↦ s | some i ↦ take i s ]

-- `value or default`
abbrev or_text : Text → Text → Text
or_text s d = if is_empty s then d else s

abbrev reviewed : LoopResult → Text × Detail
reviewed r = (
  or_text r.review_verdict (codes "none recorded"),
  elim r.objections [ [] ↦ no_detail | claim ∷ rest ↦ objected claim ],
)

abbrev last_word : LoopResult → Text × Detail
last_word r = elim r.arbitration [
  | none ↦ reviewed r
  | some a ↦
      if is_empty a.verdict
      then reviewed r
      else (a.verdict, sided a.sided_with (before (codes ".") (before (codes ". ") a.reasoning)))
]

pub unapproved : LoopResult → Option Refusal
unapproved r =
    if any (λ k. k == "draft_pr_create") r.proposal_kinds
    then none
    else some (record {
      stopped = or_text r.stopped (codes "the reviewers did not approve the build");
      attempts = r.attempts;
      verdict = (last_word r).0;
      detail = (last_word r).1;
    })

-- A task is refused exactly where its loop proposed no draft.
pub unapproved_iff :
    (r : LoopResult)
    → (unapproved r ≡ none) ↔ (any (λ k. k == "draft_pr_create") r.proposal_kinds ≡ true)
unfolding unapproved
unapproved_iff r = ground arith
