-- ===== src/Policy.antt =====
-- harness/autonomy.py: which proposals skip the gate. The policy itself is the core's, and an argument.
-- `_streak_rows` reads a file or the store: the rows that it found are an argument.
pub mod Caps
mod Examples
use coxswain_graphs.Prelude.{
  ℕ, zero, suc, ◌+◌, String, Bool, true, false, Option, List, [], ◌∷◌, select, if◌then◌else◌, ◌==◌,
  option_eq, string_eq,
}

-- A proposal, with the keys that the split reads.
pub record Queued : Type 0 where
  pub kind : String
  pub risk : String
  pub model : Option String
  pub subject : Option String
  pub subject_new : Option Bool

pub record Row : Type 0 where
  pub kind : String
  pub model : Option String
  pub human_decision : String

-- The keys of `config` that depend on the item and on the run.
pub record Config : Type 0 where
  pub applied_this_run : ℕ
  pub subject : Option String
  pub subject_new : Option Bool

-- `Counter`: a kind that was not counted has 0.
pub bump : String → (String → ℕ) → String → ℕ
bump kind counter k = if k == kind then suc (counter k) else counter k

module _ (is_auto : String → String → List Row → Config → Bool) (rows : List Row) where
  pub clears : (String → ℕ) → Queued → Bool
  clears applied item =
      is_auto item.kind item.risk (select (λ row. row.model == item.model) rows) record {
        applied_this_run = applied item.kind;
        subject = item.subject;
        subject_new = item.subject_new;
      }

  -- The loop, with the counter so far: the proposals that skip the gate, and those that meet it.
  pub split_from : (String → ℕ) → List Queued → List Queued × List Queued
  split_from applied [] = ([], [])
  split_from applied (item ∷ items) = elim (clears applied item) [
    | true ↦ let rest = split_from (bump item.kind applied) items in (item ∷ rest.0, rest.1)
    | false ↦ let rest = split_from applied items in (rest.0, item ∷ rest.1)
  ]

  pub split_by_policy : List Queued → List Queued × List Queued
  split_by_policy proposals = split_from (λ k. 0) proposals
