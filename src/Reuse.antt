-- ===== src/Reuse.antt =====
-- harness/resume.py: whether a task's saved result may stand for a new run of it.
pub mod Recorded
mod Examples
use coxswain_graphs.Prelude.{
  Bool, true, false, not, ◌&&◌, Option, none, some, List, [], ◌∷◌, any, ◌==◌, list_eq, nat_eq, Text,
  codes, strip, is_empty,
}

-- What is read of a result: the build's patch, the kinds of its proposals, and why its fix loop stopped.
pub record SavedResult : Type 0 where
  pub patch : Text
  pub kinds : List Text
  pub stopped : Text

abbrev pub draft_pr_create : Text
draft_pr_create = codes "draft_pr_create"

-- A result that is missing or unreadable is `none`.
pub reusable : Option SavedResult → Bool
reusable none = false
reusable (some result) =
    any (λ k. k == draft_pr_create) result.kinds
    && not (is_empty (strip result.patch))
    && is_empty result.stopped
