-- ===== src/Cause/Examples.antt =====
-- Reasons of failed attempts, and the rule at them.
use coxswain_graphs.Prelude.{◌≡◌, refl, false, ◌&&◌, none, some, codes}
use coxswain_graphs.Cause.{
  ticket, code, harness, has_marker, is_auth_failure, is_limit_stop, is_transient_auth,
  is_worktree_fault, classify_cause,
}
use coxswain_graphs.Cause.Blame.{is_harness, is_machinery, blames_work, classify_cause-blame}

program : Unit {0}
unfolding has_marker is_auth_failure is_limit_stop is_transient_auth is_worktree_fault
    classify_cause
program = tt

causes :
    (classify_cause "refused" (codes "Not Logged In") ≡ some harness)
    × (classify_cause "unverified" (codes "configured check failed: unit") ≡ some code)
    × (classify_cause "unverified" (codes "configured check failed outside surfaces: a.py")
        ≡ some ticket)
    × (classify_cause "infra" (codes "configured check failed: unit") ≡ some harness)
    × (classify_cause "no_work" (codes "") ≡ some ticket)
    × (classify_cause "refused" (codes "no") ≡ none)
unfolding program
causes = (refl, refl, refl, refl, refl, refl)

classify_cause-blame_example :
    (is_harness (classify_cause "refused" (codes "not logged in"))
      ≡ is_machinery "refused" (codes "not logged in"))
    × ((is_machinery "refused" (codes "not logged in")
          && blames_work (classify_cause "refused" (codes "not logged in")))
        ≡ false)
classify_cause-blame_example = classify_cause-blame "refused" (codes "not logged in")
