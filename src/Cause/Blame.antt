-- ===== src/Cause/Blame.antt =====
-- What must hold of an attempt before the ticket or the code is blamed for it.
use coxswain_graphs.Prelude.{
  String, ◌≡◌, refl, Bool, true, false, ◌&&◌, ◌||◌, Option, none, some, if◌then◌else◌, ◌==◌,
  string_eq, Text, codes, contains, starts_with,
}
use coxswain_graphs.Cause.{
  Cause, ticket, code, review, harness, unknown, classify_cause, is_auth_failure, is_limit_stop,
  is_transient_auth, is_worktree_fault,
}

-- The faults of the machinery: credentials, limits, the store of patches and the worktrees.
abbrev pub is_machinery : String → Text → Bool
is_machinery kind reason =
    is_auth_failure reason
    || is_limit_stop reason
    || is_transient_auth reason
    || kind == "infra"
    || contains reason (codes "patch did not apply")
    || is_worktree_fault reason
    || starts_with reason (codes "harness fault:")

abbrev pub blames_work : Option Cause → Bool
blames_work none = false
blames_work (some ticket) = true
blames_work (some code) = true
blames_work (some review) = false
blames_work (some harness) = false
blames_work (some unknown) = false

abbrev pub is_harness : Option Cause → Bool
is_harness none = false
is_harness (some ticket) = false
is_harness (some code) = false
is_harness (some review) = false
is_harness (some harness) = true
is_harness (some unknown) = false

-- The chain of tests of `classify_cause`, over their answers.
abbrev chain :
    (auth limit transient infra apply worktree fault outside check no_work : Bool) → Option Cause
chain auth limit transient infra apply worktree fault outside check no_work =
    if auth
    then some harness
    else if limit
    then some harness
    else if transient
    then some harness
    else if infra || apply
    then some harness
    else if worktree
    then some harness
    else if fault
    then some harness
    else if outside
    then some ticket
    else if check
    then some code
    else if no_work
    then some ticket
    else none

chain_lem :
    (auth limit transient infra apply worktree fault outside check no_work : Bool)
    → let c = chain auth limit transient infra apply worktree fault outside check no_work in
      let m = auth || limit || transient || infra || apply || worktree || fault in
      (is_harness c ≡ m) × ((m && blames_work c) ≡ false)
chain_lem true limit transient infra apply worktree fault outside check no_work = (refl, refl)
chain_lem false true transient infra apply worktree fault outside check no_work = (refl, refl)
chain_lem false false true infra apply worktree fault outside check no_work = (refl, refl)
chain_lem false false false true apply worktree fault outside check no_work = (refl, refl)
chain_lem false false false false true worktree fault outside check no_work = (refl, refl)
chain_lem false false false false false true fault outside check no_work = (refl, refl)
chain_lem false false false false false false true outside check no_work = (refl, refl)
chain_lem false false false false false false false true check no_work = (refl, refl)
chain_lem false false false false false false false false true no_work = (refl, refl)
chain_lem false false false false false false false false false true = (refl, refl)
chain_lem false false false false false false false false false false = (refl, refl)

-- The harness is the cause exactly where the kind or the reason shows a fault of the machinery, and then
-- neither the ticket nor the code is blamed.
pub classify_cause-blame :
    (kind : String) (reason : Text)
    → (is_harness (classify_cause kind reason) ≡ is_machinery kind reason)
      × ((is_machinery kind reason && blames_work (classify_cause kind reason)) ≡ false)
unfolding classify_cause
classify_cause-blame kind reason =
    chain_lem (is_auth_failure reason) (is_limit_stop reason) (is_transient_auth reason)
      (kind == "infra") (contains reason (codes "patch did not apply")) (is_worktree_fault reason)
      (starts_with reason (codes "harness fault:"))
      (starts_with reason (codes "configured check failed outside surfaces:"))
      (contains reason (codes "configured check failed")
        || contains reason (codes "configured checks failed"))
      (kind == "no_work")
