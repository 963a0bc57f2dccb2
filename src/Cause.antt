-- ===== src/Cause.antt =====
-- harness/cause_rule.py: why an attempt failed, from the kind of its quarantine and its reason.
pub mod Blame
mod Examples
use coxswain_graphs.Prelude.{
  String, Bool, true, false, ◌&&◌, ◌||◌, Option, none, some, List, [], ◌∷◌, map, any, if◌then◌else◌,
  ◌==◌, string_eq, Text, codes, contains, starts_with, lower_code,
}

pub data Cause : Type 0 where
  ticket code review harness unknown : Cause

abbrev limit_markers : List Text
limit_markers = map codes (
    "error_max_budget_usd" ∷ "error_max_turns" ∷ "reached maximum budget"
    ∷ "you've hit your session limit" ∷ "usage limit" ∷ [])

abbrev auth_markers : List Text
auth_markers = map codes (
    "failed to authenticate" ∷ "oauth session expired" ∷ "not logged in" ∷ "invalid api key"
    ∷ "authentication_error" ∷ [])

abbrev transient_auth : List Text
transient_auth = codes "failed to refresh oauth token" ∷ []

pub has_marker : List Text → Text → Bool
has_marker markers reason = any (λ marker. contains (map lower_code reason) marker) markers

pub is_auth_failure : Text → Bool
is_auth_failure reason = has_marker auth_markers reason

pub is_limit_stop : Text → Bool
is_limit_stop reason = has_marker limit_markers reason

pub is_transient_auth : Text → Bool
is_transient_auth reason = has_marker transient_auth reason

abbrev harness_fault_prefix : Text
harness_fault_prefix = codes "harness fault:"

abbrev outside_surfaces_prefix : Text
outside_surfaces_prefix = codes "configured check failed outside surfaces:"

pub is_worktree_fault : Text → Bool
is_worktree_fault reason =
    contains reason (codes "worktree") && contains reason (codes "could not be")

pub classify_cause : String → Text → Option Cause
classify_cause kind reason =
    if is_auth_failure reason
    then some harness
    else if is_limit_stop reason
    then some harness
    else if is_transient_auth reason
    then some harness
    else if kind == "infra" || contains reason (codes "patch did not apply")
    then some harness
    else if is_worktree_fault reason
    then some harness
    else if starts_with reason harness_fault_prefix
    then some harness
    else if starts_with reason outside_surfaces_prefix
    then some ticket
    else if contains reason (codes "configured check failed")
        || contains reason (codes "configured checks failed")
    then some code
    else if kind == "no_work"
    then some ticket
    else none
