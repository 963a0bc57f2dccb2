-- ===== src/Policy/Examples.antt =====
-- A policy that clears at most two proposals of a kind in a run, and the theorems at it.
use coxswain_graphs.Prelude.{
  ◌≤◌, String, ◌≡◌, refl, Bool, false, ◌&&◌, none, List, [], ◌∷◌, ltb, ◌==◌, string_eq, arith,
  is_empty, not,
}
use coxswain_graphs.Policy.{Queued, Row, Config, bump, clears, split_from, split_by_policy}
use coxswain_graphs.Policy.Caps.{of_kind, split_by_policy-capped}

program : Unit {0}
unfolding bump clears split_from split_by_policy
program = tt

abbrev two_at_most : String → String → List Row → Config → Bool
two_at_most kind risk seen config =
    risk == "low" && (not (is_empty seen) && ltb config.applied_this_run 2)

abbrev queued : String → String → Queued
queued kind risk = record {
  kind = kind;
  risk = risk;
  model = none;
  subject = none;
  subject_new = none;
}

abbrev rows : List Row
rows = record { kind = "doc_update"; model = none; human_decision = "approved" } ∷ []

abbrev a_doc : Queued
a_doc = queued "doc_update" "low"

abbrev queue : List Queued
queue = a_doc ∷ queued "pr" "high" ∷ a_doc ∷ a_doc ∷ []

two_cleared :
    split_by_policy two_at_most rows queue ≡ (a_doc ∷ a_doc ∷ [], queued "pr" "high" ∷ a_doc ∷ [])
unfolding program
two_cleared = refl

refuses :
    (risk : String) (seen : List Row) (config : Config)
    → 2 ≤ config.applied_this_run
    → two_at_most "doc_update" risk seen config ≡ false
refuses risk seen config h = ground arith

split_by_policy-capped_example : of_kind "doc_update" (split_by_policy two_at_most rows queue).0 ≤ 2
split_by_policy-capped_example =
    split_by_policy-capped two_at_most rows "doc_update" 2 refuses queue
