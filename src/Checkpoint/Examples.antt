-- ===== src/Checkpoint/Examples.antt =====
-- Signals of a build, and the decisions on them.
use coxswain_graphs.Prelude.{ℕ, ◌≡◌, refl, Bool, true, false, List, [], ◌∷◌, Text, codes}
use coxswain_graphs.Checkpoint.{
  CheckpointSignals, resume, revise, re_scope, re_ground, split_task, is_last, checkpoint_decision,
}

program : Unit {0}
unfolding checkpoint_decision is_last
program = tt

abbrev signals : ℕ → Bool → Bool → List Text → CheckpointSignals
signals index grew pass outside = record {
  spend_usd = 120;
  guide_usd = 200;
  checkpoint_index = index;
  turns = 9;
  diff_grew = grew;
  checks_pass = pass;
  files_outside_surfaces = outside;
  scratch_ignored = [];
}

abbrev fractions : List ℕ
fractions = 50 ∷ 75 ∷ []

decisions :
    (checkpoint_decision (signals 0 true false []) fractions ≡ resume)
    × (checkpoint_decision (signals 1 true false []) fractions ≡ revise split_task)
    × (checkpoint_decision (signals 0 false true []) fractions ≡ revise re_ground)
    × (checkpoint_decision (signals 0 false true (codes "a" ∷ [])) fractions
        ≡ revise (re_scope (codes "a")))
unfolding program
decisions = (refl, refl, refl, refl)
