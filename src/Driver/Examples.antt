-- ===== src/Driver/Examples.antt =====
-- Items, attempts and verdicts of a run, and the theorems at them.
use coxswain_graphs.Prelude.{
  String, ◌≡◌, refl, Bool, true, false, Option, none, some, List, [], ◌∷◌, string_eq, list_eq,
  nat_eq, codes, ok, err,
}
use coxswain_graphs.Phases.{Item}
use coxswain_graphs.Driver.{
  ready_view, attempt_cap_for, Attempt, text, other, checked_work_state, work_state_of, is_postgres,
  row_should_quarantine, landed, approved_not_landed, rejected, harness_fault, task_outcome,
  is_harness_fault, phase_status,
}

program : Unit {0}
unfolding ready_view attempt_cap_for checked_work_state work_state_of is_postgres
    row_should_quarantine is_harness_fault task_outcome phase_status
program = tt

outcomes :
    (task_outcome none none none true ≡ landed)
    × (task_outcome (some "approve") none (some (codes "harness fault: x")) false ≡ harness_fault)
    × (task_outcome (some "revise") (some "approve") none false ≡ approved_not_landed)
    × (task_outcome (some "revise") none none false ≡ rejected)
unfolding program
outcomes = (refl, refl, refl, refl)

states :
    (work_state_of (("storage_url", text (codes "postgres://h")) ∷ []) ≡ ok (codes "store"))
    × (work_state_of [] ≡ ok (codes "files"))
    × (work_state_of (("work_state", other) ∷ []) ≡ err other)
unfolding program
states = (refl, refl, refl)

rows_moved :
    (row_should_quarantine (codes "store") (some "approved") true ≡ true)
    × (row_should_quarantine (codes "store") (some "approved") false ≡ false)
    × (row_should_quarantine (codes "files") (some "ready") false ≡ false)
unfolding program
rows_moved = (refl, refl, refl)

abbrev attempt : String → Option String → Attempt
attempt ts cause = record { run = codes "r"; ts = codes ts; cause = cause }

caps :
    (attempt_cap_for (attempt "2026-02" (some "code") ∷ attempt "2026-01" none ∷ []) ≡ 1)
    × (attempt_cap_for (attempt "2026-01" (some "code") ∷ attempt "2026-02" none ∷ []) ≡ 2)
    × (attempt_cap_for [] ≡ 2)
unfolding program
caps = (refl, refl, refl)

abbrev item : String → String → Bool → Item
item ident state merged = record {
  ident = codes ident;
  phase = codes "p1";
  state = state;
  needs = [];
  merged = merged;
}

abbrev items : List Item
items = item "a" "approved" true ∷ item "b" "approved" false ∷ item "c" "done" false ∷ []
