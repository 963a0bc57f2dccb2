-- ===== src/Driver/Status.antt =====
-- When a phase unblocks the phases that depend on it.
use coxswain_graphs.Prelude.{
  ℕ, ◌≡◌, Bool, true, false, ◌&&◌, ◌||◌, Option, none, some, List, all, ◌==◌, list_eq, string_eq,
  nat_eq, Text, arith,
}
use coxswain_graphs.Phases.{Item}
use coxswain_graphs.Driver.{PhaseStatus, complete, partial, phase_status, Verdict, is_over}

abbrev pub is_complete : PhaseStatus → Bool
is_complete (complete why) = true
is_complete (partial why) = false

abbrev pub is_met : Option Verdict → Bool
is_met none = false
is_met (some v) = v.goal_met

-- A phase is complete exactly where nothing was ready or quarantined and all its tasks are over, or where a
-- bound validator found the goal met and the work was merged.
pub phase_status_complete :
    (verdict : Option Verdict) (validated : Bool) (ready quarantined : ℕ) (items : List Item)
    (phase : Text) (is_landed : Bool) (branch : Text)
    → is_complete (phase_status verdict validated ready quarantined items phase is_landed branch)
      ≡ ((ready == 0 && quarantined == 0 && all (is_over phase) items)
          || (validated && is_met verdict && is_landed))
unfolding phase_status
phase_status_complete none validated ready quarantined items phase is_landed branch = ground arith
phase_status_complete (some v) validated ready quarantined items phase is_landed branch =
    ground arith
