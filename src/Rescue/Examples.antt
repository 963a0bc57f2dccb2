-- ===== src/Rescue/Examples.antt =====
-- Attempts on a ticket, and what a rescue makes of them.
use coxswain_graphs.Prelude.{ℕ, String, ◌≡◌, refl, Option, none, some, [], ◌∷◌, map, Text, codes}
use coxswain_graphs.Rescue.{
  Attempt, StoredRow, patch_of, eligible, may_run, no_patch, no_attempts, other_cause,
  already_failed, rescue_cause, with_cause, with_stored_causes, with_stored_rescues,
}

program : Unit {0}
unfolding patch_of eligible rescue_cause with_cause with_stored_causes with_stored_rescues
program = tt

abbrev attempt : String → String → Option String → Attempt
attempt kind ts cause = record {
  run = codes "r1";
  phase = codes "p1";
  kind = kind;
  reason = [];
  ts = codes ts;
  cause = cause;
  body_sha = none;
}

abbrev patch : Option Text
patch = some (codes "diff")

verdicts :
    (eligible (attempt "infra" "2" (some "harness") ∷ []) patch ≡ may_run)
    × (eligible (attempt "infra" "2" (some "code") ∷ []) patch ≡ other_cause (some "code"))
    × (eligible (attempt "rescue_failed" "2" (some "harness") ∷ []) patch ≡ already_failed)
    × (eligible [] patch ≡ no_attempts)
    × (eligible [] (some (codes "  ")) ≡ no_patch)
unfolding program
verdicts = (refl, refl, refl, refl, refl)

abbrev row : String → ℕ → String → StoredRow
row kind seq cause = record {
  run_id = codes "r1";
  phase_id = codes "p1";
  seq = seq;
  kind = kind;
  reason = [];
  ts = codes "1";
  cause = some cause;
}

-- The cause is that of the row with the greatest `seq`.
caused :
    map
      (λ a. a.cause)
      (with_stored_causes
        (attempt "infra" "2" none ∷ [])
        (row "infra" 4 "harness" ∷ row "infra" 2 "code" ∷ []))
    ≡ some "harness" ∷ []
unfolding program
caused = refl

folded :
    map
      (λ a. a.body_sha)
      (with_stored_rescues
        (codes "s")
        (attempt "infra" "2" none ∷ [])
        (row "rescue_failed" 1 "code" ∷ []))
    ≡ some (codes "before the current body") ∷ none ∷ []
unfolding program
folded = refl
