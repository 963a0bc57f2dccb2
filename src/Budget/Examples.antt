-- ===== src/Budget/Examples.antt =====
-- A history of ten builds, and the estimates from it.
use coxswain_graphs.Prelude.{ℕ, ◌≤◌, String, ◌≡◌, refl, List, [], ◌∷◌, map}
use coxswain_graphs.Budget.{Landed, bucket, p75, round_to_cents, clamp_to_cents, estimate_budget}
use coxswain_graphs.Budget.Range.{estimate_budget-range}

program : Unit {0}
unfolding bucket p75 round_to_cents clamp_to_cents estimate_budget
program = tt

abbrev landed : String → ℕ → Landed
landed repo cost = record { repo = repo; surfaces_count = 2; build_cost = cost }

abbrev history : List Landed
history =
    landed "other" 9000000
    ∷ map (landed "api") (
        1100000 ∷ 1200000 ∷ 1300000 ∷ 1400000 ∷ 1500000 ∷ 1600000 ∷ 1700000 ∷ 1800000 ∷ 1900000
        ∷ 2000000 ∷ [])

estimates :
    (estimate_budget history "api" 2 ≡ (178, "estimate"))
    × (estimate_budget history "api" 7 ≡ (178, "estimate"))
    × (estimate_budget history "other" 2 ≡ (150, "estimate"))
unfolding program
estimates = (refl, refl, refl)

estimate_budget-range_example :
    (100 ≤ (estimate_budget history "api" 2).0) × ((estimate_budget history "api" 2).0 ≤ 400)
estimate_budget-range_example = estimate_budget-range history "api" 2
