-- ===== src/Budget/Range.antt =====
-- The estimate is in its range, and only rows of the same repository move it.
use coxswain_graphs.Prelude.{
  ℕ, ◌≤◌, max, min, String, ◌≡◌, refl, List, [], ◌∷◌, select, ◌==◌, string_eq, arith,
}
use coxswain_graphs.Budget.{
  bucket, p75, round_to_cents, clamp_to_cents, Landed, repo_rows, bucket_rows, estimate_budget,
}

clamped :
    (v : ℕ) → (4000000 ≤ max 4000000 (min 16000000 v)) × (max 4000000 (min 16000000 v) ≤ 16000000)
clamped v = ground arith

round_to_cents-range :
    (v : ℕ) → 4000000 ≤ v → v ≤ 16000000 → (100 ≤ round_to_cents v) × (round_to_cents v ≤ 400)
unfolding round_to_cents
round_to_cents-range v lo hi = ground arith

clamp_to_cents-range : (v : ℕ) → (100 ≤ clamp_to_cents v) × (clamp_to_cents v ≤ 400)
unfolding clamp_to_cents
clamp_to_cents-range v =
    round_to_cents-range (max 4000000 (min 16000000 v)) (clamped v).0 (clamped v).1

-- Whatever the history, the estimate is between 1.00 and 4.00 dollars.
pub estimate_budget-range :
    (history : List Landed) (repo : String) (n : ℕ)
    → (100 ≤ (estimate_budget history repo n).0) × ((estimate_budget history repo n).0 ≤ 400)
unfolding estimate_budget
estimate_budget-range history repo n = ground (
  arith,
  clamp_to_cents-range (p75 (bucket_rows history repo (bucket n))),
  clamp_to_cents-range (p75 (repo_rows history repo)),
  clamp_to_cents-range 6000000,
)

-- The history of the repository alone.
abbrev pub own_rows : List Landed → String → List Landed
own_rows history repo = select (λ r. r.repo == repo) history

repo_rows-own :
    (history : List Landed) (repo : String)
    → repo_rows (own_rows history repo) repo ≡ repo_rows history repo
repo_rows-own [] repo = refl
repo_rows-own (r ∷ history) repo = ground (arith, repo_rows-own history repo)

bucket_rows-own :
    (history : List Landed) (repo : String) (b : ℕ)
    → bucket_rows (own_rows history repo) repo b ≡ bucket_rows history repo b
bucket_rows-own [] repo b = refl
bucket_rows-own (r ∷ history) repo b = ground (arith, bucket_rows-own history repo b)

-- Rows of other repositories do not change the estimate.
pub estimate_budget-own :
    (history : List Landed) (repo : String) (n : ℕ)
    → estimate_budget (own_rows history repo) repo n ≡ estimate_budget history repo n
unfolding estimate_budget
estimate_budget-own history repo n =
    rw (repo_rows-own history repo, bucket_rows-own history repo (bucket n)) refl
