-- ===== src/Budget.antt =====
-- graphs/delivery/budget_estimate.py: a build's budget from landed-task history.
-- Costs are whole micro-dollars, so that a quarter of one is the finest part that a percentile has; the
-- estimate is in cents. Python's floats are read as the rationals that they stand for.
pub mod Range
mod Examples
use coxswain_graphs.Prelude.{
  ℕ, zero, suc, ◌+◌, ◌-◌, ◌*◌, ◌/◌, ◌%◌, max, min, String, Bool, true, false, ◌&&◌, ◌||◌, List, [],
  ◌∷◌, map, select, length, get_or, leb, ltb, nat_beq, if◌then◌else◌, ◌==◌, string_eq, nat_ord,
  sort,
}

-- The buckets `1`, `2`, `3-4` and `5+`, by number.
pub bucket : ℕ → ℕ
bucket surfaces_count =
    if leb surfaces_count 1
    then 1
    else if nat_beq surfaces_count 2
    then 2
    else if leb surfaces_count 4
    then 3
    else 5

-- The 75th percentile times 4: the rank is `3 * (n - 1)` quarters.
pub p75 : List ℕ → ℕ
p75 values =
    let ordered = sort values in
    let quarters = 3 * (length values - 1) in
    let lo = get_or ordered (quarters / 4) 0 in
    let hi = get_or ordered ((quarters + 3) / 4) 0 in 4 * lo + (hi - lo) * (quarters % 4)

-- `round(x, 2)` of a number of quarter micro-dollars: the nearest cent, the even one of two.
pub round_to_cents : ℕ → ℕ
round_to_cents value =
    let cents = value / 40000 in
    let part = value % 40000 in
    if ltb 20000 part || (nat_beq part 20000 && nat_beq (cents % 2) 1) then suc cents else cents

pub clamp_to_cents : ℕ → ℕ
clamp_to_cents value = round_to_cents (max 4000000 (min 16000000 value))

pub record Landed : Type 0 where
  pub repo : String
  pub surfaces_count : ℕ
  pub build_cost : ℕ

abbrev pub repo_rows : List Landed → String → List ℕ
repo_rows history repo = map (λ r. r.build_cost) (select (λ r. r.repo == repo) history)

abbrev pub bucket_rows : List Landed → String → ℕ → List ℕ
bucket_rows history repo b =
    map (λ r. r.build_cost)
      (select (λ r. r.repo == repo && nat_beq (bucket r.surfaces_count) b) history)

pub estimate_budget : List Landed → String → ℕ → ℕ × String
estimate_budget history repo surfaces_count =
    let in_repo = repo_rows history repo in
    let in_bucket = bucket_rows history repo (bucket surfaces_count) in
    if leb 10 (length in_bucket)
    then (clamp_to_cents (p75 in_bucket), "estimate")
    else if leb 10 (length in_repo)
    then (clamp_to_cents (p75 in_repo), "estimate")
    else (clamp_to_cents 6000000, "estimate")
