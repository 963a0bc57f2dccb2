-- ===== src/Lease/Examples.antt =====
-- Small tables, runs of the operations on them, and the theorems at them.
use coxswain_graphs.Prelude.{◌≤◌, ◌≡◌, refl, true, false, none, some, [], ◌∷◌, arith, string_eq}
use coxswain_graphs.Lease.{
  Row, Table, keep, read, update, acquire, renew, release, assert_epoch, steal_stmt, take_stmt,
  insert_ignore, steal_or_refuse, renew_stmt, release_stmt, lease_state, held, expired,
}
use coxswain_graphs.Lease.Cell.{cell_acquire}
use coxswain_graphs.Lease.Statements.{IsKeyed}
use coxswain_graphs.Lease.Refinement.{acquire-cell}
use coxswain_graphs.Lease.Fence.{
  done, next, renews, Idle, epoch_at, acquire-fences_stale, release-stays_released,
}

program : Unit {0}
unfolding update read acquire renew release assert_epoch steal_stmt take_stmt insert_ignore
    steal_or_refuse renew_stmt release_stmt lease_state
program = tt

-- `runs:x` is held by `alpha` at epoch 3 until second 150.
abbrev alpha_row : Row
alpha_row = record {
  name = "runs:x";
  holder = "alpha";
  epoch = 3;
  heartbeat_at = 30;
  expires_at = 150;
  status = none;
}

abbrev table : Table
table = alpha_row ∷ []

table-IsKeyed : IsKeyed table
table-IsKeyed n = ground (arith, string_eq.beq_iff "runs:x" n)

-- The lease after `beta` took it over.
abbrev taken_over : Table
taken_over = (acquire "runs:x" "beta" 200 60 false table).1

live_refused :
    (acquire "runs:x" "beta" 100 60 false table).0
    ≡ record { ok = false; epoch = some 3; holder = some "alpha" }
unfolding program
live_refused = refl

free_taken :
    (acquire "runs:y" "beta" 100 60 false table).0
    ≡ record { ok = true; epoch = some 1; holder = some "beta" }
unfolding program
free_taken = refl

states :
    (lease_state (read "runs:x" table) 149 ≡ held)
    × (lease_state (read "runs:x" table) 150 ≡ expired)
unfolding program
states = (refl, refl)

acquire-cell_example :
    ((acquire "runs:x" "beta" 200 60 false table).0
      ≡ (cell_acquire "runs:x" "beta" 200 60 false (read "runs:x" table)).0)
    × (read "runs:x" (acquire "runs:x" "beta" 200 60 false table).1
        ≡ (cell_acquire "runs:x" "beta" 200 60 false (read "runs:x" table)).1)
acquire-cell_example = acquire-cell "runs:x" "beta" 200 60 false table table-IsKeyed

epoch_was_current : 3 ≤ epoch_at "runs:x" table
unfolding program
epoch_was_current = omega arith

taken_over_ok : (acquire "runs:x" "beta" 200 60 false table).0.ok ≡ true
unfolding program
taken_over_ok = refl

acquire-fences_stale_example :
    assert_epoch "runs:x" 3 210 (renew "runs:x" "beta" 4 205 60 keep taken_over).1 ≡ false
acquire-fences_stale_example =
    acquire-fences_stale "runs:x" "beta" 200 60 false table
      (renew "runs:x" "beta" 4 205 60 keep taken_over).1 3 210 table-IsKeyed epoch_was_current
      taken_over_ok (next done (renews "runs:x" "beta" 4 205 60 keep))

live_not_ok : (acquire "runs:x" "beta" 100 60 false table).0.ok ≡ false
unfolding program
live_not_ok = refl

passes : assert_epoch "runs:x" 3 140 table ≡ true
unfolding program
passes = refl

passes_earlier : assert_epoch "runs:x" 3 20 table ≡ true
unfolding program
passes_earlier = refl

release_ok : (release "runs:x" "alpha" 3 table).0 ≡ true
unfolding program
release_ok = refl

release-stays_released_example :
    (assert_epoch "runs:x" 3 40 (release "runs:x" "alpha" 3 table).1 ≡ false)
    × ((renew "runs:x" "alpha" 3 40 60 keep (release "runs:x" "alpha" 3 table).1).0 ≡ false)
    × (epoch_at "runs:x" (release "runs:x" "alpha" 3 table).1 ≡ 3)
release-stays_released_example =
    release-stays_released "runs:x" "alpha" 3 table (release "runs:x" "alpha" 3 table).1 "alpha" 3
      40 60 keep table-IsKeyed release_ok Idle.done
