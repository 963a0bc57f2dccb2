-- ===== src/Retry/Examples.antt =====
-- A store that is down for a while, and the theorems at it. Times are milliseconds.
use coxswain_graphs.Prelude.{ℕ, ◌≡◌, refl, ◌≢◌, none, [], ◌∷◌, arith, ltb, if◌then◌else◌, codes}
use coxswain_graphs.Retry.{
  Raised, Attempt, returns, raises, returned, raised, out_of_fuel, body, attempts,
  retry_store_write, is_connection_error, is_psycopg_operational,
}
use coxswain_graphs.Retry.Deadline.{retry_store_write-total}

program : Unit {0}
unfolding retry_store_write attempts body is_connection_error is_psycopg_operational
program = tt

abbrev lost : Raised
lost = record {
  mro = ("OperationalError", codes "psycopg") ∷ ("Exception", codes "builtins") ∷ [];
  message = codes "could not receive data: Server closed the connection unexpectedly";
}

abbrev bad_password : Raised
bad_password = record {
  mro = ("OperationalError", codes "psycopg.errors") ∷ [];
  message = codes "password authentication failed";
}

-- Down for the first `n` attempts; each attempt takes ten milliseconds.
abbrev down_for : ℕ → Raised → ℕ → Attempt ℕ
down_for n exc i = record {
  reconnect = none;
  write = if ltb i n then raises exc else returns 7;
  takes = 10;
  lag = 0;
}

recovers :
    retry_store_write (down_for 2 lost) 300000 1000 10 0
    ≡ record { verdict = returned 7; ended = 3030; starts = 0 ∷ 1010 ∷ 3020 ∷ [] }
unfolding program
recovers = refl

recovers_value : (retry_store_write (down_for 2 lost) 300000 1000 10 0).verdict ≡ returned 7
unfolding program
recovers_value = refl

faults :
    (retry_store_write (down_for 1 bad_password) 300000 1000 10 0).verdict ≡ raised bad_password
unfolding program
faults = refl

-- The defaults: a window of 300 seconds and a base of one second need ten attempts.
retry_store_write-total_example :
    (retry_store_write (down_for 99 lost) 300000 1000 10 0).verdict ≢ out_of_fuel
retry_store_write-total_example =
    retry_store_write-total (down_for 99 lost) 300000 1000 9 10 0 (omega arith) (omega arith)
