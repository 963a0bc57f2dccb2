-- ===== src/Retry.antt =====
-- harness/store_retry.py: a store write retried across a dropped connection until a deadline.
-- Times are whole milliseconds. The outside world is the list of what each attempt meets: it gives
-- what `reconnect` and `write` do, how long they take, and how much longer than asked a sleep lasts.
pub mod Deadline
mod Examples
use Prim.Native.Nat.{◌^◌}
use coxswain_graphs.Prelude.{
  ℕ, zero, suc, ◌+◌, ◌-◌, ◌*◌, min, String, Bool, true, false, not, ◌&&◌, ◌||◌, Option, none, some,
  List, [], ◌∷◌, ◌++◌, map, leb, if◌then◌else◌, ◌==◌, nat_eq, list_eq, string_eq, any, Text, codes,
  contains, lower_code, split_at_code, get_or,
}

-- An exception: the name and the module of each class in its type's mro, and its text.
pub record Raised : Type 0 where
  pub mro : List (String × Text)
  pub message : Text

abbrev connection_lost : List Text
connection_lost = map codes (
    "the connection is lost" ∷ "server closed the connection" ∷ "terminating connection"
    ∷ "connection refused" ∷ "could not connect" ∷ "connection timed out" ∷ "timeout expired"
    ∷ "connection reset" ∷ "no route to host" ∷ "the database system is starting up"
    ∷ "the database system is shutting down" ∷ "consuming input failed" ∷ "sending query failed"
    ∷ [])

is_psycopg_operational : Raised → Bool
is_psycopg_operational exc =
    any (λ c. c.0 == "OperationalError" && get_or (split_at_code b'.' c.1) 0 [] == codes "psycopg")
      exc.mro

pub is_connection_error : Raised → Bool
is_connection_error exc =
    let message = map lower_code exc.message in
    is_psycopg_operational exc && any (λ fragment. contains message fragment) connection_lost

pub data Outcome (T : Type 0) : Type 0 where
  returns : T → Outcome T
  raises : Raised → Outcome T

-- What attempt `i` meets. `lag` is how much the sleep before it overruns.
pub record Attempt (T : Type 0) : Type 0 where
  pub reconnect : Option Raised
  pub write : Outcome T
  pub takes : ℕ
  pub lag : ℕ

pub data Verdict (T : Type 0) : Type 0 where
  returned : T → Verdict T
  raised : Raised → Verdict T
  out_of_fuel : Verdict T

-- A run of the loop: its verdict, the clock at its end, and the clock at the start of each attempt.
pub record Run (T : Type 0) : Type 0 where
  pub verdict : Verdict T
  pub ended : ℕ
  pub starts : List ℕ

module _ {T : Type 0} (world : ℕ → Attempt T) (deadline base : ℕ) where
  -- The body of the `try`: the first attempt does not reconnect.
  pub body : ℕ → Outcome T
  body zero = (world zero).write
  body (suc i) = elim (world (suc i)).reconnect [
    | none ↦ (world (suc i)).write
    | some exc ↦ raises exc
  ]

  -- The clock when the attempt that starts at `now` has ended.
  abbrev pub after : ℕ → ℕ → ℕ
  after i now = now + (world i).takes

  -- The clock when the sleep behind attempt `i` has ended.
  abbrev pub wakes : ℕ → ℕ → ℕ
  wakes i now = after i now + min (base * 2 ^ i) (deadline - after i now) + (world (suc i)).lag

  abbrev pub gives_up : ℕ → ℕ → Raised → Bool
  gives_up i now exc = not (is_connection_error exc) || leb deadline (after i now)

  abbrev pub started : ℕ → Run T → Run T
  started now r = record r { starts = now ∷ r.starts }

  pub attempts : ℕ → ℕ → ℕ → Run T
  attempts zero i now = record { verdict = out_of_fuel; ended = now; starts = [] }
  attempts (suc fuel) i now = elim (body i) [
    | returns v ↦ record { verdict = returned v; ended = after i now; starts = now ∷ [] }
    | raises exc ↦ elim (gives_up i now exc) [
      | true ↦ record { verdict = raised exc; ended = after i now; starts = now ∷ [] }
      | false ↦ started now (attempts fuel (suc i) (wakes i now))
    ]
  ]

pub retry_store_write : {T : Type 0} → (ℕ → Attempt T) → (window base fuel now : ℕ) → Run T
retry_store_write world window base fuel now = attempts world (now + window) base fuel 0 now
