-- ===== src/Retry/Deadline.antt =====
-- The retry loop ends, and in time.
use Prim.Native.Nat.{◌^◌}
use coxswain_graphs.Prelude.{
  ℕ, zero, suc, ◌+◌, ◌*◌, ◌≤◌, ◌≡◌, refl, ap, ◌≢◌, ◌⊎◌, inl, inr, true, false, [], ◌∷◌, arith, All,
  length, Bool-cases,
}
use coxswain_graphs.Retry.{
  Raised, Attempt, Outcome, returns, raises, Run, returned, raised, out_of_fuel, body, attempts,
  retry_store_write, is_connection_error, wakes, gives_up, started, after,
}
use native.Mathlib.Nat.{pow-suc}
use native.Mathlib.Decide.{dec_le}

Outcome-cases :
    {T : Type 0} (o : Outcome T) → ((v : T) × (o ≡ returns v)) ⊎ ((exc : Raised) × (o ≡ raises exc))
Outcome-cases (returns v) = inl (v, refl)
Outcome-cases (raises exc) = inr (exc, refl)

double : (base i : ℕ) → base * 2 ^ suc i ≡ 2 * (base * 2 ^ i)
double base i = rw pow-suc (omega arith)

module _ {T : Type 0} (world : ℕ → Attempt T) (deadline base : ℕ) where
  -- The sleeps so far have doubled since `start`, or the deadline has come.
  abbrev HasSlept : ℕ → ℕ → ℕ → Type 0
  HasSlept start i now = (start + base * 2 ^ i ≤ now + base) ⊎ (deadline ≤ now)

  wakes-HasSlept :
      (start i now : ℕ) (exc : Raised)
      → gives_up world deadline base i now exc ≡ false
      → HasSlept start i now
      → HasSlept start (suc i) (wakes world deadline base i now)
  wakes-HasSlept start i now exc g h = ground (arith, double base i)

  -- The rule of the loop: what each way of ending it gives, and what the next round starts from.
  attempts_ind :
      (P : Run T → Type 0) (fuel i now : ℕ)
      → ((v : T)
          → P (record {
            verdict = returned v;
            ended = after world deadline base i now;
            starts = now ∷ [];
          }))
      → ((exc : Raised)
          → gives_up world deadline base i now exc ≡ true
          → P (record {
            verdict = raised exc;
            ended = after world deadline base i now;
            starts = now ∷ [];
          }))
      → ((exc : Raised)
          → gives_up world deadline base i now exc ≡ false
          → P (
              started world deadline base now
                (attempts world deadline base fuel (suc i) (wakes world deadline base i now))))
      → P (attempts world deadline base (suc fuel) i now)
  unfolding attempts
  attempts_ind P fuel i now on_return on_raise on_retry =
      elim (Outcome-cases (body world deadline base i)) [
        | inl (v, e) ↦ rw (e, attempts) (on_return v)
        | inr (exc, e) ↦ elim (Bool-cases (gives_up world deadline base i now exc)) [
          | inl g ↦ rw (e, g, attempts) (on_raise exc g)
          | inr g ↦ rw (e, g, attempts) (on_retry exc g)
        ]
      ]

  attempts-total :
      (start n fuel i now : ℕ)
      → i ≤ n
      → n + 1 ≤ fuel + i
      → deadline + base ≤ start + base * 2 ^ n
      → HasSlept start i now
      → (attempts world deadline base fuel i now).verdict ≢ out_of_fuel
  attempts-total start n zero i now b f e h = absurd (omega arith)
  attempts-total start n (suc fuel) i now b f e h =
      attempts_ind (λ r. r.verdict ≢ out_of_fuel) fuel i now (λ v. cc) (λ exc g. cc)
        λ exc g. elim (dec_le (suc i) n) [
          | yes more ↦
              attempts-total start n fuel (suc i) (wakes world deadline base i now) more
                (omega arith) e (wakes-HasSlept start i now exc g h)
          | no last ↦
              let same : i ≡ n = omega arith in
              absurd (ground (arith, h, ap (λ m. base * 2 ^ m) same))
        ]

  attempts-starts :
      (fuel i now : ℕ)
      → ((j : ℕ) → (world j).lag ≡ 0)
      → now ≤ deadline
      → All (λ s. s ≤ deadline) (attempts world deadline base fuel i now).starts
  unfolding attempts
  attempts-starts zero i now prompt h = tt
  attempts-starts (suc fuel) i now prompt h =
      attempts_ind (λ r. All (λ s. s ≤ deadline) r.starts) fuel i now (λ v. (h, tt))
        (λ exc g. (h, tt))
        λ exc g. (
          h,
          attempts-starts fuel (suc i) (wakes world deadline base i now) prompt
              (ground (arith, prompt (suc i))),
        )

  attempts-raised :
      (e : Raised) (fuel i now : ℕ)
      → (attempts world deadline base fuel i now).verdict ≡ raised e
      → (is_connection_error e ≡ false)
        ⊎ (deadline ≤ (attempts world deadline base fuel i now).ended)
  unfolding attempts
  attempts-raised e zero i now = λ h. cc
  attempts-raised e (suc fuel) i now =
      attempts_ind
        (λ r. r.verdict ≡ raised e → (is_connection_error e ≡ false) ⊎ (deadline ≤ r.ended)) fuel i
        now (λ v h. cc) (λ exc g h. ground (arith, h, g))
        (λ exc g. attempts-raised e fuel (suc i) (wakes world deadline base i now))

  attempts-returned :
      (v : T) (fuel i now : ℕ)
      → (attempts world deadline base fuel i now).verdict ≡ returned v
      → (k : ℕ) × (body world deadline base k ≡ returns v)
        × (k + 1 ≡ i + length (attempts world deadline base fuel i now).starts)
  unfolding attempts
  attempts-returned v zero i now h = absurd (cc)
  attempts-returned v (suc fuel) i now h = elim (Outcome-cases (body world deadline base i)) [
    | inl (w, e) ↦ (i, ground (arith, e), ground (arith, e))
    | inr (exc, e) ↦ elim (Bool-cases (gives_up world deadline base i now exc)) [
      | inl g ↦ absurd (ground (arith, e, g, h))
      | inr g ↦
          let (k, b, l) =
            attempts-returned v fuel (suc i) (wakes world deadline base i now)
              (ground (arith, e, g)) in
          (k, b, ground (arith, e, g, l))
    ]
  ]

-- With a fuel one above any n for which `base * 2 ^ n` reaches `window + base` the loop ends: it
-- returns the write's value or raises, whatever the world does.
pub retry_store_write-total :
    {T : Type 0} (world : ℕ → Attempt T) (window base n fuel now : ℕ)
    → window + base ≤ base * 2 ^ n
    → n + 1 ≤ fuel
    → (retry_store_write world window base fuel now).verdict ≢ out_of_fuel
unfolding retry_store_write
retry_store_write-total world window base n fuel now e f =
    attempts-total world (now + window) base now n fuel 0 now (omega arith) (omega arith)
      (omega arith) (inl (omega arith))

-- Where no sleep overruns, no attempt starts after the deadline.
pub retry_store_write-starts :
    {T : Type 0} (world : ℕ → Attempt T) (window base fuel now : ℕ)
    → ((j : ℕ) → (world j).lag ≡ 0)
    → All (λ s. s ≤ now + window) (retry_store_write world window base fuel now).starts
unfolding retry_store_write
retry_store_write-starts world window base fuel now prompt =
    attempts-starts world (now + window) base fuel 0 now prompt (omega arith)

-- What is raised is not a connection error, or is raised at or after the deadline.
pub retry_store_write-raised :
    {T : Type 0} (world : ℕ → Attempt T) (window base fuel now : ℕ) (e : Raised)
    → (retry_store_write world window base fuel now).verdict ≡ raised e
    → (is_connection_error e ≡ false)
      ⊎ (now + window ≤ (retry_store_write world window base fuel now).ended)
unfolding retry_store_write
retry_store_write-raised world window base fuel now e =
    attempts-raised world (now + window) base e fuel 0 now

-- What is returned is what the last attempt's write gave, behind a reconnect that did not fail.
pub retry_store_write-returned :
    {T : Type 0} (world : ℕ → Attempt T) (window base fuel now : ℕ) (v : T)
    → (retry_store_write world window base fuel now).verdict ≡ returned v
    → (k : ℕ) × (body world (now + window) base k ≡ returns v)
      × (k + 1 ≡ length (retry_store_write world window base fuel now).starts)
unfolding retry_store_write
retry_store_write-returned world window base fuel now v h =
    let (k, b, l) = attempts-returned world (now + window) base v fuel 0 now h in
    (k, b, omega (arith, l))
