-- ===== src/Lease/Outcomes.antt =====
-- What each call of harness/store_lease.py answers, on every branch.
use coxswain_graphs.Prelude.{
  Option-cases, ℕ, ◌+◌, ◌<◌, String, ◌≡◌, Bool, true, false, ◌&&◌, ◌||◌, Option, none, some, leb,
  ltb, if◌then◌else◌, ◌==◌, string_eq, arith, inl, inr,
}
use coxswain_graphs.Lease.{Row, Table, Status, read, acquire, renew, assert_epoch, steal_stmt}
use coxswain_graphs.Lease.Statements.{IsKeyed, steal_stmt-hits, read-steal_stmt, steal_stmt-IsKeyed}
use coxswain_graphs.Lease.Refinement.{
  acquire-cell, acquire-IsKeyed, renew-cell, renew-IsKeyed, assert_epoch-cell,
}
use coxswain_graphs.Lease.Fence.{epoch_at}

-- No row, an expired lease, or one's own.
abbrev pub free_or_own : String → ℕ → Option Row → Bool
free_or_own holder now none = true
free_or_own holder now (some r) = leb r.expires_at now || r.holder == holder

abbrev pub holds : String → Option Row → Bool
holds holder none = false
holds holder (some r) = r.holder == holder

-- A refused acquire met a live lease of another holder and was not allowed to steal; it reports that
-- holder and its epoch, and leaves the row of the name as it was.
pub acquire-refused :
    (name holder : String) (now ttl : ℕ) (steal : Bool) (t : Table)
    → IsKeyed t
    → (acquire name holder now ttl steal t).0.ok ≡ false
    → (r : Row) × (read name t ≡ some r)
      × (now < r.expires_at)
      × ((r.holder == holder) ≡ false)
      × (steal ≡ false)
      × ((acquire name holder now ttl steal t).0.holder ≡ some r.holder)
      × ((acquire name holder now ttl steal t).0.epoch ≡ some r.epoch)
      × (read name (acquire name holder now ttl steal t).1 ≡ some r)
acquire-refused name holder now ttl steal t k h = elim (Option-cases (read name t)) [
  | inl absent ↦ ground (arith, absent, acquire-cell name holder now ttl steal t k)
  | inr (r, present) ↦
      let cell = acquire-cell name holder now ttl steal t k in
      (
        r,
        present,
        ground (arith, present, cell),
        ground (arith, present, cell),
        ground (arith, present, cell),
        ground (arith, present, cell),
        ground (arith, present, cell),
        ground (arith, present, cell),
      )
]

-- A granted acquire with a positive ttl returns the epoch after the stored one (1 for a new name),
-- which passes the fence for exactly ttl seconds; no grant without stealing displaces a live lease of
-- another holder.
pub acquire-granted :
    (name holder : String) (now ttl later : ℕ) (steal : Bool) (t : Table)
    → IsKeyed t
    → (acquire name holder now ttl steal t).0.ok ≡ true
    → ((acquire name holder now ttl steal t).0.epoch ≡ some (epoch_at name t + 1))
      × (assert_epoch name (epoch_at name t + 1) later (acquire name holder now ttl steal t).1
          ≡ ltb later (now + ttl))
      × ((steal || free_or_own holder now (read name t)) ≡ true)
acquire-granted name holder now ttl later steal t k h =
    let cell = acquire-cell name holder now ttl steal t k in
    let kept =
      assert_epoch-cell name (epoch_at name t + 1) later (acquire name holder now ttl steal t).1
        (acquire-IsKeyed name holder now ttl steal t k) in
    (ground (arith, cell), ground (arith, cell, kept), ground (arith, cell))

-- Two processes that both pass the fence of a name, at whatever clock readings, hold one epoch.
pub assert_epoch_unique :
    (name : String) (e f now later : ℕ) (t : Table)
    → IsKeyed t
    → assert_epoch name e now t ≡ true
    → assert_epoch name f later t ≡ true
    → e ≡ f
assert_epoch_unique name e f now later t k p q =
    ground (arith, assert_epoch-cell name e now t k, assert_epoch-cell name f later t k)

-- A renew succeeds exactly for the holder whose epoch passes the fence; it then extends that fence to
-- `now + ttl`, and a refused renew changes nothing.
pub renew-outcome :
    (name holder : String) (epoch now ttl later : ℕ) (status : Status) (t : Table)
    → IsKeyed t
    → ((renew name holder epoch now ttl status t).0
        ≡ (assert_epoch name epoch now t && holds holder (read name t)))
      × (assert_epoch name epoch later (renew name holder epoch now ttl status t).1 ≡ (
          if (renew name holder epoch now ttl status t).0
          then ltb later (now + ttl)
          else assert_epoch name epoch later t))
renew-outcome name holder epoch now ttl later status t k =
    let cell = renew-cell name holder epoch now ttl status t k in
    let fence = assert_epoch-cell name epoch now t k in
    let before = assert_epoch-cell name epoch later t k in
    let after =
      assert_epoch-cell name epoch later (renew name holder epoch now ttl status t).1
        (renew-IsKeyed name holder epoch now ttl status t k) in
    (ground (arith, cell, fence), ground (arith, cell, before, after))

-- Of two steals that read the same epoch only the first can win, whoever they are.
pub steal_stmt-once :
    (name first second : String) (a b c d seen : ℕ) (t : Table)
    → IsKeyed t
    → (steal_stmt first a b name seen t).0 ≡ 1
    → ((steal_stmt second c d name seen (steal_stmt first a b name seen t).1).0 ≡ 0)
      × (epoch_at name (steal_stmt first a b name seen t).1 ≡ seen + 1)
steal_stmt-once name first second a b c d seen t k won =
    let k1 = steal_stmt-IsKeyed name first a b seen t k in
    let t1 = (steal_stmt first a b name seen t).1 in
    let hit = steal_stmt-hits name first a b seen t k in
    let row = read-steal_stmt name first a b seen t in
    (ground (arith, hit, row, steal_stmt-hits name second c d seen t1 k1), ground (arith, hit, row))
