-- ===== src/Lease/Fence.antt =====
-- What the lease guarantees a leader, whatever the other holders do and whatever their clocks say.
use coxswain_graphs.Prelude.{
  ℕ, ◌≤◌, ◌<◌, String, ◌≡◌, Bool, true, false, Option, none, some, ◌==◌, string_eq, nat_beq, arith,
}
use coxswain_graphs.Lease.{Row, Table, Status, read, acquire, renew, release, assert_epoch}
use coxswain_graphs.Lease.Statements.{IsKeyed}
use coxswain_graphs.Lease.Refinement.{
  acquire-cell, acquire_ne, acquire-IsKeyed, renew-cell, renew_ne, renew-IsKeyed, release-cell,
  release_ne, release-IsKeyed, assert_epoch-cell,
}

-- One committed call, by any process with any arguments.
pub data Step (t : Table) : Table → Type 0 where
  acquires :
      (name holder : String) (now ttl : ℕ) (steal : Bool)
      → Step t (acquire name holder now ttl steal t).1
  renews :
      (name holder : String) (epoch now ttl : ℕ) (status : Status)
      → Step t (renew name holder epoch now ttl status t).1
  releases : (name holder : String) (epoch : ℕ) → Step t (release name holder epoch t).1

pub data Reach (t : Table) : Table → Type 0 where
  done : Reach t t
  next : {u v : Table} → Reach t u → Step u v → Reach t v

abbrev pub epoch_in : Option Row → ℕ
epoch_in none = 0
epoch_in (some r) = r.epoch

-- The stored epoch of a name, 0 where it has no row.
abbrev pub epoch_at : String → Table → ℕ
epoch_at n t = epoch_in (read n t)

Step-IsKeyed : {t u : Table} → Step t u → IsKeyed t → IsKeyed u
Step-IsKeyed {t} (acquires name holder now ttl steal) k =
    acquire-IsKeyed name holder now ttl steal t k
Step-IsKeyed {t} (renews name holder epoch now ttl status) k =
    renew-IsKeyed name holder epoch now ttl status t k
Step-IsKeyed {t} (releases name holder epoch) k = release-IsKeyed name holder epoch t k

pub Reach-IsKeyed : {t u : Table} → Reach t u → IsKeyed t → IsKeyed u
Reach-IsKeyed done k = k
Reach-IsKeyed (next r s) k = Step-IsKeyed s (Reach-IsKeyed r k)

Step-epoch_at : {t u : Table} (n : String) → Step t u → IsKeyed t → epoch_at n t ≤ epoch_at n u
Step-epoch_at {t} n (acquires name holder now ttl steal) k = ground (
  arith,
  acquire-cell name holder now ttl steal t k,
  acquire_ne name holder now ttl steal n t,
  string_eq.beq_iff name n,
)
Step-epoch_at {t} n (renews name holder epoch now ttl status) k = ground (
  arith,
  renew-cell name holder epoch now ttl status t k,
  renew_ne name holder epoch now ttl status n t,
  string_eq.beq_iff name n,
)
Step-epoch_at {t} n (releases name holder epoch) k = ground (
  arith,
  release-cell name holder epoch t k,
  release_ne name holder epoch n t,
  string_eq.beq_iff name n,
)

Reach-epoch_at : {t u : Table} (n : String) → Reach t u → IsKeyed t → epoch_at n t ≤ epoch_at n u
Reach-epoch_at n done k = omega arith
Reach-epoch_at n (next r s) k =
    omega (arith, Reach-epoch_at n r k, Step-epoch_at n s (Reach-IsKeyed r k))

acquire-epoch_at :
    (name holder : String) (now ttl : ℕ) (steal : Bool) (t : Table)
    → IsKeyed t
    → (acquire name holder now ttl steal t).0.ok ≡ true
    → epoch_at name t < epoch_at name (acquire name holder now ttl steal t).1
acquire-epoch_at name holder now ttl steal t k h =
    ground (arith, acquire-cell name holder now ttl steal t k)

-- Once another acquire of the name has succeeded, an epoch that was current before it never passes
-- the fence again: not after any further calls, and at no clock reading.
pub acquire-fences_stale :
    (name holder : String) (now ttl : ℕ) (steal : Bool) (t u : Table) (epoch later : ℕ)
    → IsKeyed t
    → epoch ≤ epoch_at name t
    → (acquire name holder now ttl steal t).0.ok ≡ true
    → Reach (acquire name holder now ttl steal t).1 u
    → assert_epoch name epoch later u ≡ false
acquire-fences_stale name holder now ttl steal t u epoch later k old ok r =
    let k1 = acquire-IsKeyed name holder now ttl steal t k in
    ground (
      arith,
      acquire-epoch_at name holder now ttl steal t k ok,
      Reach-epoch_at name r k1,
      assert_epoch-cell name epoch later u (Reach-IsKeyed r k1),
    )

-- Calls that do not acquire the name.
pub data Idle (n : String) (t : Table) : Table → Type 0 where
  done : Idle n t t
  acquires :
      {u : Table} (name holder : String) (now ttl : ℕ) (steal : Bool)
      → (name == n) ≡ false
      → Idle n t u
      → Idle n t (acquire name holder now ttl steal u).1
  renews :
      {u : Table} (name holder : String) (epoch now ttl : ℕ) (status : Status)
      → Idle n t u
      → Idle n t (renew name holder epoch now ttl status u).1
  releases :
      {u : Table} (name holder : String) (epoch : ℕ)
      → Idle n t u
      → Idle n t (release name holder epoch u).1

abbrev is_over : Option Row → Bool
is_over none = false
is_over (some r) = nat_beq r.expires_at 0

over-Idle :
    (n : String) {t u : Table}
    → Idle n t u
    → IsKeyed t
    → is_over (read n t) ≡ true
    → IsKeyed u × (is_over (read n u) ≡ true)
over-Idle n done k h = (k, h)
over-Idle n (acquires {u} name holder now ttl steal ne idle) k h =
    let (k', h') = over-Idle n idle k h in
    (
      acquire-IsKeyed name holder now ttl steal u k',
      rw (acquire_ne name holder now ttl steal n u ne) h',
    )
over-Idle n (renews {u} name holder epoch now ttl status idle) k h =
    let (k', h') = over-Idle n idle k h in
    (
      renew-IsKeyed name holder epoch now ttl status u k',
      ground (
        arith,
        h',
        renew-cell name holder epoch now ttl status u k',
        renew_ne name holder epoch now ttl status n u,
        string_eq.beq_iff name n,
      ),
    )
over-Idle n (releases {u} name holder epoch idle) k h =
    let (k', h') = over-Idle n idle k h in
    (
      release-IsKeyed name holder epoch u k',
      ground (
        arith,
        h',
        release-cell name holder epoch u k',
        release_ne name holder epoch n u,
        string_eq.beq_iff name n,
      ),
    )

-- A released lease is not revived: until someone acquires the name, no epoch passes its fence and no
-- renew of it succeeds, whatever else is called; and its epoch is still stored.
pub release-stays_released :
    (name holder : String) (epoch : ℕ) (t u : Table) (h2 : String) (e2 now ttl : ℕ)
    (status : Status)
    → IsKeyed t
    → (release name holder epoch t).0 ≡ true
    → Idle name (release name holder epoch t).1 u
    → (assert_epoch name e2 now u ≡ false)
      × ((renew name h2 e2 now ttl status u).0 ≡ false)
      × (epoch_at name (release name holder epoch t).1 ≡ epoch)
release-stays_released name holder epoch t u h2 e2 now ttl status k ok idle =
    let cell = release-cell name holder epoch t k in
    let (k', over) =
      over-Idle name idle (release-IsKeyed name holder epoch t k) (ground (arith, cell)) in
    (
      ground (arith, over, assert_epoch-cell name e2 now u k'),
      ground (arith, over, renew-cell name h2 e2 now ttl status u k'),
      ground (arith, cell),
    )
