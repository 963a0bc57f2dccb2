-- ===== src/Lease/Refinement.antt =====
-- The operations of harness/store_lease.py on a table with one row a name are the operations of
-- Lease/Cell.antt on that name's cell, keep the table keyed, and leave every other name alone.
use coxswain_graphs.Prelude.{
  true, Option-cases, inl, inr, ℕ, ◌+◌, ◌≤◌, String, ◌≡◌, refl, Bool, false, Option, none, some, [],
  ◌∷◌, ◌==◌, string_eq, arith,
}
use coxswain_graphs.Lease.{
  Row, Table, Status, read, take_stmt, insert_ignore, steal_or_refuse, acquire, renew, release,
  assert_epoch,
}
use coxswain_graphs.Lease.Cell.{cell_acquire, cell_renew, cell_release, cell_assert, first_row}
use coxswain_graphs.Lease.Statements.{
  IsKeyed, rows_of, take_stmt-hits, read-take_stmt, take_stmt-IsKeyed, take_stmt_ne,
  steal_stmt-hits, read-steal_stmt, steal_stmt-IsKeyed, steal_stmt_ne, read-snoc,
  insert_ignore-IsKeyed, renew_stmt-hits, read-renew_stmt, renew_stmt-IsKeyed, renew_stmt_ne,
  release_stmt-hits, read-release_stmt, release_stmt-IsKeyed, release_stmt_ne,
}

-- `acquire` on the table is `cell_acquire` on the name's cell.
pub acquire-cell :
    (name holder : String) (now ttl : ℕ) (steal : Bool) (t : Table)
    → IsKeyed t
    → ((acquire name holder now ttl steal t).0
        ≡ (cell_acquire name holder now ttl steal (read name t)).0)
      × (read name (acquire name holder now ttl steal t).1
          ≡ (cell_acquire name holder now ttl steal (read name t)).1)
unfolding acquire insert_ignore steal_or_refuse
acquire-cell name holder now ttl steal t k =
    let t1 = (take_stmt holder now (now + ttl) name t).1 in
    elim (Option-cases (read name t)) [
      | inl absent ↦ ground (
        arith,
        absent,
        take_stmt-hits name holder now (now + ttl) t k,
        read-take_stmt name holder now (now + ttl) t,
        read-snoc name (first_row name holder now (now + ttl)) t1,
        string_eq.beq_iff name name,
      )
      | inr (r, present) ↦ ground (
        arith,
        present,
        take_stmt-hits name holder now (now + ttl) t k,
        read-take_stmt name holder now (now + ttl) t,
        steal_stmt-hits name holder now (now + ttl) r.epoch t1
            (take_stmt-IsKeyed name holder now (now + ttl) t k),
        read-steal_stmt name holder now (now + ttl) r.epoch t1,
      )
    ]

insert_ignore_ne :
    (row : Row) (m : String) (t : Table)
    → (row.name == m) ≡ false
    → read m (insert_ignore row t).1 ≡ read m t
unfolding insert_ignore
insert_ignore_ne row m t h = ground (arith, read-snoc m row t)

steal_or_refuse_ne :
    (name holder : String) (at until : ℕ) (steal : Bool) (row : Option Row) (m : String) (t : Table)
    → (name == m) ≡ false
    → read m (steal_or_refuse name holder at until steal row t).1 ≡ read m t
unfolding steal_or_refuse
steal_or_refuse_ne name holder at until false row m t h = refl
steal_or_refuse_ne name holder at until true none m t h = refl
steal_or_refuse_ne name holder at until true (some r) m t h =
    ground (arith, steal_stmt_ne name holder at until r.epoch m t h)

steal_or_refuse-IsKeyed :
    (name holder : String) (at until : ℕ) (steal : Bool) (row : Option Row) (t : Table)
    → IsKeyed t
    → IsKeyed (steal_or_refuse name holder at until steal row t).1
unfolding steal_or_refuse
steal_or_refuse-IsKeyed name holder at until false row t k m = k m
steal_or_refuse-IsKeyed name holder at until true none t k m = k m
steal_or_refuse-IsKeyed name holder at until true (some r) t k m =
    ground (arith, steal_stmt-IsKeyed name holder at until r.epoch t k m)

-- No operation on one name touches another's row.
pub acquire_ne :
    (name holder : String) (now ttl : ℕ) (steal : Bool) (m : String) (t : Table)
    → (name == m) ≡ false
    → read m (acquire name holder now ttl steal t).1 ≡ read m t
unfolding acquire
acquire_ne name holder now ttl steal m t h =
    let t1 = (take_stmt holder now (now + ttl) name t).1 in
    let t2 = (insert_ignore (first_row name holder now (now + ttl)) t1).1 in
    ground (
      arith,
      take_stmt_ne name holder now (now + ttl) m t h,
      insert_ignore_ne (first_row name holder now (now + ttl)) m t1 h,
      steal_or_refuse_ne name holder now (now + ttl) steal (read name t2) m t2 h,
    )

pub acquire-IsKeyed :
    (name holder : String) (now ttl : ℕ) (steal : Bool) (t : Table)
    → IsKeyed t
    → IsKeyed (acquire name holder now ttl steal t).1
unfolding acquire
acquire-IsKeyed name holder now ttl steal t k m =
    let t1 = (take_stmt holder now (now + ttl) name t).1 in
    let k1 = take_stmt-IsKeyed name holder now (now + ttl) t k in
    let t2 = (insert_ignore (first_row name holder now (now + ttl)) t1).1 in
    let k2 = insert_ignore-IsKeyed (first_row name holder now (now + ttl)) t1 k1 in
    ground (
      arith,
      k1 m,
      k2 m,
      steal_or_refuse-IsKeyed name holder now (now + ttl) steal (read name t2) t2 k2 m,
    )

pub renew-cell :
    (name holder : String) (epoch now ttl : ℕ) (status : Status) (t : Table)
    → IsKeyed t
    → ((renew name holder epoch now ttl status t).0
        ≡ (cell_renew holder epoch now ttl status (read name t)).0)
      × (read name (renew name holder epoch now ttl status t).1
          ≡ (cell_renew holder epoch now ttl status (read name t)).1)
unfolding renew
renew-cell name holder epoch now ttl status t k = ground (
  arith,
  renew_stmt-hits name holder now (now + ttl) epoch status t k,
  read-renew_stmt name holder now (now + ttl) epoch status t,
)

pub release-cell :
    (name holder : String) (epoch : ℕ) (t : Table)
    → IsKeyed t
    → ((release name holder epoch t).0 ≡ (cell_release holder epoch (read name t)).0)
      × (read name (release name holder epoch t).1 ≡ (cell_release holder epoch (read name t)).1)
unfolding release
release-cell name holder epoch t k =
    ground (arith, release_stmt-hits name holder epoch t k, read-release_stmt name holder epoch t)

assert_epoch-none :
    (name : String) (epoch now : ℕ) (t : Table)
    → rows_of name t ≡ 0
    → assert_epoch name epoch now t ≡ false
unfolding assert_epoch
assert_epoch-none name epoch now [] h = refl
assert_epoch-none name epoch now (r ∷ t) h = ground (arith, assert_epoch-none name epoch now t)

assert_epoch-rows :
    (name : String) (epoch now : ℕ) (t : Table)
    → rows_of name t ≤ 1
    → assert_epoch name epoch now t ≡ cell_assert epoch now (read name t)
unfolding assert_epoch read
assert_epoch-rows name epoch now [] h = refl
assert_epoch-rows name epoch now (r ∷ t) h =
    ground (arith, assert_epoch-rows name epoch now t, assert_epoch-none name epoch now t)

pub assert_epoch-cell :
    (name : String) (epoch now : ℕ) (t : Table)
    → IsKeyed t
    → assert_epoch name epoch now t ≡ cell_assert epoch now (read name t)
assert_epoch-cell name epoch now t k = assert_epoch-rows name epoch now t (k name)

pub renew_ne :
    (name holder : String) (epoch now ttl : ℕ) (status : Status) (m : String) (t : Table)
    → (name == m) ≡ false
    → read m (renew name holder epoch now ttl status t).1 ≡ read m t
unfolding renew
renew_ne name holder epoch now ttl status m t h =
    renew_stmt_ne name holder now (now + ttl) epoch status m t h

pub renew-IsKeyed :
    (name holder : String) (epoch now ttl : ℕ) (status : Status) (t : Table)
    → IsKeyed t
    → IsKeyed (renew name holder epoch now ttl status t).1
unfolding renew
renew-IsKeyed name holder epoch now ttl status t k =
    renew_stmt-IsKeyed name holder now (now + ttl) epoch status t k

pub release_ne :
    (name holder : String) (epoch : ℕ) (m : String) (t : Table)
    → (name == m) ≡ false
    → read m (release name holder epoch t).1 ≡ read m t
unfolding release
release_ne name holder epoch m t h = release_stmt_ne name holder epoch m t h

pub release-IsKeyed :
    (name holder : String) (epoch : ℕ) (t : Table)
    → IsKeyed t
    → IsKeyed (release name holder epoch t).1
unfolding release
release-IsKeyed name holder epoch t k = release_stmt-IsKeyed name holder epoch t k
