-- ===== src/Lease/Statements.antt =====
-- The statements of harness/store_lease.py one name at a time: what each does to the row that the
-- name has, how many rows it hits, and that other names keep theirs.
use coxswain_graphs.Prelude.{
  ap, leb, ltb, ◌||◌, ◌++◌, nat_beq, ℕ, ◌+◌, ◌≤◌, String, ◌≡◌, refl, Bool, false, ◌&&◌, Option,
  none, some, [], ◌∷◌, if◌then◌else◌, ◌==◌, string_eq, arith,
}
use coxswain_graphs.Lease.{
  Row, new_status, Table, Status, update, read, taken, take_stmt, steal_stmt, insert_ignore,
  renew_stmt, release_stmt,
}

-- `name` is the table's primary key.
abbrev pub rows_of : String → Table → ℕ
rows_of n [] = 0
rows_of n (r ∷ t) = (if r.name == n then 1 else 0) + rows_of n t

abbrev pub IsKeyed : Table → Type 0
IsKeyed t = (n : String) → rows_of n t ≤ 1

pub rows_of-zero : (n : String) (t : Table) → read n t ≡ none → rows_of n t ≡ 0
unfolding read
rows_of-zero n [] h = refl
rows_of-zero n (r ∷ t) h = ground (arith, rows_of-zero n t)

pub read-none : (n : String) (t : Table) → rows_of n t ≡ 0 → read n t ≡ none
unfolding read
read-none n [] h = refl
read-none n (r ∷ t) h = ground (arith, read-none n t)

module _ (n : String) (q : Row → Bool) (f : Row → Row)
    (same : (r : Row) → (f r).name ≡ r.name) where
  abbrev pub changed : Option Row → Option Row
  changed none = none
  changed (some r) = if q r then some (f r) else some r

  abbrev pub hits : Option Row → ℕ
  hits none = 0
  hits (some r) = if q r then 1 else 0

  abbrev pub at_name : Row → Bool
  at_name r = r.name == n && q r

  pub read-update : (t : Table) → read n (update at_name f t).1 ≡ changed (read n t)
  unfolding read update
  read-update [] = refl
  read-update (r ∷ t) = ground (arith, read-update t, same r)

  pub read-update_ne :
      (m : String) (t : Table) → (n == m) ≡ false → read m (update at_name f t).1 ≡ read m t
  unfolding read update
  read-update_ne m [] h = refl
  read-update_ne m (r ∷ t) h = ground (
    arith,
    read-update_ne m t,
    same r,
    string_eq.beq_iff n m,
    string_eq.beq_iff r.name n,
    string_eq.beq_iff r.name m,
    string_eq.beq_iff (f r).name m,
  )

  pub rows_of-update : (m : String) (t : Table) → rows_of m (update at_name f t).1 ≡ rows_of m t
  unfolding update
  rows_of-update m [] = refl
  rows_of-update m (r ∷ t) = ground (arith, rows_of-update m t, same r)

  update-none : (t : Table) → rows_of n t ≡ 0 → (update at_name f t).0 ≡ 0
  unfolding update
  update-none [] h = refl
  update-none (r ∷ t) h = ground (arith, update-none t)

  pub update-hits : (t : Table) → rows_of n t ≤ 1 → (update at_name f t).0 ≡ hits (read n t)
  unfolding update read
  update-hits [] h = refl
  update-hits (r ∷ t) h = ground (arith, update-hits t, update-none t)

-- The statements, as the cell sees them.
abbrev pub free_for : String → ℕ → Row → Bool
free_for holder at r = leb r.expires_at at || r.holder == holder

module _ (name holder : String) (at until : ℕ) where
  abbrev pub after_take : Option Row → Option Row
  after_take = changed name (free_for holder at) (taken holder at until) (λ r. refl)

  abbrev pub take_hits : Option Row → ℕ
  take_hits = hits name (free_for holder at) (taken holder at until) (λ r. refl)

  pub take_stmt-hits :
      (t : Table) → IsKeyed t → (take_stmt holder at until name t).0 ≡ take_hits (read name t)
  unfolding take_stmt
  take_stmt-hits t k =
      update-hits name (free_for holder at) (taken holder at until) (λ r. refl) t (k name)

  pub read-take_stmt :
      (t : Table) → read name (take_stmt holder at until name t).1 ≡ after_take (read name t)
  unfolding take_stmt
  read-take_stmt t = read-update name (free_for holder at) (taken holder at until) (λ r. refl) t

  pub take_stmt-IsKeyed : (t : Table) → IsKeyed t → IsKeyed (take_stmt holder at until name t).1
  unfolding take_stmt
  take_stmt-IsKeyed t k m =
      rw (rows_of-update name (free_for holder at) (taken holder at until) (λ r. refl) m t) (k m)

  pub take_stmt_ne :
      (m : String) (t : Table)
      → (name == m) ≡ false
      → read m (take_stmt holder at until name t).1 ≡ read m t
  unfolding take_stmt
  take_stmt_ne m t h =
      read-update_ne name (free_for holder at) (taken holder at until) (λ r. refl) m t h

module _ (name holder : String) (at until seen : ℕ) where
  pub steal_stmt-hits :
      (t : Table)
      → IsKeyed t
      → (steal_stmt holder at until name seen t).0
        ≡ hits name (λ r. nat_beq r.epoch seen) (taken holder at until) (λ r. refl) (read name t)
  unfolding steal_stmt
  steal_stmt-hits t k =
      update-hits name (λ r. nat_beq r.epoch seen) (taken holder at until) (λ r. refl) t (k name)

  pub read-steal_stmt :
      (t : Table)
      → read name (steal_stmt holder at until name seen t).1
        ≡ changed name (λ r. nat_beq r.epoch seen) (taken holder at until) (λ r. refl) (read name t)
  unfolding steal_stmt
  read-steal_stmt t =
      read-update name (λ r. nat_beq r.epoch seen) (taken holder at until) (λ r. refl) t

  pub steal_stmt-IsKeyed :
      (t : Table) → IsKeyed t → IsKeyed (steal_stmt holder at until name seen t).1
  unfolding steal_stmt
  steal_stmt-IsKeyed t k m =
      rw (rows_of-update name (λ r. nat_beq r.epoch seen) (taken holder at until) (λ r. refl) m t)
        (k m)

  pub steal_stmt_ne :
      (m : String) (t : Table)
      → (name == m) ≡ false
      → read m (steal_stmt holder at until name seen t).1 ≡ read m t
  unfolding steal_stmt
  steal_stmt_ne m t h =
      read-update_ne name (λ r. nat_beq r.epoch seen) (taken holder at until) (λ r. refl) m t h

pub read-snoc :
    (m : String) (row : Row) (t : Table)
    → read m (t ++ row ∷ [])
      ≡ elim (read m t) [ none ↦ if row.name == m then some row else none | some r ↦ some r ]
unfolding read
read-snoc m row [] = ground arith
read-snoc m row (r ∷ t) = ground (arith, read-snoc m row t)

pub rows_of-snoc :
    (m : String) (row : Row) (t : Table)
    → rows_of m (t ++ row ∷ []) ≡ rows_of m t + (if row.name == m then 1 else 0)
rows_of-snoc m row [] = ground arith
rows_of-snoc m row (r ∷ t) = ground (arith, rows_of-snoc m row t)

pub insert_ignore-IsKeyed : (row : Row) (t : Table) → IsKeyed t → IsKeyed (insert_ignore row t).1
unfolding insert_ignore
insert_ignore-IsKeyed row t k m = ground (
  arith,
  k m,
  rows_of-zero row.name t,
  rows_of-snoc m row t,
  string_eq.beq_iff row.name m,
  λ (q : row.name ≡ m). ap (λ x. rows_of x t) q,
)

module _ (name holder : String) (at until epoch : ℕ) (status : Status) where
  abbrev pub renewable : Row → Bool
  renewable r = r.holder == holder && nat_beq r.epoch epoch && ltb at r.expires_at

  abbrev pub renewed : Row → Row
  renewed r = record r {
    heartbeat_at = at;
    expires_at = until;
    status = new_status status r.status;
  }

  pub renew_stmt-hits :
      (t : Table)
      → IsKeyed t
      → (renew_stmt at until status name holder epoch t).0
        ≡ hits name renewable renewed (λ r. refl) (read name t)
  unfolding renew_stmt
  renew_stmt-hits t k = update-hits name renewable renewed (λ r. refl) t (k name)

  pub read-renew_stmt :
      (t : Table)
      → read name (renew_stmt at until status name holder epoch t).1
        ≡ changed name renewable renewed (λ r. refl) (read name t)
  unfolding renew_stmt
  read-renew_stmt t = read-update name renewable renewed (λ r. refl) t

  pub renew_stmt_ne :
      (m : String) (t : Table)
      → (name == m) ≡ false
      → read m (renew_stmt at until status name holder epoch t).1 ≡ read m t
  unfolding renew_stmt
  renew_stmt_ne m t h = read-update_ne name renewable renewed (λ r. refl) m t h

  pub renew_stmt-IsKeyed :
      (t : Table) → IsKeyed t → IsKeyed (renew_stmt at until status name holder epoch t).1
  unfolding renew_stmt
  renew_stmt-IsKeyed t k m = rw (rows_of-update name renewable renewed (λ r. refl) m t) (k m)

module _ (name holder : String) (epoch : ℕ) where
  abbrev pub releasable : Row → Bool
  releasable r = r.holder == holder && nat_beq r.epoch epoch

  abbrev pub released : Row → Row
  released r = record r { expires_at = 0 }

  pub release_stmt-hits :
      (t : Table)
      → IsKeyed t
      → (release_stmt name holder epoch t).0
        ≡ hits name releasable released (λ r. refl) (read name t)
  unfolding release_stmt
  release_stmt-hits t k = update-hits name releasable released (λ r. refl) t (k name)

  pub read-release_stmt :
      (t : Table)
      → read name (release_stmt name holder epoch t).1
        ≡ changed name releasable released (λ r. refl) (read name t)
  unfolding release_stmt
  read-release_stmt t = read-update name releasable released (λ r. refl) t

  pub release_stmt_ne :
      (m : String) (t : Table)
      → (name == m) ≡ false
      → read m (release_stmt name holder epoch t).1 ≡ read m t
  unfolding release_stmt
  release_stmt_ne m t h = read-update_ne name releasable released (λ r. refl) m t h

  pub release_stmt-IsKeyed : (t : Table) → IsKeyed t → IsKeyed (release_stmt name holder epoch t).1
  unfolding release_stmt
  release_stmt-IsKeyed t k m = rw (rows_of-update name releasable released (λ r. refl) m t) (k m)
