-- ===== src/Lease.antt =====
-- harness/store_lease.py: the leader lease, one row of the `leases` table fenced by its epoch.
-- A timestamp is its normalised instant in whole seconds, so the order of the stored texts is `leb`
-- and `_PAST` is 0. A statement is a function of the table, and returns the affected row count.
pub mod Cell
pub mod Statements
pub mod Refinement
pub mod Fence
pub mod Outcomes
mod Examples
use coxswain_graphs.Prelude.{
  ℕ, suc, ◌+◌, String, Bool, true, false, not, ◌&&◌, ◌||◌, Option, none, some, List, [], ◌∷◌, ◌++◌,
  leb, ltb, if◌then◌else◌, ◌==◌, string_eq, nat_eq, nat_beq,
}

pub record Row : Type 0 where
  pub name : String
  pub holder : String
  pub epoch : ℕ
  pub heartbeat_at : ℕ
  pub expires_at : ℕ
  pub status : Option String

abbrev pub Table : Type 0
Table = List Row

pub record LeaseResult : Type 0 where
  pub ok : Bool
  pub epoch : Option ℕ
  pub holder : Option String

-- `UPDATE leases SET .. WHERE ..`
unfoldable pub update : (Row → Bool) → (Row → Row) → Table → ℕ × Table
update p f [] = (0, [])
update p f (r ∷ t) = let (n, t') = update p f t in if p r then (suc n, f r ∷ t') else (n, r ∷ t')

-- `SELECT .. FROM leases WHERE name = ?`
unfoldable pub read : String → Table → Option Row
read n [] = none
read n (r ∷ t) = if r.name == n then some r else read n t

abbrev pub taken : String → ℕ → ℕ → Row → Row
taken holder at until r = record r {
  holder = holder;
  epoch = r.epoch + 1;
  heartbeat_at = at;
  expires_at = until;
  status = none;
}

pub take_stmt : String → ℕ → ℕ → String → Table → ℕ × Table
take_stmt holder at until name =
    update (λ r. r.name == name && (leb r.expires_at at || r.holder == holder))
      (taken holder at until)

pub steal_stmt : String → ℕ → ℕ → String → ℕ → Table → ℕ × Table
steal_stmt holder at until name seen =
    update (λ r. r.name == name && nat_beq r.epoch seen) (taken holder at until)

-- `INSERT .. ON CONFLICT (name) DO NOTHING`
pub insert_ignore : Row → Table → ℕ × Table
insert_ignore row t = elim (read row.name t) [ none ↦ (1, t ++ row ∷ []) | some r ↦ (0, t) ]

-- The `status` argument of `renew`: the sentinel `_KEEP`, or a value to write.
pub data Status : Type 0 where
  keep : Status
  write : Option String → Status

abbrev pub new_status : Status → Option String → Option String
new_status keep s = s
new_status (write v) s = v

pub renew_stmt : ℕ → ℕ → Status → String → String → ℕ → Table → ℕ × Table
renew_stmt at until status name holder epoch =
    update
      (λ r. r.name == name && (r.holder == holder && nat_beq r.epoch epoch && ltb at r.expires_at))
      (λ r. record r { heartbeat_at = at; expires_at = until; status = new_status status r.status })

pub release_stmt : String → String → ℕ → Table → ℕ × Table
release_stmt name holder epoch =
    update (λ r. r.name == name && (r.holder == holder && nat_beq r.epoch epoch))
      (λ r. record r { expires_at = 0 })

abbrev pub epoch_of : Option Row → Option ℕ
epoch_of none = none
epoch_of (some r) = some r.epoch

abbrev pub holder_of : Option Row → Option String
holder_of none = none
holder_of (some r) = some r.holder

abbrev pub refused : Option Row → LeaseResult
refused row = record { ok = false; epoch = epoch_of row; holder = holder_of row }

-- The tail of `acquire`, where the row that is there belongs to a live holder.
steal_or_refuse : String → String → ℕ → ℕ → Bool → Option Row → Table → LeaseResult × Table
steal_or_refuse name holder at until false row t = (refused row, t)
steal_or_refuse name holder at until true none t = (refused none, t)
steal_or_refuse name holder at until true (some r) t =
    let (n, t') = steal_stmt holder at until name r.epoch t in
    if n == 1
    then (record { ok = true; epoch = some (r.epoch + 1); holder = some holder }, t')
    else (refused (read name t'), t')

pub acquire : String → String → ℕ → ℕ → Bool → Table → LeaseResult × Table
acquire name holder now ttl steal t =
    let until = now + ttl in
    let (n, t1) = take_stmt holder now until name t in
    if n == 1
    then (record { ok = true; epoch = epoch_of (read name t1); holder = some holder }, t1)
    else (let fresh : Row = record {
      name = name;
      holder = holder;
      epoch = 1;
      heartbeat_at = now;
      expires_at = until;
      status = none;
    } in
        let (m, t2) = insert_ignore fresh t1 in
        if m == 1
        then (record { ok = true; epoch = some 1; holder = some holder }, t2)
        else steal_or_refuse name holder now until steal (read name t2) t2)

pub renew : String → String → ℕ → ℕ → ℕ → Status → Table → Bool × Table
renew name holder epoch now ttl status t =
    let (n, t') = renew_stmt now (now + ttl) status name holder epoch t in (n == 1, t')

pub release : String → String → ℕ → Table → Bool × Table
release name holder epoch t = let (n, t') = release_stmt name holder epoch t in (n == 1, t')

-- The fence that every leader write asks immediately before it writes.
pub assert_epoch : String → ℕ → ℕ → Table → Bool
assert_epoch name epoch now [] = false
assert_epoch name epoch now (r ∷ t) =
    (r.name == name && nat_beq r.epoch epoch && ltb now r.expires_at)
    || assert_epoch name epoch now t

pub data LeaseState : Type 0 where
  free expired held : LeaseState

pub lease_state : Option Row → ℕ → LeaseState
lease_state none now = free
lease_state (some r) now = if leb r.expires_at now then expired else held
