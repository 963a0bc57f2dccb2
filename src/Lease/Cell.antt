-- ===== src/Lease/Cell.antt =====
-- What the lease promises of one name, with the table forgotten: operations on the row or its absence.
use coxswain_graphs.Prelude.{
  ℕ, ◌+◌, String, Bool, true, false, ◌&&◌, ◌||◌, Option, none, some, leb, ltb, if◌then◌else◌, ◌==◌,
  string_eq, nat_beq,
}
use coxswain_graphs.Lease.{Row, LeaseResult, Status, new_status, taken, refused}

abbrev pub first_row : String → String → ℕ → ℕ → Row
first_row name holder at until = record {
  name = name;
  holder = holder;
  epoch = 1;
  heartbeat_at = at;
  expires_at = until;
  status = none;
}

abbrev granted : ℕ → String → LeaseResult
granted epoch holder = record { ok = true; epoch = some epoch; holder = some holder }

-- A free name is taken at epoch 1, an expired or own lease at the next epoch, and a live lease of
-- another holder only by stealing it.
abbrev pub cell_acquire : String → String → ℕ → ℕ → Bool → Option Row → LeaseResult × Option Row
cell_acquire name holder now ttl steal none =
    (granted 1 holder, some (first_row name holder now (now + ttl)))
cell_acquire name holder now ttl steal (some r) =
    if leb r.expires_at now || r.holder == holder || steal
    then (granted (r.epoch + 1) holder, some (taken holder now (now + ttl) r))
    else (refused (some r), some r)

abbrev pub cell_renew : String → ℕ → ℕ → ℕ → Status → Option Row → Bool × Option Row
cell_renew holder epoch now ttl status none = (false, none)
cell_renew holder epoch now ttl status (some r) =
    if r.holder == holder && nat_beq r.epoch epoch && ltb now r.expires_at
    then (
      true,
      some (record r {
        heartbeat_at = now;
        expires_at = now + ttl;
        status = new_status status r.status;
      }),
    )
    else (false, some r)

abbrev pub cell_release : String → ℕ → Option Row → Bool × Option Row
cell_release holder epoch none = (false, none)
cell_release holder epoch (some r) =
    if r.holder == holder && nat_beq r.epoch epoch
    then (true, some (record r { expires_at = 0 }))
    else (false, some r)

abbrev pub cell_assert : ℕ → ℕ → Option Row → Bool
cell_assert epoch now none = false
cell_assert epoch now (some r) = nat_beq r.epoch epoch && ltb now r.expires_at
