-- ===== src/Queue/Upserts.antt =====
-- What an upsert writes, keeps and leaves alone.
use coxswain_graphs.Prelude.{
  ℕ, ◌≡◌, refl, ap, ◌∙◌, String, Bool, true, false, not, ◌&&◌, ◌||◌, Option, none, some, List, [],
  ◌∷◌, ◌++◌, all, elem, if◌then◌else◌, ◌==◌, list_eq, nat_eq, option_eq, string_eq, Text, text_eq,
  arith, Bool-cases, inl, inr, ok,
}
use coxswain_graphs.Queue.{
  Value, Stored, Table, is_key, find_first, update, Sent, written, upsert, upsert_stmt, current,
  unchanged, resolved, blank_row, content_columns, value_eq, Engine, is_accepted, is_missing,
}
use coxswain_graphs.Queue.Columns.{is_typed, IsFaithful}
use coxswain_graphs.Queue.Cells.{cell, IsKeyed, cell-update, find-append, find-some, current-cell}
use coxswain_graphs.Queue.Claims.{keeps_written}

-- The claim of a cell: no row has none.
abbrev pub claim_in : Option Stored → (Option Text × Option ℕ) × ℕ
claim_in none = ((none, none), 0)
claim_in (some r) = ((r.holder, r.expires_at), r.epoch)

-- What is read at a column of a cell.
abbrev pub column : String → Option Stored → Option Value
column k none = none
column k (some r) = some (r.content k)

stmt-cell :
    (row : Sent) (values : String → Value) (clock : Text) (t : Table)
    → cell row.initiative row.task_id (upsert_stmt row values clock t)
      ≡ some (
          written row values clock (elim (cell row.initiative row.task_id t) [
            | none ↦ blank_row row.initiative row.task_id
            | some r ↦ r
          ]))
unfolding upsert_stmt
stmt-cell row values clock t = split (find_first (is_key row.initiative row.task_id) t) refl
  where
    fresh : Stored
    fresh = written row values clock (blank_row row.initiative row.task_id)

    split :
        (found : Option Stored)
        → find_first (is_key row.initiative row.task_id) t ≡ found
        → cell row.initiative row.task_id (elim found as (λ x. Table) [
          | some r ↦ update (is_key row.initiative row.task_id) (written row values clock) t
          | none ↦ t ++ fresh ∷ []
        ])
          ≡ some (
              written row values clock (elim found as (λ x. Stored) [
                | none ↦ blank_row row.initiative row.task_id
                | some r ↦ r
              ]))
    split (some r) e =
        cell-update (is_key row.initiative row.task_id) (written row values clock)
          (keeps_written row values clock) row.initiative row.task_id t
        ∙ ground (arith, e, find-some (is_key row.initiative row.task_id) t r)
    split none e =
        find-append (is_key row.initiative row.task_id) t (fresh ∷ [])
        ∙ ground (
          arith,
          e,
          text_eq.beq_iff row.initiative row.initiative,
          text_eq.beq_iff row.task_id row.task_id,
        )

-- What is read back of the columns that the statement writes.
abbrev pub read_back : Engine → Option Stored → Sent → String → Value
read_back engine now row k = engine.gives_back k (resolved now row.fields k)

-- An upsert that wrote is the statement on the row that was there, and the database took the row.
upsert-ok :
    (engine : Engine) (row : Sent) (clock : Text) (t u : Table) (wrote : Bool)
    → upsert engine row clock t ≡ ok (wrote, u)
    → let now = current row.initiative row.task_id t in
      (wrote ≡ not (unchanged now row.fields))
      × ((not wrote || is_accepted engine (resolved now row.fields)) ≡ true)
      × (u ≡ (if wrote then upsert_stmt row (read_back engine now row) clock t else t))
unfolding upsert
upsert-ok engine row clock t u wrote h = ground arith

pub all-elem :
    (p : String → Bool) (ks : List String) (k : String)
    → all p ks ≡ true
    → elem k ks ≡ true
    → p k ≡ true
all-elem p [] k h m = absurd (ground arith)
all-elem p (j ∷ ks) k h m = elim (Bool-cases (k == j)) [
  | inl same ↦ rw ((string_eq.beq_iff k j).0 same) (ground arith)
  | inr other ↦ all-elem p ks k (ground arith) (ground arith)
]

-- A value of the column's type is read back as it was resolved, from a column that takes it.
read_back-typed :
    (engine : Engine) (now : Option Stored) (row : Sent) (k : String)
    → IsFaithful engine
    → is_accepted engine (resolved now row.fields) ≡ true
    → elem k content_columns ≡ true
    → is_typed k (resolved now row.fields k) ≡ true
    → (read_back engine now row k ≡ resolved now row.fields k)
      × (is_missing k (resolved now row.fields k) ≡ false)
unfolding is_accepted
read_back-typed engine now row k faithful accepted m typed =
    let here =
      all-elem
        (λ j.
          not (is_missing j (resolved now row.fields j))
          && engine.takes j (resolved now row.fields j))
        content_columns k accepted m in
    (faithful.kept k (resolved now row.fields k) typed (ground (arith, here)), ground (arith, here))

-- Both ends of an upsert, by the cell of its key.
cell_after :
    (engine : Engine) (row : Sent) (clock : Text) (t : Table) (now : Option Stored) (k : String)
    → IsFaithful engine
    → cell row.initiative row.task_id t ≡ now
    → elem k content_columns ≡ true
    → is_typed k (resolved now row.fields k) ≡ true
    → (b : Bool) → unchanged now row.fields ≡ b
    → (b || is_accepted engine (resolved now row.fields)) ≡ true
    → let u = if not b then upsert_stmt row (read_back engine now row) clock t else t in
      (column k (cell row.initiative row.task_id u) ≡ some (resolved now row.fields k))
      × (claim_in (cell row.initiative row.task_id u) ≡ claim_in now)
      × ((b || not (is_missing k (resolved now row.fields k))) ≡ true)
cell_after engine row clock t now k faithful at m typed false e accepted =
    let (same, given) = read_back-typed engine now row k faithful accepted m typed in
    (
      ap (column k) (stmt-cell row (read_back engine now row) clock t) ∙ ap (λ v. some v) same,
      ap claim_in (stmt-cell row (read_back engine now row) clock t) ∙ held now at,
      ground (arith, given),
    )
  where
    held :
        (o : Option Stored)
        → cell row.initiative row.task_id t ≡ o
        → claim_in (
            some (
              written row
                (read_back engine now row)
                clock
                (elim (cell row.initiative row.task_id t) [
                  | none ↦ blank_row row.initiative row.task_id
                  | some r ↦ r
                ])))
          ≡ claim_in o
    held none h = rw h refl
    held (some r) h = rw h refl
cell_after engine row clock t none k faithful at m typed true e accepted =
    absurd (unfold unchanged in ground arith)
cell_after engine row clock t (some r) k faithful at m typed true e accepted = (
  ap (column k) at
      ∙ ap (λ v. some v)
          ((value_eq.beq_iff (r.content k) (resolved (some r) row.fields k)).0 (
            all-elem (λ j. r.content j == resolved (some r) row.fields j) content_columns k
              (unfold unchanged in e) m)),
  ap claim_in at,
  refl,
)

pub upsert-table :
    (engine : Engine) (row : Sent) (clock : Text) (t u : Table) (wrote : Bool)
    → IsKeyed t
    → upsert engine row clock t ≡ ok (wrote, u)
    → let now = cell row.initiative row.task_id t in
      (wrote ≡ not (unchanged now row.fields))
      × ((unchanged now row.fields || is_accepted engine (resolved now row.fields)) ≡ true)
      × (u ≡ (
          if not (unchanged now row.fields)
          then upsert_stmt row (read_back engine now row) clock t
          else t))
upsert-table engine row clock t u wrote keyed h =
    rw (← current-cell row.initiative row.task_id t keyed)
      (ground (arith, upsert-ok engine row clock t u wrote h))

pub upsert-read :
    (engine : Engine) (row : Sent) (clock : Text) (t u : Table) (wrote : Bool) (k : String)
    → IsFaithful engine
    → IsKeyed t
    → upsert engine row clock t ≡ ok (wrote, u)
    → elem k content_columns ≡ true
    → is_typed k (resolved (cell row.initiative row.task_id t) row.fields k) ≡ true
    → (column k (cell row.initiative row.task_id u)
        ≡ some (resolved (cell row.initiative row.task_id t) row.fields k))
      × (claim_in (cell row.initiative row.task_id u)
          ≡ claim_in (cell row.initiative row.task_id t))
      × ((not wrote
            || not (is_missing k (resolved (cell row.initiative row.task_id t) row.fields k)))
          ≡ true)
upsert-read engine row clock t u wrote k faithful keyed h m typed =
    let (w, accepted, is) = upsert-table engine row clock t u wrote keyed h in
    let now = cell row.initiative row.task_id t in
    let (a, b, c) =
      cell_after engine row clock t now k faithful refl m typed (unchanged now row.fields) refl
        accepted in
    (rw is a, rw is b, ground (arith, w, c))
