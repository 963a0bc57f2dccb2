-- ===== src/Queue/Resent.antt =====
-- harness/store_queue.py: what `upsert` does with a row that is sent again.
use coxswain_graphs.Prelude.{
  ◌≡◌, refl, sym, ap, ◌∙◌, String, Bool, true, false, not, Option, some, List, [], ◌∷◌, all, elem,
  if◌then◌else◌, ◌==◌, list_eq, nat_eq, option_eq, string_eq, Text, Dict, lookup, arith, inl, inr,
  Option-cases, ok, none, Bool-cases,
}
use coxswain_graphs.Queue.{
  Value, Stored, Table, Sent, upsert, upsert_stmt, current, unchanged, resolved, content_columns,
  value_eq, Engine, priority_problem, issue_number_problem, is_accepted,
}
use coxswain_graphs.Queue.Columns.{is_typed, IsFaithful}
use coxswain_graphs.Queue.Cells.{cell, IsKeyed, current-cell}
use coxswain_graphs.Queue.Claims.{upsert_stmt-IsKeyed}
use coxswain_graphs.Queue.Upserts.{column, read_back, all-elem, upsert-table, upsert-read}

-- What is read back from a cell is what would be written again.
resolved-again :
    (o : Option Stored) (r : Stored) (fields : Dict String Value) (k : String)
    → r.content k ≡ resolved o fields k
    → resolved (some r) fields k ≡ r.content k
unfolding resolved
resolved-again o r fields k h = elim (Option-cases (lookup k fields)) [
  | inl left_out ↦ ground (arith, left_out)
  | inr (v, given) ↦ ground (arith, given, h)
]

all-of :
    (p : String → Bool) (ks : List String)
    → ((k : String) → elem k ks ≡ true → p k ≡ true)
    → all p ks ≡ true
all-of p [] h = refl
all-of p (k ∷ ks) h =
    ground (arith, h k, string_eq.beq_iff k k, all-of p ks (λ j m. h j (ground arith)))

settled :
    (engine : Engine) (row : Sent) (clock : Text) (t u : Table) (wrote : Bool)
    → IsFaithful engine
    → IsKeyed t
    → upsert engine row clock t ≡ ok (wrote, u)
    → all
        (λ k. is_typed k (resolved (cell row.initiative row.task_id t) row.fields k))
        content_columns
      ≡ true
    → (r : Stored) → cell row.initiative row.task_id u ≡ some r
    → unchanged (some r) row.fields ≡ true
unfolding unchanged
settled engine row clock t u wrote faithful keyed h typed r at =
    all-of (λ k. r.content k == resolved (some r) row.fields k) content_columns
      (λ k m.
        let now = cell row.initiative row.task_id t in
        let is =
          sym (ap (column k) at)
          ∙ (upsert-read engine row clock t u wrote k faithful keyed h m (
              all-elem (λ j. is_typed j (resolved now row.fields j)) content_columns k typed
                m)).0 in
        let e : r.content k ≡ resolved now row.fields k = ground (arith, is) in
        (value_eq.beq_iff (r.content k) (resolved (some r) row.fields k)).1
          (sym (resolved-again now r row.fields k e)))

again :
    (engine : Engine) (row : Sent) (clock clock' : Text) (t u : Table) (wrote : Bool)
    → upsert engine row clock t ≡ ok (wrote, u)
    → unchanged (current row.initiative row.task_id u) row.fields ≡ true
    → upsert engine row clock' u ≡ ok (false, u)
unfolding upsert
again engine row clock clock' t u wrote h same = ground arith

-- An upsert keeps one row of a key.
pub upsert-IsKeyed :
    (engine : Engine) (row : Sent) (clock : Text) (t u : Table) (wrote : Bool)
    → IsKeyed t
    → upsert engine row clock t ≡ ok (wrote, u)
    → IsKeyed u
upsert-IsKeyed engine row clock t u wrote keyed h =
    rw (upsert-table engine row clock t u wrote keyed h).2
      (split (not (unchanged (cell row.initiative row.task_id t) row.fields)))
  where
    values : String → Value
    values = read_back engine (cell row.initiative row.task_id t) row

    split : (b : Bool) → IsKeyed (if b then upsert_stmt row values clock t else t)
    split true = upsert_stmt-IsKeyed row values clock t keyed
    split false = keyed

-- Where every column's value is of the column's type, sending the row again at any time, after an upsert that
-- the database took, writes nothing. The database gives back a value of a column's type as it was written.
pub upsert-twice :
    (engine : Engine) (row : Sent) (clock clock' : Text) (t u : Table) (wrote : Bool)
    → IsFaithful engine
    → IsKeyed t
    → upsert engine row clock t ≡ ok (wrote, u)
    → all
        (λ k. is_typed k (resolved (cell row.initiative row.task_id t) row.fields k))
        content_columns
      ≡ true
    → upsert engine row clock' u ≡ ok (false, u)
upsert-twice engine row clock clock' t u wrote faithful keyed h typed =
    elim (Option-cases (cell row.initiative row.task_id u)) [
      | inl gone ↦ absurd (
          ground (
            arith,
            gone,
            (upsert-read engine row clock t u wrote "extra" faithful keyed h refl refl).0,
          ))
      | inr (r, at) ↦ again engine row clock clock' t u wrote h (
          rw
            (
              current-cell row.initiative row.task_id u
                  (upsert-IsKeyed engine row clock t u wrote keyed h),
              at,
            )
            (settled engine row clock t u wrote faithful keyed h typed r at))
    ]

upsert-returns :
    (engine : Engine) (row : Sent) (clock : Text) (t : Table)
    → priority_problem row ≡ none
    → issue_number_problem row ≡ none
    → is_accepted engine (resolved (current row.initiative row.task_id t) row.fields) ≡ true
    → (wrote : Bool) × (u : Table) × (upsert engine row clock t ≡ ok (wrote, u))
unfolding upsert
upsert-returns engine row clock t p q accepted =
    let now = current row.initiative row.task_id t in
    elim (Bool-cases (unchanged now row.fields)) [
      | inl same ↦ (false, t, ground (arith, p, q, same))
      | inr other ↦ (
        true,
        upsert_stmt row (read_back engine now row) clock t,
        ground (arith, p, q, accepted, other),
      )
    ]

pub upsert-stored :
    (engine : Engine) (row : Sent) (clock clock' : Text) (t : Table) (k : String)
    → IsFaithful engine
    → IsKeyed t
    → priority_problem row ≡ none
    → issue_number_problem row ≡ none
    → is_accepted engine (resolved (cell row.initiative row.task_id t) row.fields) ≡ true
    → all
        (λ j. is_typed j (resolved (cell row.initiative row.task_id t) row.fields j))
        content_columns
      ≡ true
    → elem k content_columns ≡ true
    → (wrote : Bool) × (u : Table) × (upsert engine row clock t ≡ ok (wrote, u))
      × (column k (cell row.initiative row.task_id u)
          ≡ some (resolved (cell row.initiative row.task_id t) row.fields k))
      × (upsert engine row clock' u ≡ ok (false, u))
upsert-stored engine row clock clock' t k faithful keyed p q accepted typed m =
    let now = cell row.initiative row.task_id t in
    let (wrote, u, h) =
      upsert-returns engine row clock t p q
        (rw (current-cell row.initiative row.task_id t keyed) accepted) in
    (
      wrote,
      u,
      h,
      (upsert-read engine row clock t u wrote k faithful keyed h m
          (all-elem (λ j. is_typed j (resolved now row.fields j)) content_columns k typed m)).0,
      upsert-twice engine row clock clock' t u wrote faithful keyed h typed,
    )
