-- ===== src/Queue/Claims.antt =====
-- A live claim is exclusive, whatever the other holders and the writers of rows do.
use coxswain_graphs.Prelude.{
  ℕ, ◌+◌, ◌≤◌, ◌≡◌, ◌≢◌, refl, ap, ◌∙◌, String, Bool, true, false, ◌&&◌, Option, none, some, [],
  ◌∷◌, ◌++◌, any, select, length, if◌then◌else◌, ◌==◌, list_eq, nat_eq, option_eq, Text, text_eq,
  arith, Bool-cases, inl, inr, Option-cases,
}
use coxswain_graphs.Queue.{
  Value, Stored, Table, is_key, find_first, update, claim, claimed, may_claim, release, freed, Sent,
  written, upsert_stmt, Claim, claim_of, blank_row,
}
use coxswain_graphs.Queue.Cells.{
  cell, IsKeyed, any-and, length-and, find-some, find-append, AtMostOne-snoc, update-none,
  cell-update, update-IsKeyed,
}

-- What may happen while a holder leaves its claim alone: claims and releases of any task by others, no
-- later than `until`, and upserts of any row by anyone.
pub data Others (holder : Text) (until : ℕ) : Table → Table → Type 0 where
  nothing : {t : Table} → Others holder until t t
  claims :
      {t u : Table} (initiative task other : Text) (ttl now : ℕ)
      → other ≢ holder
      → now ≤ until
      → Others holder until (claim initiative task other ttl now t).1 u
      → Others holder until t u
  releases :
      {t u : Table} (initiative task other : Text)
      → other ≢ holder
      → Others holder until (release initiative task other t).1 u
      → Others holder until t u
  upserts :
      {t u : Table} (row : Sent) (values : String → Value) (clock : Text)
      → Others holder until (upsert_stmt row values clock t) u
      → Others holder until t u

abbrev pub wins : Text → Text → Text → ℕ → Stored → Bool
wins initiative task holder now r = is_key initiative task r && may_claim holder now r

abbrev hers : Text → Text → Text → Stored → Bool
hers initiative task holder r = is_key initiative task r && r.holder == some holder

pub claim-update :
    (initiative task holder : Text) (ttl now : ℕ) (t : Table)
    → (claim initiative task holder ttl now t).1
      ≡ update (wins initiative task holder now) (claimed holder (now + ttl)) t
unfolding claim
claim-update initiative task holder ttl now t =
    ground (arith, nat_eq.beq_iff (length (select (wins initiative task holder now) t)) 1)

-- The claim of a row.
abbrev IsHeld : Text → ℕ → Option Stored → Type 0
IsHeld holder until none = ⊥
IsHeld holder until (some r) = (r.holder ≡ some holder) × (r.expires_at ≡ some until)

keeps_claimed :
    (h : Text) (until : ℕ) (initiative task : Text) (r : Stored)
    → is_key initiative task (claimed h until r) ≡ is_key initiative task r
keeps_claimed h until initiative task r = refl

keeps_freed :
    (initiative task : Text) (r : Stored)
    → is_key initiative task (freed r) ≡ is_key initiative task r
keeps_freed initiative task r = refl

pub keeps_written :
    (row : Sent) (values : String → Value) (clock initiative task : Text) (r : Stored)
    → is_key initiative task (written row values clock r) ≡ is_key initiative task r
keeps_written row values clock initiative task r = refl

module _ (initiative task holder : Text) (until : ℕ) where
  -- The cell, with the epoch that it has.
  abbrev Keeps : ℕ → Table → Type 0
  Keeps epoch t =
      (r : Stored) × (cell initiative task t ≡ some r)
      × (r.holder ≡ some holder)
      × (r.expires_at ≡ some until)
      × (r.epoch ≡ epoch)

  claim-Keeps :
      (epoch : ℕ) (t : Table) (i k other : Text) (ttl now : ℕ)
      → other ≢ holder
      → now ≤ until
      → Keeps epoch t
      → Keeps epoch (claim i k other ttl now t).1
  claim-Keeps epoch t i k other ttl now ne le (r, at, h, e, n) = (
    r,
    ap (cell initiative task) (claim-update i k other ttl now t)
        ∙ cell-update (wins i k other now) (claimed other (now + ttl))
            (keeps_claimed other (now + ttl)) initiative task t
        ∙ ground (arith, at, refuse),
    h,
    e,
    n,
  )
    where
      refuse : may_claim other now r ≡ false
      refuse = ground (arith, h, e, text_eq.beq_iff holder other, ne)

  release-Keeps :
      (epoch : ℕ) (t : Table) (i k other : Text)
      → other ≢ holder
      → Keeps epoch t
      → Keeps epoch (release i k other t).1
  unfolding release
  release-Keeps epoch t i k other ne (r, at, h, e, n) = (
    r,
    cell-update (hers i k other) freed keeps_freed initiative task t
        ∙ ground (arith, at, h, text_eq.beq_iff holder other, ne),
    h,
    e,
    n,
  )

  -- The statement of `upsert`, on either answer of the look-up.
  stmt-Keeps :
      (epoch : ℕ) (t : Table) (row : Sent) (values : String → Value) (clock : Text)
      (found : Option Stored)
      → Keeps epoch t
      → Keeps epoch (elim found as (λ x. Table) [
        | some r ↦ update (is_key row.initiative row.task_id) (written row values clock) t
        | none ↦ t ++ written row values clock (blank_row row.initiative row.task_id) ∷ []
      ])
  stmt-Keeps epoch t row values clock (some s) (r, at, h, e, n) =
      let mine = is_key row.initiative row.task_id r in
      (
        if mine then written row values clock r else r,
        cell-update (is_key row.initiative row.task_id) (written row values clock)
              (keeps_written row values clock) initiative task t
            ∙ ground (arith, at),
        ground (arith, h),
        ground (arith, e),
        ground (arith, n),
      )
  stmt-Keeps epoch t row values clock none (r, at, h, e, n) = (
    r,
    find-append (is_key initiative task) t
          (written row values clock (blank_row row.initiative row.task_id) ∷ [])
        ∙ ground (arith, at),
    h,
    e,
    n,
  )

  others-Keeps : (epoch : ℕ) (t u : Table) → Others holder until t u → Keeps epoch t → Keeps epoch u
  unfolding upsert_stmt
  others-Keeps epoch t u nothing k = k
  others-Keeps epoch t u (claims i k other ttl now ne le rest) p =
      others-Keeps epoch (claim i k other ttl now t).1 u rest
        (claim-Keeps epoch t i k other ttl now ne le p)
  others-Keeps epoch t u (releases i k other ne rest) p =
      others-Keeps epoch (release i k other t).1 u rest (release-Keeps epoch t i k other ne p)
  others-Keeps epoch t u (upserts row values clock rest) p =
      others-Keeps epoch (upsert_stmt row values clock t) u rest
        (stmt-Keeps epoch t row values clock (find_first (is_key row.initiative row.task_id) t) p)

-- No statement makes two rows of one key.
pub claim-IsKeyed :
    (i k h : Text) (ttl now : ℕ) (t : Table) → IsKeyed t → IsKeyed (claim i k h ttl now t).1
claim-IsKeyed i k h ttl now t keyed =
    rw (claim-update i k h ttl now t) (
      update-IsKeyed (wins i k h now) (claimed h (now + ttl)) (keeps_claimed h (now + ttl)) t keyed)

pub release-IsKeyed : (i k h : Text) (t : Table) → IsKeyed t → IsKeyed (release i k h t).1
unfolding release
release-IsKeyed i k h t keyed = update-IsKeyed (hers i k h) freed keeps_freed t keyed

pub upsert_stmt-IsKeyed :
    (row : Sent) (values : String → Value) (clock : Text) (t : Table)
    → IsKeyed t
    → IsKeyed (upsert_stmt row values clock t)
unfolding upsert_stmt
upsert_stmt-IsKeyed row values clock t keyed =
    split (find_first (is_key row.initiative row.task_id) t) refl
  where
    fresh : Stored
    fresh = written row values clock (blank_row row.initiative row.task_id)

    absent :
        (xs : Table)
        → find_first (is_key row.initiative row.task_id) xs ≡ none
        → any (is_key row.initiative row.task_id) xs ≡ false
    absent [] e = refl
    absent (x ∷ xs) e = ground (arith, absent xs)

    same_key :
        (i k : Text) (xs : Table)
        → is_key i k fresh ≡ true
        → any (is_key row.initiative row.task_id) xs ≡ false
        → any (is_key i k) xs ≡ false
    same_key i k [] e h = refl
    same_key i k (x ∷ xs) e h = ground (
      arith,
      same_key i k xs,
      text_eq.beq_iff row.initiative i,
      text_eq.beq_iff row.task_id k,
      text_eq.beq_iff x.initiative i,
      text_eq.beq_iff x.initiative row.initiative,
      text_eq.beq_iff x.task_id k,
      text_eq.beq_iff x.task_id row.task_id,
    )

    split :
        (found : Option Stored)
        → find_first (is_key row.initiative row.task_id) t ≡ found
        → IsKeyed (elim found as (λ x. Table) [
          | some r ↦ update (is_key row.initiative row.task_id) (written row values clock) t
          | none ↦ t ++ fresh ∷ []
        ])
    split (some r) e =
        update-IsKeyed (is_key row.initiative row.task_id) (written row values clock)
          (keeps_written row values clock) t keyed
    split none e =
        λ i k. AtMostOne-snoc (is_key i k) t fresh (keyed i k) (λ m. same_key i k t m (absent t e))

others-IsKeyed :
    (holder : Text) (until : ℕ) (t u : Table) → Others holder until t u → IsKeyed t → IsKeyed u
others-IsKeyed holder until t u nothing keyed = keyed
others-IsKeyed holder until t u (claims i k other ttl now ne le rest) keyed =
    others-IsKeyed holder until (claim i k other ttl now t).1 u rest
      (claim-IsKeyed i k other ttl now t keyed)
others-IsKeyed holder until t u (releases i k other ne rest) keyed =
    others-IsKeyed holder until (release i k other t).1 u rest (release-IsKeyed i k other t keyed)
others-IsKeyed holder until t u (upserts row values clock rest) keyed =
    others-IsKeyed holder until (upsert_stmt row values clock t) u rest
      (upsert_stmt-IsKeyed row values clock t keyed)

-- A claim where the row may not be claimed is refused and changes nothing.
claim-refused :
    (initiative task other : Text) (ttl now : ℕ) (t : Table)
    → IsKeyed t
    → (r : Stored) → cell initiative task t ≡ some r
    → may_claim other now r ≡ false
    → claim initiative task other ttl now t ≡ (none, t)
unfolding claim
claim-refused initiative task other ttl now t keyed r at refusal = ground (
  arith,
  length-and (is_key initiative task) (may_claim other now) t (keyed initiative task),
  any-and (is_key initiative task) (may_claim other now) t (keyed initiative task),
  at,
  refusal,
  update-none (wins initiative task other now) (claimed other (now + ttl)) t,
)

-- A claim that is granted returns the row's next epoch, and stores itself.
pub claim-granted :
    (initiative task holder : Text) (ttl now : ℕ) (t : Table) (c : Claim)
    → IsKeyed t
    → (claim initiative task holder ttl now t).0 ≡ some c
    → (r : Stored) × (cell initiative task t ≡ some r)
      × (may_claim holder now r ≡ true)
      × (c ≡ claim_of (claimed holder (now + ttl) r))
      × (cell initiative task (claim initiative task holder ttl now t).1
          ≡ some (claimed holder (now + ttl) r))
unfolding claim
claim-granted initiative task holder ttl now t c keyed h =
    elim (Option-cases (cell initiative task t)) [
      | inl free ↦ absurd (ground (arith, count, h))
      | inr (r, at) ↦ elim (Bool-cases (may_claim holder now r)) [
        | inr refusal ↦ absurd (
            ground (
              arith,
              ap (λ p. p.0) (claim-refused initiative task holder ttl now t keyed r at refusal),
            ))
        | inl may ↦ (
          r,
          at,
          may,
          ground (arith, count, after, at, may, h, find-some (is_key initiative task) t r),
          won r at may,
        )
      ]
    ]
  where
    count : length (select (wins initiative task holder now) t) ≡ (elim (cell initiative task t) [
      | none ↦ 0
      | some x ↦ if may_claim holder now x then 1 else 0
    ])
    count = length-and (is_key initiative task) (may_claim holder now) t (keyed initiative task)

    after :
        cell initiative task
          (update (wins initiative task holder now) (claimed holder (now + ttl)) t)
        ≡ (elim (cell initiative task t) [
          | none ↦ none
          | some x ↦
              some (if wins initiative task holder now x then claimed holder (now + ttl) x else x)
        ])
    after =
        cell-update (wins initiative task holder now) (claimed holder (now + ttl))
          (keeps_claimed holder (now + ttl)) initiative task t

    won :
        (r : Stored)
        → cell initiative task t ≡ some r
        → may_claim holder now r ≡ true
        → cell initiative task (claim initiative task holder ttl now t).1
          ≡ some (claimed holder (now + ttl) r)
    won r at may =
        ap (cell initiative task) (claim-update initiative task holder ttl now t)
        ∙ after
        ∙ ground (arith, at, may, find-some (is_key initiative task) t r)

-- Once a holder has claimed a task, every claim of it by another up to the expiry is refused and changes
-- nothing, whatever others claim and release, and whoever writes rows, in between; and the epoch stands.
pub claim-exclusive :
    (initiative task holder other : Text) (ttl now ttl' later : ℕ) (t u : Table) (c : Claim)
    → IsKeyed t
    → (claim initiative task holder ttl now t).0 ≡ some c
    → Others holder (now + ttl) (claim initiative task holder ttl now t).1 u
    → other ≢ holder
    → later ≤ now + ttl
    → (claim initiative task other ttl' later u ≡ (none, u))
      × ((r : Stored) × (cell initiative task u ≡ some r) × (some r.epoch ≡ some c.epoch))
claim-exclusive initiative task holder other ttl now ttl' later t u c keyed won between ne in_time =
    let (r, at, may, is, after) = claim-granted initiative task holder ttl now t c keyed won in
    let (s, here, h, e, n) =
      others-Keeps initiative task holder (now + ttl) (r.epoch + 1)
        (claim initiative task holder ttl now t).1 u between
        (claimed holder (now + ttl) r, after, refl, refl, refl) in
    (
      claim-refused initiative task other ttl' later u
          (others-IsKeyed holder (now + ttl) (claim initiative task holder ttl now t).1 u between
            (claim-IsKeyed initiative task holder ttl now t keyed))
          s here (ground (arith, h, e, text_eq.beq_iff holder other, ne)),
      (s, here, ground (arith, n, is)),
    )
