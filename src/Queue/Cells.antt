-- ===== src/Queue/Cells.antt =====
-- The table as one cell for each key: what every statement does to the row of a task.
use coxswain_graphs.Prelude.{
  ◌≡◌, refl, sym, ap, ◌∙◌, Bool, true, false, ◌&&◌, ◌||◌, Option, none, some, List, [], ◌∷◌, ◌++◌,
  map, any, select, length, if◌then◌else◌, ◌==◌, list_eq, nat_eq, option_eq, Text, text_ord, Ord,
  arith, sort_by, insert_by,
}
use coxswain_graphs.Queue.{Stored, Table, is_key, find_first, read_rows, current, update}

-- At most one element passes the test.
abbrev pub AtMostOne {ℓ} : {A : Type ℓ} → (A → Bool) → List A → Type 0
AtMostOne p [] = Unit {0}
AtMostOne p (x ∷ xs) = (p x ≡ true → any p xs ≡ false) × AtMostOne p xs

abbrev pub cell : Text → Text → Table → Option Stored
cell initiative task table = find_first (is_key initiative task) table

-- The primary key: no two rows of one initiative and task.
abbrev pub IsKeyed : Table → Type 0
IsKeyed table = (initiative task : Text) → AtMostOne (is_key initiative task) table

module _ {ℓ} {A : Type ℓ} (p : A → Bool) where
  pub any-false : (xs : List A) → any p xs ≡ false → find_first p xs ≡ none
  any-false [] h = refl
  any-false (x ∷ xs) h = ground (arith, any-false xs)

  module _ {κ} {K : Type κ} ⦃o : Ord K⦄ (key : A → K) where
    any-insert_by : (a : A) (xs : List A) → any p (insert_by key a xs) ≡ (p a || any p xs)
    any-insert_by a [] = refl
    any-insert_by a (x ∷ xs) = ground (arith, any-insert_by a xs)

    any-sort_by : (xs : List A) → any p (sort_by key xs) ≡ any p xs
    any-sort_by [] = refl
    any-sort_by (x ∷ xs) = ground (arith, any-sort_by xs, any-insert_by x (sort_by key xs))

    find-insert_by :
        (a : A) (xs : List A)
        → (p a ≡ true → any p xs ≡ false)
        → find_first p (insert_by key a xs) ≡ (if p a then some a else find_first p xs)
    find-insert_by a [] h = refl
    find-insert_by a (x ∷ xs) h = ground (arith, find-insert_by a xs)

    find-sort_by : (xs : List A) → AtMostOne p xs → find_first p (sort_by key xs) ≡ find_first p xs
    find-sort_by [] h = refl
    find-sort_by (x ∷ xs) h =
        ground (arith, find-sort_by xs h.1, find-insert_by x (sort_by key xs), any-sort_by xs, h.0)

    AtMostOne-insert_by :
        (a : A) (xs : List A)
        → (p a ≡ true → any p xs ≡ false)
        → AtMostOne p xs
        → AtMostOne p (insert_by key a xs)
    AtMostOne-insert_by a [] h k = (λ _. refl, tt)
    AtMostOne-insert_by a (x ∷ xs) h k =
        place (o.at_most (key a) (key x)) (AtMostOne-insert_by a xs (λ e. ground (arith, h e)) k.1)
      where
        place :
            (b : Bool)
            → AtMostOne p (insert_by key a xs)
            → AtMostOne p (if b then a ∷ x ∷ xs else x ∷ insert_by key a xs)
        place true ih = (h, k)
        place false ih = (λ e. ground (arith, any-insert_by a xs, k.0 e, h), ih)

    AtMostOne-sort_by : (xs : List A) → AtMostOne p xs → AtMostOne p (sort_by key xs)
    AtMostOne-sort_by [] h = tt
    AtMostOne-sort_by (x ∷ xs) h =
        AtMostOne-insert_by x (sort_by key xs) (λ e. any-sort_by xs ∙ h.0 e)
          (AtMostOne-sort_by xs h.1)

  -- The tests of one row: with another test behind it, the row that is found decides.
  pub any-and :
      (q : A → Bool) (xs : List A)
      → AtMostOne p xs
      → any (λ x. p x && q x) xs ≡ (elim (find_first p xs) [ none ↦ false | some x ↦ q x ])
  any-and q [] h = refl
  any-and q (x ∷ xs) h = ground (arith, any-and q xs h.1, h.0, any-false xs)

  pub length-and :
      (q : A → Bool) (xs : List A)
      → AtMostOne p xs
      → length (select (λ x. p x && q x) xs)
        ≡ (elim (find_first p xs) [ none ↦ 0 | some x ↦ if q x then 1 else 0 ])
  length-and q [] h = refl
  length-and q (x ∷ xs) h = ground (arith, length-and q xs h.1, h.0, any-false xs)

  find-map :
      (g : A → A)
      → ((x : A) → p (g x) ≡ p x)
      → (xs : List A)
      → find_first p (map g xs) ≡ (elim (find_first p xs) [ none ↦ none | some x ↦ some (g x) ])
  find-map g same [] = refl
  find-map g same (x ∷ xs) = ground (arith, find-map g same xs, same x)

  any-map_same :
      (g : A → A) → ((x : A) → p (g x) ≡ p x) → (xs : List A) → any p (map g xs) ≡ any p xs
  any-map_same g same [] = refl
  any-map_same g same (x ∷ xs) = ground (arith, any-map_same g same xs, same x)

  AtMostOne-map :
      (g : A → A)
      → ((x : A) → p (g x) ≡ p x)
      → (xs : List A) → AtMostOne p xs
      → AtMostOne p (map g xs)
  AtMostOne-map g same [] h = tt
  AtMostOne-map g same (x ∷ xs) h =
      (λ e. any-map_same g same xs ∙ h.0 (sym (same x) ∙ e), AtMostOne-map g same xs h.1)

  pub find-some :
      (xs : List A) (x : A) → find_first p xs ≡ some x → (p x ≡ true) × (any p xs ≡ true)
  find-some [] x h = absurd (ground arith)
  find-some (y ∷ ys) x h = ground (arith, find-some ys x, λ (e : y ≡ x). ap p e)

  pub find-append :
      (xs ys : List A)
      → find_first p (xs ++ ys)
        ≡ (elim (find_first p xs) [ none ↦ find_first p ys | some x ↦ some x ])
  find-append [] ys = refl
  find-append (x ∷ xs) ys = ground (arith, find-append xs ys)

  pub AtMostOne-snoc :
      (xs : List A) (y : A)
      → AtMostOne p xs
      → (p y ≡ true → any p xs ≡ false)
      → AtMostOne p (xs ++ y ∷ [])
  AtMostOne-snoc [] y h k = (λ _. refl, tt)
  AtMostOne-snoc (x ∷ xs) y h k = (
    λ e. ground (arith, h.0 e, any-snoc xs y, k),
    AtMostOne-snoc xs y h.1 (λ e. ground (arith, k e)),
  )
    where
      any-snoc : (zs : List A) (z : A) → any p (zs ++ z ∷ []) ≡ (any p zs || p z)
      any-snoc [] z = ground arith
      any-snoc (w ∷ zs) z = ground (arith, any-snoc zs z)

-- A statement that writes to no row changes nothing.
pub update-none :
    (p : Stored → Bool) (f : Stored → Stored) (table : Table)
    → any p table ≡ false
    → update p f table ≡ table
update-none p f [] h = refl
update-none p f (r ∷ table) h = ground (arith, update-none p f table)

-- An update that keeps the key columns.
module _ (p : Stored → Bool) (f : Stored → Stored)
    (keeps : (initiative task : Text) (r : Stored)
      → is_key initiative task (f r) ≡ is_key initiative task r) where
  keeps_all :
      (initiative task : Text) (r : Stored)
      → is_key initiative task (if p r then f r else r) ≡ is_key initiative task r
  keeps_all initiative task r = ground (arith, keeps initiative task r)

  pub cell-update :
      (initiative task : Text) (table : Table)
      → cell initiative task (update p f table) ≡ (elim (cell initiative task table) [
        | none ↦ none
        | some r ↦ some (if p r then f r else r)
      ])
  cell-update initiative task table =
      find-map (is_key initiative task) (λ r. if p r then f r else r) (keeps_all initiative task)
        table

  pub update-IsKeyed : (table : Table) → IsKeyed table → IsKeyed (update p f table)
  update-IsKeyed table keyed = λ initiative task.
      AtMostOne-map (is_key initiative task) (λ r. if p r then f r else r)
        (keeps_all initiative task) table (keyed initiative task)

-- `_current` reads the cell of the key.
pub current-cell :
    (initiative task : Text) (table : Table)
    → IsKeyed table
    → current initiative task table ≡ cell initiative task table
unfolding current read_rows
current-cell initiative task table keyed =
    find-sort_by (λ r. r.task_id == task) (λ r. r.initiative) (sort_by (λ r. r.task_id) (own table))
      (AtMostOne-sort_by (λ r. r.task_id == task) (λ r. r.task_id) (own table)
        (one table (keyed initiative task)))
    ∙ find-sort_by (λ r. r.task_id == task) (λ r. r.task_id) (own table)
        (one table (keyed initiative task))
    ∙ found table
  where
    own : Table → Table
    own rows = select (λ r. r.initiative == initiative && true) rows

    any-own :
        (rows : Table) → any (λ r. r.task_id == task) (own rows) ≡ any (is_key initiative task) rows
    any-own [] = refl
    any-own (r ∷ rows) = ground (arith, any-own rows)

    found :
        (rows : Table) → find_first (λ r. r.task_id == task) (own rows) ≡ cell initiative task rows
    found [] = refl
    found (r ∷ rows) = ground (arith, found rows)

    one :
        (rows : Table)
        → AtMostOne (is_key initiative task) rows
        → AtMostOne (λ r. r.task_id == task) (own rows)
    one [] h = tt
    one (r ∷ rows) h =
        keep_or_drop (r.initiative == initiative) (λ e k. any-own rows ∙ h.0 (ground (arith, e, k)))
          (one rows h.1)
      where
        keep_or_drop :
            (b : Bool)
            → (b ≡ true
                → (r.task_id == task) ≡ true
                → any (λ r. r.task_id == task) (own rows) ≡ false)
            → AtMostOne (λ r. r.task_id == task) (own rows)
            → AtMostOne (λ r. r.task_id == task) (if b && true then r ∷ own rows else own rows)
        keep_or_drop true h k = (h refl, k)
        keep_or_drop false h k = k
