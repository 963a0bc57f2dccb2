-- ===== src/Invoke/Collected.antt =====
-- What the loop has collected when no child stopped it.
use coxswain_graphs.Prelude.{
  ◌≤◌, ◌≡◌, refl, ap, Bool, true, false, ◌&&◌, ◌||◌, Option, none, some, List, [], ◌∷◌, ◌++◌, all,
  elem, count, if◌then◌else◌, ◌==◌, text_eq, list_eq, nat_eq, Text, Dict, lookup, insert, keys,
  lookup-insert, elem-keys-insert, count-keys-insert, count-append, ◌∙◌, insert_sorted, text_ord,
  Result, ok, err, arith, elem-count, sort,
}
use coxswain_graphs.Invoke.{
  Returned, Child, returns, refused, limit_stop, crashes, InvokeError, collect, failure_line,
  stopped_at_limit, crashed,
}

abbrev pub answer : Child → Option Returned
answer (returns r) = some r
answer (refused message) = none
answer (limit_stop message) = none
answer (crashes message) = none

-- The child does not end the whole call.
abbrev pub carries_on : Child → Bool
carries_on (returns r) = true
carries_on (refused message) = true
carries_on (limit_stop message) = false
carries_on (crashes message) = false

abbrev pub is_some {ℓ} : {A : Type ℓ} → Option A → Bool
is_some none = false
is_some (some a) = true

module _ (outcome : Text → Child) where
  abbrev store : Text → Child → Dict Text Returned → Dict Text Returned
  store k (returns r) results = insert k r results
  store k (refused message) results = results
  store k (limit_stop message) results = results
  store k (crashes message) results = results

  abbrev note : Text → Child → List Text
  note k (returns r) = []
  note k (refused message) = failure_line k message ∷ []
  note k (limit_stop message) = []
  note k (crashes message) = []

  abbrev pub kept : List Text → Dict Text Returned → Dict Text Returned
  kept [] results = results
  kept (k ∷ ks) results = kept ks (store k (outcome k) results)

  abbrev pub noted : List Text → List Text
  noted [] = []
  noted (k ∷ ks) = note k (outcome k) ++ noted ks

  snoc : (fs gs : List Text) (line : Text) → (fs ++ (line ∷ [])) ++ gs ≡ fs ++ (line ∷ gs)
  snoc [] gs line = refl
  snoc (f ∷ fs) gs line = ap (λ xs. f ∷ xs) (snoc fs gs line)

  append_nil : (fs : List Text) → fs ≡ fs ++ []
  append_nil [] = refl
  append_nil (f ∷ fs) = ap (λ xs. f ∷ xs) (append_nil fs)

  step :
      (k : Text) (ks : List Text) (c : Child) (results : Dict Text Returned) (failures : List Text)
      → ((m : Dict Text Returned) (fs : List Text)
          → collect outcome ks m fs ≡ ok (kept ks m, fs ++ noted ks))
      → carries_on c ≡ true
      → elim c as (λ x. Result InvokeError (Dict Text Returned × List Text)) [
        | returns r ↦ collect outcome ks (insert k r results) failures
        | refused message ↦ collect outcome ks results (failures ++ (failure_line k message ∷ []))
        | limit_stop message ↦ err (stopped_at_limit message)
        | crashes message ↦ err (crashed message)
      ]
        ≡ ok (kept ks (store k c results), failures ++ (note k c ++ noted ks))
  step k ks (returns r) results failures ih h = ih (insert k r results) failures
  step k ks (refused message) results failures ih h =
      ih results (failures ++ (failure_line k message ∷ []))
      ∙ ap (λ fs. ok (kept ks results, fs)) (snoc failures (noted ks) (failure_line k message))
  step k ks (limit_stop message) results failures ih h = absurd (ground arith)
  step k ks (crashes message) results failures ih h = absurd (ground arith)

  pub collect-kept :
      (ks : List Text) (results : Dict Text Returned) (failures : List Text)
      → all (λ k. carries_on (outcome k)) ks ≡ true
      → collect outcome ks results failures ≡ ok (kept ks results, failures ++ noted ks)
  unfolding collect
  collect-kept [] results failures h = ap (λ fs. ok (results, fs)) (append_nil failures)
  collect-kept (k ∷ ks) results failures h =
      step k ks (outcome k) results failures (λ m fs. collect-kept ks m fs (ground arith))
        (ground arith)

  elem-store :
      (j k : Text) (c : Child) (m : Dict Text Returned)
      → elem j (keys (store k c m)) ≡ ((j == k && is_some (answer c)) || elem j (keys m))
  elem-store j k (returns r) m = ground (arith, elem-keys-insert k j r m)
  elem-store j k (refused message) m = ground arith
  elem-store j k (limit_stop message) m = ground arith
  elem-store j k (crashes message) m = ground arith

  count-store :
      (j k : Text) (c : Child) (m : Dict Text Returned)
      → count j (keys m) ≤ 1
      → count j (keys (store k c m)) ≤ 1
  count-store j k (returns r) m h = ground (arith, count-keys-insert k j r m, elem-count j (keys m))
  count-store j k (refused message) m h = h
  count-store j k (limit_stop message) m h = h
  count-store j k (crashes message) m h = h

  lookup-store :
      (j k : Text) (c : Child) (m : Dict Text Returned)
      → lookup j (store k c m) ≡ (if k == j && is_some (answer c) then answer c else lookup j m)
  lookup-store j k (returns r) m = ground (arith, lookup-insert k j r m)
  lookup-store j k (refused message) m = ground arith
  lookup-store j k (limit_stop message) m = ground arith
  lookup-store j k (crashes message) m = ground arith

  same_answer : {j k : Text} → j ≡ k → answer (outcome j) ≡ answer (outcome k)
  same_answer h = ap (λ k. answer (outcome k)) h

  pub elem-kept :
      (j : Text) (ks : List Text) (m : Dict Text Returned)
      → elem j (keys (kept ks m)) ≡ ((elem j ks && is_some (answer (outcome j))) || elem j (keys m))
  elem-kept j [] m = ground arith
  elem-kept j (k ∷ ks) m = ground (
    arith,
    elem-kept j ks (store k (outcome k) m),
    elem-store j k (outcome k) m,
    text_eq.beq_iff j k,
    λ (h : j ≡ k). ap is_some (same_answer h),
  )

  pub count-kept :
      (j : Text) (ks : List Text) (m : Dict Text Returned)
      → count j (keys m) ≤ 1
      → count j (keys (kept ks m)) ≤ 1
  count-kept j [] m h = h
  count-kept j (k ∷ ks) m h =
      count-kept j ks (store k (outcome k) m) (count-store j k (outcome k) m h)

  pub lookup-kept :
      (j : Text) (ks : List Text) (m : Dict Text Returned)
      → lookup j (kept ks m)
        ≡ (if elem j ks && is_some (answer (outcome j)) then answer (outcome j) else lookup j m)
  lookup-kept j [] m = refl
  lookup-kept j (k ∷ ks) m = ground (
    arith,
    lookup-kept j ks (store k (outcome k) m),
    lookup-store j k (outcome k) m,
    text_eq.beq_iff j k,
    text_eq.beq_iff k j,
    λ (h : j ≡ k). same_answer h,
    λ (h : j ≡ k). ap is_some (same_answer h),
  )

  -- The failures of an order of completion are those of its sorted order, counted.
  count-insert_noted :
      (f k : Text) (ks : List Text)
      → count f (noted (insert_sorted k ks)) ≡ count f (noted (k ∷ ks))
  count-insert_noted f k [] = refl
  count-insert_noted f k (j ∷ ks) = ground (
    arith,
    count-insert_noted f k ks,
    count-append f (note k (outcome k)) (note j (outcome j) ++ noted ks),
    count-append f (note j (outcome j)) (noted ks),
    count-append f (note k (outcome k)) (noted ks),
    count-append f (note j (outcome j)) (noted (insert_sorted k ks)),
  )

  pub count-sort-noted :
      (f : Text) (ks : List Text) → count f (noted (sort ks)) ≡ count f (noted ks)
  count-sort-noted f [] = refl
  count-sort-noted f (k ∷ ks) = ground (
    arith,
    count-insert_noted f k (sort ks),
    count-sort-noted f ks,
    count-append f (note k (outcome k)) (noted (sort ks)),
    count-append f (note k (outcome k)) (noted ks),
  )
