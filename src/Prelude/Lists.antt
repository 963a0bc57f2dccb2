-- ===== src/Prelude/Lists.antt =====
-- Lists over the native numbers: lengths, Boolean tests, selections, membership and counts.
use Prim.Native.Nat.{ℕ, zero, suc, ◌+◌, ◌≤◌, ◌<◌}
use mathlib.Core.Path.{◌≡◌, refl, ap}
use mathlib.Core.Logic.{◌↔◌, inl, inr}
use mathlib.Core.Bool.{Bool, true, false, not, ◌&&◌, ◌||◌}
use mathlib.Core.Option.{Option, none, some}
use mathlib.Core.List.{List, [], ◌∷◌, ◌++◌}
use native.Mathlib.Omega.{arith}
use coxswain_graphs.Prelude.Tests.{if◌then◌else◌, Bool-cases}
use coxswain_graphs.Prelude.Equality.{Eq, ◌==◌}

module _ {ℓ} {A : Type ℓ} where
  abbrev pub length : List A → ℕ
  length [] = 0
  length (x ∷ xs) = suc (length xs)

  abbrev pub get_elem? : List A → ℕ → Option A
  get_elem? [] i = none
  get_elem? (x ∷ xs) zero = some x
  get_elem? (x ∷ xs) (suc i) = get_elem? xs i

  abbrev pub get_or : List A → ℕ → A → A
  get_or [] i d = d
  get_or (x ∷ xs) zero d = x
  get_or (x ∷ xs) (suc i) d = get_or xs i d

  abbrev pub take : ℕ → List A → List A
  take zero xs = []
  take (suc n) [] = []
  take (suc n) (x ∷ xs) = x ∷ take n xs

  abbrev pub drop : ℕ → List A → List A
  drop zero xs = xs
  drop (suc n) [] = []
  drop (suc n) (x ∷ xs) = drop n xs

  abbrev pub any : (A → Bool) → List A → Bool
  any p [] = false
  any p (x ∷ xs) = p x || any p xs

  abbrev pub all : (A → Bool) → List A → Bool
  all p [] = true
  all p (x ∷ xs) = p x && all p xs

  -- The comprehension `[x for x in xs if p(x)]`.
  abbrev pub select : (A → Bool) → List A → List A
  select p [] = []
  select p (x ∷ xs) = let rest = select p xs in if p x then x ∷ rest else rest

  abbrev pub is_empty : List A → Bool
  is_empty [] = true
  is_empty (x ∷ xs) = false

  abbrev pub All {κ} : (A → Type κ) → List A → Type κ
  All P [] = Unit
  All P (x ∷ xs) = P x × All P xs

  pub length-append : (xs ys : List A) → length (xs ++ ys) ≡ length xs + length ys
  length-append [] ys = omega arith
  length-append (x ∷ xs) ys = omega (arith, length-append xs ys)

-- `a` stands in the list.
pub data In {ℓ} {A : Type ℓ} (a : A) : List A → Type ℓ where
  here : {x : A} {xs : List A} → a ≡ x → In a (x ∷ xs)
  there : {x : A} {xs : List A} → In a xs → In a (x ∷ xs)

module _ {ℓ} {A : Type ℓ} where
  pub All-In {κ} : (P : A → Type κ) {a : A} (xs : List A) → All P xs → In a xs → P a
  All-In P [] h m = elim m [ ]
  All-In P (x ∷ xs) h (here e) = rw e h.0
  All-In P (x ∷ xs) h (there m) = All-In P xs h.1 m

  pub In-All {κ} : (P : A → Type κ) (xs : List A) → ((a : A) → In a xs → P a) → All P xs
  In-All P [] h = tt
  In-All P (x ∷ xs) h = (h x (here refl), In-All P xs (λ a m. h a (there m)))

  pub All-map_pred {κ μ} :
      (P : A → Type κ) (Q : A → Type μ) (xs : List A) → ((a : A) → P a → Q a) → All P xs → All Q xs
  All-map_pred P Q [] f h = tt
  All-map_pred P Q (x ∷ xs) f h = (f x h.0, All-map_pred P Q xs f h.1)

  pub All-append {κ} : (P : A → Type κ) (as' bs : List A) → All P as' → All P bs → All P (as' ++ bs)
  All-append P [] bs p q = q
  All-append P (a ∷ as') bs (p, ps) q = (p, All-append P as' bs ps q)

  pub all-eq_of_All : (p : A → Bool) (xs : List A) → All (λ x. p x ≡ true) xs → all p xs ≡ true
  all-eq_of_All p [] h = refl
  all-eq_of_All p (x ∷ xs) h = ground (arith, all-eq_of_All p xs h.1)

  pub All-of_all : (p : A → Bool) (xs : List A) → all p xs ≡ true → All (λ x. p x ≡ true) xs
  All-of_all p [] h = tt
  All-of_all p (x ∷ xs) h = (ground arith, All-of_all p xs (ground arith))

  -- What a selection keeps passes the test.
  pub all-select : (p : A → Bool) (xs : List A) → all p (select p xs) ≡ true
  all-select p [] = refl
  all-select p (x ∷ xs) = ground (arith, all-select p xs)

  pub length-select-le : (p : A → Bool) (xs : List A) → length (select p xs) ≤ length xs
  length-select-le p [] = omega arith
  length-select-le p (x ∷ xs) = ground (arith, length-select-le p xs)

  pub select-append :
      (p : A → Bool) (xs ys : List A) → select p (xs ++ ys) ≡ select p xs ++ select p ys
  select-append p [] ys = refl
  select-append p (x ∷ xs) ys = ground (arith, select-append p xs ys)

-- Membership and counting by a Boolean equality.
module _ {ℓ} {A : Type ℓ} ⦃e : Eq A⦄ where
  abbrev pub elem : A → List A → Bool
  elem a [] = false
  elem a (x ∷ xs) = a == x || elem a xs

  abbrev pub count : A → List A → ℕ
  count a [] = 0
  count a (x ∷ xs) = (if a == x then 1 else 0) + count a xs

  -- Every element of the first list is in the second: `set(xs) <= set(ys)`.
  abbrev pub subset : List A → List A → Bool
  subset xs ys = all (λ x. elem x ys) xs

  -- The first occurrence of each element: `dict.fromkeys(xs)`.
  abbrev pub dedup : List A → List A
  dedup [] = []
  dedup (x ∷ xs) = x ∷ select (λ y. not (y == x)) (dedup xs)

  pub elem-append : (a : A) (xs ys : List A) → elem a (xs ++ ys) ≡ (elem a xs || elem a ys)
  elem-append a [] ys = refl
  elem-append a (x ∷ xs) ys = ground (arith, elem-append a xs ys)

  pub elem-select : (a : A) (p : A → Bool) (xs : List A) → elem a (select p xs) ≡ (elem a xs && p a)
  elem-select a p [] = refl
  elem-select a p (x ∷ xs) =
      ground (arith, elem-select a p xs, e.beq_iff a x, λ (q : a ≡ x). ap p q)

  pub count-append : (a : A) (xs ys : List A) → count a (xs ++ ys) ≡ count a xs + count a ys
  count-append a [] ys = omega arith
  count-append a (x ∷ xs) ys = omega (arith, count-append a xs ys)

  pub elem-count : (a : A) (xs : List A) → (elem a xs ≡ true) ↔ (0 < count a xs)
  elem-count a [] = ground arith
  elem-count a (x ∷ xs) = ground (arith, elem-count a xs)

  pub elem-dedup : (a : A) (xs : List A) → elem a (dedup xs) ≡ elem a xs
  elem-dedup a [] = refl
  elem-dedup a (x ∷ xs) =
      ground (arith, elem-dedup a xs, elem-select a (λ y. not (y == x)) (dedup xs), e.beq_iff a x)

  pub All-of_elem {κ} :
      (P : A → Type κ) (xs : List A) → ((a : A) → elem a xs ≡ true → P a) → All P xs
  All-of_elem P [] h = tt
  All-of_elem P (x ∷ xs) h =
      (h x (ground (arith, e.beq_iff x x)), All-of_elem P xs (λ a m. h a (ground arith)))

  pub elem-All {κ} : (P : A → Type κ) (a : A) (xs : List A) → All P xs → elem a xs ≡ true → P a
  elem-All P a [] h m = absurd (ground arith)
  elem-All P a (x ∷ xs) h m = elim (Bool-cases (a == x)) [
    | inl same ↦ rw ((e.beq_iff a x).0 same) h.0
    | inr other ↦ elem-All P a xs h.1 (ground arith)
  ]

-- More laws of selections and subsets.
module _ {ℓ} {A : Type ℓ} ⦃e : Eq A⦄ where
  pub count-select :
      (a : A) (p : A → Bool) (xs : List A) → count a (select p xs) ≡ (if p a then count a xs else 0)
  count-select a p [] = ground arith
  count-select a p (x ∷ xs) =
      ground (arith, count-select a p xs, e.beq_iff a x, λ (q : a ≡ x). ap p q)

  pub subset-append_left : (xs ys zs : List A) → subset xs ys ≡ true → subset xs (ys ++ zs) ≡ true
  subset-append_left [] ys zs h = refl
  subset-append_left (x ∷ xs) ys zs h =
      ground (arith, subset-append_left xs ys zs, elem-append x ys zs)

  -- What is in the smaller list is in the larger.
  pub elem-subset :
      (a : A) (xs ys : List A) → subset xs ys ≡ true → elem a xs ≡ true → elem a ys ≡ true
  elem-subset a [] ys h m = absurd (ground arith)
  elem-subset a (x ∷ xs) ys h m =
      ground (arith, elem-subset a xs ys, e.beq_iff a x, λ (q : a ≡ x). ap (λ z. elem z ys) q)

  -- A list that is no subset has an element outside.
  pub subset-false :
      (xs ys : List A) → subset xs ys ≡ false → (a : A) × (elem a xs ≡ true) × (elem a ys ≡ false)
  subset-false [] ys h = absurd (ground arith)
  subset-false (x ∷ xs) ys h = elim (Bool-cases (elem x ys)) [
    | inl m ↦ let (a, i, o) = subset-false xs ys (ground arith) in (a, ground arith, o)
    | inr m ↦ (x, ground (arith, e.beq_iff x x), m)
  ]

module _ {ℓ} {A : Type ℓ} ⦃e : Eq A⦄ where
  -- Deduplication leaves each element once.
  pub count-dedup : (a : A) (xs : List A) → count a (dedup xs) ≤ 1
  count-dedup a [] = omega arith
  count-dedup a (x ∷ xs) =
      ground (arith, count-dedup a xs, count-select a (λ y. not (y == x)) (dedup xs))

  pub any-append : (p : A → Bool) (xs ys : List A) → any p (xs ++ ys) ≡ (any p xs || any p ys)
  any-append p [] ys = refl
  any-append p (x ∷ xs) ys = ground (arith, any-append p xs ys)
