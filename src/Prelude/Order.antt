-- ===== src/Prelude/Order.antt =====
-- Total orders as an interface, the lexicographic order of texts, and Python's `sorted`.
use Prim.Native.Nat.{ℕ, ◌<◌}
use mathlib.Core.Path.{◌≡◌, refl, sym, ◌∙◌}
use mathlib.Core.Logic.{◌⊎◌, inl, inr}
use mathlib.Core.Bool.{Bool, true, false, ◌&&◌, ◌||◌}
use mathlib.Core.List.{List, [], ◌∷◌}
use native.Mathlib.Omega.{arith}
use coxswain_graphs.Prelude.Tests.{Bool-cases, ltb, leb, nat_beq, if◌then◌else◌}
use coxswain_graphs.Prelude.Equality.{Eq, ◌==◌}
use coxswain_graphs.Prelude.Lists.{All, elem, count, elem-All, elem-count}

pub record Ord {ℓ} (A : Type ℓ) : Type ℓ where
  pub at_most : A → A → Bool
  pub total : (a b : A) → at_most a b ≡ false → at_most b a ≡ true
  pub trans : (a b c : A) → at_most a b ≡ true → at_most b c ≡ true → at_most a c ≡ true
  pub antisym : (a b : A) → at_most a b ≡ true → at_most b a ≡ true → a ≡ b

pub leb_total : (a b : ℕ) → leb a b ≡ false → leb b a ≡ true
leb_total a b h = ground arith

pub leb_trans : (a b c : ℕ) → leb a b ≡ true → leb b c ≡ true → leb a c ≡ true
leb_trans a b c h k = ground arith

pub leb_antisym : (a b : ℕ) → leb a b ≡ true → leb b a ≡ true → a ≡ b
leb_antisym a b h k = ground arith

instance abbrev pub nat_ord : Ord ℕ
nat_ord = record { at_most = leb; total = leb_total; trans = leb_trans; antisym = leb_antisym }

-- `a <= b` on texts: code point by code point, a prefix first.
abbrev pub text_leb : List ℕ → List ℕ → Bool
text_leb [] ys = true
text_leb (x ∷ xs) [] = false
text_leb (x ∷ xs) (y ∷ ys) = ltb x y || (nat_beq x y && text_leb xs ys)

pub text_leb_total : (a b : List ℕ) → text_leb a b ≡ false → text_leb b a ≡ true
text_leb_total [] ys h = ground arith
text_leb_total (x ∷ xs) [] h = refl
text_leb_total (x ∷ xs) (y ∷ ys) h = ground (arith, text_leb_total xs ys)

pub text_leb_trans :
    (a b c : List ℕ) → text_leb a b ≡ true → text_leb b c ≡ true → text_leb a c ≡ true
text_leb_trans [] b c h k = refl
text_leb_trans (x ∷ xs) [] c h k = ground arith
text_leb_trans (x ∷ xs) (y ∷ ys) [] h k = ground arith
text_leb_trans (x ∷ xs) (y ∷ ys) (z ∷ zs) h k = ground (arith, text_leb_trans xs ys zs)

pub text_leb_antisym : (a b : List ℕ) → text_leb a b ≡ true → text_leb b a ≡ true → a ≡ b
text_leb_antisym [] [] h k = refl
text_leb_antisym [] (y ∷ ys) h k = ground arith
text_leb_antisym (x ∷ xs) [] h k = ground arith
text_leb_antisym (x ∷ xs) (y ∷ ys) h k = ground (arith, text_leb_antisym xs ys)

instance abbrev pub text_ord : Ord (List ℕ)
text_ord = record {
  at_most = text_leb;
  total = text_leb_total;
  trans = text_leb_trans;
  antisym = text_leb_antisym;
}

-- `sorted(xs, key=f)` keeps equal keys in order.
module _ {ℓ κ} {A : Type ℓ} {K : Type κ} ⦃o : Ord K⦄ (key : A → K) where
  abbrev pub insert_by : A → List A → List A
  insert_by a [] = a ∷ []
  insert_by a (x ∷ xs) = if o.at_most (key a) (key x) then a ∷ x ∷ xs else x ∷ insert_by a xs

  abbrev pub sort_by : List A → List A
  sort_by [] = []
  sort_by (x ∷ xs) = insert_by x (sort_by xs)

module _ {ℓ} {A : Type ℓ} ⦃o : Ord A⦄ where
  abbrev pub insert_sorted : A → List A → List A
  insert_sorted a xs = insert_by (λ x. x) a xs

  abbrev pub sort : List A → List A
  sort xs = sort_by (λ x. x) xs

  abbrev pub IsSorted : List A → Type 0
  IsSorted [] = Unit
  IsSorted (x ∷ xs) = All (λ y. o.at_most x y ≡ true) xs × IsSorted xs

  All-at_most :
      (a b : A) (xs : List A)
      → o.at_most a b ≡ true
      → All (λ y. o.at_most b y ≡ true) xs
      → All (λ y. o.at_most a y ≡ true) xs
  All-at_most a b [] h k = tt
  All-at_most a b (x ∷ xs) h k = (o.trans a b x h k.0, All-at_most a b xs h k.1)

  All-insert_sorted :
      (b a : A) (xs : List A)
      → o.at_most b a ≡ true
      → All (λ y. o.at_most b y ≡ true) xs
      → All (λ y. o.at_most b y ≡ true) (insert_sorted a xs)
  All-insert_sorted b a [] h k = (h, tt)
  All-insert_sorted b a (x ∷ xs) h k = split (o.at_most a x) (All-insert_sorted b a xs h k.1)
    where
      split :
          (t : Bool)
          → All (λ y. o.at_most b y ≡ true) (insert_sorted a xs)
          → All (λ y. o.at_most b y ≡ true) (if t then a ∷ x ∷ xs else x ∷ insert_sorted a xs)
      split true ih = (h, k)
      split false ih = (k.0, ih)

  insert_sorted-IsSorted : (a : A) (xs : List A) → IsSorted xs → IsSorted (insert_sorted a xs)
  insert_sorted-IsSorted a [] s = (tt, tt)
  insert_sorted-IsSorted a (x ∷ xs) s = split (o.at_most a x) refl (insert_sorted-IsSorted a xs s.1)
    where
      split :
          (t : Bool)
          → o.at_most a x ≡ t
          → IsSorted (insert_sorted a xs)
          → IsSorted (if t then a ∷ x ∷ xs else x ∷ insert_sorted a xs)
      split true h ih = ((h, All-at_most a x xs h s.0), s)
      split false h ih = (All-insert_sorted x a xs (o.total a x h) s.0, ih)

  pub sort-IsSorted : (xs : List A) → IsSorted (sort xs)
  sort-IsSorted [] = tt
  sort-IsSorted (x ∷ xs) = insert_sorted-IsSorted x (sort xs) (sort-IsSorted xs)

module _ {ℓ} {A : Type ℓ} ⦃e : Eq A⦄ ⦃o : Ord A⦄ where
  count-insert_sorted : (b a : A) (xs : List A) → count b (insert_sorted a xs) ≡ count b (a ∷ xs)
  count-insert_sorted b a [] = refl
  count-insert_sorted b a (x ∷ xs) = ground (arith, count-insert_sorted b a xs)

  -- Sorting permutes the list.
  pub count-sort : (b : A) (xs : List A) → count b (sort xs) ≡ count b xs
  count-sort b [] = refl
  count-sort b (x ∷ xs) = omega (arith, count-sort b xs, count-insert_sorted b x (sort xs))

  elem-insert_sorted : (b a : A) (xs : List A) → elem b (insert_sorted a xs) ≡ (b == a || elem b xs)
  elem-insert_sorted b a [] = refl
  elem-insert_sorted b a (x ∷ xs) = ground (arith, elem-insert_sorted b a xs)

  pub elem-sort : (b : A) (xs : List A) → elem b (sort xs) ≡ elem b xs
  elem-sort b [] = refl
  elem-sort b (x ∷ xs) = ground (arith, elem-sort b xs, elem-insert_sorted b x (sort xs))

  list_cons : {x y : A} {xs ys : List A} → x ≡ y → xs ≡ ys → x ∷ xs ≡ y ∷ ys
  list_cons p q = rw (p, q) refl

  tails :
      (a x y : A) (xs ys : List A)
      → x ≡ y
      → count a (x ∷ xs) ≡ count a (y ∷ ys)
      → count a xs ≡ count a ys
  tails a x y xs ys same h = ground (arith, e.beq_iff a x, e.beq_iff a y)

  -- The least elements of two sorted lists with the same elements.
  at_head :
      (x y : A) (ys : List A)
      → All (λ z. o.at_most y z ≡ true) ys
      → 0 < count x (y ∷ ys)
      → (x ≡ y) ⊎ (o.at_most y x ≡ true)
  at_head x y ys t h = elim (Bool-cases (x == y)) [
    | inl same ↦ inl ((e.beq_iff x y).0 same)
    | inr other ↦
        inr (elem-All (λ z. o.at_most y z ≡ true) x ys t ((elem-count x ys).1 (ground arith)))
  ]

  heads :
      (x y : A) (xs ys : List A)
      → IsSorted (x ∷ xs)
      → IsSorted (y ∷ ys)
      → ((a : A) → count a (x ∷ xs) ≡ count a (y ∷ ys))
      → x ≡ y
  heads x y xs ys s t h = elim (at_head x y ys t.0 (ground (arith, h x, e.beq_iff x x))) [
    | inl same ↦ same
    | inr below ↦ elim (at_head y x xs s.0 (ground (arith, h y, e.beq_iff y y))) [
      | inl same ↦ sym same
      | inr above ↦ o.antisym x y above below
    ]
  ]

  -- Two sorted lists with the same counts are the same list.
  pub sort_unique :
      (xs ys : List A) → IsSorted xs → IsSorted ys → ((a : A) → count a xs ≡ count a ys) → xs ≡ ys
  sort_unique [] [] s t h = refl
  sort_unique [] (y ∷ ys) s t h = absurd (ground (arith, h y, e.beq_iff y y))
  sort_unique (x ∷ xs) [] s t h = absurd (ground (arith, h x, e.beq_iff x x))
  sort_unique (x ∷ xs) (y ∷ ys) s t h =
      let same = heads x y xs ys s t h in
      list_cons same (sort_unique xs ys s.1 t.1 (λ a. tails a x y xs ys same (h a)))

  pub sort-count : (xs ys : List A) → ((a : A) → count a xs ≡ count a ys) → sort xs ≡ sort ys
  sort-count xs ys h =
      sort_unique (sort xs) (sort ys) (sort-IsSorted xs) (sort-IsSorted ys)
        (λ a. count-sort a xs ∙ h a ∙ sym (count-sort a ys))
