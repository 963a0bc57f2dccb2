-- ===== src/Phases/Rounds.antt =====
-- One round of the loop of `phase_order`: what it moves, and that it moves something.
use mathlib.Core.List.{append-nil, append_assoc}
use mathlib.Core.Path.{subst}
use coxswain_graphs.Prelude.{
  text_eq, ◌+◌, ◌≤◌, ◌<◌, ◌≡◌, refl, sym, ap, ◌∙◌, Bool, true, false, not, ◌&&◌, none, some, List,
  [], ◌∷◌, ◌++◌, if◌then◌else◌, nat_eq, list_eq, Text, lookup, keys, elem, count, select, subset,
  text_ord, length, is_empty, All, arith, count-select, count-sort, elem-sort, elem-select,
  subset-append_left, elem-count, Bool-cases, inl, inr, All-of_elem,
}
use coxswain_graphs.Phases.{Parents, is_free, free, without}

-- The parents of a phase, none for one that is no key.
abbrev pub deps_of : Parents → Text → List Text
deps_of parents p = elim (lookup p parents) [ none ↦ [] | some deps ↦ deps ]

-- Every parent of each phase of `rest` stands before it, in `before` or in `rest`.
abbrev pub IsPlaced : Parents → List Text → List Text → Type 0
IsPlaced parents before [] = Unit
IsPlaced parents before (p ∷ rest) =
    (subset (deps_of parents p) before ≡ true) × IsPlaced parents (before ++ p ∷ []) rest

-- The entries are entries of `parents`.
abbrev pub IsPart : Parents → Parents → Type 0
IsPart parents remaining = All (λ e. deps_of parents e.0 ≡ e.1) remaining

abbrev pub is_ready : Parents → List Text → Text → Bool
is_ready parents ordered p = subset (deps_of parents p) ordered

head_of : (xs : List Text) → is_empty xs ≡ false → (p : Text) × (elem p xs ≡ true)
head_of [] h = absurd (ground arith)
head_of (x ∷ xs) h = (x, ground (arith, text_eq.beq_iff x x))

module _ (parents : Parents) where
  keys-is_free :
      (ordered : List Text) (remaining : Parents)
      → IsPart parents remaining
      → keys (select (is_free ordered) remaining)
        ≡ select (is_ready parents ordered) (keys remaining)
  keys-is_free ordered [] h = refl
  keys-is_free ordered ((p, deps) ∷ d) h = rw h.0 (ground (arith, keys-is_free ordered d h.1))

  pub keys-without :
      (gone : List Text) (d : Parents)
      → keys (without gone d) ≡ select (λ p. not (elem p gone)) (keys d)
  keys-without gone [] = refl
  keys-without gone ((p, deps) ∷ d) = ground (arith, keys-without gone d)

  pub without-IsPart :
      (gone : List Text) (d : Parents) → IsPart parents d → IsPart parents (without gone d)
  without-IsPart gone [] h = tt
  without-IsPart gone ((p, deps) ∷ d) h = elim (Bool-cases (elem p gone)) [
    | inl m ↦ rw m (without-IsPart gone d h.1)
    | inr m ↦ rw m (h.0, without-IsPart gone d h.1)
  ]

  pub elem-free :
      (ordered : List Text) (d : Parents) (p : Text)
      → IsPart parents d
      → elem p (free ordered d) ≡ (elem p (keys d) && is_ready parents ordered p)
  elem-free ordered d p h =
      elem-sort p (keys (select (is_free ordered) d))
      ∙ ap (elem p) (keys-is_free ordered d h)
      ∙ elem-select p (is_ready parents ordered) (keys d)

  -- A round moves phases from the remaining ones to the ordered ones.
  pub round-count :
      (ordered : List Text) (d : Parents) (p : Text)
      → IsPart parents d
      → count p (free ordered d) + count p (keys (without (free ordered d) d)) ≡ count p (keys d)
  round-count ordered d p h =
      let ready = keys-is_free ordered d h in
      let next = keys (select (is_free ordered) d) in
      let moved : count p (free ordered d)
          ≡ (if is_ready parents ordered p then count p (keys d) else 0) =
        count-sort p next
        ∙ ap (count p) ready
        ∙ count-select p (is_ready parents ordered) (keys d) in
      let member : elem p (free ordered d) ≡ (elem p (keys d) && is_ready parents ordered p) =
        elem-sort p next ∙ ap (elem p) ready ∙ elem-select p (is_ready parents ordered) (keys d) in
      let kept : count p (keys (without (free ordered d) d))
          ≡ (if not (elem p (free ordered d)) then count p (keys d) else 0) =
        ap (count p) (keys-without (free ordered d) d)
        ∙ count-select p (λ q. not (elem q (free ordered d))) (keys d) in
      ground (arith, moved, elem-free ordered d p h, kept, elem-count p (keys d))

  All-is_ready_mono :
      (before more batch : List Text)
      → All (λ p. is_ready parents before p ≡ true) batch
      → All (λ p. is_ready parents (before ++ more) p ≡ true) batch
  All-is_ready_mono before more [] h = tt
  All-is_ready_mono before more (p ∷ batch) h = (
    subset-append_left (deps_of parents p) before more h.0,
    All-is_ready_mono before more batch h.1,
  )

  pub IsPlaced-batch :
      (before batch : List Text)
      → All (λ p. is_ready parents before p ≡ true) batch
      → IsPlaced parents before batch
  IsPlaced-batch before [] h = tt
  IsPlaced-batch before (p ∷ batch) h =
      (h.0, IsPlaced-batch (before ++ p ∷ []) batch (All-is_ready_mono before (p ∷ []) batch h.1))

  pub IsPlaced-append :
      (before xs ys : List Text)
      → IsPlaced parents before xs
      → IsPlaced parents (before ++ xs) ys
      → IsPlaced parents before (xs ++ ys)
  IsPlaced-append before [] ys hx hy = subst (λ b. IsPlaced parents b ys) (append-nil before) hy
  IsPlaced-append before (x ∷ xs) ys hx hy = (
    hx.0,
    IsPlaced-append (before ++ x ∷ []) xs ys hx.1
        (subst (λ b. IsPlaced parents b ys) (sym (append_assoc before (x ∷ []) xs)) hy),
  )

  pub free-is_ready :
      (ordered : List Text) (d : Parents)
      → IsPart parents d
      → All (λ p. is_ready parents ordered p ≡ true) (free ordered d)
  free-is_ready ordered d h =
      All-of_elem (λ p. is_ready parents ordered p ≡ true) (free ordered d)
        λ p m. ground (arith, elem-free ordered d p h, m)

  length-without-le : (gone : List Text) (d : Parents) → length (without gone d) ≤ length d
  length-without-le gone [] = omega arith
  length-without-le gone ((p, deps) ∷ d) = ground (arith, length-without-le gone d)

  length-without-lt :
      (gone : List Text) (d : Parents) (p : Text)
      → elem p gone ≡ true
      → elem p (keys d) ≡ true
      → length (without gone d) < length d
  length-without-lt gone [] p g m = absurd (ground arith)
  length-without-lt gone ((q, deps) ∷ d) p g m = ground (
    arith,
    length-without-le gone d,
    length-without-lt gone d p,
    text_eq.beq_iff p q,
    λ (e : p ≡ q). ap (λ z. elem z gone) e,
  )

  pub round-length :
      (ordered : List Text) (d : Parents)
      → IsPart parents d
      → is_empty (free ordered d) ≡ false
      → length (without (free ordered d) d) < length d
  round-length ordered d h some_free =
      let (p, m) = head_of (free ordered d) some_free in
      length-without-lt (free ordered d) d p m (ground (arith, elem-free ordered d p h, m))
