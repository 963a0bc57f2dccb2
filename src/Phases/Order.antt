-- ===== src/Phases/Order.antt =====
-- `phase_order` is a topological order of what can be ordered, and names exactly the rest.
use coxswain_graphs.Prelude.{
  text_eq, ℕ, zero, suc, ◌+◌, ◌≤◌, ◌<◌, ◌≡◌, refl, sym, ◌∙◌, true, false, ◌&&◌, ◌||◌, List, [], ◌∷◌,
  ◌++◌, nat_eq, list_eq, Text, keys, elem, count, text_ord, length, is_empty, arith, count-sort,
  count-append, elem-sort, subset-false, elem-count, Bool-cases, inl, inr,
}
use coxswain_graphs.Phases.{Parents, free, without, order_rounds, phase_order}
use coxswain_graphs.Phases.Rounds.{
  deps_of, IsPlaced, IsPart, is_ready, without-IsPart, elem-free, round-count, IsPlaced-batch,
  IsPlaced-append, free-is_ready, round-length,
}

elem-is_empty : (p : Text) (xs : List Text) → is_empty xs ≡ true → elem p xs ≡ false
elem-is_empty p [] h = refl
elem-is_empty p (x ∷ xs) h = absurd (ground arith)

-- `parents` is a dict: it has one entry a key.
abbrev pub IsDict : Parents → Type 0
IsDict parents = (p : Text) → count p (keys parents) ≤ 1

IsPart-cons :
    (p : Text) (deps : List Text) (d rest : Parents)
    → count p (keys rest) ≡ 0
    → IsPart d rest
    → IsPart ((p, deps) ∷ d) rest
IsPart-cons p deps d [] z h = tt
IsPart-cons p deps d ((q, other) ∷ rest) z h =
    (ground (arith, h.0, text_eq.beq_iff p q), IsPart-cons p deps d rest (ground arith) h.1)

IsPart-self : (d : Parents) → IsDict d → IsPart d d
IsPart-self [] u = tt
IsPart-self ((p, deps) ∷ d) u = (
  ground (arith, text_eq.beq_iff p p),
  IsPart-cons p deps d d (ground (arith, u p, text_eq.beq_iff p p))
      (IsPart-self d (λ q. omega (arith, u q))),
)

module _ (parents : Parents) where
  -- The rule of the loop, for a property of its result that a round hands back.
  order_rounds_ind :
      (P : List Text → Parents → List Text × Parents → Type 0)
      → ((ordered : List Text) (d : Parents)
          → IsPart parents d
          → (is_empty d || is_empty (free ordered d)) ≡ true
          → P ordered d (ordered, d))
      → ((ordered : List Text) (d : Parents) (r : List Text × Parents)
          → IsPart parents d
          → P (ordered ++ free ordered d) (without (free ordered d) d) r
          → P ordered d r)
      → (fuel : ℕ) (ordered : List Text) (d : Parents) → length d ≤ fuel
      → IsPart parents d
      → P ordered d (order_rounds fuel ordered d)
  unfolding order_rounds
  order_rounds_ind P stop round zero ordered d f h = stop ordered d h (ground arith)
  order_rounds_ind P stop round (suc fuel) ordered d f h =
      elim (Bool-cases (is_empty d || is_empty (free ordered d))) [
        | inl over ↦ rw (over, order_rounds) (stop ordered d h over)
        | inr more ↦
            rw (more, order_rounds)
              (round ordered d _ h (
                order_rounds_ind P stop round fuel (ordered ++ free ordered d)
                  (without (free ordered d) d) (ground (arith, round-length parents ordered d h))
                  (without-IsPart parents (free ordered d) d h)))
      ]

  rounds-count :
      (p : Text) (fuel : ℕ) (ordered : List Text) (d : Parents)
      → length d ≤ fuel
      → IsPart parents d
      → count p (order_rounds fuel ordered d).0 + count p (keys (order_rounds fuel ordered d).1)
        ≡ count p ordered + count p (keys d)
  rounds-count p =
      order_rounds_ind
        (λ ordered d r. count p r.0 + count p (keys r.1) ≡ count p ordered + count p (keys d))
        (λ ordered d h e. refl)
        λ ordered d r h ih.
          omega
            (arith, ih, round-count parents ordered d p h, count-append p ordered (free ordered d))

  rounds-IsPlaced :
      (fuel : ℕ) (ordered : List Text) (d : Parents)
      → length d ≤ fuel
      → IsPart parents d
      → IsPlaced parents [] ordered
      → IsPlaced parents [] (order_rounds fuel ordered d).0
  rounds-IsPlaced =
      order_rounds_ind (λ ordered d r. IsPlaced parents [] ordered → IsPlaced parents [] r.0)
        (λ ordered d h e placed. placed)
        λ ordered d r h ih placed. ih (
          IsPlaced-append parents [] ordered (free ordered d) placed
            (IsPlaced-batch parents ordered (free ordered d) (free-is_ready parents ordered d h)))

  stops :
      (ordered : List Text) (p : Text) (d : Parents)
      → IsPart parents d
      → (is_empty d || is_empty (free ordered d)) ≡ true
      → (elem p (keys d) && is_ready parents ordered p) ≡ false
  stops ordered p [] h e = refl
  stops ordered p (q ∷ d) h e =
      sym (elem-free parents ordered (q ∷ d) p h) ∙ elem-is_empty p (free ordered (q ∷ d)) e

  rounds-left :
      (p : Text) (fuel : ℕ) (ordered : List Text) (d : Parents)
      → length d ≤ fuel
      → IsPart parents d
      → (elem p (keys (order_rounds fuel ordered d).1)
          && is_ready parents (order_rounds fuel ordered d).0 p)
        ≡ false
  rounds-left p =
      order_rounds_ind (λ ordered d r. (elem p (keys r.1) && is_ready parents r.0 p) ≡ false)
        (λ ordered d h e. stops ordered p d h e) (λ ordered d r h ih. ih)

-- Every phase is put out once, either in the order or among the unorderable.
pub phase_order-count :
    (parents : Parents) (p : Text)
    → IsDict parents
    → count p (phase_order parents).0 + count p (phase_order parents).1 ≡ count p (keys parents)
unfolding phase_order
phase_order-count parents p u =
    let left = (order_rounds (length parents) [] parents).1 in
    omega (
      arith,
      count-sort p (keys left),
      rounds-count parents p (length parents) [] parents (omega arith) (IsPart-self parents u),
    )

-- In the order, every phase stands behind all of its parents.
pub phase_order-IsPlaced :
    (parents : Parents) → IsDict parents → IsPlaced parents [] (phase_order parents).0
unfolding phase_order
phase_order-IsPlaced parents u =
    rounds-IsPlaced parents (length parents) [] parents (omega arith) (IsPart-self parents u) tt

-- A phase is left over only with a parent that could not be ordered either.
pub phase_order-left :
    (parents : Parents) (p : Text)
    → IsDict parents
    → elem p (phase_order parents).1 ≡ true
    → (a : Text) × (elem a (deps_of parents p) ≡ true) × (elem a (phase_order parents).0 ≡ false)
unfolding phase_order
phase_order-left parents p u m =
    let left = (order_rounds (length parents) [] parents).1 in
    let ordered = (order_rounds (length parents) [] parents).0 in
    let stuck =
      rounds-left parents p (length parents) [] parents (omega arith) (IsPart-self parents u) in
    subset-false (deps_of parents p) ordered (ground (arith, stuck, m, elem-sort p (keys left)))

-- Where some rank falls along every edge, so that no phase is on a cycle, and the parents are phases,
-- nothing is left over: every phase is in the order exactly once.
pub phase_order-total :
    (parents : Parents) (rank : Text → ℕ)
    → IsDict parents
    → ((p a : Text)
        → elem a (deps_of parents p) ≡ true
        → (rank a < rank p) × (elem a (keys parents) ≡ true))
    → (p : Text)
    → (elem p (phase_order parents).1 ≡ false)
      × (count p (phase_order parents).0 ≡ count p (keys parents))
phase_order-total parents rank u ranked p =
    let none_left = descent (suc (rank p)) p (omega arith) in
    (
      none_left,
      ground
          (arith, none_left, phase_order-count parents p u, elem-count p (phase_order parents).1),
    )
  where
    left_again :
        (q : Text)
        → elem q (phase_order parents).1 ≡ true
        → (a : Text) × (rank a < rank q) × (elem a (phase_order parents).1 ≡ true)
    left_again q m =
        let (a, dep, out) = phase_order-left parents q u m in
        let (falls, key) = ranked q a dep in
        (
          a,
          falls,
          ground (
            arith,
            phase_order-count parents a u,
            elem-count a (phase_order parents).1,
            elem-count a (phase_order parents).0,
            elem-count a (keys parents),
            key,
            out,
          ),
        )

    descent : (n : ℕ) (q : Text) → rank q < n → elem q (phase_order parents).1 ≡ false
    descent zero q h = absurd (omega arith)
    descent (suc n) q h = elim (Bool-cases (elem q (phase_order parents).1)) [
      | inl m ↦
          let (a, falls, again) = left_again q m in
          absurd (ground (arith, again, descent n a (omega (arith, falls))))
      | inr out ↦ out
    ]
