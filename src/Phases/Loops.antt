-- ===== src/Phases/Loops.antt =====
-- The loops of `phase_parents`: what each adds to the dictionary, and that they keep its keys.
use coxswain_graphs.Prelude.{
  ◌≡◌, refl, ap, ◌∙◌, Bool, false, not, ◌&&◌, ◌||◌, Option, none, some, List, [], ◌∷◌,
  if◌then◌else◌, ◌==◌, nat_eq, list_eq, string_eq, option_eq, Text, text_eq, Dict, lookup, insert,
  keys, elem, is_empty, any, arith, elem-append, Bool-cases, Option-cases, inl, inr, lookup-insert,
}
use coxswain_graphs.Phases.{
  Item, Parents, index, add, add_parent, phase_of, state_of, stacks_on, add_needs, add_items,
}
use coxswain_graphs.Phases.Rounds.{deps_of}

-- The item that an id names: the last of that id.
abbrev pub named : Text → List Item → Option Item
named n [] = none
named n (i ∷ items) = elim (named n items) [
  | some j ↦ some j
  | none ↦ if i.ident == n then some i else none
]

-- The need `n` names a task of phase `there` that is not done.
abbrev pub waits_on : List Item → Text → Text → Bool
waits_on items there n = elim (named n items) [
  | none ↦ false
  | some j ↦ j.phase == there && not (j.state == "done")
]

-- Some task of the phase `here` needs an unfinished task of another phase, `there`.
abbrev pub is_edge : List Item → Text → Text → Bool
is_edge items here there =
    not (is_empty here)
    && not (is_empty there)
    && not (there == here)
    && any (λ i. here == i.phase && any (waits_on items there) i.needs) items

pub lookup-index {ℓ} :
    {V : Type ℓ} (f : Item → V) (n : Text) (items : List Item) (d : Dict Text V)
    → lookup n (index f items d) ≡ elim (named n items) [ none ↦ lookup n d | some j ↦ some (f j) ]
lookup-index f n [] d = refl
lookup-index f n (i ∷ items) d =
    ground (arith, lookup-index f n items (insert i.ident (f i) d), lookup-insert i.ident n (f i) d)

pub stacks_on-waits_on :
    (items : List Item) (here there n : Text)
    → (stacks_on items here n == some there) ≡ (
        not (is_empty here)
        && not (is_empty there)
        && not (there == here)
        && waits_on items there n)
unfolding phase_of state_of
stacks_on-waits_on items here there n = elim (Option-cases (named n items)) [
  | inl absent ↦ ground (
    arith,
    absent,
    lookup-index (λ i. i.phase) n items [],
    lookup-index (λ i. i.state) n items [],
  )
  | inr (j, found) ↦ ground (
    arith,
    found,
    lookup-index (λ i. i.phase) n items [],
    lookup-index (λ i. i.state) n items [],
    text_eq.beq_iff j.phase there,
    λ (q : j.phase ≡ there). ap is_empty q,
    λ (q : j.phase ≡ there). ap (λ z. z == here) q,
  )
]

elem-add :
    (a there : Text) (deps : List Text) → elem a (add there deps) ≡ (elem a deps || a == there)
elem-add a there deps = ground (
  arith,
  elem-append a deps (there ∷ []),
  text_eq.beq_iff a there,
  λ (q : a ≡ there). ap (λ z. elem z deps) q,
)

deps-add_parent :
    (here there : Text) (d d' : Parents) (p a : Text)
    → add_parent here there d ≡ some d'
    → elem a (deps_of d' p) ≡ (elem a (deps_of d p) || (p == here && a == there))
unfolding add_parent
deps-add_parent here there [] d' p a h = absurd (cc)
deps-add_parent here there ((q, deps) ∷ d) d' p a h = elim (Bool-cases (q == here)) [
  | inl at ↦
      let e : (q, add there deps) ∷ d ≡ d' = ground (arith, at, h) in
      rw (← e) (
        ground (
          arith,
          elem-add a there deps,
          text_eq.beq_iff q here,
          text_eq.beq_iff p here,
          text_eq.beq_iff q p,
          at,
        ))
  | inr other ↦ elim (Option-cases (add_parent here there d)) [
    | inl missing ↦ absurd (ground (arith, other, missing, h))
    | inr (d1, found) ↦
        let e : (q, deps) ∷ d1 ≡ d' = ground (arith, other, found, h) in
        rw (← e) (
          ground (
            arith,
            deps-add_parent here there d d1 p a found,
            text_eq.beq_iff q here,
            text_eq.beq_iff p here,
            text_eq.beq_iff q p,
            other,
          ))
  ]
]

pub keys-add_parent :
    (here there : Text) (d d' : Parents) → add_parent here there d ≡ some d' → keys d' ≡ keys d
unfolding add_parent
keys-add_parent here there [] d' h = absurd (cc)
keys-add_parent here there ((q, deps) ∷ d) d' h = elim (Bool-cases (q == here)) [
  | inl at ↦ ground (arith, at, h)
  | inr other ↦ elim (Option-cases (add_parent here there d)) [
    | inl missing ↦ absurd (ground (arith, other, missing, h))
    | inr (d1, found) ↦ ground (arith, other, found, h, keys-add_parent here there d d1 found)
  ]
]

-- The three loops put in what they should, one need, one task and one item list at a time.
module _ (items : List Item) where
  abbrev pub stacked : Text → Text → Text → Bool
  stacked here there n = stacks_on items here n == some there

  deps-add_needs :
      (here : Text) (needs : List Text) (d d' : Parents) (p a : Text)
      → add_needs items here needs d ≡ some d'
      → elem a (deps_of d' p) ≡ (elem a (deps_of d p) || (p == here && any (stacked here a) needs))
  deps-add_needs here [] d d' p a h = ground (arith, h)
  deps-add_needs here (n ∷ needs) d d' p a h = elim (Option-cases (stacks_on items here n)) [
    | inl skip ↦ ground (arith, skip, h, deps-add_needs here needs d d' p a)
    | inr (there, adds) ↦ elim (Option-cases (add_parent here there d)) [
      | inl missing ↦ absurd (ground (arith, adds, missing, h))
      | inr (d1, found) ↦ ground (
        arith,
        adds,
        found,
        deps-add_parent here there d d1 p a found,
        deps-add_needs here needs d1 d' p a (ground (arith, adds, found, h)),
        text_eq.beq_iff a there,
        text_eq.beq_iff there a,
      )
    ]
  ]

  pub keys-add_needs :
      (here : Text) (needs : List Text) (d d' : Parents)
      → add_needs items here needs d ≡ some d'
      → keys d' ≡ keys d
  keys-add_needs here [] d d' h = ground (arith, h)
  keys-add_needs here (n ∷ needs) d d' h = elim (Option-cases (stacks_on items here n)) [
    | inl skip ↦ keys-add_needs here needs d d' (ground (arith, skip, h))
    | inr (there, adds) ↦ elim (Option-cases (add_parent here there d)) [
      | inl missing ↦ absurd (ground (arith, adds, missing, h))
      | inr (d1, found) ↦
          keys-add_needs here needs d1 d' (ground (arith, adds, found, h))
          ∙ keys-add_parent here there d d1 found
    ]
  ]

  pub deps-add_items :
      (rest : List Item) (d d' : Parents) (p a : Text)
      → add_items items rest d ≡ some d'
      → elem a (deps_of d' p)
        ≡ (elem a (deps_of d p) || any (λ i. p == i.phase && any (stacked i.phase a) i.needs) rest)
  deps-add_items [] d d' p a h = ground (arith, h)
  deps-add_items (i ∷ rest) d d' p a h = elim (Option-cases (add_needs items i.phase i.needs d)) [
    | inl missing ↦ absurd (ground (arith, missing, h))
    | inr (d1, found) ↦ ground (
      arith,
      found,
      deps-add_needs i.phase i.needs d d1 p a found,
      deps-add_items rest d1 d' p a (ground (arith, found, h)),
    )
  ]

  pub keys-add_items :
      (rest : List Item) (d d' : Parents) → add_items items rest d ≡ some d' → keys d' ≡ keys d
  keys-add_items [] d d' h = ground (arith, h)
  keys-add_items (i ∷ rest) d d' h = elim (Option-cases (add_needs items i.phase i.needs d)) [
    | inl missing ↦ absurd (ground (arith, missing, h))
    | inr (d1, found) ↦
        keys-add_items rest d1 d' (ground (arith, found, h))
        ∙ keys-add_needs i.phase i.needs d d1 found
  ]
