-- ===== src/Phases/Edges.antt =====
-- `phase_parents` holds exactly the stacking edges of the task graph, and feeds `phase_order`.
use coxswain_graphs.Prelude.{
  ◌≡◌, refl, sym, ap, ◌∙◌, true, false, not, ◌&&◌, ◌||◌, some, List, [], ◌∷◌, ◌++◌, ◌==◌, nat_eq,
  list_eq, string_eq, option_eq, Text, text_eq, Dict, lookup, keys, elem, select, dedup, is_empty,
  any, All, arith, count-select, elem-dedup, elem-select, count-dedup, Bool-cases, Option-cases,
  inl, inr,
}
use coxswain_graphs.Phases.{
  Item, Parents, add, add_parent, values, no_parents, phase_of, stacks_on, add_needs, add_items,
  phase_parents,
}
use coxswain_graphs.Phases.Rounds.{deps_of}
use coxswain_graphs.Phases.Order.{IsDict}
use mathlib.Core.Path.{subst}
use mathlib.Core.List.{append-nil, append_assoc}
use coxswain_graphs.Prelude.{elem-subset, All-map_pred}
use coxswain_graphs.Phases.{phase_order}
use coxswain_graphs.Phases.Rounds.{IsPlaced}
use coxswain_graphs.Phases.Order.{phase_order-IsPlaced}
use coxswain_graphs.Phases.Loops.{
  named, waits_on, is_edge, lookup-index, stacks_on-waits_on, stacked, deps-add_items,
  keys-add_items, keys-add_parent, keys-add_needs,
}

any-stacked :
    (items : List Item) (here there : Text) (needs : List Text)
    → any (stacked items here there) needs ≡ (
        not (is_empty here)
        && not (is_empty there)
        && not (there == here)
        && any (waits_on items there) needs)
any-stacked items here there [] = ground arith
any-stacked items here there (n ∷ needs) =
    ground (arith, stacks_on-waits_on items here there n, any-stacked items here there needs)

any-items :
    (items rest : List Item) (p a : Text)
    → any (λ i. p == i.phase && any (stacked items i.phase a) i.needs) rest ≡ (
        not (is_empty p)
        && not (is_empty a)
        && not (a == p)
        && any (λ i. p == i.phase && any (waits_on items a) i.needs) rest)
any-items items [] p a = ground arith
any-items items (i ∷ rest) p a = ground (
  arith,
  any-stacked items i.phase a i.needs,
  any-items items rest p a,
  text_eq.beq_iff p i.phase,
  λ (q : p ≡ i.phase). ap is_empty q,
  λ (q : p ≡ i.phase). ap (λ z. a == z) q,
)

deps-no_parents : (ps : List Text) (p a : Text) → elem a (deps_of (no_parents ps) p) ≡ false
deps-no_parents [] p a = refl
deps-no_parents (q ∷ ps) p a = ground (arith, deps-no_parents ps p a)

keys-no_parents : (ps : List Text) → keys (no_parents ps) ≡ ps
keys-no_parents [] = refl
keys-no_parents (p ∷ ps) = ap (λ qs. p ∷ qs) (keys-no_parents ps)

-- The dictionary holds exactly the edges: a phase has another as its parent when some task of it
-- needs a task of that one which is not done, and never itself or the empty phase.
pub phase_parents-edge :
    (items : List Item) (d : Parents) (p a : Text)
    → phase_parents items ≡ some d
    → elem a (deps_of d p) ≡ is_edge items p a
unfolding phase_parents
phase_parents-edge items d p a h =
    let start = select (λ q. not (is_empty q)) (dedup (values (phase_of items))) in
    ground (
      arith,
      deps-add_items items items (no_parents start) d p a h,
      deps-no_parents start p a,
      any-items items items p a,
    )

abbrev starts : List Item → List Text
starts items = select (λ q. not (is_empty q)) (dedup (values (phase_of items)))

keys-phase_parents :
    (items : List Item) (d : Parents) → phase_parents items ≡ some d → keys d ≡ starts items
unfolding phase_parents
keys-phase_parents items d h =
    keys-add_items items items (no_parents (starts items)) d h ∙ keys-no_parents (starts items)

pub phase_parents-IsDict :
    (items : List Item) (d : Parents) → phase_parents items ≡ some d → IsDict d
phase_parents-IsDict items d h p = rw (keys-phase_parents items d h) (
    ground (
      arith,
      count-dedup p (values (phase_of items)),
      count-select p (λ q. not (is_empty q)) (dedup (values (phase_of items))),
    ))

elem-values : (n v : Text) (d : Dict Text Text) → lookup n d ≡ some v → elem v (values d) ≡ true
elem-values n v [] h = absurd (cc)
elem-values n v ((k, w) ∷ d) h = ground (arith, elem-values n v d, text_eq.beq_iff v w)

elem-starts :
    (items : List Item) (n : Text) (j : Item)
    → named n items ≡ some j
    → is_empty j.phase ≡ false
    → elem j.phase (starts items) ≡ true
unfolding phase_of
elem-starts items n j found full =
    let there : lookup n (phase_of items) ≡ some j.phase =
      ground (arith, found, lookup-index (λ i. i.phase) n items []) in
    ground (
      arith,
      elem-values n j.phase (phase_of items) there,
      elem-dedup j.phase (values (phase_of items)),
      elem-select j.phase (λ q. not (is_empty q)) (dedup (values (phase_of items))),
      full,
    )

-- The key that the loop adds an edge under is there.
add_parent-total :
    (here there : Text) (d : Parents)
    → elem here (keys d) ≡ true
    → (d' : Parents) × (add_parent here there d ≡ some d')
unfolding add_parent
add_parent-total here there [] h = absurd (ground arith)
add_parent-total here there ((q, deps) ∷ d) h = elim (Bool-cases (q == here)) [
  | inl at ↦ ((q, add there deps) ∷ d, rw at refl)
  | inr other ↦
      let (d1, found) =
        add_parent-total here there d
          (ground (arith, other, text_eq.beq_iff q here, text_eq.beq_iff here q)) in
      ((q, deps) ∷ d1, ground (arith, other, found))
]

-- A phase is a key, unless it is empty.
abbrev HasKey : Parents → Text → Type 0
HasKey d p = (is_empty p || elem p (keys d)) ≡ true

add_needs-total :
    (items : List Item) (here : Text) (needs : List Text) (d : Parents)
    → HasKey d here
    → (d' : Parents) × (add_needs items here needs d ≡ some d')
add_needs-total items here [] d h = (d, refl)
add_needs-total items here (n ∷ needs) d h = elim (Option-cases (stacks_on items here n)) [
  | inl skip ↦ let (d', e) = add_needs-total items here needs d h in (d', ground (arith, skip, e))
  | inr (there, adds) ↦
      let full : is_empty here ≡ false =
        ground (arith, adds, stacks_on-waits_on items here there n, text_eq.beq_iff there there) in
      let (d1, found) = add_parent-total here there d (ground (arith, full, h)) in
      let (d', e) =
        add_needs-total items here needs d1 (rw (keys-add_parent here there d d1 found) h) in
      (d', ground (arith, adds, found, e))
]

add_items-total :
    (items rest : List Item) (d : Parents)
    → All (λ i. HasKey d i.phase) rest
    → (d' : Parents) × (add_items items rest d ≡ some d')
add_items-total items [] d h = (d, refl)
add_items-total items (i ∷ rest) d h =
    let (d1, found) = add_needs-total items i.phase i.needs d h.0 in
    let (d', e) = add_items-total items rest d1 (
      subst (λ ks. All (λ j. (is_empty j.phase || elem j.phase ks) ≡ true) rest)
        (sym (keys-add_needs items i.phase i.needs d d1 found)) h.1) in
    (d', ground (arith, found, e))

-- Where each item is the one that its id names, no KeyError is raised.
pub phase_parents-total :
    (items : List Item)
    → All (λ i. named i.ident items ≡ some i) items
    → (d : Parents) × (phase_parents items ≡ some d)
unfolding phase_parents
phase_parents-total items unique = add_items-total items items (no_parents (starts items)) (
    All-map_pred (λ i. named i.ident items ≡ some i)
      (λ i. HasKey (no_parents (starts items)) i.phase) items has_key unique)
  where
    has_key : (i : Item) → named i.ident items ≡ some i → HasKey (no_parents (starts items)) i.phase
    has_key i h = elim (Bool-cases (is_empty i.phase)) [
      | inl empty ↦ rw empty refl
      | inr full ↦ rw (full, keys-no_parents (starts items)) (elem-starts items i.ident i h full)
    ]

IsPlaced-split :
    (d : Parents) (before xs rest : List Text) (p a : Text)
    → IsPlaced d before (xs ++ p ∷ rest)
    → elem a (deps_of d p) ≡ true
    → elem a (before ++ xs) ≡ true
IsPlaced-split d before [] rest p a h m = rw append-nil (elem-subset a (deps_of d p) before h.0 m)
IsPlaced-split d before (x ∷ xs) rest p a h m =
    subst (λ l. elem a l ≡ true) (append_assoc before (x ∷ []) xs)
      (IsPlaced-split d (before ++ x ∷ []) xs rest p a h.1 m)

-- A phase stands in the order behind every phase that one of its tasks waits on.
pub phase_order-after_parents :
    (items : List Item) (d : Parents) (before rest : List Text) (p a : Text)
    → phase_parents items ≡ some d
    → (phase_order d).0 ≡ before ++ p ∷ rest
    → is_edge items p a ≡ true
    → elem a before ≡ true
phase_order-after_parents items d before rest p a h split edge =
    IsPlaced-split d [] before rest p a
      (subst (IsPlaced d []) split (phase_order-IsPlaced d (phase_parents-IsDict items d h)))
      (phase_parents-edge items d p a h ∙ edge)
