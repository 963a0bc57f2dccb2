-- ===== src/Phases.antt =====
-- harness/epic.py: the phase graph that the task edges induce, and the order in which it is walked.
mod Rounds
pub mod Loops
pub mod Order
pub mod Edges
mod Examples
use coxswain_graphs.Prelude.{
  ℕ, zero, suc, String, Bool, true, false, not, ◌&&◌, ◌||◌, Option, none, some, List, [], ◌∷◌, ◌++◌,
  map, if◌then◌else◌, ◌==◌, nat_eq, list_eq, string_eq, Text, Dict, lookup, insert, keys, elem,
  select, subset, dedup, sort, text_ord, length, is_empty, any,
}

-- The fields of a work-store item that the driver reads. An absent phase is the empty text.
pub record Item : Type 0 where
  pub ident : Text
  pub phase : Text
  pub state : String
  pub needs : List Text
  pub merged : Bool

-- `{str(item["id"]): .. for item in items}`: of two items with one id the later is kept.
abbrev pub index {ℓ} : {V : Type ℓ} → (Item → V) → List Item → Dict Text V → Dict Text V
index f [] d = d
index f (i ∷ items) d = index f items (insert i.ident (f i) d)

abbrev pub Parents : Type 0
Parents = Dict Text (List Text)

abbrev pub add : Text → List Text → List Text
add x xs = if elem x xs then xs else xs ++ x ∷ []

-- `parents[here].add(there)`: `none` is a KeyError.
pub add_parent : Text → Text → Parents → Option Parents
add_parent here there [] = none
add_parent here there ((p, deps) ∷ d) =
    if p == here
    then some ((p, add there deps) ∷ d)
    else elim (add_parent here there d) [ none ↦ none | some d' ↦ some ((p, deps) ∷ d') ]

-- The phases of the items, in the order of `phase_of.values()`, the empty one left out.
abbrev pub values {ℓ} : {V : Type ℓ} → Dict Text V → List V
values [] = []
values ((k, v) ∷ d) = v ∷ values d

abbrev pub no_parents : List Text → Parents
no_parents [] = []
no_parents (p ∷ ps) = (p, []) ∷ no_parents ps

pub phase_of : List Item → Dict Text Text
phase_of items = index (λ i. i.phase) items []

pub state_of : List Item → Dict Text String
state_of items = index (λ i. i.state) items []

abbrev pub is_done : Option String → Bool
is_done none = false
is_done (some s) = s == "done"

-- The phase that a need of a task in phase `here` stacks it on. A `done` need is already on the base
-- ref and stacks nothing.
abbrev pub stacks_on : List Item → Text → Text → Option Text
stacks_on items here need = elim (lookup need (phase_of items)) [
  | none ↦ none
  | some there ↦
      if not (is_empty here)
        && not (is_empty there)
        && not (there == here)
        && not (is_done (lookup need (state_of items)))
      then some there
      else none
]

abbrev pub add_needs : List Item → Text → List Text → Parents → Option Parents
add_needs items here [] d = some d
add_needs items here (need ∷ needs) d = elim (stacks_on items here need) [
  | none ↦ add_needs items here needs d
  | some there ↦ elim (add_parent here there d) [
    | none ↦ none
    | some d' ↦ add_needs items here needs d'
  ]
]

abbrev pub add_items : List Item → List Item → Parents → Option Parents
add_items items [] d = some d
add_items items (i ∷ rest) d = elim (add_needs items i.phase i.needs d) [
  | none ↦ none
  | some d' ↦ add_items items rest d'
]

pub phase_parents : List Item → Option Parents
phase_parents items =
    add_items items items
      (no_parents (select (λ p. not (is_empty p)) (dedup (values (phase_of items)))))

-- `not deps - set(ordered)`
abbrev pub is_free : List Text → Text × List Text → Bool
is_free ordered (p, deps) = subset deps ordered

abbrev pub free : List Text → Parents → List Text
free ordered remaining = sort (keys (select (is_free ordered) remaining))

abbrev pub without : List Text → Parents → Parents
without gone d = select (λ e. not (elem e.0 gone)) d

-- The `while` loop, on one round of fuel for each phase: a round that goes on removes a phase.
pub order_rounds : ℕ → List Text → Parents → List Text × Parents
order_rounds zero ordered remaining = (ordered, remaining)
order_rounds (suc fuel) ordered remaining =
    let next = free ordered remaining in
    elim (is_empty remaining || is_empty next) [
      | true ↦ (ordered, remaining)
      | false ↦ order_rounds fuel (ordered ++ next) (without next remaining)
    ]

-- The phases in dependency order, then the unorderable ones.
pub phase_order : Parents → List Text × List Text
phase_order parents =
    let (ordered, remaining) = order_rounds (length parents) [] parents in
    (ordered, sort (keys remaining))
