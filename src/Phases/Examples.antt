-- ===== src/Phases/Examples.antt =====
-- A small initiative: the phases of its tasks, their order, and the theorems at it.
use coxswain_graphs.Prelude.{
  String, ℕ, ◌<◌, ◌≡◌, refl, true, false, some, List, [], ◌∷◌, Text, codes, text_eq, list_eq,
  nat_eq, elem, count, keys, arith, ◌==◌, string_eq, if◌then◌else◌,
}
use coxswain_graphs.Phases.{
  Item, Parents, phase_parents, phase_order, add_parent, phase_of, state_of, order_rounds,
}
use coxswain_graphs.Phases.Rounds.{deps_of}
use coxswain_graphs.Phases.Order.{IsDict, phase_order-total}
use coxswain_graphs.Phases.Edges.{
  phase_parents-IsDict, phase_parents-total, phase_order-after_parents,
}

program : Unit {0}
unfolding phase_parents phase_order add_parent phase_of state_of order_rounds
program = tt

abbrev item : Text → Text → String → List Text → Item
item ident phase state needs = record {
  ident = ident;
  phase = phase;
  state = state;
  needs = needs;
  merged = false;
}

abbrev items : List Item
items =
    item (codes "roll") (codes "p2") "ready" (codes "api" ∷ codes "docs" ∷ [])
    ∷ item (codes "api") (codes "p1") "ready" (codes "base" ∷ [])
    ∷ item (codes "docs") (codes "p0") "done" []
    ∷ item (codes "base") (codes "p1") "ready" []
    ∷ []

-- The need on `docs` is done, and the need on `base` stays in its phase.
abbrev parents : Parents
parents = (codes "p2", codes "p1" ∷ []) ∷ (codes "p1", []) ∷ (codes "p0", []) ∷ []

phase_parents-items : phase_parents items ≡ some parents
unfolding program
phase_parents-items = refl

phase_order-items : (phase_order parents).0 ≡ codes "p0" ∷ codes "p1" ∷ codes "p2" ∷ []
unfolding program
phase_order-items = refl

parents-IsDict : IsDict parents
parents-IsDict = phase_parents-IsDict items parents phase_parents-items

-- Two phases that need one another.
abbrev knot : Parents
knot = (codes "b", codes "a" ∷ []) ∷ (codes "a", codes "b" ∷ []) ∷ []

knot-IsDict : IsDict knot
knot-IsDict p = ground (arith, text_eq.beq_iff p (codes "a"), text_eq.beq_iff p (codes "b"))

phase_order-knot : phase_order knot ≡ ([], codes "a" ∷ codes "b" ∷ [])
unfolding program
phase_order-knot = refl

knot_left : elem (codes "a") (phase_order knot).1 ≡ true
unfolding program
knot_left = refl

abbrev rank : Text → ℕ
rank p = if p == codes "p2" then 1 else 0

parents_ranked :
    (p a : Text)
    → elem a (deps_of parents p) ≡ true
    → (rank a < rank p) × (elem a (keys parents) ≡ true)
parents_ranked p a h = ground (
  arith,
  h,
  text_eq.beq_iff (codes "p2") p,
  text_eq.beq_iff (codes "p1") p,
  text_eq.beq_iff (codes "p0") p,
  text_eq.beq_iff a (codes "p1"),
  text_eq.beq_iff p (codes "p2"),
  text_eq.beq_iff a (codes "p2"),
)

phase_order-total_example :
    (elem (codes "p2") (phase_order parents).1 ≡ false)
    × (count (codes "p2") (phase_order parents).0 ≡ count (codes "p2") (keys parents))
phase_order-total_example =
    phase_order-total parents rank parents-IsDict parents_ranked (codes "p2")

phase_parents-total_example : (d : Parents) × (phase_parents items ≡ some d)
phase_parents-total_example = phase_parents-total items (refl, (refl, (refl, (refl, tt))))

phase_order-after_parents_example : elem (codes "p1") (codes "p0" ∷ codes "p1" ∷ []) ≡ true
phase_order-after_parents_example =
    phase_order-after_parents items parents (codes "p0" ∷ codes "p1" ∷ []) [] (codes "p2")
      (codes "p1") phase_parents-items phase_order-items refl
