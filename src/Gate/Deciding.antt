-- ===== src/Gate/Deciding.antt =====
-- What the gate decides: every proposal gets one decision, and only two answers approve.
use coxswain_graphs.Prelude.{
  ◌≡◌, refl, ap, Bool, true, false, not, ◌||◌, Option, List, [], ◌∷◌, map, all, nat_eq, Text, codes,
  starts_with, arith,
}
use coxswain_graphs.Gate.{
  Proposed, Decision, approved, refused, decision_of, gate, assumed, head_or_empty, tail_of,
}

abbrev pub is_approved : Decision → Bool
is_approved approved = true
is_approved refused = false

edited_lem :
    (answer : Text) → (not (decision_of answer).1 || is_approved (decision_of answer).0) ≡ true
unfolding decision_of
edited_lem [] = refl
edited_lem (c ∷ answer) = ground arith

-- The proposals come out in their order, one decision each, and what is recorded as edited is approved.
pub gate-decides :
    (items : List Proposed) (assume : Option Text) (inputs : List Text)
    → (map (λ d. d.item) (gate items assume inputs) ≡ items)
      × (all (λ d. not d.edited || is_approved d.decision) (gate items assume inputs) ≡ true)
unfolding gate decision_of
gate-decides [] assume inputs = (refl, refl)
gate-decides (item ∷ items) assume inputs = (
  ap (λ xs. item ∷ xs) (gate-decides items assume (tail_of inputs)).0,
  ground (
    arith,
    edited_lem (assumed assume (head_or_empty inputs)),
    (gate-decides items assume (tail_of inputs)).1,
  ),
)

-- An answer approves exactly where its first letter is `a` or `e`: no other answer, and
-- no empty one, approves.
pub decision_of-approves :
    (answer : Text)
    → is_approved (decision_of answer).0
      ≡ (starts_with answer (codes "a") || starts_with answer (codes "e"))
unfolding decision_of
decision_of-approves [] = ground arith
decision_of-approves (c ∷ answer) = ground arith
