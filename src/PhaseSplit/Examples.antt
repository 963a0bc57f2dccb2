-- ===== src/PhaseSplit/Examples.antt =====
-- A phase of two tasks of which one needs the other, and the theorem at it.
use coxswain_graphs.Prelude.{
  ℕ, ◌≡◌, ◌<◌, refl, String, some, List, [], ◌∷◌, ◌==◌, list_eq, nat_eq, text_eq, Text, codes, Dict,
  arith, if◌then◌else◌, Option, none, Bool-cases, inl, inr,
}
use coxswain_graphs.PhaseSplit.{Task, by_id, level, levels, Move, split_same_phase_needs}
use coxswain_graphs.PhaseSplit.Levels.{IsRanked, level-need}

abbrev task : String → List Text → Task
task id needs = record { id = codes id; phase = codes "p"; needs = needs }

abbrev tasks : List Task
tasks = task "a" [] ∷ task "b" (codes "a" ∷ []) ∷ []

abbrev known : Dict Text Task
known = by_id tasks []

abbrev rank : Text → ℕ
rank id = if id == codes "a" then 0 else 1

known-IsRanked : IsRanked known rank
known-IsRanked id n t w e = elim (Bool-cases (id == codes "a")) [
  | inl h ↦ absurd (ground (arith, w, e, h))
  | inr h ↦ elim (Bool-cases (id == codes "b")) [
    | inl g ↦ ground (arith, w, e, h, g, text_eq.beq_iff n (codes "a"))
    | inr g ↦ absurd (ground (arith, w, h, g))
  ]
]

level-need_example :
    (a : ℕ) × (b : ℕ) × (level known 2 (codes "a") [] ≡ some a)
    × (level known 2 (codes "b") [] ≡ some b)
    × (a < b)
level-need_example =
    level-need known rank 2 (codes "b") (codes "a") (task "b" (codes "a" ∷ [])) known-IsRanked refl
      refl (ground arith)

-- The second task moves to a phase of its own.
split :
    split_same_phase_needs 3 (codes "p" ∷ []) tasks
    ≡ some (
      codes "p" ∷ codes "p-b" ∷ [],
      task "a" [] ∷ record (task "b" (codes "a" ∷ [])) { phase = codes "p-b" } ∷ [],
      record { task = codes "b"; source = codes "p"; target = codes "p-b"; needs = codes "a" ∷ [] }
          ∷ [],
    )
unfolding split_same_phase_needs levels level
split = refl

abbrev phases_of : Option (List Text × List Task × List Move) → List Text
phases_of none = []
phases_of (some r) = r.0

-- A plan that has a phase `p-b` of its own is given a second one of that id.
collision :
    phases_of (split_same_phase_needs 3 (codes "p" ∷ codes "p-b" ∷ []) tasks)
    ≡ codes "p" ∷ codes "p-b" ∷ codes "p-b" ∷ []
unfolding split_same_phase_needs levels level
collision = refl
