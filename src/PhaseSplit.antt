-- ===== src/PhaseSplit.antt =====
-- graphs/delivery/phase_split.py: needs within a phase are moved across later phases.
-- Keys that are carried through are not part of a task or a phase. `_level` recurs on fuel.
pub mod Levels
mod Examples
use coxswain_graphs.Prelude.{
  ℕ, zero, suc, ◌+◌, max, Bool, true, false, not, ◌&&◌, Option, none, some, List, [], ◌∷◌, ◌++◌,
  map, select, if◌then◌else◌, ◌==◌, list_eq, nat_eq, nat_ord, nat_beq, ltb, Text, elem, dedup, sort,
  Dict, lookup, insert,
}

pub record Task : Type 0 where
  pub id : Text
  pub phase : Text
  pub needs : List Text

-- `by_id`, where a later task of the same id stands for the earlier one.
abbrev pub by_id : List Task → Dict Text Task → Dict Text Task
by_id [] d = d
by_id (t ∷ ts) d = by_id ts (insert t.id t d)

-- `_suffix`, up to the letter z.
abbrev pub suffix : ℕ → Text
suffix level = if nat_beq level 0 then [] else b'-' ∷ (b'a' + level) ∷ []

-- `phase_of.get(n) == task["phase"]`
abbrev pub is_in_phase : Dict Text Task → Text → Text → Bool
is_in_phase known phase n = elim (lookup n known) [ none ↦ false | some t ↦ t.phase == phase ]

abbrev pub same_phase_needs : Dict Text Task → Task → List Text
same_phase_needs known t = select (is_in_phase known t.phase) t.needs

-- 0 for no need, else one more than the deepest.
abbrev pub deepest : (Text → Option ℕ) → List Text → Option ℕ
deepest f [] = some 0
deepest f (n ∷ ns) = elim (f n) [
  | none ↦ none
  | some a ↦ elim (deepest f ns) [ none ↦ none | some b ↦ some (max (suc a) b) ]
]

-- `_level`: `none` where the fuel or a task is missing.
pub level : Dict Text Task → ℕ → Text → List Text → Option ℕ
level known zero id path = none
level known (suc fuel) id path = elim (lookup id known) [
  | none ↦ none
  | some t ↦
      deepest (λ n. level known fuel n (path ++ id ∷ []))
        (select (λ n. not (elem n path)) (same_phase_needs known t))
]

-- `levels`, as the level of each task.
pub levels : Dict Text Task → ℕ → List Task → Option (Dict Text ℕ)
levels known fuel [] = some []
levels known fuel (t ∷ ts) = elim (level known fuel t.id []) [
  | none ↦ none
  | some k ↦ elim (levels known fuel ts) [ none ↦ none | some rest ↦ some ((t.id, k) ∷ rest) ]
]

abbrev pub level_in : Dict Text ℕ → Text → ℕ
level_in found id = elim (lookup id found) [ none ↦ 0 | some k ↦ k ]

abbrev pub moved : Dict Text ℕ → Task → Task
moved found t = record t { phase = t.phase ++ suffix (level_in found t.id) }

pub record Move : Type 0 where
  pub task : Text
  pub source : Text
  pub target : Text
  pub needs : List Text

abbrev pub moves : Dict Text Task → Dict Text ℕ → List Task → List Move
moves known found [] = []
moves known found (t ∷ ts) =
    let rest = moves known found ts in
    if ltb 0 (level_in found t.id)
    then (record {
      task = t.id;
      source = t.phase;
      target = t.phase ++ suffix (level_in found t.id);
      needs = same_phase_needs known t;
    })
      ∷ rest
    else rest

abbrev pub levels_used : Dict Text ℕ → Text → List Task → List ℕ
levels_used found phase [] = []
levels_used found phase (t ∷ ts) =
    let rest = levels_used found phase ts in
    if t.phase == phase && ltb 0 (level_in found t.id) then level_in found t.id ∷ rest else rest

-- The phases are their ids.
abbrev pub new_phases : Dict Text ℕ → List Task → List Text → List Text
new_phases found tasks [] = []
new_phases found tasks (p ∷ ps) =
    p
    ∷ (map (λ k. p ++ suffix k) (sort (dedup (levels_used found p tasks)))
        ++ new_phases found tasks ps)

-- The phases, the tasks and the moves.
pub split_same_phase_needs : ℕ → List Text → List Task → Option (List Text × List Task × List Move)
split_same_phase_needs fuel phases tasks =
    let known = by_id tasks [] in
    elim (levels known fuel tasks) [
      | none ↦ none
      | some found ↦
          some (new_phases found tasks phases, map (moved found) tasks, moves known found tasks)
    ]
