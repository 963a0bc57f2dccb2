-- ===== src/Decompose/Examples.antt =====
-- A plan of two tasks over two repositories, and the theorems at it.
use coxswain_graphs.Prelude.{
  ◌≤◌, ◌≡◌, refl, true, false, ◌&&◌, ◌||◌, some, List, [], ◌∷◌, Text, codes, arith, elem, any, leb,
  length, list_eq, nat_eq, In, here, lookup,
}
use coxswain_graphs.Decompose.{
  Task, Tree, edit_distance, resolve_phase, note_of, repo_of, repos_of, parts_of, split_cross_repo,
}
use coxswain_graphs.Prelude.{not, map, ◌==◌, ◌||◌, all, ltb, ◌↔◌, select}
use coxswain_graphs.Decompose.{Challenge, challenged, tasks_by_id, apply_challenge}
use coxswain_graphs.Decompose.Edges.{needs_in, is_task, names, challenged-needs}
use coxswain_graphs.Decompose.Distance.{Edits}
use coxswain_graphs.Decompose.Distance.Rows.{edit_distance-least}
use coxswain_graphs.Decompose.Phase.{resolve_phase-corrected}
use coxswain_graphs.Decompose.Repos.{split_cross_repo-one_repo, parts_of-surfaces, is_known}

kitten : edit_distance (codes "kitten") (codes "sitting") ≡ 3
unfolding edit_distance
kitten = refl

one_edit : Edits (codes "ab") (codes "ac") 1
one_edit = Edits.keep b'a' _ _ 1 (Edits.replace b'b' b'c' [] [] 0 Edits.done)

edit_distance-least_example :
    Edits (codes "ab") (codes "ac") (edit_distance (codes "ab") (codes "ac"))
    × (edit_distance (codes "ab") (codes "ac") ≤ 1)
edit_distance-least_example = edit_distance-least (codes "ab") (codes "ac") 1 one_edit

abbrev declared : List Text
declared = codes "ac" ∷ codes "later" ∷ []

resolved :
    resolve_phase (codes "ab") declared
    ≡ some (codes "ac", some (note_of (codes "ab") (codes "ac")))
unfolding resolve_phase edit_distance
resolved = refl

resolve_phase-corrected_example :
    (resolve_phase (codes "ab") declared
      ≡ some (codes "ac", some (note_of (codes "ab") (codes "ac"))))
    ↔ ((elem (codes "ab") declared ≡ false)
        × (elem (codes "ac") declared ≡ true)
        × Edits (codes "ab") (codes "ac") (edit_distance (codes "ab") (codes "ac"))
        × (edit_distance (codes "ab") (codes "ac") ≤ 2)
        × (all (λ d. ltb 2 (edit_distance (codes "ab") d) || d == codes "ac") declared ≡ true)
        × (length (select (λ d. d == codes "ac") declared) ≡ 1)
        × (note_of (codes "ab") (codes "ac") ≡ note_of (codes "ab") (codes "ac")))
resolve_phase-corrected_example =
    resolve_phase-corrected (codes "ab") (codes "ac") (note_of (codes "ab") (codes "ac")) declared

abbrev wide : Task
wide = record {
  id = codes "t";
  needs = codes "u" ∷ [];
  surfaces = codes "a.py" ∷ codes "b.py" ∷ codes "new.py (new)" ∷ [];
  needs_dropped = [];
}

abbrev tree : Tree
tree = (codes "a.py", codes "one") ∷ (codes "b.py", codes "two") ∷ []

-- The first of the parts.
first : (t : Task) × In t (split_cross_repo (wide ∷ []) tree) × (t.surfaces ≡ codes "a.py" ∷ [])
unfolding split_cross_repo parts_of
first = (_, here refl, refl)

split_cross_repo-one_repo_example : codes "one" ≡ codes "one"
split_cross_repo-one_repo_example =
    split_cross_repo-one_repo (wide ∷ []) tree first.0 (codes "a.py") (codes "a.py") (codes "one")
      (codes "one") first.1 (ground (arith, first.2)) (ground (arith, first.2)) refl refl

-- The file that is not there yet is in no part.
parts_of-surfaces_example :
    any (λ p. elem (codes "new.py (new)") p.surfaces) (parts_of (repo_of tree []) wide) ≡ (
      elem (codes "new.py (new)") wide.surfaces
      && (leb (length (repos_of (repo_of tree []) wide)) 1
          || is_known (lookup (codes "new.py (new)") (repo_of tree []))))
parts_of-surfaces_example = parts_of-surfaces (repo_of tree []) wide (codes "new.py (new)")

lost : any (λ p. elem (codes "new.py (new)") p.surfaces) (parts_of (repo_of tree []) wide) ≡ false
unfolding parts_of
lost = refl

abbrev challenge : Challenge
challenge = record {
  spurious_edges = record { task = codes "t"; needs = codes "u" } ∷ [];
  missing_edges =
      record { task = codes "u"; needs = codes "t" }
      ∷ record { task = codes "u"; needs = codes "u" }
      ∷ [];
}

abbrev plan : List Task
plan = wide ∷ record wide { id = codes "u"; needs = [] } ∷ []

challenged-needs_example : needs_in (codes "u") (codes "t") (challenged plan challenge) ≡ (
    (needs_in (codes "u") (codes "t") (tasks_by_id plan [])
      && not (any (names (codes "u") (codes "t")) challenge.spurious_edges))
    || (any (names (codes "u") (codes "t")) challenge.missing_edges
        && is_task (codes "u") (tasks_by_id plan [])
        && is_task (codes "t") (tasks_by_id plan [])
        && not (codes "t" == codes "u")))
challenged-needs_example = challenged-needs plan challenge (codes "u") (codes "t")

-- One edge is dropped, one is added, and none to the task itself.
challenged_plan : map (λ t. t.needs) (apply_challenge plan challenge) ≡ [] ∷ (codes "t" ∷ []) ∷ []
unfolding apply_challenge
challenged_plan = refl
