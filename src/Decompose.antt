-- ===== src/Decompose.antt =====
-- graphs/delivery/initiative_decompose.py: the pure steps on a plan's tasks between the model's calls.
-- A task is what these steps read and write of it; its other keys are carried along unread.
pub mod Distance
pub mod Phase
pub mod Needs
pub mod Repos
pub mod Edges
mod Examples
use coxswain_graphs.Prelude.{
  ℕ, zero, suc, ◌+◌, min, Bool, true, false, not, ◌&&◌, ◌||◌, Option, none, some, List, [], ◌∷◌,
  ◌++◌, map, select, length, leb, if◌then◌else◌, ◌==◌, list_eq, nat_eq, nat_beq, text_ord, Text,
  codes, elem, dedup, sort, starts_with, is_empty, Dict, lookup, insert, keys,
}

pub record Task : Type 0 where
  pub id : Text
  pub needs : List Text
  pub surfaces : List Text
  pub needs_dropped : List Text

-- The cells of the current row behind `left`, from those of the row above behind `diagonal`.
abbrev pub next_cells : ℕ → ℕ → ℕ → List ℕ → Text → List ℕ
next_cells ca left diagonal [] b = []
next_cells ca left diagonal (up ∷ ups) [] = []
next_cells ca left diagonal (up ∷ ups) (cb ∷ b) =
    let cost = if nat_beq ca cb then 0 else 1 in
    let cell = min (min (up + 1) (left + 1)) (diagonal + cost) in cell ∷ next_cells ca cell up ups b

abbrev pub next_row : ℕ → ℕ → List ℕ → Text → List ℕ
next_row ca i [] b = i ∷ []
next_row ca i (corner ∷ ups) b = i ∷ next_cells ca i corner ups b

abbrev pub last_row : ℕ → List ℕ → Text → Text → List ℕ
last_row i previous [] b = previous
last_row i previous (ca ∷ a) b = last_row (i + 1) (next_row ca i previous b) a b

-- `list(range(k, k + len(b) + 1))`, and `row[-1]`.
abbrev pub first_row : ℕ → Text → List ℕ
first_row k [] = k ∷ []
first_row k (c ∷ b) = k ∷ first_row (k + 1) b

abbrev pub last_cell : List ℕ → ℕ
last_cell [] = 0
last_cell (n ∷ []) = n
last_cell (n ∷ m ∷ ns) = last_cell (m ∷ ns)

pub edit_distance : Text → Text → ℕ
edit_distance [] b = length b
edit_distance (c ∷ a) [] = length (c ∷ a)
edit_distance (c ∷ a) (d ∷ b) = last_cell (last_row 1 (first_row 0 (d ∷ b)) (c ∷ a) (d ∷ b))

-- `_PHASE_EDIT_DISTANCE_BUDGET`
abbrev pub phase_edit_distance_budget : ℕ
phase_edit_distance_budget = 2

abbrev pub near : Text → List Text → List Text
near phase = select (λ d. leb (edit_distance phase d) phase_edit_distance_budget)

abbrev pub note_of : Text → Text → Text
note_of phase matched =
    codes "phase \"" ++ (phase ++ (codes "\" corrected to \"" ++ (matched ++ codes "\"")))

-- `_resolve_phase`
pub resolve_phase : Text → List Text → Option (Text × Option Text)
resolve_phase phase declared =
    if elem phase declared then some (phase, none) else elim (near phase declared) [
      | [] ↦ none
      | d ∷ ds ↦ elim ds [ [] ↦ some (d, some (note_of phase d)) | e ∷ es ↦ none ]
    ]

abbrev pub ids : List Task → List Text
ids = map (λ t. t.id)

abbrev pub without_foreign : List Text → Task → Task
without_foreign known t = record t {
  needs = select (λ n. elem n known) t.needs;
  needs_dropped = select (λ n. not (elem n known)) t.needs;
}

-- `_drop_foreign_needs`
pub drop_foreign_needs : List Task → List Task
drop_foreign_needs tasks = map (without_foreign (ids tasks)) tasks

abbrev pub problems_of : List Text → List Task → List (Text × Text)
problems_of known [] = []
problems_of known (t ∷ ts) =
    map (λ n. (t.id, n)) (select (λ n. not (elem n known)) t.needs) ++ problems_of known ts

-- `_ordinal_needs_problems`: the tasks with the needs that name no task.
pub ordinal_needs_problems : List Task → List (Text × Text)
ordinal_needs_problems tasks = problems_of (ids tasks) tasks

pub record Correction : Type 0 where
  pub task : Text
  pub surface : Text
  pub replacement : Text

abbrev pub or_empty : Option (Dict Text Text) → Dict Text Text
or_empty none = []
or_empty (some d) = d

-- `by_task`, and `restated`: a later entry of the same key stands for the earlier ones.
abbrev pub by_task : List Correction → Dict Text (Dict Text Text) → Dict Text (Dict Text Text)
by_task [] d = d
by_task (c ∷ cs) d =
    by_task cs (insert c.task (insert c.surface c.replacement (or_empty (lookup c.task d))) d)

abbrev pub restated : List Text → List Task → Dict Text (List Text) → Dict Text (List Text)
restated known [] d = d
restated known (t ∷ ts) d = restated known ts (if elem t.id known then insert t.id t.needs d else d)

abbrev pub value_or {ℓ} : {A : Type ℓ} → A → Option A → A
value_or d none = d
value_or d (some a) = a

abbrev pub corrected : Dict Text (Dict Text Text) → Dict Text (List Text) → Task → Task
corrected replaced told t = record t {
  surfaces = map (λ s. value_or s (lookup s (or_empty (lookup t.id replaced)))) t.surfaces;
  needs = value_or t.needs (lookup t.id told);
}

-- `_apply_corrections`
pub apply_corrections : List Task → List Correction → List Task → List Task
apply_corrections tasks corrections added =
    let known = ids tasks in
    select (λ t. not (elem t.id known)) added
    ++ map (corrected (by_task corrections []) (restated known added [])) tasks

-- A row of the stack's tree: a path and its repository.
abbrev pub Tree : Type 0
Tree = List (Text × Text)

abbrev pub repo_of : Tree → Dict Text Text → Dict Text Text
repo_of [] d = d
repo_of ((path, repo) ∷ rows) d = repo_of rows (insert path repo d)

abbrev pub repos_in : Dict Text Text → List Text → List Text
repos_in known [] = []
repos_in known (s ∷ ss) =
    let rest = repos_in known ss in elim (lookup s known) [ none ↦ rest | some repo ↦ repo ∷ rest ]

abbrev pub repos_of : Dict Text Text → Task → List Text
repos_of known t = sort (dedup (repos_in known t.surfaces))

abbrev pub part_id : Text → Text → Text
part_id id repo = id ++ (codes "--" ++ repo)

abbrev pub in_repo : Dict Text Text → Text → Text → Bool
in_repo known repo s = elim (lookup s known) [ none ↦ false | some r ↦ r == repo ]

abbrev pub part : Dict Text Text → Task → Text → Task
part known t repo = record t {
  id = part_id t.id repo;
  surfaces = select (in_repo known repo) t.surfaces;
}

-- The tasks that a task becomes.
pub parts_of : Dict Text Text → Task → List Task
parts_of known t =
    if leb (length (repos_of known t)) 1 then t ∷ [] else map (part known t) (repos_of known t)

abbrev pub split_tasks : Dict Text Text → List Task → List Task
split_tasks known [] = []
split_tasks known (t ∷ ts) = parts_of known t ++ split_tasks known ts

-- `parts`, where a later task of the same id stands for the earlier one.
abbrev pub part_ids : Dict Text Text → List Task → Dict Text (List Text) → Dict Text (List Text)
part_ids known [] d = d
part_ids known (t ∷ ts) d = part_ids known ts (insert t.id (ids (parts_of known t)) d)

abbrev pub renamed : Dict Text (List Text) → List Text → List Text
renamed parts [] = []
renamed parts (n ∷ ns) = value_or (n ∷ []) (lookup n parts) ++ renamed parts ns

abbrev pub with_parts : Dict Text (List Text) → Task → Task
with_parts parts t = record t { needs = renamed parts t.needs }

-- `_split_cross_repo`
pub split_cross_repo : List Task → Tree → List Task
split_cross_repo tasks tree =
    let known = repo_of tree [] in
    let parts = part_ids known tasks [] in map (with_parts parts) (split_tasks known tasks)

abbrev all_repos : Dict Text Text → List Task → List Text
all_repos known [] = []
all_repos known (t ∷ ts) = repos_in known t.surfaces ++ all_repos known ts

-- `_stack_repo_count`: `len(repos) or 1`.
pub stack_repo_count : List Task → Tree → ℕ
stack_repo_count tasks tree =
    let n = length (dedup (all_repos (repo_of tree []) tasks)) in
    if is_empty tree || nat_beq n 0 then 1 else n

-- `_prefixed`
pub prefixed : Text → Text → Text
prefixed initiative task =
    if starts_with task (initiative ++ codes "-") then task else initiative ++ (codes "-" ++ task)

pub record Edge : Type 0 where
  pub task : Text
  pub needs : Text

pub record Challenge : Type 0 where
  pub spurious_edges : List Edge
  pub missing_edges : List Edge

abbrev pub tasks_by_id : List Task → Dict Text Task → Dict Text Task
tasks_by_id [] d = d
tasks_by_id (t ∷ ts) d = tasks_by_id ts (insert t.id t d)

abbrev pub drop_edge : Edge → Dict Text Task → Dict Text Task
drop_edge e d = elim (lookup e.task d) [
  | none ↦ d
  | some t ↦
      if elem e.needs t.needs
      then insert e.task (record t { needs = select (λ m. not (m == e.needs)) t.needs }) d
      else d
]

abbrev pub add_edge : Edge → Dict Text Task → Dict Text Task
add_edge e d = elim (lookup e.task d) [
  | none ↦ d
  | some t ↦ elim (lookup e.needs d) [
    | none ↦ d
    | some u ↦
        if not (e.needs == t.id) && not (elem e.needs t.needs)
        then insert e.task (record t { needs = t.needs ++ e.needs ∷ [] }) d
        else d
  ]
]

abbrev pub drop_all : List Edge → Dict Text Task → Dict Text Task
drop_all [] d = d
drop_all (e ∷ es) d = drop_all es (drop_edge e d)

abbrev pub add_all : List Edge → Dict Text Task → Dict Text Task
add_all [] d = d
add_all (e ∷ es) d = add_all es (add_edge e d)

abbrev pub challenged : List Task → Challenge → Dict Text Task
challenged tasks c = add_all c.missing_edges (drop_all c.spurious_edges (tasks_by_id tasks []))

-- `_apply_challenge`
pub apply_challenge : List Task → Challenge → List Task
apply_challenge tasks c = map (λ p. p.1) (challenged tasks c)
