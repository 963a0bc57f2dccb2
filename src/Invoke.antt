-- ===== src/Invoke.antt =====
-- harness/invoke.py, and harness/phase.py over it: graphs run at the same time under one run id.
-- A graph's run is an argument, and so is the order in which the children complete.
pub mod Collected
pub mod Completion
mod Examples
use coxswain_graphs.Prelude.{
  ℕ, zero, suc, ◌+◌, String, Bool, true, false, not, ◌&&◌, ◌||◌, Option, none, some, List, [], ◌∷◌,
  ◌++◌, map, any, select, elem, count, is_empty, dedup, take, length, leb, ltb, if◌then◌else◌, ◌==◌,
  text_eq, list_eq, nat_eq, Text, codes, join, starts_with, splitlines, Dict, lookup, insert, keys,
  sort, text_ord, Result, ok, err, ◌>>=◌, find,
}

pub record Invocation : Type 0 where
  pub ident : Text
  pub graph : Text
  pub args : Dict Text Text

-- What a graph's run returns: its proposals, and the rest of the dictionary.
pub record Returned : Type 0 where
  pub body : Text
  pub proposals : List Text

-- How a child ends: it returns, raises a `ContractViolation` or a `RunnerError`, stops at the account's
-- limit, or raises something else.
pub data Child : Type 0 where
  returns : Returned → Child
  refused limit_stop crashes : Text → Child

pub data InvokeError : Type 0 where
  duplicates : List Text → InvokeError
  unknown : List Text → List Text → InvokeError
  presupplied : List Text → InvokeError
  stopped_at_limit crashed : Text → InvokeError

abbrev pub Specs : Type 0
Specs = Dict Text (Dict Text Text → Child)

abbrev has {ℓ} : {V : Type ℓ} → Text → Dict Text V → Bool
has k m = elem k (keys m)

-- `_refuse_malformed`, where no error is `none`.
pub refuse_malformed : Specs → List Invocation → Option InvokeError
refuse_malformed specs invocations =
    let idents = map (λ i. i.ident) invocations in
    let repeated = sort (select (λ k. ltb 1 (count k idents)) (dedup idents)) in
    let strange =
      sort (dedup (map (λ i. i.graph) (select (λ i. not (has i.graph specs)) invocations))) in
    let supplied =
      sort (map (λ i. i.ident) (select (λ i. has (codes "run_id") i.args) invocations)) in
    if not (is_empty repeated)
    then some (duplicates repeated)
    else if not (is_empty strange)
    then some (unknown strange (sort (keys specs)))
    else if not (is_empty supplied)
    then some (presupplied supplied)
    else none

abbrev first_or_empty : List Text → Text
first_or_empty [] = []
first_or_empty (line ∷ lines) = line

pub bounded : Text → Text
bounded text =
    if leb (length text) 2000 && not (starts_with text (codes "{"))
    then text
    else take 200 (first_or_empty (splitlines text)) ++ codes " (message truncated)"

abbrev pub failure_line : Text → Text → Text
failure_line k message = k ++ (codes ": " ++ bounded message)

-- The loop over the futures as they complete, each named by the id of its invocation.
pub collect :
    (Text → Child)
    → List Text
    → Dict Text Returned
    → List Text
    → Result InvokeError (Dict Text Returned × List Text)
collect outcome [] results failures = ok (results, failures)
collect outcome (k ∷ ks) results failures = elim (outcome k) [
  | returns r ↦ collect outcome ks (insert k r results) failures
  | refused message ↦ collect outcome ks results (failures ++ (failure_line k message ∷ []))
  | limit_stop message ↦ err (stopped_at_limit message)
  | crashes message ↦ err (crashed message)
]

-- `[results[key] for key in ks]`
abbrev pub values_at : Dict Text Returned → List Text → List Returned
values_at results [] = []
values_at results (k ∷ ks) = elim (lookup k results) [
  | none ↦ values_at results ks
  | some r ↦ r ∷ values_at results ks
]

abbrev pub all_proposals : List Returned → List Text
all_proposals [] = []
all_proposals (r ∷ rs) = r.proposals ++ all_proposals rs

pub record Gathered : Type 0 where
  pub ordered : List Returned
  pub proposals : List Text
  pub failures : List Text

pub gathered : Dict Text Returned → List Text → Gathered
gathered results failures =
    let ordered = values_at results (sort (keys results)) in
    record { ordered = ordered; proposals = all_proposals ordered; failures = sort failures }

-- The child that an id names: the first invocation of that id, its graph run on its args and the run id.
pub run_child : Specs → Text → List Invocation → Text → Child
run_child specs run_id [] k = crashes k
run_child specs run_id (i ∷ invocations) k =
    let later = run_child specs run_id invocations k in
    if i.ident == k
    then elim (lookup i.graph specs) [
      | none ↦ crashes i.graph
      | some run ↦ run (insert (codes "run_id") (run_id ++ (codes ":" ++ i.ident)) i.args)
    ]
    else later

pub invoke_graphs : Specs → Text → List Invocation → List Text → Result InvokeError Gathered
invoke_graphs specs run_id invocations completed = elim (refuse_malformed specs invocations) [
  | some error ↦ err error
  | none ↦
      collect (run_child specs run_id invocations) completed [] [] >>= λ c. ok (gathered c.0 c.1)
]

-- A ready task of a phase, with the args that the lifecycle graph takes from it.
pub record PhaseTask : Type 0 where
  pub ident : Text
  pub title : Text
  pub body : Text
  pub surfaces : Text
  pub patterns : Text

abbrev lifecycle : Text
lifecycle = codes "lifecycle"

abbrev pub phase_invocation : Text → Text → PhaseTask → Invocation
phase_invocation cartridge date task = record {
  ident = task.ident;
  graph = lifecycle;
  args =
      (codes "date", date)
      ∷ (codes "ticket", task.ident)
      ∷ (codes "ticket_title", task.title)
      ∷ (codes "ticket_body", task.body)
      ∷ (codes "cartridge", cartridge)
      ∷ (codes "surfaces", task.surfaces)
      ∷ (codes "patterns", task.patterns)
      ∷ [];
}

-- `run_phase`: one lifecycle run for each ready task.
pub run_phase :
    (Dict Text Text → Child)
    → List PhaseTask
    → (cartridge run_id date : Text) → List Text
    → Result InvokeError Gathered
run_phase lifecycle_run tasks cartridge run_id date completed =
    invoke_graphs ((lifecycle, lifecycle_run) ∷ []) run_id
      (map (phase_invocation cartridge date) tasks) completed
