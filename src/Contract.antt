-- ===== src/Contract.antt =====
-- graphs/_contract.py: what a graph may propose, where work lands, and how much review a change gets.
pub mod Tiers
pub mod Proposing
mod Examples
use coxswain_graphs.Prelude.{
  ℕ, String, Bool, true, false, not, ◌&&◌, ◌||◌, Option, none, some, List, [], ◌∷◌, leb, ltb,
  if◌then◌else◌, ◌==◌, string_eq, elem, any, subset, is_empty, lookup, keys, Dict, select, Result,
  ok, err, nat_beq,
}
use coxswain_graphs.Cartridge.{
  Cartridge, EpicThreshold, ReviewConfig, Spec, mapping, malformed, Evidence, Proposal,
}

abbrev or_else : Option ℕ → ℕ → ℕ
or_else none d = d
or_else (some n) d = n

abbrev or_true : Option Bool → Bool
or_true none = true
or_true (some b) = b

pub data Shape : Type 0 where
  epic parent_with_subtasks ticket : Shape

pub epic_shape : EpicThreshold → (phases tickets repos : ℕ) → Shape
epic_shape threshold phases tickets repos =
    if leb (or_else threshold.phases_min 2) phases
      || leb (or_else threshold.tickets_min 3) tickets
      || (or_true threshold.multi_repo && ltb 1 repos)
    then epic
    else if ltb 1 tickets
    then parent_with_subtasks
    else ticket

-- The ways in which the contract is violated, with what the message names (it sorts the known ones).
pub data Violation : Type 0 where
  no_such_state : (state : String) (known : List String) → Violation
  unknown_kind : (kind : String) (known : List String) → Violation
  no_risk : (kind : String) → Violation
  no_evidence : (kind : String) → Violation

-- The place that the landing areas bind an abstract landing to, or the landing itself.
abbrev bound : Option String → String → String
bound none landing = landing
bound (some area) landing = area

pub landing_for : Cartridge → String → Result Violation String
landing_for cartridge state = elim (lookup state cartridge.routing_states) [
  | none ↦ err (no_such_state state (keys cartridge.routing_states))
  | some landing ↦ ok (bound (lookup landing cartridge.landing_areas) landing)
]

pub record ChangeFacts : Type 0 where
  pub changed_lines : ℕ
  pub module_count : ℕ

-- `tier0_lines and changed_lines <= tier0_lines and module_count <= 1`
abbrev self_evident : ReviewConfig → ChangeFacts → Bool
self_evident config facts =
    let tier0_lines = or_else config.tier0_max_changed_lines 0 in
    not (nat_beq tier0_lines 0) && leb facts.changed_lines tier0_lines && leb facts.module_count 1

abbrev small : ReviewConfig → ChangeFacts → Bool
small config facts =
    leb facts.changed_lines (or_else config.tier1_max_changed_lines 150)
    && leb facts.module_count (or_else config.tier1_max_modules 1)

pub touches_danger : ReviewConfig → List String → Bool
touches_danger config surfaces = any (λ s. elem s surfaces) config.tier2_surfaces

pub is_trivial : ReviewConfig → List String → Bool
is_trivial config patterns = not (is_empty patterns) && subset patterns config.tier0_patterns

pub review_tier : Cartridge → ChangeFacts → List String → List String → ℕ
review_tier cartridge facts surfaces patterns =
    let config = cartridge.review in
    if touches_danger config surfaces
    then 2
    else if is_trivial config patterns
    then 0
    else if self_evident config facts
    then 0
    else if small config facts
    then 1
    else 2

-- What the caller gives `proposal`, the risk left out on purpose.
pub record Request : Type 0 where
  pub kind : String
  pub target : String
  pub evidence : List Evidence
  pub rationale : String
  pub suggested_action : String
  pub subject : Option String
  pub subject_new : Bool
  pub attempts : Option ℕ

abbrev pub at_risk : Request → String → Proposal
at_risk r risk = record {
  kind = r.kind;
  risk = risk;
  target = r.target;
  evidence = r.evidence;
  rationale = r.rationale;
  suggested_action = r.suggested_action;
  subject = r.subject;
  subject_new = r.subject_new;
  attempts = r.attempts;
  escalated_from = none;
}

abbrev with_spec : Cartridge → Request → Option Spec → Result Violation Proposal
with_spec cartridge r none = err (unknown_kind r.kind (keys cartridge.write_kinds))
with_spec cartridge r (some malformed) = err (unknown_kind r.kind (keys cartridge.write_kinds))
with_spec cartridge r (some (mapping none arm)) = err (no_risk r.kind)
with_spec cartridge r (some (mapping (some risk) arm)) =
    if is_empty r.evidence then err (no_evidence r.kind) else ok (at_risk r risk)

pub proposal : Cartridge → Request → Result Violation Proposal
proposal cartridge r = with_spec cartridge r (lookup r.kind cartridge.write_kinds)

-- What the args hold under `cartridge`: nothing, something else, or a mapping with or without a
-- `cartridge_sha`.
pub data CartridgeArg (A : Type 0) : Type 0 where
  missing_arg : CartridgeArg A
  unresolved : CartridgeArg A
  resolved : A → CartridgeArg A

pub require_cartridge : {A : Type 0} → CartridgeArg A → Result String A
require_cartridge missing_arg = err "args.cartridge is required and has no fallback"
require_cartridge unresolved = err "args.cartridge must be a RESOLVED cartridge"
require_cartridge (resolved c) = ok c

abbrev fetched : {A : Type 0} → Dict String A → List String → List A
fetched args [] = []
fetched args (name ∷ names) =
    let rest = fetched args names in elim (lookup name args) [ none ↦ rest | some v ↦ v ∷ rest ]

abbrev absent_names : {A : Type 0} → Dict String A → List String → List String
absent_names args names =
    select (λ name. elim (lookup name args) [ none ↦ true | some v ↦ false ]) names

-- `require`, where a key with the value None is no key: the values, or the names that are missing.
pub require : {A : Type 0} → Dict String A → List String → Result (List String) (List A)
require args names =
    if is_empty (absent_names args names)
    then ok (fetched args names)
    else err (absent_names args names)
