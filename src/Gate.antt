-- ===== src/Gate.antt =====
-- harness/gate.py: decisions on proposals, and their execution through the arms of the cartridge.
-- The disk's work store and the runner are arguments over a state of the world; what a person types, and
-- the minutes that it takes, come from outside.
pub mod Deciding
pub mod Applied
mod Examples
use coxswain_graphs.Prelude.{
  ℕ, zero, suc, ◌+◌, String, Bool, true, false, not, ◌&&◌, ◌||◌, Option, none, some, List, [], ◌∷◌,
  ◌++◌, map, is_empty, if◌then◌else◌, ◌==◌, string_eq, nat_eq, Text, codes, strip, lower_code, Dict,
  lookup, Result, ok, err,
}
use coxswain_graphs.Cartridge.{Spec, mapping, malformed}

-- The `apply` payload of a proposal: a field that is missing or of another type is `none`.
pub record Payload : Type 0 where
  pub path : Option Text
  pub state : Option Text
  pub item : Option Text

pub record Proposed : Type 0 where
  pub kind : String
  pub apply : Option Payload
  pub prompt : Text

pub apply_arm_for : String → Dict String Spec → Option String
apply_arm_for kind write_kinds = elim (lookup kind write_kinds) [
  | none ↦ none
  | some spec ↦ elim spec [ mapping risk arm ↦ arm | malformed ↦ none ]
]

pub fallback_role : String → Option String
fallback_role kind =
    if kind == "state_move"
    then some "work_state_arm"
    else if kind == "item_create" || kind == "item_update"
    then some "work_item_arm"
    else none

pub data Route : Type 0 where
  state_move item_create item_update : Text → Text → Route
  fallback : Route

abbrev route_at : String → Payload → Text → Route
route_at kind p path = elim p.state [
  | some state ↦ if kind == "state_move" then state_move path state else elim p.item [
    | none ↦ fallback
    | some item ↦
        if kind == "item_create"
        then item_create path item
        else if kind == "item_update"
        then item_update path item
        else fallback
  ]
  | none ↦ elim p.item [
    | none ↦ fallback
    | some item ↦
        if kind == "item_create"
        then item_create path item
        else if kind == "item_update"
        then item_update path item
        else fallback
  ]
]

pub workstore_route : String → Option Payload → Route
workstore_route kind none = fallback
workstore_route kind (some p) = elim p.path [ none ↦ fallback | some path ↦ route_at kind p path ]

-- The outside: `workstore`, the file system and the runner, over a world `W`. A call of the work store that
-- raises one of the errors that the gate catches returns its message; what `runner.run` raises is an `err`.
pub record Arms (W : Type 0) : Type 0 where
  pub set_state : Text → Text → W → Option Text × W
  pub exists : Text → W → Bool
  pub read_item : Text → W → Option Text
  pub write_item : Text → Text → W → Option Text × W
  pub tier_of : String → Result Text String
  pub run : String → String → Text → W → Result Text (Bool × Text) × W

-- `(applied, detail)`, or what was raised; and the world then.
abbrev pub Reply : Type 0 → Type 0
Reply W = Result Text (Bool × Text) × W

module _ {W : Type 0} (arms : Arms W) where
  abbrev settle : Text → Option Text × W → Reply W
  settle done_text (none, w) = (ok (true, done_text), w)
  settle done_text (some error, w) = (ok (false, error), w)

  pub apply_workstore : Route → W → Reply W
  apply_workstore fallback w = (ok (false, []), w)
  apply_workstore (state_move path state) w =
      settle (path ++ (codes " moved to state '" ++ (state ++ codes "'")))
        (arms.set_state path state w)
  apply_workstore (item_create path item) w =
      if arms.exists path w
      then (ok (false, codes "refused: " ++ (path ++ codes " already exists")), w)
      else settle (path ++ codes " created") (arms.write_item item path w)
  apply_workstore (item_update path item) w =
      if not (arms.exists path w)
      then (ok (false, codes "refused: " ++ (path ++ codes " does not exist")), w)
      else elim (arms.read_item path w) [
        | some error ↦ (ok (false, error), w)
        | none ↦ settle (path ++ codes " updated") (arms.write_item item path w)
      ]

  abbrev run_arm : String → Proposed → W → Reply W
  run_arm arm item w = elim (arms.tier_of arm) [
    | err refusal ↦ (ok (false, refusal), w)
    | ok tier ↦ arms.run arm tier item.prompt w
  ]

  abbrev by_workstore : Proposed → W → Reply W
  by_workstore item w = elim (workstore_route item.kind item.apply) [
    | fallback ↦ elim (fallback_role item.kind) [
      | none ↦ (
        ok (false, codes "the workstore arm does not apply to '" ++ (codes item.kind ++ codes "'")),
        w,
      )
      | some role ↦ run_arm role item w
    ]
    | state_move path state ↦ apply_workstore (state_move path state) w
    | item_create path new ↦ apply_workstore (item_create path new) w
    | item_update path new ↦ apply_workstore (item_update path new) w
  ]

  abbrev no_arm : String → String → Text
  no_arm kind arm =
      codes "no executable apply arm for '"
      ++ (codes kind ++ (codes "' (arm: " ++ (codes arm ++ codes ")")))

  pub auto_apply : Dict String Spec → Proposed → W → Reply W
  auto_apply write_kinds item w = elim (apply_arm_for item.kind write_kinds) [
    | none ↦ (ok (false, no_arm item.kind "None"), w)
    | some arm ↦
        if arm == "pr"
        then (ok (false, no_arm item.kind "pr"), w)
        else if arm == "shell"
        then (ok (false, codes "shell-armed kinds are applied by the run path that owns them"), w)
        else if arm == "workstore"
        then by_workstore item w
        else run_arm arm item w
  ]

pub data Decision : Type 0 where
  approved refused : Decision

-- A proposal with its decision, and whether it was edited.
pub record Decided : Type 0 where
  pub item : Proposed
  pub decision : Decision
  pub edited : Bool

-- `{"a": …, "e": …, "r": …}.get(answer[:1], ("refused", False))`
pub decision_of : Text → Decision × Bool
decision_of [] = (refused, false)
decision_of (c ∷ answer) =
    if c == b'a'
    then (approved, false)
    else if c == b'e'
    then (approved, true)
    else (refused, false)

-- `input(…).strip().lower() or "r"`
pub typed : Text → Text
typed line =
    let answer = map lower_code (strip line) in if is_empty answer then codes "r" else answer

-- Whether `--assume` is given and not empty.
abbrev pub assumed : Option Text → Text → Text
assumed none line = typed line
assumed (some answer) line = if is_empty answer then typed line else answer

abbrev pub head_or_empty : List Text → Text
head_or_empty [] = []
head_or_empty (l ∷ ls) = l

abbrev pub tail_of : List Text → List Text
tail_of [] = []
tail_of (l ∷ ls) = ls

-- `inputs` are the lines that a person types, one at each proposal.
pub gate : List Proposed → Option Text → List Text → List Decided
gate [] assume inputs = []
gate (item ∷ items) assume inputs =
    let d = decision_of (assumed assume (head_or_empty inputs)) in
    record { item = item; decision = d.0; edited = d.1 } ∷ gate items assume (tail_of inputs)

-- What `gate_diff` is called with for the ledger.
pub record Diff : Type 0 where
  pub item : Proposed
  pub decision : Decision
  pub applied : Bool
  pub edited : Bool

module _ {W : Type 0} (arms : Arms W) (write_kinds : Dict String Spec) where
  -- Whether a decision was executed: what the arm raises is not caught.
  abbrev pub executed : Decision → Proposed → W → Result Text Bool × W
  executed refused item w = (ok false, w)
  executed approved item w =
      let r = auto_apply arms write_kinds item w in
      elim r.0 [ err raised ↦ (err raised, r.1) | ok reply ↦ (ok reply.0, r.1) ]

  -- The entry of a decision before those of the later ones, which may have raised.
  abbrev pub entered : Decided → Bool → Result Text (List Diff) → Result Text (List Diff)
  entered d applied (err raised) = err raised
  entered d applied (ok diffs) = ok (
      record { item = d.item; decision = d.decision; applied = applied; edited = d.edited } ∷ diffs)

  pub apply_decisions : List Decided → W → Result Text (List Diff) × W
  apply_decisions [] w = (ok [], w)
  apply_decisions (d ∷ decisions) w =
      let e = executed d.decision d.item w in
      let rest = apply_decisions decisions e.1 in
      elim e.0 [ err raised ↦ (err raised, e.1) | ok applied ↦ (entered d applied rest.0, rest.1) ]
