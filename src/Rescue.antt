-- ===== src/Rescue.antt =====
-- harness/rescue_select.py, and the stored attempts that harness/epic.py folds into an item for it.
-- `attempts_on_current_body` and `body_sha` are the core library's: their answers are arguments.
pub mod Eligible
mod Examples
use coxswain_graphs.Prelude.{
  ℕ, zero, suc, ◌+◌, ◌-◌, String, Bool, true, false, not, ◌&&◌, ◌||◌, Option, none, some, List, [],
  ◌∷◌, ◌++◌, map, any, select, drop, length, is_empty, if◌then◌else◌, ◌==◌, option_eq, list_eq,
  string_eq, nat_eq, nat_ord, Text, text_ord, codes, starts_with, strip, sort_by, text_leb,
}

-- An attempt on a task. A missing cause is `none`.
pub record Attempt : Type 0 where
  pub run : Text
  pub phase : Text
  pub kind : String
  pub reason : Text
  pub ts : Text
  pub cause : Option String
  pub body_sha : Option Text

abbrev pub rescue_kind : String
rescue_kind = "rescue_failed"

-- `build.patch` of a result: `none` where a mapping on the way or the text is missing.
pub patch_of : Option (Option Text) → Option Text
patch_of none = none
patch_of (some none) = none
patch_of (some (some patch)) = if is_empty (strip patch) then none else some patch

pub data Verdict : Type 0 where
  no_patch no_attempts already_failed may_run : Verdict
  other_cause : Option String → Verdict

-- `attempts[-1]`
abbrev pub last_cause : List Attempt → Option String
last_cause [] = none
last_cause (a ∷ []) = a.cause
last_cause (a ∷ b ∷ bs) = last_cause (b ∷ bs)

abbrev pub has_patch : Option Text → Bool
has_patch none = false
has_patch (some patch) = not (is_empty (strip patch))

-- `eligible`, given the attempts on the current body.
pub eligible : List Attempt → Option Text → Verdict
eligible attempts patch =
    if not (has_patch patch)
    then no_patch
    else if is_empty attempts
    then no_attempts
    else if not (last_cause attempts == some "harness")
    then other_cause (last_cause attempts)
    else if any (λ a. a.kind == rescue_kind) attempts
    then already_failed
    else may_run

pub rescue_cause : Bool → Text → String × String
rescue_cause failed_checks reason =
    if starts_with reason (codes "harness fault:")
    then ("harness", "rule: rescue harness fault")
    else if failed_checks
    then ("code", "rule: rescue checks failed")
    else ("review", "rule: rescue review revised")

-- A row of the store's attempts.
pub record StoredRow : Type 0 where
  pub run_id : Text
  pub phase_id : Text
  pub seq : ℕ
  pub kind : String
  pub reason : Text
  pub ts : Text
  pub cause : Option String

-- `newest[(run, phase)]`: the last row of the key in the order of `seq`.
abbrev newest : Text → Text → List StoredRow → Option String
newest run phase [] = none
newest run phase (r ∷ rows) =
    let later = newest run phase rows in
    if any (λ x. x.run_id == run && x.phase_id == phase) rows
    then later
    else if r.run_id == run && r.phase_id == phase
    then r.cause
    else none

-- A cause that Python reads as true.
abbrev pub is_given : Option String → Bool
is_given none = false
is_given (some cause) = not (cause == "")

pub with_cause : List StoredRow → Attempt → Attempt
with_cause rows a =
    let cause = newest a.run a.phase (sort_by (λ r. r.seq) rows) in
    if not (is_given a.cause) && is_given cause then record a { cause = cause } else a

-- The attempts of `with_stored_causes`.
pub with_stored_causes : List Attempt → List StoredRow → List Attempt
with_stored_causes attempts rows = map (with_cause rows) attempts

-- The least `ts` of the attempts on the current body; a missing sha is the current one.
abbrev since : Text → List Attempt → Option Text
since current [] = none
since current (a ∷ attempts) =
    let later = since current attempts in
    if elim a.body_sha [ none ↦ true | some sha ↦ sha == current ]
    then elim later [ none ↦ some a.ts | some ts ↦ if text_leb a.ts ts then some a.ts else some ts ]
    else later

abbrev stamped : Text → Option Text → StoredRow → Attempt
stamped current least row = record {
  run = row.run_id;
  phase = row.phase_id;
  kind = row.kind;
  reason = row.reason;
  ts = row.ts;
  cause = row.cause;
  body_sha = some (elim least [
    | none ↦ codes "before the current body"
    | some ts ↦ if text_leb ts row.ts then current else codes "before the current body"
  ]);
}

-- The attempts of `with_stored_rescues`, given the sha of the current body.
pub with_stored_rescues : Text → List Attempt → List StoredRow → List Attempt
with_stored_rescues current attempts rows =
    sort_by (λ a. a.ts)
      (attempts
        ++ map (stamped current (since current attempts))
            (select (λ r. r.kind == rescue_kind) rows))
