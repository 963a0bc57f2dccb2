-- ===== src/FixLoop/Handover.antt =====
-- graphs/delivery/lifecycle_propose.py: the handoff between build and review.
use coxswain_graphs.Prelude.{
  Bool, false, not, ◌&&◌, ◌||◌, Option, none, some, List, [], ◌∷◌, ◌++◌, map, select, if◌then◌else◌,
  Text, codes, strip, join, Result, ok, err, is_empty,
}
use coxswain_graphs.Review.{revise, unasked, Round, Fault}
use coxswain_graphs.FixLoop.Resume.{Build}

-- HANDOFF_SCHEMA, once the missing items are settled.
pub record Handoff : Type 0 where
  pub complete : Bool
  pub blocking : Bool
  pub missing : List Text
  pub discharged : List Text
  pub brief : Text

-- The exceptions that leave the run.
pub data Outside : Type 0 where
  build_stop contract_violation runner_error : Outside

-- The handoff node: its answer, a stop at its budget, or its failure.
pub data Handed : Type 0 where
  handed : Handoff → Handed
  held : Outside → Handed
  handoff_fails : Fault → Handed

-- The line that tells of a measured item, whether an item asks for a command that the build cannot run,
-- and the deviations from the size targets.
pub record Shuttle : Type 0 where
  pub measured : Build → Text → Option Text
  pub is_impossible : Text → Bool
  pub deviations : Build → List Text

abbrev pub briefed : Text → List Text → Text
briefed brief [] = brief
briefed brief (d ∷ ds) =
    if is_empty brief then join (10 ∷ []) (d ∷ ds) else join (10 ∷ []) (brief ∷ d ∷ ds)

-- `prune_missing`: the items that still stand, and the lines of those that do not.
abbrev pub unmeasured : Shuttle → Build → List Text → List Text
unmeasured shuttle build [] = []
unmeasured shuttle build (item ∷ items) =
    let rest = unmeasured shuttle build items in
    elim (shuttle.measured build item) [ none ↦ item ∷ rest | some line ↦ rest ]

abbrev pub told : Shuttle → Build → List Text → List Text
told shuttle build [] = []
told shuttle build (item ∷ items) =
    let rest = told shuttle build items in
    elim (shuttle.measured build item) [ none ↦ rest | some line ↦ line ∷ rest ]

-- The answer once what is measured is discharged.
unfoldable pub discharged_by : Shuttle → Build → Handoff → Handoff
discharged_by shuttle build h =
    let pruned = unmeasured shuttle build h.missing in
    let kept = select (λ m. not (shuttle.is_impossible m)) pruned in
    record h {
      complete = h.complete || is_empty kept;
      blocking = h.blocking && not (is_empty kept);
      missing = kept;
      discharged =
          told shuttle build h.missing
          ++ map (λ m. m ++ codes " (not runnable in the build's session)")
              (select shuttle.is_impossible pruned);
      brief = briefed h.brief (shuttle.deviations build);
    }

abbrev pub is_blocked : Build → Handoff → Bool
is_blocked build h = not h.complete && (is_empty (strip build.patch) || h.blocking)

-- `_handoff`: an error is the ContractViolation's handoff, or what the node raised.
unfoldable pub settle : Shuttle → Build → Handed → Result Handed Handoff
settle shuttle build (handed h) =
    let settled = discharged_by shuttle build h in
    if is_blocked build settled then err (handed settled) else ok settled
settle shuttle build (held out) = err (held out)
settle shuttle build (handoff_fails fault) = err (handoff_fails fault)

abbrev real_items : List Text → List Text
real_items = select (λ m. not (is_empty (strip m)))

abbrev missing_text : List Text → Text
missing_text [] = codes "unspecified"
missing_text (m ∷ ms) = join (codes ", ") (m ∷ ms)

abbrev pub refusal : List Text → Text
refusal missing = codes "the handoff refused for missing evidence: " ++ missing_text missing

-- `_handoff_critique`
abbrev pub handoff_critique : Handoff → Round
handoff_critique h =
    let missing = real_items h.missing in
    record {
      review = record {
        verdict = revise;
        findings =
            map
              (λ item. record {
                charter_principle = codes "handoff evidence";
                detail = item;
                file = [];
              })
              missing;
        rationale = if is_empty h.brief then refusal missing else h.brief;
      };
      adversary = none;
      arbitration = unasked;
      verdict = revise;
      placeholder = false;
      quarantine = false;
    }
