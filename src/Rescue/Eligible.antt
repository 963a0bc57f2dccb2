-- ===== src/Rescue/Eligible.antt =====
-- When a rescue may run, and that the store never rewrites a cause.
use coxswain_graphs.Prelude.{
  ◌≡◌, ◌↔◌, refl, true, not, ◌&&◌, Option, some, List, [], ◌∷◌, any, all, ◌==◌, option_eq,
  string_eq, Text, arith,
}
use coxswain_graphs.Rescue.{
  Attempt, may_run, eligible, has_patch, last_cause, rescue_kind, is_given, with_cause,
  with_stored_causes, StoredRow,
}

-- A rescue may run exactly where a patch is kept, the last attempt on the body was the harness's fault, and no
-- rescue of it has failed.
pub eligible-may_run :
    (attempts : List Attempt) (patch : Option Text)
    → (eligible attempts patch ≡ may_run) ↔ (
        (has_patch patch
          && (last_cause attempts == some "harness"
              && not (any (λ a. a.kind == rescue_kind) attempts)))
        ≡ true)
unfolding eligible
eligible-may_run [] patch = ground arith
eligible-may_run (a ∷ attempts) patch = ground arith

with_cause-given :
    (rows : List StoredRow) (a : Attempt) → is_given a.cause ≡ true → with_cause rows a ≡ a
unfolding with_cause
with_cause-given rows a h = ground arith

-- Where every attempt has a cause of its own, the store's rows change nothing.
pub with_stored_causes-given :
    (attempts : List Attempt) (rows : List StoredRow)
    → all (λ a. is_given a.cause) attempts ≡ true
    → with_stored_causes attempts rows ≡ attempts
unfolding with_stored_causes
with_stored_causes-given [] rows h = refl
with_stored_causes-given (a ∷ attempts) rows h =
    ground (arith, with_cause-given rows a, with_stored_causes-given attempts rows)
