-- ===== src/Gate/Examples.antt =====
-- A world that counts its writes, and the theorems at it.
use coxswain_graphs.Prelude.{
  ℕ, suc, String, Bool, ◌≡◌, refl, true, false, none, some, List, [], ◌∷◌, map, codes, Dict, ok,
  err, if◌then◌else◌, ◌==◌, string_eq,
}
use coxswain_graphs.Cartridge.{Spec, mapping}
use coxswain_graphs.Gate.{
  Proposed, Arms, apply_arm_for, fallback_role, workstore_route, apply_workstore, auto_apply,
  Decision, approved, refused, Decided, decision_of, typed, gate, apply_decisions, Diff,
}
use coxswain_graphs.Gate.Applied.{Executes, apply_decisions-Executes, apply_decisions-refused}

program : Unit {0}
unfolding apply_arm_for fallback_role workstore_route apply_workstore auto_apply decision_of typed
    gate apply_decisions
program = tt

abbrev counting : Arms ℕ
counting = record {
  set_state = λ path state w. (none, suc w);
  exists = λ path w. false;
  read_item = λ path w. none;
  write_item = λ item path w. (none, suc w);
  tier_of = λ role. ok "standard";
  run = λ role tier prompt w.
      if role == "broken" then (err (codes "no reply"), suc w) else (ok (true, []), suc w);
}

abbrev kinds : Dict String Spec
kinds =
    ("item_create", mapping (some "low") (some "workstore"))
    ∷ ("pr_open", mapping none (some "pr"))
    ∷ ("note", mapping none (some "broken"))
    ∷ []

abbrev proposed : String → Proposed
proposed kind = record {
  kind = kind;
  apply = some (record { path = some (codes "w/a.md"); state = none; item = some (codes "x") });
  prompt = [];
}

abbrev decided : Decision → String → Decided
decided decision kind = record { item = proposed kind; decision = decision; edited = false }

abbrev mixed : List Decided
mixed =
    decided approved "item_create" ∷ decided refused "item_create" ∷ decided approved "pr_open" ∷ []

abbrev entry : Decision → Bool → String → Diff
entry decision applied kind = record {
  item = proposed kind;
  decision = decision;
  applied = applied;
  edited = false;
}

executed_mixed : apply_decisions counting kinds mixed 0 ≡ (
  ok (
      entry approved true "item_create"
      ∷ entry refused false "item_create"
      ∷ entry approved false "pr_open"
      ∷ []),
  1,
)
unfolding program
executed_mixed = refl

-- What the runner raises ends the run: the work item before it is written, the one after it is not, and there
-- are no entries.
broken_off :
    apply_decisions counting kinds
      (decided approved "item_create"
        ∷ decided approved "note"
        ∷ decided approved "item_create"
        ∷ [])
      0
    ≡ (err (codes "no reply"), 2)
unfolding program
broken_off = refl

answers :
    map
      (λ d. d.decision)
      (gate
        (proposed "a" ∷ proposed "b" ∷ proposed "c" ∷ [])
        none
        (codes " Approve" ∷ codes "" ∷ codes "yes" ∷ []))
    ≡ approved ∷ refused ∷ refused ∷ []
unfolding program
answers = refl

apply_decisions-Executes_example :
    let after = apply_decisions counting kinds mixed 0 in
    Executes counting kinds mixed 0 after.0 after.1
apply_decisions-Executes_example = apply_decisions-Executes counting kinds mixed 0

apply_decisions-refused_example :
    (apply_decisions counting kinds (decided refused "item_create" ∷ []) 3).1 ≡ 3
apply_decisions-refused_example =
    apply_decisions-refused counting kinds (decided refused "item_create" ∷ []) 3 refl
