-- ===== src/Escalate/Examples.antt =====
-- Patches that touch the rules and patches that do not, and the theorems at them.
use coxswain_graphs.Prelude.{
  String, ◌≡◌, refl, true, false, Option, none, some, List, [], ◌∷◌, ◌++◌, Text, codes, elem,
  is_empty, splitlines, lookup, ok, list_eq, nat_eq, string_eq, text_ord,
}
use coxswain_graphs.Cartridge.{Cartridge, mapping, Evidence, Proposal}
use coxswain_graphs.Escalate.{
  governance_paths, strip_prefix, header_path, git_header_paths, line_paths, paths_of,
  touched_paths, any_slice, segments_match, is_governed, governance_hits, carries_patch,
  escalate_one, escalate_self_modification, self_modification, governance_row,
}
use coxswain_graphs.Escalate.Governance.{IsRun}
use coxswain_graphs.Escalate.Sides.{header_line, old_side, new_side}
use coxswain_graphs.Escalate.Caught.{escalate_self_modification-catches}
use coxswain_graphs.Prelude.{all, not, length, split_at_code}
use coxswain_graphs.Escalate.Rewrite.{Pairwise, IsEscalated, escalate_self_modification-rewrites}

program : Unit {0}
unfolding governance_paths strip_prefix header_path git_header_paths line_paths paths_of
    touched_paths any_slice segments_match is_governed governance_hits carries_patch escalate_one
    escalate_self_modification
program = tt

-- A rename inside the harness, and an edit of a module whose name only begins like it.
abbrev patch : Text
patch =
    codes "diff --git a/harness/gate.py b/harness/gates.py"
    ++ (10 ∷ codes "--- a/harnessy/x.py" ++ (10 ∷ codes "+++ b/harnessy/x.py\t2026"))

touched :
    touched_paths patch
    ≡ codes "harness/gate.py" ∷ codes "harness/gates.py" ∷ codes "harnessy/x.py" ∷ []
unfolding program
touched = refl

hits_of_patch :
    governance_hits (touched_paths patch) (codes "ledger.jsonl") []
    ≡ codes "harness/gate.py" ∷ codes "harness/gates.py" ∷ []
unfolding program
hits_of_patch = refl

ledger_anywhere : is_governed (codes "ledger.jsonl") [] (codes "var/ledger.jsonl") ≡ true
unfolding program
ledger_anywhere = refl

abbrev draft : Proposal
draft = record {
  kind = "draft_pr_create";
  risk = "medium";
  target = "repo";
  evidence = [];
  rationale = "r";
  suggested_action = "open";
  subject = none;
  subject_new = false;
  attempts = none;
  escalated_from = none;
}

abbrev note : Proposal
note = record draft { kind = "comment_add"; risk = "low" }

abbrev cartridge : Cartridge
cartridge = record {
  write_kinds =
      ("draft_pr_create", mapping (some "medium") (some "pr"))
      ∷ ("self_modification", mapping (some "critical") (some "pr"))
      ∷ [];
  epic_threshold = record { phases_min = none; tickets_min = none; multi_repo = none };
  routing_states = [];
  landing_areas = [];
  review = record {
    tier2_surfaces = [];
    tier0_patterns = [];
    tier0_max_changed_lines = none;
    tier1_max_changed_lines = none;
    tier1_max_modules = none;
  };
}

abbrev row : Evidence
row = governance_row (codes "harness/gate.py" ∷ codes "harness/gates.py" ∷ [])

abbrev escalated : List Proposal
escalated =
    record draft {
      kind = "self_modification";
      risk = "critical";
      evidence = row ∷ [];
      escalated_from = some "draft_pr_create";
    }
    ∷ note
    ∷ []

run :
    escalate_self_modification (draft ∷ note ∷ []) patch cartridge (codes "ledger.jsonl")
    ≡ ok (escalated, codes "harness/gate.py" ∷ codes "harness/gates.py" ∷ [])
unfolding program
run = refl

some_hits : is_empty (governance_hits (touched_paths patch) (codes "ledger.jsonl") []) ≡ false
unfolding program
some_hits = refl

escalate_self_modification-rewrites_example :
    (risk : String) × (arm : Option String) × (lookup self_modification cartridge.write_kinds
      ≡ some (mapping (some risk) arm))
    × ((codes "harness/gate.py" ∷ codes "harness/gates.py" ∷ [])
        ≡ governance_hits (touched_paths patch) (codes "ledger.jsonl") [])
    × Pairwise
        (IsEscalated risk
          (governance_row (codes "harness/gate.py" ∷ codes "harness/gates.py" ∷ [])))
        (draft ∷ note ∷ [])
        escalated
escalate_self_modification-rewrites_example =
    escalate_self_modification-rewrites (draft ∷ note ∷ []) escalated patch cartridge
      (codes "ledger.jsonl") (codes "harness/gate.py" ∷ codes "harness/gates.py" ∷ []) some_hits run

-- A file header that names a module of the rules below another directory.
abbrev policy : Text
policy = codes "src/core/policy.py"

abbrev edit : Text
edit = header_line old_side policy ++ (10 ∷ header_line new_side policy)

abbrev caught : List Proposal
caught =
    record draft {
      kind = "self_modification";
      risk = "critical";
      evidence = governance_row (policy ∷ []) ∷ [];
      escalated_from = some "draft_pr_create";
    }
    ∷ note
    ∷ []

line_there : elem (header_line new_side policy) (splitlines edit) ≡ true
line_there = refl

policy-IsRun : IsRun (split_at_code b'/' policy) (codes "core" ∷ codes "policy.py" ∷ [])
policy-IsRun = record { before = codes "src" ∷ []; after = []; split = refl }

run_edit :
    escalate_self_modification (draft ∷ note ∷ []) edit cartridge (codes "ledger.jsonl")
    ≡ ok (caught, policy ∷ [])
unfolding program
run_edit = refl

escalate_self_modification-catches_example :
    (elem policy (policy ∷ []) ≡ true)
    × (all (λ x. not (carries_patch x.kind)) caught ≡ true)
    × (length caught ≡ length (draft ∷ note ∷ []))
escalate_self_modification-catches_example =
    escalate_self_modification-catches (draft ∷ note ∷ []) caught edit cartridge
      (codes "ledger.jsonl") (policy ∷ []) new_side policy (codes "core" ∷ codes "policy.py" ∷ [])
      line_there refl refl policy-IsRun run_edit
