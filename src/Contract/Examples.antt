-- ===== src/Contract/Examples.antt =====
-- A cartridge, changes of several sizes, and the theorems at them.
use coxswain_graphs.Prelude.{
  ℕ, String, ◌≡◌, refl, false, Option, none, some, [], ◌∷◌, lookup, is_empty, ok, err, codes,
  string_eq,
}
use coxswain_graphs.Cartridge.{Cartridge, mapping}
use coxswain_graphs.Contract.{
  epic, epic_shape, landing_for, ChangeFacts, touches_danger, is_trivial, review_tier, Request,
  proposal, at_risk, no_evidence, unknown_kind, no_such_state, require,
}
use coxswain_graphs.Contract.Proposing.{proposal-authorised}

program : Unit {0}
unfolding epic_shape landing_for touches_danger is_trivial review_tier proposal require
program = tt

abbrev cartridge : Cartridge
cartridge = record {
  write_kinds =
      ("item_update", mapping (some "low") (some "workstore")) ∷ ("odd", mapping none none) ∷ [];
  epic_threshold = record { phases_min = none; tickets_min = some 5; multi_repo = none };
  routing_states = ("active", "planned_work") ∷ ("unscoped", "inbox") ∷ [];
  landing_areas = ("planned_work", "work/") ∷ [];
  review = record {
    tier2_surfaces = "core/policy.py" ∷ [];
    tier0_patterns = "docs" ∷ [];
    tier0_max_changed_lines = some 12;
    tier1_max_changed_lines = none;
    tier1_max_modules = none;
  };
}

abbrev facts : ℕ → ℕ → ChangeFacts
facts lines modules = record { changed_lines = lines; module_count = modules }

tiers :
    (review_tier cartridge (facts 12 1) [] [] ≡ 0)
    × (review_tier cartridge (facts 13 1) [] [] ≡ 1)
    × (review_tier cartridge (facts 151 1) [] [] ≡ 2)
    × (review_tier cartridge (facts 4 1) ("core/policy.py" ∷ []) ("docs" ∷ []) ≡ 2)
unfolding program
tiers = (refl, refl, refl, refl)

required :
    (require {A = ℕ} (("date", 1) ∷ ("ticket", 2) ∷ []) ("ticket" ∷ "date" ∷ []) ≡ ok (2 ∷ 1 ∷ []))
    × (require {A = ℕ} (("date", 1) ∷ []) ("a" ∷ "date" ∷ "b" ∷ []) ≡ err ("a" ∷ "b" ∷ []))
unfolding program
required = (refl, refl)

landings :
    (landing_for cartridge "active" ≡ ok "work/")
    × (landing_for cartridge "unscoped" ≡ ok "inbox")
    × (landing_for cartridge "lost" ≡ err (no_such_state "lost" ("active" ∷ "unscoped" ∷ [])))
unfolding program
landings = (refl, refl, refl)

five_tickets : epic_shape cartridge.epic_threshold 1 5 1 ≡ epic
unfolding program
five_tickets = refl

abbrev request : Request
request = record {
  kind = "item_update";
  target = "t1";
  evidence = record { check = "c"; output = codes "o" } ∷ [];
  rationale = "r";
  suggested_action = "a";
  subject = none;
  subject_new = false;
  attempts = some 2;
}

built : proposal cartridge request ≡ ok (at_risk request "low")
unfolding program
built = refl

refusals :
    (proposal cartridge (record request { evidence = [] }) ≡ err (no_evidence "item_update"))
    × (proposal cartridge (record request { kind = "merge_main" })
        ≡ err (unknown_kind "merge_main" ("item_update" ∷ "odd" ∷ [])))
unfolding program
refusals = (refl, refl)

proposal-authorised_example :
    (arm : Option String) × (lookup "item_update" cartridge.write_kinds
      ≡ some (mapping (some "low") arm))
    × (◌≡◌ {A = String} "item_update" request.kind)
    × (is_empty request.evidence ≡ false)
    × (request.evidence ≡ request.evidence)
    × (request.target ≡ request.target)
    × (request.subject ≡ request.subject)
    × (request.subject_new ≡ request.subject_new)
proposal-authorised_example = proposal-authorised cartridge request (at_risk request "low") built
