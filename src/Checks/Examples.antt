-- ===== src/Checks/Examples.antt =====
-- Results of checks, and the theorems at them.
use coxswain_graphs.Prelude.{
  String, if◌then◌else◌, ◌&&◌, ◌||◌, all, ◌≡◌, refl, Bool, true, false, none, some, [], ◌∷◌, ◌++◌,
  any, Text, codes, string_eq, list_eq, nat_eq,
}
use coxswain_graphs.Checks.{
  CheckResult, all_passed, norm, covers, node_file, failed_test_files, failures_outside,
  is_harness_fault, fault_reason, failure_reason, quarantine_reason, quarantine, style_pass, revise,
  refix_route, pos, negsuc, is_positive,
}
use coxswain_graphs.Checks.Reasons.{is_real, is_style, refix_route-real}

program : Unit {0}
unfolding all_passed norm covers node_file failed_test_files failures_outside is_harness_fault
    fault_reason failure_reason quarantine_reason refix_route
program = tt

abbrev result : String → Bool → String → Text → CheckResult
result name passed outcome tail = record {
  name = codes name;
  passed = passed;
  outcome = outcome;
  error = codes "gone";
  output_tail = tail;
}

abbrev tail_text : Text
tail_text = codes "short test summary info" ++ (10 ∷ codes "FAILED ./tests/a.py::test_b - x")

abbrev unit_failed : CheckResult
unit_failed = result "unit" false "failed" tail_text

found : failed_test_files tail_text ≡ codes "tests/a.py" ∷ []
unfolding program
found = refl

reasons :
    (quarantine_reason (unit_failed ∷ []) (codes "src" ∷ []) []
      ≡ some (codes "configured check failed outside surfaces: tests/a.py"))
    × (quarantine_reason (result "lint" false "unrunnable" [] ∷ []) [] []
        ≡ some (codes "harness fault: check 'lint' could not run: gone"))
    × (quarantine_reason (result "lint" true "ok" [] ∷ []) [] [] ≡ none)
unfolding program
reasons = (refl, refl, refl)

routes :
    (refix_route (unit_failed ∷ []) [] (pos 2) true ≡ revise)
    × (refix_route
          (result "lint" false "failed" [] ∷ [])
          (record { name = codes "lint"; fix = false } ∷ [])
          (pos 1)
          true
        ≡ style_pass)
    × (refix_route (unit_failed ∷ []) [] (pos 0) true ≡ quarantine)
    × (refix_route (result "lint" false "unrunnable" [] ∷ []) [] (pos 2) true ≡ quarantine)
unfolding program
routes = (refl, refl, refl, refl)

-- An attempt that is overspent by a half is none.
overspent : refix_route (unit_failed ∷ []) [] (negsuc 0) true ≡ quarantine
unfolding program
overspent = refl

refix_route-real_example : refix_route (unit_failed ∷ []) [] (pos 2) true ≡ (
    if any is_real (unit_failed ∷ []) && is_positive (pos 2)
    then (if true && all (λ r. r.passed || is_style [] r) (unit_failed ∷ [])
        then style_pass
        else revise)
    else quarantine)
refix_route-real_example = refix_route-real (unit_failed ∷ []) [] (pos 2) true refl
