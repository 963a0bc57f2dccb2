-- ===== src/Checks/Reasons.antt =====
-- When a run of the checks has a reason to quarantine, and where a refused build goes next.
use coxswain_graphs.Prelude.{
  ◌≡◌, ◌↔◌, refl, Bool, true, false, not, ◌||◌, ◌&&◌, none, some, List, [], ◌∷◌, ◌++◌, map, any,
  all, is_empty, if◌then◌else◌, list_eq, string_eq, nat_eq, Text, arith, ◌==◌, codes, starts_with,
  contains, join, splitlines, select, elem, text_eq, Bool-cases, Option-cases, inl, inr,
}
use coxswain_graphs.Checks.{
  CheckResult, Check, all_passed, quarantine_reason, failures_outside, failed_test_files, is_placed,
  norm, quarantine, style_pass, revise, refix_route, is_fault, is_harness_fault, fault_reason,
  failure_reason, fault_prefix, outside_prefix, detail_of, first_line, tail_of_first, lint_names, ℤ,
  is_positive, failing,
}

all-any : (rs : List CheckResult) → all (λ r. r.passed) rs ≡ not (any (λ r. not r.passed) rs)
all-any [] = refl
all-any (r ∷ rs) = ground (arith, all-any rs)

-- There is a reason to quarantine exactly where some check did not pass.
pub quarantine_reason-none :
    (results : List CheckResult) (surfaces patch_files : List Text)
    → (quarantine_reason results surfaces patch_files ≡ none)
      ↔ (any (λ r. not r.passed) results ≡ false)
unfolding quarantine_reason all_passed
quarantine_reason-none results surfaces patch_files = ground (arith, all-any results)

-- What is reported as outside is the whole list of failing files, and each file of it is relative and under
-- none of the surfaces and of the patch's files.
pub failures_outside-outside :
    (output : Text) (surfaces patch_files : List Text)
    → any
        (is_placed (map norm (surfaces ++ patch_files)))
        (failures_outside output surfaces patch_files)
      ≡ false
unfolding failures_outside
failures_outside-outside output surfaces patch_files =
    split (is_empty (map norm (surfaces ++ patch_files)))
      (any (is_placed (map norm (surfaces ++ patch_files))) (failed_test_files output)) refl
  where
    split :
        (b c : Bool)
        → any (is_placed (map norm (surfaces ++ patch_files))) (failed_test_files output) ≡ c
        → any
            (is_placed (map norm (surfaces ++ patch_files)))
            (if b || c then [] else failed_test_files output)
          ≡ false
    split true c h = refl
    split false true h = refl
    split false false h = h

-- A check that ran and failed.
abbrev pub is_real : CheckResult → Bool
is_real r = not r.passed && not (is_fault r)

-- A check is a matter of style where an entry of its name has a `fix` command, or is named lint or ruff.
abbrev pub is_style : List Check → CheckResult → Bool
is_style checks r =
    any (λ c. c.name == r.name && (c.fix || (c.name == codes "lint" || c.name == codes "ruff")))
      checks

-- A check that ran out of time says so in the words of a harness fault.
abbrev pub is_reported : CheckResult → Bool
is_reported r = not (r.outcome == "timed_out") || is_harness_fault r.error

fault_reason-fault :
    (rs : List CheckResult)
    → all is_reported rs ≡ true
    → any is_fault rs ≡ true
    → is_harness_fault (fault_reason rs) ≡ true
unfolding is_harness_fault fault_reason
fault_reason-fault [] reported h = absurd (ground arith)
fault_reason-fault (r ∷ rs) reported h = elim (Bool-cases (is_fault r)) [
  | inr sound ↦ ground (arith, sound, fault_reason-fault rs)
  | inl fault ↦ elim (Bool-cases (r.outcome == "timed_out")) [
    | inl late ↦ ground (arith, fault, late)
    | inr early ↦ rw (fault, early) refl
  ]
]

failure_reason-real :
    (failed : List CheckResult) → is_harness_fault (failure_reason failed [] []) ≡ false
unfolding is_harness_fault failure_reason
failure_reason-real failed = split (
    if all (λ t. contains t (codes "short test summary info")) (map (λ r. r.output_tail) failed)
    then failures_outside (join (10 ∷ []) (map (λ r. r.output_tail) failed)) [] []
    else [])
  where
    split :
        (outside : List Text)
        → starts_with
            (if not (is_empty outside)
              then outside_prefix ++ join (codes ", ") outside
              else (codes "configured check failed: "
                  ++ (join (codes ", ") (map (λ r. r.name) failed)
                      ++ detail_of (first_line (splitlines (tail_of_first failed))))))
            fault_prefix
          ≡ false
    split [] = refl
    split (x ∷ outside) = refl

is_empty-select :
    {A : Type 0} (p : A → Bool) (xs : List A) → is_empty (select p xs) ≡ not (any p xs)
is_empty-select p [] = refl
is_empty-select p (x ∷ xs) = ground (arith, is_empty-select p xs)

any-real :
    (rs : List CheckResult)
    → any (λ r. not r.passed) rs ≡ true
    → any is_real rs ≡ false
    → any is_fault rs ≡ true
any-real [] h none_real = absurd (ground arith)
any-real (r ∷ rs) h none_real = ground (arith, any-real rs)

any-failed : (rs : List CheckResult) → any is_real rs ≡ true → any (λ r. not r.passed) rs ≡ true
any-failed [] h = absurd (ground arith)
any-failed (r ∷ rs) h = ground (arith, any-failed rs)

-- The reason is a fault of the harness exactly where no failing check ran.
reason_kind :
    (results : List CheckResult) (reason : Text)
    → all is_reported results ≡ true
    → quarantine_reason results [] [] ≡ some reason
    → is_harness_fault reason ≡ not (any is_real results)
unfolding quarantine_reason all_passed
reason_kind results reason reported h = elim (Bool-cases (any is_real results)) [
  | inl real ↦
      ground
        (arith, h, real, is_empty-select is_real results, failure_reason-real (failing results))
  | inr faults ↦
      let failed : any (λ r. not r.passed) results ≡ true = ground (arith, h, all-any results) in
      ground (
        arith,
        h,
        failed,
        faults,
        all-any results,
        is_empty-select is_real results,
        fault_reason-fault results reported (any-real results failed faults),
      )
]

elem-lint_names :
    (checks : List Check) (r : CheckResult) → elem r.name (lint_names checks) ≡ is_style checks r
elem-lint_names [] r = refl
elem-lint_names (c ∷ checks) r =
    ground (
      arith,
      elem-lint_names checks r,
      text_eq.beq_iff c.name r.name,
      text_eq.beq_iff r.name c.name,
    )

all-same :
    (p q : CheckResult → Bool) (rs : List CheckResult)
    → ((r : CheckResult) → p r ≡ q r)
    → all p (failing rs) ≡ all (λ r. r.passed || q r) rs
all-same p q [] h = refl
all-same p q (r ∷ rs) h = ground (arith, h r, all-same p q rs h)

-- Where a check that ran out of time says so as a harness fault, a build goes on exactly where some check ran
-- and failed and an attempt is left: by the style pass where that is bound and every check that did not
-- pass is a matter of style, and by a revision otherwise. In every other case it is quarantined.
pub refix_route-real :
    (results : List CheckResult) (checks : List Check) (attempts_left : ℤ) (style_bound : Bool)
    → all is_reported results ≡ true
    → refix_route results checks attempts_left style_bound ≡ (
        if any is_real results && is_positive attempts_left
        then (if style_bound && all (λ r. r.passed || is_style checks r) results
            then style_pass
            else revise)
        else quarantine)
unfolding refix_route
refix_route-real results checks attempts_left style_bound reported =
    elim (Option-cases (quarantine_reason results [] [])) [
      | inl calm ↦ ground (arith, calm, quarantine_reason-none results [] [], any-failed results)
      | inr (reason, why) ↦ ground (
        arith,
        why,
        reason_kind results reason reported why,
        all-same (λ r. elem r.name (lint_names checks)) (is_style checks) results
            (elem-lint_names checks),
      )
    ]
