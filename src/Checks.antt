-- ===== src/Checks.antt =====
-- harness/checks.py: what the results of the configured checks mean. Running them is left out.
pub mod Entries
pub mod Reasons
mod Examples
use coxswain_graphs.Prelude.{
  ℕ, zero, suc, ◌+◌, String, Bool, true, false, not, ◌&&◌, ◌||◌, Option, none, some, List, [], ◌∷◌,
  ◌++◌, map, any, all, select, elem, is_empty, dedup, drop, length, if◌then◌else◌, ◌==◌, list_eq,
  string_eq, nat_eq, nat_beq, Text, codes, starts_with, contains, strip, join, splitlines,
  split_at_code, is_space, rstrip_by, sort, text_ord, ltb,
}

pub record CheckResult : Type 0 where
  pub name : Text
  pub passed : Bool
  pub outcome : String
  pub error : Text
  pub output_tail : Text

pub record Check : Type 0 where
  pub name : Text
  pub fix : Bool

pub all_passed : List CheckResult → Bool
all_passed results = all (λ r. r.passed) results

abbrev pub fault_prefix : Text
fault_prefix = codes "harness fault:"

abbrev pub outside_prefix : Text
outside_prefix = codes "configured check failed outside surfaces: "

pub is_harness_fault : Text → Bool
is_harness_fault reason = starts_with reason fault_prefix

-- `path.removeprefix("./").rstrip("/")`
pub norm : Text → Text
norm path =
    rstrip_by (λ c. nat_beq c b'/') (if starts_with path (codes "./") then drop 2 path else path)

pub covers : Text → Text → Bool
covers path root =
    is_empty root || root == codes "." || path == root || starts_with path (root ++ (b'/' ∷ []))

-- `(\S+?)::` at the start of a text, with the characters matched so far.
pub node_file : Text → Text → Option Text
node_file seen [] = none
node_file seen (c ∷ s) =
    let later = node_file (seen ++ (c ∷ [])) s in
    if not (is_empty seen) && starts_with (c ∷ s) (codes "::")
    then some seen
    else if is_space c
    then none
    else later

abbrev failed_on : List Text → List Text
failed_on [] = []
failed_on (line ∷ lines) =
    let rest = failed_on lines in
    if starts_with line (codes "FAILED ")
    then elim (node_file [] (drop 7 line)) [ none ↦ rest | some file ↦ norm file ∷ rest ]
    else rest

pub failed_test_files : Text → List Text
failed_test_files output = sort (dedup (failed_on (split_at_code 10 output)))

abbrev pub is_placed : List Text → Text → Bool
is_placed roots file = starts_with file (codes "/") || any (λ r. covers file r) roots

pub failures_outside : Text → List Text → List Text → List Text
failures_outside output surfaces patch_files =
    let files = failed_test_files output in
    let roots = map norm (surfaces ++ patch_files) in
    if is_empty roots || any (is_placed roots) files then [] else files

abbrev pub is_fault : CheckResult → Bool
is_fault r = elem r.outcome ("unrunnable" ∷ "timed_out" ∷ [])

abbrev pub failing : List CheckResult → List CheckResult
failing results = select (λ r. not r.passed) results

abbrev pub real_failures : List CheckResult → List CheckResult
real_failures results = select (λ r. not r.passed && not (is_fault r)) results

-- The reason at the first result with a fault.
pub fault_reason : List CheckResult → Text
fault_reason [] = []
fault_reason (r ∷ results) =
    let later = fault_reason results in
    if not (is_fault r)
    then later
    else if r.outcome == "timed_out"
    then r.error
    else fault_prefix ++ (codes " check '" ++ (r.name ++ (codes "' could not run: " ++ r.error)))

abbrev pub first_line : List Text → Text
first_line [] = []
first_line (l ∷ ls) = let rest = first_line ls in if is_empty (strip l) then rest else l

abbrev pub tail_of_first : List CheckResult → Text
tail_of_first [] = []
tail_of_first (r ∷ rs) = r.output_tail

-- The dash before the detail is U+2014.
abbrev pub detail_of : Text → Text
detail_of line = if is_empty line then [] else 32 ∷ 8212 ∷ 32 ∷ line

pub failure_reason : List CheckResult → List Text → List Text → Text
failure_reason failed surfaces patch_files =
    let tails = map (λ r. r.output_tail) failed in
    let outside =
      if all (λ t. contains t (codes "short test summary info")) tails
      then failures_outside (join (10 ∷ []) tails) surfaces patch_files
      else [] in
    if not (is_empty outside)
    then outside_prefix ++ join (codes ", ") outside
    else (codes "configured check failed: "
        ++ (join (codes ", ") (map (λ r. r.name) failed)
            ++ detail_of (first_line (splitlines (tail_of_first failed)))))

pub quarantine_reason : List CheckResult → List Text → List Text → Option Text
quarantine_reason results surfaces patch_files =
    if all_passed results
    then none
    else if is_empty (real_failures results)
    then some (fault_reason results)
    else some (failure_reason (failing results) surfaces patch_files)

pub data Refix : Type 0 where
  quarantine style_pass revise : Refix

abbrev pub lint_names : List Check → List Text
lint_names checks =
    map (λ c. c.name) (select (λ c. c.fix || elem c.name (codes "lint" ∷ codes "ruff" ∷ [])) checks)

-- A number of half attempts: `negsuc n` is -(n + 1), where more was spent than the limit allows.
pub data ℤ : Type 0 where
  pos negsuc : ℕ → ℤ

-- `n > 0`
abbrev pub is_positive : ℤ → Bool
is_positive (pos zero) = false
is_positive (pos (suc n)) = true
is_positive (negsuc n) = false

-- `attempts_left` counts half attempts: the source adds 1 and 0.5 to what is spent.
pub refix_route : List CheckResult → List Check → ℤ → Bool → Refix
refix_route results checks attempts_left style_bound = elim (quarantine_reason results [] []) [
  | none ↦ quarantine
  | some reason ↦
      if is_harness_fault reason || not (is_positive attempts_left)
      then quarantine
      else if style_bound && all (λ r. elem r.name (lint_names checks)) (failing results)
      then style_pass
      else revise
]
