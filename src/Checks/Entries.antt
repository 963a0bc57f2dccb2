-- ===== src/Checks/Entries.antt =====
-- harness/checks.py: the entries of the configured checks, and the texts about their results.
use coxswain_graphs.Prelude.{
  ℕ, zero, suc, ◌+◌, ◌-◌, ◌≤◌, ◌≡◌, refl, Bool, false, not, ◌&&◌, Option, none, some, List, [], ◌∷◌,
  map, select, count, subset, is_empty, dedup, drop, length, leb, if◌then◌else◌, ◌==◌, list_eq,
  nat_eq, Text, codes, starts_with, contains, strip, join, splitlines, words_from, Result, ok, err,
  arith, count-dedup, find, take,
}
use coxswain_graphs.Checks.{outside_prefix}

-- A check's `timeout`: no key, a natural number, or any other value.
pub data Timeout : Type 0 where
  absent : Timeout
  seconds : ℕ → Timeout
  malformed : Timeout

pub record Entry : Type 0 where
  pub name : Text
  pub cmd : Text
  pub fix : Option Text
  pub timeout : Timeout

-- What a run of a command says of its check.
pub data CheckOutcome : Type 0 where
  unrunnable passed failed : CheckOutcome

pub check_outcome : Option ℕ → Option Text → CheckOutcome
check_outcome returncode (some error) = unrunnable
check_outcome none none = failed
check_outcome (some code) none = if code == 0 then passed else failed

-- The last `n` elements.
abbrev last : ℕ → List Text → List Text
last n xs = drop (length xs - n) xs

pub tail_lines : Text → Text
tail_lines text =
    let lines = splitlines text in
    if leb (length lines) 20
    then text
    else join (10 ∷ []) (codes "... [truncated to last 20 lines]" ∷ last 20 lines)

pub collected_ids : Text → List Text
collected_ids output = dedup (map strip (select (λ l. contains l (codes "::")) (splitlines output)))

pub coverage_floor_holds : List Text → List Text → Bool
coverage_floor_holds before after = subset before after

abbrev is_command : Text → Bool
is_command line = not (is_empty line) && not (starts_with line (codes "#"))

abbrev first_word : Text → Text
first_word line = elim (words_from [] line) [ [] ↦ [] | w ∷ ws ↦ w ]

abbrev commands : Text → List Text
commands text = dedup (select is_command (map strip (splitlines text)))

-- The argument is a text: another value gives no entries.
pub repo_checks : Option Text → List (Text × Text)
repo_checks none = []
repo_checks (some text) = map (λ line. (first_word line, line)) (commands text)

abbrev has_fix : Entry → Bool
has_fix e = elim e.fix [ none ↦ false | some cmd ↦ not (is_empty cmd) ]

abbrev fix_entry : Entry → Entry
fix_entry e = record {
  name = e.name;
  cmd = elim e.fix [ none ↦ [] | some cmd ↦ cmd ];
  fix = none;
  timeout = e.timeout;
}

pub fixable_checks : List Entry → List Entry
fixable_checks checks = map fix_entry (select has_fix checks)

-- A refusal is the ValueError that names the check.
pub check_timeout : Entry → ℕ → Result Text ℕ
check_timeout check default = elim check.timeout [
  | absent ↦ ok default
  | malformed ↦ err check.name
  | seconds n ↦ if n == 0 then err check.name else ok n
]

-- `s.split(", ")`, on fuel for each character.
abbrev split_commas : ℕ → Text → List Text
split_commas zero s = s ∷ []
split_commas (suc n) s = elim (find s (codes ", ")) [
  | none ↦ s ∷ []
  | some i ↦ take i s ∷ split_commas n (drop (i + 2) s)
]

pub outside_surface_files : Text → List Text
outside_surface_files reason =
    if not (starts_with reason outside_prefix)
    then []
    else (let rest = drop (length outside_prefix) reason in
        select (λ f. not (is_empty f)) (split_commas (length rest) rest))

-- A command of the file stands in the entries once.
repo_checks-once :
    (text line : Text) → count line (map (λ (e : Text × Text). e.1) (repo_checks (some text))) ≤ 1
unfolding repo_checks
repo_checks-once text line = ground (
  arith,
  cmds (commands text),
  count-dedup line (select is_command (map strip (splitlines text))),
)
  where
    cmds :
        (ls : List Text)
        → map (λ (e : Text × Text). e.1) (map (λ (l : Text). (first_word l, l)) ls) ≡ ls
    cmds [] = refl
    cmds (l ∷ ls) = ground (arith, cmds ls)

-- A timeout that is not refused is positive, where the default is.
check_timeout-positive :
    (check : Entry) (default n : ℕ) → 1 ≤ default → check_timeout check default ≡ ok n → 1 ≤ n
unfolding check_timeout
check_timeout-positive check default n h k = ground arith
