-- ===== src/Escalate.antt =====
-- harness/escalate.py: a patch that touches the rules turns every proposal that carries it into a
-- `self_modification`. Texts are lists of code points. The ledger is given by its path's last segment.
pub mod Governance
pub mod Caught
pub mod Headers
pub mod Rewrite
pub mod Sides
mod Examples
use coxswain_graphs.Prelude.{
  ℕ, zero, suc, ◌+◌, ◌-◌, String, Bool, true, false, not, ◌&&◌, ◌||◌, Option, none, some, List, [],
  ◌∷◌, ◌++◌, map, if◌then◌else◌, ◌==◌, nat_eq, list_eq, string_eq, nat_beq, Text, codes,
  starts_with, strip, lstrip_by, rstrip_by, split_at_code, join, find, splitlines, words_from, elem,
  any, all, select, dedup, sort, text_ord, length, take, drop, is_empty, get_or, lookup, Result, ok,
  err,
}
use coxswain_graphs.Cartridge.{Cartridge, Spec, mapping, malformed, Evidence, Proposal}

pub governance_paths : List Text
governance_paths =
    map codes
      ("cartridges/" ∷ "skills-plugins/" ∷ "core/policy.py" ∷ "core/ledger.py" ∷ "harness/" ∷ [])

abbrev pub patch_kinds : List String
patch_kinds =
    "draft_pr_create" ∷ "merge_stack" ∷ "merge_main" ∷ "stack_rebase" ∷ "pr_ready_flip" ∷ []

abbrev pub self_modification : String
self_modification = "self_modification"

abbrev pub dev_null : Text
dev_null = codes "/dev/null"

abbrev pub is_slash : ℕ → Bool
is_slash c = nat_beq c b'/'

-- `while path.startswith("./"): path = path[2:]`
abbrev pub drop_dots : Text → Text
drop_dots (c ∷ d ∷ s) = if nat_beq c b'.' && is_slash d then drop_dots s else c ∷ d ∷ s
drop_dots s = s

abbrev pub drop_side : Text → Text
drop_side path =
    if starts_with path (codes "a/") || starts_with path (codes "b/") then drop 2 path else path

pub strip_prefix : Text → Text
strip_prefix path = lstrip_by is_slash (drop_dots (drop_side (strip path)))

-- The path off a `---` or `+++` header.
pub header_path : Text → Option Text
header_path line =
    let raw = strip (drop 4 (get_or (split_at_code 9 line) 0 [])) in
    if is_empty raw || raw == dev_null
    then none
    else if is_empty (strip_prefix raw)
    then none
    else some (strip_prefix raw)

-- Both sides of a `diff --git` line.
pub git_header_paths : Text → List Text
git_header_paths line =
    let rest = strip (drop 11 line) in
    elim (find rest (codes " b/")) [
      | none ↦ map strip_prefix (words_from [] rest)
      | some marker ↦
          if starts_with rest (codes "a/")
          then strip_prefix (take marker rest) ∷ strip_prefix (drop (marker + 1) rest) ∷ []
          else map strip_prefix (words_from [] rest)
    ]

-- What one line of a patch adds to the paths found.
pub line_paths : Text → List Text
line_paths line =
    if starts_with line (codes "diff --git ")
    then select (λ p. not (is_empty p) && not (p == dev_null)) (git_header_paths line)
    else if starts_with line (codes "--- ") || starts_with line (codes "+++ ")
    then elim (header_path line) [ none ↦ [] | some path ↦ path ∷ [] ]
    else []

pub paths_of : List Text → List Text
paths_of [] = []
paths_of (line ∷ lines) = line_paths line ++ paths_of lines

pub touched_paths : Text → List Text
touched_paths patch = sort (dedup (paths_of (splitlines patch)))

-- Does the slice at one of the first `n` places equal the entry?
pub any_slice : ℕ → List Text → List Text → Bool
any_slice zero path entry = false
any_slice (suc i) path entry = take (length entry) (drop i path) == entry || any_slice i path entry

pub segments_match : List Text → List Text → Bool
segments_match path entry = any_slice (length path + 1 - length entry) path entry

-- The last element, as `segments[-1]`.
abbrev pub last_segment : List Text → Text
last_segment [] = []
last_segment (s ∷ []) = s
last_segment (s ∷ t ∷ ss) = last_segment (t ∷ ss)

abbrev pub entries_of : List Text → List (List Text)
entries_of extra =
    map (λ e. split_at_code b'/' (rstrip_by is_slash e))
      (select (λ e. not (is_empty (lstrip_by is_slash (rstrip_by is_slash e))))
        (governance_paths ++ extra))

-- The body of the loop over the paths.
pub is_governed : Text → List Text → Text → Bool
is_governed ledger_name extra path =
    let segments = split_at_code b'/' path in
    not (is_empty path)
    && ((not (is_empty ledger_name) && last_segment segments == ledger_name)
        || any (segments_match segments) (entries_of extra))

pub governance_hits : List Text → Text → List Text → List Text
governance_hits paths ledger_name extra =
    sort (dedup (select (is_governed ledger_name extra) paths))

-- The two ways in which `escalate_self_modification` raises ValueError.
pub data Refusal : Type 0 where
  kind_not_declared : Refusal
  kind_without_risk : Refusal

abbrev pub governance_row : List Text → Evidence
governance_row hits = record { check = "governance_paths"; output = join (codes ", ") hits }

-- `item.get("kind") in PATCH_KINDS`
pub carries_patch : String → Bool
carries_patch kind = elem kind patch_kinds

pub escalate_one : String → Evidence → Proposal → Proposal
escalate_one risk row item =
    if carries_patch item.kind
    then record item {
      kind = self_modification;
      risk = risk;
      escalated_from = some item.kind;
      evidence = item.evidence ++ row ∷ [];
    }
    else item

abbrev pub escalate_with :
    List Proposal → List Text → Option Spec → Result Refusal (List Proposal × List Text)
escalate_with proposals hits none = err kind_not_declared
escalate_with proposals hits (some malformed) = err kind_not_declared
escalate_with proposals hits (some (mapping none arm)) = err kind_without_risk
escalate_with proposals hits (some (mapping (some risk) arm)) =
    if risk == ""
    then err kind_without_risk
    else ok (map (escalate_one risk (governance_row hits)) proposals, hits)

pub escalate_self_modification :
    List Proposal → Text → Cartridge → Text → Result Refusal (List Proposal × List Text)
escalate_self_modification proposals patch cartridge ledger_name =
    let hits = governance_hits (touched_paths patch) ledger_name [] in
    if is_empty hits
    then ok (proposals, [])
    else escalate_with proposals hits (lookup self_modification cartridge.write_kinds)
