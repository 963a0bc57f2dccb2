-- ===== src/FixLoop/Scope.antt =====
-- graphs/delivery/lifecycle_propose.py: what a retry is compared by: the claims, the arbiter's files, a
-- patch's sections; and the summary of a round. A set is a list, read by `elem` only. `\w` and `[a-z]` are
-- the ASCII characters.
use coxswain_graphs.Prelude.{
  ℕ, Bool, true, false, not, ◌&&◌, ◌||◌, Option, none, some, List, [], ◌∷◌, ◌++◌, map, all, select,
  drop, if◌then◌else◌, ◌==◌, list_eq, nat_eq, leb, length, Text, codes, strip, starts_with,
  is_space, split_at_code, lower_code, elem, is_empty, Dict, insert, keys, lookup, option_eq,
}
use coxswain_graphs.Review.{
  Verdict, is_revise, Review, Adversary, Objection, Arbitrated, unasked, skipped, decided,
}

unfoldable pub claims_of : List Objection → List Text
claims_of [] = []
claims_of (o ∷ os) =
    let rest = claims_of os in
    if is_empty (strip o.claim) then rest else map lower_code (strip o.claim) ∷ rest

-- `_claims`
unfoldable pub claims : Option Adversary → List Text
claims none = []
claims (some adversary) = claims_of adversary.objections

-- `re.findall(r"`([^`\s]+)`", s)`, behind the token that is open, if one is.
abbrev pub ticked : Option Text → Text → List Text
ticked open_token [] = []
ticked none (c ∷ s) = ticked (if c == b'`' then some [] else none) s
ticked (some w) (c ∷ s) = elim (c == b'`') [
  | true ↦ elim w [ [] ↦ ticked (some []) s | d ∷ v ↦ (d ∷ v) ∷ ticked none s ]
  | false ↦ ticked (if is_space c then none else some (w ++ c ∷ [])) s
]

abbrev is_alnum : ℕ → Bool
is_alnum c = (leb 48 c && leb c 57) || (leb 65 c && leb c 90) || (leb 97 c && leb c 122)

abbrev is_path_char : ℕ → Bool
is_path_char c = is_alnum c || c == b'_' || c == b'.' || c == b'-'

-- `_PATH_TOKEN`
abbrev is_path_token : Text → Bool
is_path_token t = all (λ part. not (is_empty part) && all is_path_char part) (split_at_code b'/' t)

-- `re.search(r"\.[A-Za-z0-9]{1,5}$", t)`
abbrev has_suffix : Text → Bool
has_suffix [] = false
has_suffix (c ∷ s) =
    (c == b'.' && leb 1 (length s) && leb (length s) 5 && all is_alnum s) || has_suffix s

pub is_scope_entry : Text → Bool
is_scope_entry t = is_path_token t && (elem b'/' t || has_suffix t)

-- `_arbiter_scope`
unfoldable pub arbiter_scope : Verdict → Arbitrated → Option (List Text)
arbiter_scope verdict unasked = none
arbiter_scope verdict skipped = none
arbiter_scope verdict (decided a) =
    if is_revise verdict then some (select is_scope_entry (ticked none a.reasoning)) else none

-- The run of characters that are no white space, and what follows it.
abbrev run_of : Text → Text × Text
run_of [] = ([], [])
run_of (c ∷ s) = let rest = run_of s in if is_space c then ([], c ∷ s) else (c ∷ rest.0, rest.1)

-- `(?:[a-z]/)?(\S+)`: the group, and what follows the match.
abbrev bare_path : Text → Option (Text × Text)
bare_path t = if is_empty (run_of t).0 then none else some (run_of t)

abbrev prefixed_path : Text → Option (Text × Text)
prefixed_path [] = none
prefixed_path (c ∷ []) = bare_path (c ∷ [])
prefixed_path (c ∷ d ∷ s) =
    if leb 97 c && leb c 122 && d == b'/' && not (is_empty (run_of s).0)
    then some (run_of s)
    else bare_path (c ∷ d ∷ s)

-- A line that starts with the four characters of the header.
abbrev header : Text → Text → Option (Text × Text)
header start line = if starts_with line start then prefixed_path (drop 4 line) else none

-- `path_of`, with the last line ahead that is not empty.
abbrev path_of : Text → Text → Text
path_of before path =
    if path == codes "/dev/null"
    then elim (header (codes "--- ") before) [ none ↦ path | some (old, rest) ↦ old ]
    else path

-- The text ahead of the next header, and each header's path with its text.
abbrev pub sections_from : Text → List Text → Text × List (Text × Text)
sections_from before [] = ([], [])
sections_from before (line ∷ lines) =
    let after = sections_from (if is_empty line then before else line) lines in
    let text = (if is_empty lines then [] else 10 ∷ []) ++ after.0 in
    elim (header (codes "+++ ") line) [
      | some (path, rest) ↦ ([], (path_of before path, rest ++ text) ∷ after.1)
      | none ↦ (line ++ text, after.1)
    ]

abbrev all_in : List (Text × Text) → Dict Text Text → Dict Text Text
all_in [] d = d
all_in ((k, v) ∷ rest) d = all_in rest (insert k v d)

-- `_patch_sections`
pub patch_sections : Text → Dict Text Text
patch_sections patch = all_in (sections_from [] (split_at_code 10 patch)).1 []

-- Whether no file of the scope, or of the patches where the scope has none of them, has moved.
pub no_file_moved : List Text → Text → Text → Bool
no_file_moved scope before after =
    let prior = patch_sections before in
    let now = patch_sections after in
    let files = keys prior ++ keys now in
    let scoped = select (λ f. elem f files) scope in
    let touched = if is_empty scoped then files else scoped in
    all (λ f. lookup f prior == lookup f now) touched

pub data Source : Type 0 where
  at_handoff at_review : Source

pub record Summary : Type 0 where
  pub attempt : ℕ
  pub source : Source
  pub verdict : Verdict
  pub findings : List Text
  pub objections : ℕ
  pub arbitration : Option Verdict

abbrev pub round_summary : ℕ → Source → Review → Option Adversary → Arbitrated → Verdict → Summary
round_summary attempt source review adversary arbitration verdict = record {
  attempt = attempt;
  source = source;
  verdict = verdict;
  findings = map (λ f. f.charter_principle) review.findings;
  objections = elim adversary [ none ↦ 0 | some a ↦ length a.objections ];
  arbitration = elim arbitration [ unasked ↦ none | skipped ↦ none | decided a ↦ some a.verdict ];
}
