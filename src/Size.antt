-- ===== src/Size.antt =====
-- graphs/delivery/decompose_size.py: the override of the size verdict, and the one-ticket initiative.
pub mod Marks
mod Examples
use coxswain_graphs.Prelude.{
  ℕ, zero, suc, ◌+◌, ◌-◌, String, Bool, true, false, not, ◌&&◌, ◌||◌, Option, none, some, List, [],
  ◌∷◌, ◌++◌, map, any, all, elem, words_from, lstrip_by, is_empty, drop, length, if◌then◌else◌,
  ◌==◌, list_eq, nat_eq, nat_beq, leb, Text, codes, starts_with, strip, join, lower_code, Result,
  ok, err,
}

pub record SizeVerdict : Type 0 where
  pub verdict : Text
  pub reason : Text
  pub surfaces : List Text
  pub source : Text

pub data SizeError : Type 0 where
  bad_override : Option Text → SizeError
  missing_keys : List Text → SizeError
  no_slug : Text → SizeError
  not_a_task no_surfaces : SizeError
  bad_verdict : Option Text → SizeError
  not_an_object reason_empty reason_too_long surfaces_malformed surfaces_missing : SizeError

abbrev pub verdicts : List Text
verdicts = codes "task" ∷ codes "epic" ∷ []

-- The front matter's `size`: absent, a text, or some other value.
pub data SizeKey : Type 0 where
  absent : SizeKey
  given : Text → SizeKey
  strange : SizeKey

abbrev kept_surfaces : Result SizeError SizeVerdict → Text → List Text
kept_surfaces (ok v) size = if size == codes "task" then v.surfaces else []
kept_surfaces (err e) size = []

pub apply_override : Result SizeError SizeVerdict → SizeKey → Result SizeError SizeVerdict
apply_override verdict absent = verdict
apply_override verdict strange = err (bad_override none)
apply_override verdict (given size) =
    if elem size verdicts
    then ok (record {
      verdict = size;
      reason = codes "intake frontmatter sets size: " ++ size;
      surfaces = kept_surfaces verdict size;
      source = codes "override";
    })
    else err (bad_override (some size))

-- `s.endswith(p)`
pub ends_with : Text → Text → Bool
ends_with [] p = is_empty p
ends_with (c ∷ s) p = (c ∷ s) == p || ends_with s p

pub exists_in : Text → List Text → Bool
exists_in surface repo_files =
    let path = if starts_with surface (codes "./") then drop 2 surface else surface in
    if ends_with path (codes "/")
    then any (λ f. starts_with f path) repo_files
    else elem path repo_files

abbrev pub new_marker : Text
new_marker = codes " (new)"

pub mark_one : List Text → Text → Text
mark_one repo_files s =
    if ends_with s new_marker || exists_in s repo_files then s else s ++ new_marker

pub mark_new_surfaces : List Text → List Text → List Text
mark_new_surfaces surfaces repo_files = map (mark_one repo_files) surfaces

abbrev is_slug_code : ℕ → Bool
is_slug_code c = (leb 97 c && leb c 122) || (leb 48 c && leb c 57)

-- The runs of letters and digits, joined by dashes: the runs of other characters become one dash each,
-- and those at the ends are stripped.
abbrev slug_words : Text → Text → List Text
slug_words word [] = if is_empty word then [] else word ∷ []
slug_words word (c ∷ s) = elim (is_slug_code c) [
  | true ↦ slug_words (word ++ (c ∷ [])) s
  | false ↦ if is_empty word then slug_words [] s else word ∷ slug_words [] s
]

pub ticket_slug : Text → Text
ticket_slug intake_id = join (codes "-") (slug_words [] (map lower_code intake_id))

-- The keys of an intake; one that is missing or no text is `none`.
pub record Intake : Type 0 where
  pub ident : Option Text
  pub title : Option Text
  pub body : Option Text
  pub checks : List Text

pub record Ticket : Type 0 where
  pub ident : Text
  pub title : Text
  pub body : Text
  pub surfaces : List Text
  pub checks : List Text
  pub rationale : Text

abbrev missing : Text → Option Text → List Text
missing key none = key ∷ []
missing key (some v) = if is_empty (strip v) then key ∷ [] else []

abbrev or_empty : Option Text → Text
or_empty none = []
or_empty (some v) = v

pub missing_of : Intake → List Text
missing_of intake =
    missing (codes "id") intake.ident
    ++ (missing (codes "title") intake.title ++ missing (codes "body") intake.body)

-- The initiative has one phase, `p1`, whose goal is the title, and this task in it.
pub single_ticket_initiative : Intake → SizeVerdict → List Text → Result SizeError Ticket
single_ticket_initiative intake verdict repo_files =
    let slug = ticket_slug (or_empty intake.ident) in
    if not (is_empty (missing_of intake))
    then err (missing_keys (missing_of intake))
    else if is_empty slug
    then err (no_slug (or_empty intake.ident))
    else if not (verdict.verdict == codes "task")
    then err not_a_task
    else if is_empty verdict.surfaces
    then err no_surfaces
    else ok (record {
      ident = slug;
      title = or_empty intake.title;
      body = or_empty intake.body;
      surfaces = mark_new_surfaces verdict.surfaces repo_files;
      checks = intake.checks;
      rationale = verdict.reason;
    })

-- The keys of a model's size output; a value of another type is `none`. `surfaces` is `none` unless it is
-- a list of texts that are not empty.
pub record RawSize : Type 0 where
  pub verdict : Option Text
  pub reason : Option Text
  pub surfaces : Option (List Text)

abbrev abbreviations : List Text
abbreviations =
    map codes (
      "e.g" ∷ "i.e" ∷ "etc" ∷ "vs" ∷ "cf" ∷ "approx" ∷ "mr" ∷ "mrs" ∷ "ms" ∷ "dr" ∷ "st" ∷ "no"
      ∷ [])

abbrev is_opening : ℕ → Bool
is_opening c = nat_beq c b'(' || nat_beq c 34 || nat_beq c 39

pub is_abbreviation : Text → Bool
is_abbreviation token =
    let word = lstrip_by is_opening (map lower_code token) in
    elem word abbreviations || nat_beq (length word) 1

-- The token of a word that a terminator ends, one character at least before it.
pub ended_token : Text → Option Text
ended_token [] = none
ended_token (c ∷ []) = none
ended_token (c ∷ t ∷ []) =
    if nat_beq t b'.' || nat_beq t b'!' || nat_beq t b'?' then some (c ∷ []) else none
ended_token (c ∷ d ∷ e ∷ s) = elim (ended_token (d ∷ e ∷ s)) [
  | none ↦ none
  | some token ↦ some (c ∷ token)
]

-- The matches of `_TERMINATOR`: the words that end in a terminator, with another word behind them.
pub ended_tokens : List Text → List Text
ended_tokens [] = []
ended_tokens (w ∷ []) = []
ended_tokens (w ∷ v ∷ ws) =
    let rest = ended_tokens (v ∷ ws) in
    elim (ended_token w) [ none ↦ rest | some token ↦ token ∷ rest ]

pub is_one_sentence : Text → Bool
is_one_sentence text = all is_abbreviation (ended_tokens (words_from [] text))

-- The output is `none` where it is no object.
pub parse_size_verdict : Option RawSize → Result SizeError SizeVerdict
parse_size_verdict none = err not_an_object
parse_size_verdict (some raw) =
    let verdict = or_empty raw.verdict in
    let reason = strip (or_empty raw.reason) in
    if not (elem verdict verdicts)
    then err (bad_verdict raw.verdict)
    else if is_empty reason
    then err reason_empty
    else if not (is_one_sentence reason)
    then err reason_too_long
    else if verdict == codes "epic"
    then ok (record { verdict = verdict; reason = reason; surfaces = []; source = codes "model" })
    else elim raw.surfaces [
      | none ↦ err surfaces_malformed
      | some surfaces ↦
          if is_empty surfaces
          then err surfaces_missing
          else ok (record {
            verdict = verdict;
            reason = reason;
            surfaces = surfaces;
            source = codes "model";
          })
    ]
