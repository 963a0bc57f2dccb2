-- ===== src/FixLoop/Paths.antt =====
-- graphs/delivery/lifecycle_propose.py: the files that a patch touches, and those outside of the surfaces.
use coxswain_graphs.Prelude.{
  Bool, false, not, ◌&&◌, ◌||◌, Option, none, some, List, [], ◌∷◌, map, all, any, select, drop,
  if◌then◌else◌, ◌==◌, list_eq, nat_eq, Text, codes, strip, starts_with, contains, is_space,
  lstrip_by, split_at_code, splitlines, elem, is_empty,
}
use coxswain_graphs.Size.{ends_with}

-- `_DIFF_PREFIXES`
abbrev diff_prefixes : List Text
diff_prefixes = map codes ("a/" ∷ "b/" ∷ "c/" ∷ "i/" ∷ "w/" ∷ "o/" ∷ [])

pub diff_path : Text → Text
diff_path token = if any (starts_with token) diff_prefixes then drop 2 token else token

-- The paths of the lines from here on, behind the line before.
abbrev pub touched_from : Option Text → List Text → List Text
touched_from before [] = []
touched_from before (line ∷ lines) =
    let rest = touched_from (some line) lines in
    if starts_with line (codes "+++ ")
    then (elim before [
      | none ↦ diff_path (strip (drop 4 line)) ∷ rest
      | some old ↦
          (if strip line == codes "+++ /dev/null" && starts_with old (codes "--- ")
            then diff_path (strip (drop 4 old))
            else diff_path (strip (drop 4 line)))
          ∷ rest
    ])
    else rest

unfoldable pub touched_paths : Text → List Text
touched_paths patch = touched_from none (splitlines patch)

-- The last element of a list, and the elements ahead of it.
abbrev last_or : Text → List Text → Text
last_or d [] = d
last_or d (x ∷ xs) = last_or x xs

abbrev ahead : List Text → List Text
ahead [] = []
ahead (x ∷ []) = []
ahead (x ∷ y ∷ xs) = x ∷ ahead (y ∷ xs)

pub is_test_path : Text → Bool
is_test_path path =
    let parts = split_at_code b'/' path in
    let name = last_or [] parts in
    any (λ part. part == codes "tests" || part == codes "test") (ahead parts)
    || (starts_with name (codes "test_") && ends_with name (codes ".py"))
    || ends_with name (codes "_test.py")
    || ends_with name (codes ".snap")

-- `re.sub(r"\s*\([^)]*\)\s*$", "", s)`: a note in parentheses at the end is dropped.
abbrev closes : Text → Bool
closes [] = false
closes (c ∷ s) = let rest = closes s in if c == b')' then all is_space s else rest

abbrev opens : Text → Bool
opens [] = false
opens (c ∷ s) = c == b'(' && closes s

abbrev pub without_note : Text → Text
without_note [] = []
without_note (c ∷ s) =
    let rest = without_note s in if opens (lstrip_by is_space (c ∷ s)) then [] else c ∷ rest

unfoldable pub files_outside_surfaces : List Text → List Text → List Text
files_outside_surfaces touched surfaces =
    let declared = map without_note surfaces in
    let dirs = select (λ d. ends_with d (codes "/")) declared in
    if is_empty surfaces
    then []
    else select
        (λ path.
          not (elem path declared) && not (any (starts_with path) dirs) && not (is_test_path path))
        touched

pub is_scratch_name : Text → Bool
is_scratch_name path =
    let name = last_or [] (split_at_code b'/' path) in
    starts_with name (codes "_")
    || any (λ s. ends_with name (codes s))
        (".diff" ∷ ".patch" ∷ ".out" ∷ ".log" ∷ ".orig" ∷ ".rej" ∷ [])
    || any (λ s. contains name (codes s)) ("scratch" ∷ "probe" ∷ "debug" ∷ [])

-- `is_tracked` is git's answer for the path.
pub scratch_ignored : (Text → Bool) → List Text → List Text
scratch_ignored is_tracked outside =
    select (λ path. is_scratch_name path && not (is_tracked path)) outside
