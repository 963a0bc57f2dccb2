-- ===== src/Escalate/Sides.antt =====
-- harness/escalate.py: `_strip_prefix` and `_header_path` on the two lines of a file header.
use coxswain_graphs.Prelude.{
  ◌≡◌, refl, ap, ◌∙◌, Bool, true, false, not, ◌&&◌, some, [], ◌∷◌, ◌++◌, Text, list_eq, nat_eq,
  nat_beq, all, is_empty, arith, codes, starts_with, is_space, drop, get_or, lstrip_by, strip,
  split_at_code,
}
use mathlib.Core.List.{reverse, reverse_aux, reverse-reverse}
use coxswain_graphs.Escalate.{header_path, line_paths, is_slash, drop_dots, drop_side, strip_prefix}

-- The last character is no white space.
abbrev pub ends_black : Text → Bool
ends_black [] = false
ends_black (c ∷ []) = not (is_space c)
ends_black (c ∷ d ∷ s) = ends_black (d ∷ s)

-- A path as git prints it: relative, without a tab, and without white space at its end.
abbrev pub is_relative : Text → Bool
is_relative path =
    not (starts_with path (codes "/"))
    && not (starts_with path (codes "./"))
    && all (λ c. not (nat_beq c 9)) path
    && ends_black path

-- The two lines of a file header.
pub data Side : Type 0 where
  old_side new_side : Side

abbrev pub header_line : Side → Text → Text
header_line old_side path = codes "--- a/" ++ path
header_line new_side path = codes "+++ b/" ++ path

split-none : (s : Text) → all (λ c. not (nat_beq c 9)) s ≡ true → split_at_code 9 s ≡ s ∷ []
split-none [] h = refl
split-none (c ∷ s) h = ground (arith, split-none s)

lstrip-reverse :
    (s rest : Text)
    → ends_black s ≡ true
    → lstrip_by is_space (reverse_aux s rest) ≡ reverse_aux s rest
lstrip-reverse [] rest h = absurd (ground arith)
lstrip-reverse (c ∷ []) rest h = ground (arith, h)
lstrip-reverse (c ∷ d ∷ s) rest h = lstrip-reverse (d ∷ s) (c ∷ rest) h

-- A text without white space at either end is its own strip.
strip-black : (s : Text) → lstrip_by is_space s ≡ s → ends_black s ≡ true → strip s ≡ s
strip-black s start end =
    ap (λ t. reverse (lstrip_by is_space (reverse t))) start
    ∙ ap reverse (lstrip-reverse s [] end)
    ∙ reverse-reverse s

-- A path behind its side's letter, as `header_path` meets them.
abbrev sided : Side → Text → Text
sided old_side path = codes "a/" ++ path
sided new_side path = codes "b/" ++ path

drop_dots-relative : (path : Text) → starts_with path (codes "./") ≡ false → drop_dots path ≡ path
drop_dots-relative [] h = refl
drop_dots-relative (c ∷ []) h = refl
drop_dots-relative (c ∷ d ∷ s) h = ground (arith, h)

lstrip_slash : (path : Text) → starts_with path (codes "/") ≡ false → lstrip_by is_slash path ≡ path
lstrip_slash [] h = refl
lstrip_slash (c ∷ s) h = ground (arith, h)

ends_black-sided :
    (side : Side) (path : Text) → ends_black path ≡ true → ends_black (sided side path) ≡ true
ends_black-sided side [] h = absurd (ground arith)
ends_black-sided old_side (c ∷ path) h = h
ends_black-sided new_side (c ∷ path) h = h

strip-sided :
    (side : Side) (path : Text) → ends_black path ≡ true → strip (sided side path) ≡ sided side path
strip-sided old_side path h =
    strip-black (sided old_side path) refl (ends_black-sided old_side path h)
strip-sided new_side path h =
    strip-black (sided new_side path) refl (ends_black-sided new_side path h)

strip_prefix-sided :
    (side : Side) (path : Text) → is_relative path ≡ true → strip_prefix (sided side path) ≡ path
unfolding strip_prefix
strip_prefix-sided old_side path h =
    ap (λ t. lstrip_by is_slash (drop_dots (drop_side t)))
      (strip-sided old_side path (ground arith))
    ∙ ap (lstrip_by is_slash) (drop_dots-relative path (ground arith))
    ∙ lstrip_slash path (ground arith)
strip_prefix-sided new_side path h =
    ap (λ t. lstrip_by is_slash (drop_dots (drop_side t)))
      (strip-sided new_side path (ground arith))
    ∙ ap (lstrip_by is_slash) (drop_dots-relative path (ground arith))
    ∙ lstrip_slash path (ground arith)

-- A relative path is not empty.
pub relative_some : (path : Text) → is_relative path ≡ true → is_empty path ≡ false
relative_some [] h = absurd (ground arith)
relative_some (c ∷ s) h = refl

tabless :
    (side : Side) (path : Text)
    → is_relative path ≡ true
    → split_at_code 9 (header_line side path) ≡ header_line side path ∷ []
tabless old_side path h = split-none (header_line old_side path) (ground arith)
tabless new_side path h = split-none (header_line new_side path) (ground arith)

raw_of :
    (side : Side) (path : Text)
    → is_relative path ≡ true
    → strip (drop 4 (get_or (split_at_code 9 (header_line side path)) 0 [])) ≡ sided side path
raw_of old_side path h =
    ap (λ ws. strip (drop 4 (get_or ws 0 []))) (tabless old_side path h)
    ∙ strip-sided old_side path (ground arith)
raw_of new_side path h =
    ap (λ ws. strip (drop 4 (get_or ws 0 []))) (tabless new_side path h)
    ∙ strip-sided new_side path (ground arith)

header_path-sided :
    (side : Side) (path : Text)
    → is_relative path ≡ true
    → header_path (header_line side path) ≡ some path
unfolding header_path
header_path-sided old_side path h =
    rw (raw_of old_side path h, strip_prefix-sided old_side path h)
      (ground (arith, relative_some path h))
header_path-sided new_side path h =
    rw (raw_of new_side path h, strip_prefix-sided new_side path h)
      (ground (arith, relative_some path h))

-- A file header's line gives the path that it names.
pub line_paths-header :
    (side : Side) (path : Text)
    → is_relative path ≡ true
    → line_paths (header_line side path) ≡ path ∷ []
unfolding line_paths
line_paths-header old_side path h = rw (header_path-sided old_side path h) refl
line_paths-header new_side path h = rw (header_path-sided new_side path h) refl
