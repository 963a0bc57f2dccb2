-- ===== src/Prelude/Texts.antt =====
-- Texts that the program walks: lists of code points, with the methods of Python's `str` it calls.
use Prim.Native.Nat.{ℕ, suc, ◌+◌}
use Prim.Native.Char.{code}
use Prim.Native.String.{String}
use mathlib.Core.Path.{◌≡◌}
use mathlib.Core.Bool.{Bool, true, false, ◌&&◌, ◌||◌}
use mathlib.Core.Option.{Option, none, some}
use mathlib.Core.List.{List, [], ◌∷◌, ◌++◌, reverse}
use native.Mathlib.Omega.{arith}
use coxswain_graphs.Prelude.Equality.{Eq, list_eq, nat_eq}
use coxswain_graphs.Prelude.Lists.{is_empty}
use coxswain_graphs.Prelude.Tests.{nat_beq, leb, if◌then◌else◌}

abbrev pub Text : Type 0
Text = List ℕ

-- The equality of texts, as the instance that the lemmas name.
abbrev pub text_eq : Eq Text
text_eq = list_eq

abbrev pub codes : String → Text
codes String.[] = []
codes (String.◌∷◌ c s) = code c ∷ codes s

-- `s.startswith(p)`
abbrev pub starts_with : Text → Text → Bool
starts_with s [] = true
starts_with [] (c ∷ p) = false
starts_with (d ∷ s) (c ∷ p) = nat_beq d c && starts_with s p

-- `p in s`
abbrev pub contains : Text → Text → Bool
contains [] p = starts_with [] p
contains (c ∷ s) p = starts_with (c ∷ s) p || contains s p

-- The characters that `str.strip` drops, among the ASCII ones.
abbrev pub is_space : ℕ → Bool
is_space c = nat_beq c 32 || (leb 9 c && leb c 13) || (leb 28 c && leb c 31)

abbrev pub lstrip_by : (ℕ → Bool) → Text → Text
lstrip_by p [] = []
lstrip_by p (c ∷ s) = if p c then lstrip_by p s else c ∷ s

abbrev pub strip : Text → Text
strip s = reverse (lstrip_by is_space (reverse (lstrip_by is_space s)))

-- `s.rstrip("/")` and its like.
abbrev pub rstrip_by : (ℕ → Bool) → Text → Text
rstrip_by p s = reverse (lstrip_by p (reverse s))

-- `s.lower()` on the ASCII letters.
abbrev pub lower_code : ℕ → ℕ
lower_code c = if leb 65 c && leb c 90 then c + 32 else c

abbrev push_head : ℕ → List Text → List Text
push_head c [] = (c ∷ []) ∷ []
push_head c (w ∷ ws) = (c ∷ w) ∷ ws

-- `s.split(sep)` at a separator of one character.
abbrev pub split_at_code : ℕ → Text → List Text
split_at_code sep [] = [] ∷ []
split_at_code sep (c ∷ s) =
    let rest = split_at_code sep s in if nat_beq c sep then [] ∷ rest else push_head c rest

-- `sep.join(ws)`
abbrev pub join : Text → List Text → Text
join sep [] = []
join sep (w ∷ []) = w
join sep (w ∷ v ∷ ws) = w ++ sep ++ join sep (v ∷ ws)

-- The place of the first occurrence: `s.find(p)`, with `none` for -1.
abbrev pub find : Text → Text → Option ℕ
find [] p = if starts_with [] p then some 0 else none
find (c ∷ s) p =
    if starts_with (c ∷ s) p
    then some 0
    else elim (find s p) [ none ↦ none | some i ↦ some (suc i) ]

pub starts_with-append : (p s : Text) → starts_with (p ++ s) p ≡ true
starts_with-append [] s = ground arith
starts_with-append (c ∷ p) s = ground (arith, starts_with-append p s)

-- The characters that end a line for `str.splitlines`.
abbrev pub is_break : ℕ → Bool
is_break c =
    (leb 10 c && leb c 13)
    || (leb 28 c && leb c 30)
    || nat_beq c 133
    || nat_beq c 8232
    || nat_beq c 8233

-- A carriage return that a line feed follows ends no line of its own.
abbrev pub join_crlf : Text → Text
join_crlf [] = []
join_crlf (c ∷ s) =
    let rest = join_crlf s in if nat_beq c 13 && starts_with s (10 ∷ []) then rest else c ∷ rest

-- `s.splitlines()` behind `join_crlf`, with the current line so far.
abbrev pub lines_from : Text → Text → List Text
lines_from line [] = if is_empty line then [] else line ∷ []
lines_from line (c ∷ s) = elim (is_break c) [
  | true ↦ line ∷ lines_from [] s
  | false ↦ lines_from (line ++ c ∷ []) s
]

abbrev pub splitlines : Text → List Text
splitlines s = lines_from [] (join_crlf s)

-- `s.split()`: the runs of characters that are no white space.
abbrev pub words_from : Text → Text → List Text
words_from word [] = if is_empty word then [] else word ∷ []
words_from word (c ∷ s) = elim (is_space c) [
  | true ↦ if is_empty word then words_from [] s else word ∷ words_from [] s
  | false ↦ words_from (word ++ c ∷ []) s
]
