-- ===== src/Decompose/Distance/Rows.antt =====
-- graphs/delivery/initiative_decompose.py: the rows of `_edit_distance` hold the distances of the prefixes.
use mathlib.Core.Path.{subst}
use coxswain_graphs.Prelude.{
  ℕ, ◌+◌, ◌≤◌, ◌≡◌, refl, sym, ap, ◌∙◌, List, [], ◌∷◌, ◌++◌, length, Text, arith,
}
use mathlib.Core.List.{append_assoc, append-nil}
use coxswain_graphs.Decompose.{next_cells, next_row, last_row, first_row, last_cell, edit_distance}
use coxswain_graphs.Decompose.Distance.{
  Edits, levenshtein, levenshtein-nil, levenshtein-least, levenshtein-Edits, Edits-backwards,
  backwards,
}

-- The prefixes are read backwards, as the rows pass over them.
abbrev onto : Text → Text → Text
onto [] r = r
onto (c ∷ a) r = onto a (c ∷ r)

-- The cells of the row of the prefix `r`, behind the column of `s`.
abbrev cells : Text → Text → Text → List ℕ
cells r s [] = []
cells r s (d ∷ b) = levenshtein r (d ∷ s) ∷ cells r (d ∷ s) b

next_cells-cells :
    (c : ℕ) (r s b : Text)
    → next_cells c (levenshtein (c ∷ r) s) (levenshtein r s) (cells r s b) b ≡ cells (c ∷ r) s b
unfolding levenshtein
next_cells-cells c r s [] = refl
next_cells-cells c r s (d ∷ b) =
    ap (λ x. levenshtein (c ∷ r) (d ∷ s) ∷ x) (next_cells-cells c r (d ∷ s) b)

first_row-cells : (s b : Text) → first_row (length s) b ≡ length s ∷ cells [] s b
unfolding levenshtein
first_row-cells s [] = refl
first_row-cells s (d ∷ b) =
    ap (λ x. length s ∷ x) (ap (λ k. first_row k b) (omega arith) ∙ first_row-cells (d ∷ s) b)

last_row-cells :
    (r a b : Text)
    → last_row (length r + 1) (levenshtein r [] ∷ cells r [] b) a b
      ≡ levenshtein (onto a r) [] ∷ cells (onto a r) [] b
unfolding levenshtein
last_row-cells r [] b = refl
last_row-cells r (c ∷ a) b =
    ap (λ x. last_row (length r + 1 + 1) x a b) (row (length r + 1) (omega arith))
    ∙ ap (λ k. last_row k (levenshtein (c ∷ r) [] ∷ cells (c ∷ r) [] b) a b) (omega arith)
    ∙ last_row-cells (c ∷ r) a b
  where
    row :
        (i : ℕ)
        → levenshtein (c ∷ r) [] ≡ i
        → next_row c i (levenshtein r [] ∷ cells r [] b) b
          ≡ levenshtein (c ∷ r) [] ∷ cells (c ∷ r) [] b
    row i e =
        ap (λ j. j ∷ next_cells c j (levenshtein r []) (cells r [] b) b) (sym e)
        ∙ ap (λ x. levenshtein (c ∷ r) [] ∷ x) (next_cells-cells c r [] b)

last_cell-cells :
    (r s b : Text) → last_cell (levenshtein r s ∷ cells r s b) ≡ levenshtein r (onto b s)
last_cell-cells r s [] = refl
last_cell-cells r s (d ∷ b) = last_cell-cells r (d ∷ s) b

onto-backwards : (a r : Text) → onto a r ≡ backwards a ++ r
onto-backwards [] r = refl
onto-backwards (c ∷ a) r = onto-backwards a (c ∷ r) ∙ sym (append_assoc (backwards a) (c ∷ []) r)

backwards-append : (a : Text) (c : ℕ) → backwards (a ++ c ∷ []) ≡ c ∷ backwards a
backwards-append [] c = refl
backwards-append (d ∷ a) c = ap (λ x. x ++ d ∷ []) (backwards-append a c)

backwards-backwards : (a : Text) → backwards (backwards a) ≡ a
backwards-backwards [] = refl
backwards-backwards (c ∷ a) =
    backwards-append (backwards a) c ∙ ap (λ x. c ∷ x) (backwards-backwards a)

length-onto : (a r : Text) → length (onto a r) ≡ length a + length r
length-onto [] r = omega arith
length-onto (c ∷ a) r = omega (arith, length-onto a (c ∷ r))

edit_distance-onto : (a b : Text) → edit_distance a b ≡ levenshtein (onto a []) (onto b [])
unfolding edit_distance levenshtein
edit_distance-onto [] b = omega (arith, length-onto b [])
edit_distance-onto (c ∷ a) [] =
    omega (arith, length-onto (c ∷ a) [], levenshtein-nil (onto (c ∷ a) []))
edit_distance-onto (c ∷ a) (d ∷ b) =
    ap (λ x. last_cell (last_row 1 x (c ∷ a) (d ∷ b))) (first_row-cells [] (d ∷ b))
    ∙ ap last_cell (last_row-cells [] (c ∷ a) (d ∷ b))
    ∙ last_cell-cells (onto (c ∷ a) []) [] (d ∷ b)

edit_distance-backwards : (a b : Text) → edit_distance a b ≡ levenshtein (backwards a) (backwards b)
edit_distance-backwards a b =
    edit_distance-onto a b
    ∙ ap (λ x. levenshtein x (onto b [])) (onto-backwards a [] ∙ append-nil (backwards a))
    ∙ ap (levenshtein (backwards a)) (onto-backwards b [] ∙ append-nil (backwards b))

pub edit_distance-Edits : (a b : Text) → Edits a b (edit_distance a b)
edit_distance-Edits a b = subst (Edits a b) (sym (edit_distance-backwards a b)) (
    subst (λ x. Edits a x (levenshtein (backwards a) (backwards b))) (backwards-backwards b)
      (subst (λ x. Edits x (backwards (backwards b)) (levenshtein (backwards a) (backwards b)))
        (backwards-backwards a)
        (Edits-backwards (backwards a) (backwards b) (levenshtein (backwards a) (backwards b))
          (levenshtein-Edits (backwards a) (backwards b)))))

-- The edit distance is the least number of insertions, deletions and replacements of one character that
-- turn the one text into the other: where some number of edits does it, the distance does it too and is
-- no more.
pub edit_distance-least :
    (a b : Text) (n : ℕ) → Edits a b n → Edits a b (edit_distance a b) × (edit_distance a b ≤ n)
edit_distance-least a b n e = (
  edit_distance-Edits a b,
  omega (
    arith,
    edit_distance-backwards a b,
    levenshtein-least (backwards a) (backwards b) n (Edits-backwards a b n e),
  ),
)
