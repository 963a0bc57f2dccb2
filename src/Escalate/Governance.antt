-- ===== src/Escalate/Governance.antt =====
-- Which paths are governed: an entry as a run of whole segments, or the ledger's name.
use native.Mathlib.Decide.{ℕ_discrete}
use coxswain_graphs.Prelude.{
  ℕ, zero, suc, ◌+◌, ◌-◌, ◌<◌, ◌≡◌, refl, ap, ◌∙◌, true, ◌&&◌, List, [], ◌∷◌, ◌++◌, Text, list_eq,
  nat_eq, ◌==◌, elem, select, dedup, take, drop, length, arith, elem-sort, elem-dedup, elem-select,
  Bool-cases, inl, inr, ◌↔◌, Eq, length-append, text_ord,
}
use coxswain_graphs.Escalate.{any_slice, segments_match, is_governed, governance_hits}

-- The entry stands in the path as whole segments.
pub record IsRun (path entry : List Text) : Type 0 where
  pub before : List Text
  pub after : List Text
  pub split : path ≡ before ++ (entry ++ after)

abbrev segments_eq : Eq (List Text)
segments_eq = list_eq

take-append-drop : (i : ℕ) (xs : List Text) → xs ≡ take i xs ++ drop i xs
take-append-drop zero xs = refl
take-append-drop (suc i) [] = refl
take-append-drop (suc i) (x ∷ xs) = ap (λ l. x ∷ l) (take-append-drop i xs)

take-length : (xs ys : List Text) → take (length xs) (xs ++ ys) ≡ xs
take-length [] ys = refl
take-length (x ∷ xs) ys = ap (λ l. x ∷ l) (take-length xs ys)

drop-length : (xs ys : List Text) → drop (length xs) (xs ++ ys) ≡ ys
drop-length [] ys = refl
drop-length (x ∷ xs) ys = drop-length xs ys

any_slice-IsRun :
    (n : ℕ) (path entry : List Text) → any_slice n path entry ≡ true → IsRun path entry
unfolding any_slice
any_slice-IsRun zero path entry h = absurd (ground arith)
any_slice-IsRun (suc i) path entry h =
    elim (Bool-cases (take (length entry) (drop i path) == entry)) [
      | inl here ↦
          let slice = (segments_eq.beq_iff _ _).0 here in
          record {
            before = take i path;
            after = drop (length entry) (drop i path);
            split =
                take-append-drop i path
                ∙ ap (λ l. take i path ++ l)
                    (take-append-drop (length entry) (drop i path)
                      ∙ ap (λ l. l ++ drop (length entry) (drop i path)) slice);
          }
      | inr other ↦ any_slice-IsRun i path entry (ground (arith, other, h))
    ]

any_slice-at :
    (n : ℕ) (before entry after : List Text)
    → length before < n
    → any_slice n (before ++ (entry ++ after)) entry ≡ true
unfolding any_slice
any_slice-at zero before entry after h = elim h [ ]
any_slice-at (suc i) before entry after h = elim (ℕ_discrete i (length before)) [
  | yes at ↦
      let slice : take (length entry) (drop i (before ++ (entry ++ after))) ≡ entry =
        rw (at, drop-length before (entry ++ after)) (take-length entry after) in
      ground (arith, (segments_eq.beq_iff _ entry).1 slice)
  | no other ↦ ground (arith, any_slice-at i before entry after (omega arith))
]

-- `_segments_match` holds exactly where the entry is a run of whole segments of the path.
pub segments_match_iff :
    (path entry : List Text) → (segments_match path entry ≡ true) ↔ IsRun path entry
unfolding segments_match
segments_match_iff path entry = (
  any_slice-IsRun (length path + 1 - length entry) path entry,
  λ run. rw run.split (
      any_slice-at _ run.before entry run.after (
        omega (
          arith,
          length-append {0} run.before (entry ++ run.after),
          length-append {0} entry run.after,
        ))),
)

-- The hits are the governed ones among the paths.
pub elem-governance_hits :
    (path : Text) (paths : List Text) (ledger_name : Text) (extra : List Text)
    → elem path (governance_hits paths ledger_name extra)
      ≡ (elem path paths && is_governed ledger_name extra path)
unfolding governance_hits
elem-governance_hits path paths ledger_name extra =
    let governed = select (is_governed ledger_name extra) paths in
    elem-sort path (dedup governed)
    ∙ elem-dedup path governed
    ∙ elem-select path (is_governed ledger_name extra) paths
