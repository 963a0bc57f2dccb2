-- ===== src/Decompose/Distance.antt =====
-- graphs/delivery/initiative_decompose.py: `_edit_distance` is the least number of edits.
pub mod Rows
use mathlib.Core.Path.{subst}
use coxswain_graphs.Prelude.{
  ℕ, zero, suc, ◌+◌, ◌≤◌, ◌≡◌, refl, sym, ap, ◌∙◌, min, Bool, true, false, List, [], ◌∷◌, ◌++◌,
  length, if◌then◌else◌, nat_beq, nat_beq_iff, leb, ◌⊎◌, Text, arith, Bool-cases, inl, inr,
}
use coxswain_graphs.Decompose.{next_cells, next_row, last_row, first_row, last_cell, edit_distance}

-- The edits that turn a text into another, from the front, and their number.
pub data Edits : Text → Text → ℕ → Type 0 where
  done : Edits [] [] 0
  keep : (c : ℕ) (a b : Text) (n : ℕ) → Edits a b n → Edits (c ∷ a) (c ∷ b) n
  replace : (c d : ℕ) (a b : Text) (n : ℕ) → Edits a b n → Edits (c ∷ a) (d ∷ b) (suc n)
  delete : (c : ℕ) (a b : Text) (n : ℕ) → Edits a b n → Edits (c ∷ a) b (suc n)
  add : (d : ℕ) (a b : Text) (n : ℕ) → Edits a b n → Edits a (d ∷ b) (suc n)

abbrev pub cost : ℕ → ℕ → ℕ
cost c d = if nat_beq c d then 0 else 1

-- The textbook recursion.
pub levenshtein : Text → Text → ℕ
levenshtein [] b = length b
levenshtein (c ∷ a) [] = suc (length a)
levenshtein (c ∷ a) (d ∷ b) =
    min (min (levenshtein a (d ∷ b) + 1) (levenshtein (c ∷ a) b + 1)) (levenshtein a b + cost c d)

pub levenshtein-nil : (a : Text) → levenshtein a [] ≡ length a
unfolding levenshtein
levenshtein-nil [] = refl
levenshtein-nil (c ∷ a) = omega arith

levenshtein-delete : (c : ℕ) (a b : Text) → levenshtein (c ∷ a) b ≤ suc (levenshtein a b)
unfolding levenshtein
levenshtein-delete c a [] = omega (arith, levenshtein-nil a)
levenshtein-delete c a (d ∷ b) = omega arith

levenshtein-add : (d : ℕ) (a b : Text) → levenshtein a (d ∷ b) ≤ suc (levenshtein a b)
unfolding levenshtein
levenshtein-add d [] b = omega arith
levenshtein-add d (c ∷ a) b = omega arith

pub levenshtein-least : (a b : Text) (n : ℕ) → Edits a b n → levenshtein a b ≤ n
unfolding levenshtein
levenshtein-least a b n done = omega arith
levenshtein-least a b n (keep c a' b' _ e) =
    ground (arith, levenshtein-least a' b' n e, nat_beq_iff c c)
levenshtein-least a b n (replace c d a' b' n' e) = ground (arith, levenshtein-least a' b' n' e)
levenshtein-least a b n (delete c a' b' n' e) =
    omega (arith, levenshtein-least a' b' n' e, levenshtein-delete c a' b')
levenshtein-least a b n (add d a' b' n' e) =
    omega (arith, levenshtein-least a' b' n' e, levenshtein-add d a' b')

min_cases : (x y z : ℕ) → (min (min x y) z ≡ x) ⊎ ((min (min x y) z ≡ y) ⊎ (min (min x y) z ≡ z))
min_cases x y z = elim (Bool-cases (leb x y)) [
  | inl a ↦ elim (Bool-cases (leb x z)) [
    | inl b ↦ inl (ground (arith, a, b))
    | inr b ↦ inr (inr (ground (arith, a, b)))
  ]
  | inr a ↦ elim (Bool-cases (leb y z)) [
    | inl b ↦ inr (inl (ground (arith, a, b)))
    | inr b ↦ inr (inr (ground (arith, a, b)))
  ]
]

all_added : (b : Text) → Edits [] b (length b)
all_added [] = done
all_added (d ∷ b) = subst (Edits [] (d ∷ b)) (omega arith) (add d [] b (length b) (all_added b))

all_deleted : (a : Text) → Edits a [] (length a)
all_deleted [] = done
all_deleted (c ∷ a) =
    subst (Edits (c ∷ a) []) (omega arith) (delete c a [] (length a) (all_deleted a))

pub levenshtein-Edits : (a b : Text) → Edits a b (levenshtein a b)
unfolding levenshtein
levenshtein-Edits [] b = all_added b
levenshtein-Edits (c ∷ a) [] = subst (Edits (c ∷ a) []) (omega arith) (all_deleted (c ∷ a))
levenshtein-Edits (c ∷ a) (d ∷ b) =
    pick (levenshtein-Edits a (d ∷ b)) (levenshtein-Edits (c ∷ a) b) (levenshtein-Edits a b) (
      min_cases (levenshtein a (d ∷ b) + 1) (levenshtein (c ∷ a) b + 1)
        (levenshtein a b + cost c d))
  where
    same :
        (t : Bool)
        → nat_beq c d ≡ t
        → Edits a b (levenshtein a b)
        → Edits (c ∷ a) (d ∷ b) (levenshtein a b + cost c d)
    same true w e =
        let q : c ≡ d = (nat_beq_iff c d).0 w in
        let k : Edits (c ∷ a) (d ∷ b) (levenshtein a b) =
          subst (λ x. Edits (c ∷ a) (x ∷ b) (levenshtein a b)) q (keep c a b (levenshtein a b) e) in
        subst (Edits (c ∷ a) (d ∷ b)) (ground (arith, w)) k
    same false w e =
        subst (Edits (c ∷ a) (d ∷ b)) (ground (arith, w)) (replace c d a b (levenshtein a b) e)

    pick :
        Edits a (d ∷ b) (levenshtein a (d ∷ b))
        → Edits (c ∷ a) b (levenshtein (c ∷ a) b)
        → Edits a b (levenshtein a b)
        → (let m : ℕ =
              min
                (min (levenshtein a (d ∷ b) + 1) (levenshtein (c ∷ a) b + 1))
                (levenshtein a b + cost c d) in
            (m ≡ levenshtein a (d ∷ b) + 1)
            ⊎ ((m ≡ levenshtein (c ∷ a) b + 1) ⊎ (m ≡ levenshtein a b + cost c d)))
        → Edits (c ∷ a) (d ∷ b) (levenshtein (c ∷ a) (d ∷ b))
    pick x y z (inl e) =
        subst (Edits (c ∷ a) (d ∷ b)) (omega (arith, e))
          (delete c a (d ∷ b) (levenshtein a (d ∷ b)) x)
    pick x y z (inr (inl e)) =
        subst (Edits (c ∷ a) (d ∷ b)) (omega (arith, e)) (add d (c ∷ a) b (levenshtein (c ∷ a) b) y)
    pick x y z (inr (inr e)) = subst (Edits (c ∷ a) (d ∷ b)) (sym e) (same (nat_beq c d) refl z)

-- Edits at the back, and the reversed edits.
keep_last : (x : ℕ) (a b : Text) (n : ℕ) → Edits a b n → Edits (a ++ x ∷ []) (b ++ x ∷ []) n
keep_last x a b n done = keep x [] [] 0 done
keep_last x a b n (keep c a' b' _ e) = keep c _ _ n (keep_last x a' b' n e)
keep_last x a b n (replace c d a' b' n' e) = replace c d _ _ n' (keep_last x a' b' n' e)
keep_last x a b n (delete c a' b' n' e) = delete c _ _ n' (keep_last x a' b' n' e)
keep_last x a b n (add d a' b' n' e) = add d _ _ n' (keep_last x a' b' n' e)

replace_last :
    (x y : ℕ) (a b : Text) (n : ℕ) → Edits a b n → Edits (a ++ x ∷ []) (b ++ y ∷ []) (suc n)
replace_last x y a b n done = replace x y [] [] 0 done
replace_last x y a b n (keep c a' b' _ e) = keep c _ _ (suc n) (replace_last x y a' b' n e)
replace_last x y a b n (replace c d a' b' n' e) =
    replace c d _ _ (suc n') (replace_last x y a' b' n' e)
replace_last x y a b n (delete c a' b' n' e) = delete c _ _ (suc n') (replace_last x y a' b' n' e)
replace_last x y a b n (add d a' b' n' e) = add d _ _ (suc n') (replace_last x y a' b' n' e)

delete_last : (x : ℕ) (a b : Text) (n : ℕ) → Edits a b n → Edits (a ++ x ∷ []) b (suc n)
delete_last x a b n done = delete x [] [] 0 done
delete_last x a b n (keep c a' b' _ e) = keep c _ _ (suc n) (delete_last x a' b' n e)
delete_last x a b n (replace c d a' b' n' e) = replace c d _ _ (suc n') (delete_last x a' b' n' e)
delete_last x a b n (delete c a' b' n' e) = delete c _ _ (suc n') (delete_last x a' b' n' e)
delete_last x a b n (add d a' b' n' e) = add d _ _ (suc n') (delete_last x a' b' n' e)

add_last : (y : ℕ) (a b : Text) (n : ℕ) → Edits a b n → Edits a (b ++ y ∷ []) (suc n)
add_last y a b n done = add y [] [] 0 done
add_last y a b n (keep c a' b' _ e) = keep c _ _ (suc n) (add_last y a' b' n e)
add_last y a b n (replace c d a' b' n' e) = replace c d _ _ (suc n') (add_last y a' b' n' e)
add_last y a b n (delete c a' b' n' e) = delete c _ _ (suc n') (add_last y a' b' n' e)
add_last y a b n (add d a' b' n' e) = add d _ _ (suc n') (add_last y a' b' n' e)

abbrev pub backwards : Text → Text
backwards [] = []
backwards (c ∷ a) = backwards a ++ c ∷ []

pub Edits-backwards : (a b : Text) (n : ℕ) → Edits a b n → Edits (backwards a) (backwards b) n
Edits-backwards a b n done = done
Edits-backwards a b n (keep c a' b' _ e) = keep_last c _ _ n (Edits-backwards a' b' n e)
Edits-backwards a b n (replace c d a' b' n' e) =
    replace_last c d _ _ n' (Edits-backwards a' b' n' e)
Edits-backwards a b n (delete c a' b' n' e) = delete_last c _ _ n' (Edits-backwards a' b' n' e)
Edits-backwards a b n (add d a' b' n' e) = add_last d _ _ n' (Edits-backwards a' b' n' e)
