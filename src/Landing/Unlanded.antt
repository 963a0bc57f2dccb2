-- ===== src/Landing/Unlanded.antt =====
-- What the phase branch's unlanded commits mean.
use coxswain_graphs.Prelude.{
  String, ◌≡◌, refl, Bool, true, false, ◌||◌, List, [], ◌∷◌, if◌then◌else◌, ◌==◌, string_eq,
  list_eq, nat_eq, elem, all, any, subset, is_empty, arith,
}
use coxswain_graphs.Landing.{classify_states, landed, awaiting_land, rebase, blocked}

abbrev pub is_done : String → Bool
is_done s = s == "done"

abbrev pub is_approved : String → Bool
is_approved s = s == "approved"

subset-one : (a : String) (xs : List String) → subset xs (a ∷ []) ≡ all (λ s. s == a) xs
subset-one a [] = refl
subset-one a (x ∷ xs) = ground (arith, subset-one a xs)

subset-two :
    (a b : String) (xs : List String) → subset xs (a ∷ b ∷ []) ≡ all (λ s. s == a || s == b) xs
subset-two a b [] = refl
subset-two a b (x ∷ xs) = ground (arith, subset-two a b xs)

elem-any : (a : String) (xs : List String) → elem a xs ≡ any (λ s. s == a) xs
elem-any a [] = refl
elem-any a (x ∷ xs) = ground (arith, elem-any a xs, string_eq.beq_iff a x, string_eq.beq_iff x a)

all-or_any :
    (a b : String) (xs : List String)
    → all (λ s. s == a || s == b) xs ≡ true
    → all (λ s. s == b) xs ≡ false
    → any (λ s. s == a) xs ≡ true
all-or_any a b [] h k = absurd (ground arith)
all-or_any a b (x ∷ xs) h k = ground (arith, all-or_any a b xs)

all-flip :
    (a b : String) (xs : List String)
    → all (λ s. s == a || s == b) xs ≡ all (λ s. s == b || s == a) xs
all-flip a b [] = refl
all-flip a b (x ∷ xs) = ground (arith, all-flip a b xs)

all-nonempty :
    (a : String) (xs : List String)
    → is_empty xs ≡ false
    → all (λ s. s == a) xs ≡ true
    → any (λ s. s == a) xs ≡ true
all-nonempty a [] h k = absurd (ground arith)
all-nonempty a (x ∷ xs) h k = ground arith

all-either :
    (a b : String) (xs : List String)
    → all (λ s. s == a) xs ≡ true
    → all (λ s. s == a || s == b) xs ≡ true
all-either a b [] h = refl
all-either a b (x ∷ xs) h = ground (arith, all-either a b xs)

pub classify_states-all :
    (states : List String)
    → classify_states states ≡ (
        if all is_done states
        then landed
        else if all is_approved states
        then awaiting_land
        else if all (λ s. is_approved s || is_done s) states
        then rebase
        else blocked)
unfolding classify_states
classify_states-all states = ground (
  arith,
  subset-one "done" states,
  subset-one "approved" states,
  subset-two "approved" "done" states,
  elem-any "done" states,
  elem-any "approved" states,
  all-or_any "approved" "done" states,
  all-or_any "done" "approved" states,
  all-flip "approved" "done" states,
  all-nonempty "done" states,
  all-nonempty "approved" states,
)
