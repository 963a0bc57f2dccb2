-- ===== src/Size/Marks.antt =====
-- Marking new surfaces is done once.
use coxswain_graphs.Prelude.{
  ◌≡◌, refl, Bool, true, false, ◌||◌, List, [], ◌∷◌, ◌++◌, if◌then◌else◌, list_eq, nat_eq, text_eq,
  all, Text, arith,
}
use coxswain_graphs.Size.{ends_with, exists_in, new_marker, mark_one, mark_new_surfaces}

-- A text ends with what was appended to it.
ends_with-append : (s p : Text) → ends_with (s ++ p) p ≡ true
unfolding ends_with
ends_with-append [] [] = refl
ends_with-append [] (c ∷ p) = ground (arith, text_eq.beq_iff (c ∷ p) (c ∷ p))
ends_with-append (c ∷ s) p = ground (arith, ends_with-append s p)

mark_one-settled :
    (files : List Text) (s : Text)
    → (ends_with (mark_one files s) new_marker || exists_in (mark_one files s) files) ≡ true
unfolding mark_one
mark_one-settled files s = settle (ends_with s new_marker || exists_in s files) refl
  where
    settle :
        (b : Bool)
        → (ends_with s new_marker || exists_in s files) ≡ b
        → (let t = if b then s else s ++ new_marker in ends_with t new_marker || exists_in t files)
          ≡ true
    settle true h = h
    settle false h = ground (arith, ends_with-append s new_marker)

mark_one-at_settled :
    (files : List Text) (t : Text)
    → (ends_with t new_marker || exists_in t files) ≡ true
    → mark_one files t ≡ t
unfolding mark_one
mark_one-at_settled files t h = ground arith

mark_one-twice :
    (files : List Text) (s : Text) → mark_one files (mark_one files s) ≡ mark_one files s
mark_one-twice files s = mark_one-at_settled files (mark_one files s) (mark_one-settled files s)

-- Marking is idempotent: every surface is marked or exists after the first time.
pub mark_new_surfaces-twice :
    (surfaces files : List Text)
    → (mark_new_surfaces (mark_new_surfaces surfaces files) files
        ≡ mark_new_surfaces surfaces files)
      × (all (λ s. ends_with s new_marker || exists_in s files) (mark_new_surfaces surfaces files)
          ≡ true)
unfolding mark_new_surfaces
mark_new_surfaces-twice [] files = (refl, refl)
mark_new_surfaces-twice (s ∷ surfaces) files = (
  ground (arith, mark_one-twice files s, (mark_new_surfaces-twice surfaces files).0),
  ground (arith, mark_one-settled files s, (mark_new_surfaces-twice surfaces files).1),
)
