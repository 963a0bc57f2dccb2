-- ===== src/Size/Examples.antt =====
-- Surfaces and an intake, and the theorem at them.
use coxswain_graphs.Prelude.{
  ◌≡◌, refl, true, false, ◌||◌, none, some, List, [], ◌∷◌, all, Text, codes, err,
}
use coxswain_graphs.Size.{
  SizeVerdict, ends_with, exists_in, mark_one, mark_new_surfaces, new_marker, ticket_slug,
  missing_of, single_ticket_initiative, missing_keys, is_abbreviation, ended_token, ended_tokens,
  is_one_sentence,
}
use coxswain_graphs.Size.Marks.{mark_new_surfaces-twice}

program : Unit {0}
unfolding ends_with exists_in mark_one mark_new_surfaces ticket_slug missing_of
    single_ticket_initiative is_abbreviation ended_token ended_tokens is_one_sentence
program = tt

abbrev files : List Text
files = codes "src/a.py" ∷ []

abbrev surfaces : List Text
surfaces = codes "src/" ∷ codes "./src/a.py" ∷ codes "b.py" ∷ []

marked :
    mark_new_surfaces surfaces files ≡ codes "src/" ∷ codes "./src/a.py" ∷ codes "b.py (new)" ∷ []
unfolding program
marked = refl

sentences :
    (is_one_sentence (codes "One file, e.g. a.py.") ≡ true)
    × (is_one_sentence (codes "One file. Then two.") ≡ false)
unfolding program
sentences = (refl, refl)

slugs : (ticket_slug (codes "--Add X, now!") ≡ codes "add-x-now") × (ticket_slug (codes "?!") ≡ [])
unfolding program
slugs = (refl, refl)

abbrev verdict : SizeVerdict
verdict = record {
  verdict = codes "task";
  reason = codes "small";
  surfaces = surfaces;
  source = codes "model";
}

refused_intake :
    single_ticket_initiative
      (record { ident = some (codes "x"); title = none; body = some []; checks = [] })
      verdict
      files
    ≡ err (missing_keys (codes "title" ∷ codes "body" ∷ []))
unfolding program
refused_intake = refl

mark_new_surfaces-twice_example :
    (mark_new_surfaces (mark_new_surfaces surfaces files) files ≡ mark_new_surfaces surfaces files)
    × (all (λ s. ends_with s new_marker || exists_in s files) (mark_new_surfaces surfaces files)
        ≡ true)
mark_new_surfaces-twice_example = mark_new_surfaces-twice surfaces files
