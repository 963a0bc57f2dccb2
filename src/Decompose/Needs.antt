-- ===== src/Decompose/Needs.antt =====
-- graphs/delivery/initiative_decompose.py: the needs of a plan's tasks.
use coxswain_graphs.Prelude.{
  ◌≡◌, refl, ap, ◌∙◌, Bool, not, List, [], ◌∷◌, ◌++◌, map, select, list_eq, nat_eq, Text, elem,
  arith, Bool-cases, inl, inr,
}
use coxswain_graphs.Decompose.{
  Task, ids, without_foreign, drop_foreign_needs, problems_of, ordinal_needs_problems,
}

select-select-not : (p : Text → Bool) (xs : List Text) → select (λ x. not (p x)) (select p xs) ≡ []
select-select-not p [] = refl
select-select-not p (x ∷ xs) = elim (Bool-cases (p x)) [
  | inl h ↦ ground (arith, h, select-select-not p xs)
  | inr h ↦ ground (arith, h, select-select-not p xs)
]

ids-without :
    (known : List Text) (tasks : List Task) → ids (map (without_foreign known) tasks) ≡ ids tasks
ids-without known [] = refl
ids-without known (t ∷ ts) = ap (λ x. t.id ∷ x) (ids-without known ts)

problems_of-without :
    (known : List Text) (tasks : List Task)
    → problems_of known (map (without_foreign known) tasks) ≡ []
problems_of-without known [] = refl
problems_of-without known (t ∷ ts) =
    ap (λ x. map (λ n. (t.id, n)) x ++ problems_of known (map (without_foreign known) ts))
      (select-select-not (λ n. elem n known) t.needs)
    ∙ problems_of-without known ts

-- Once the foreign needs are dropped, every need names a task of the plan, and the ids are what they were.
pub drop_foreign_needs_sound :
    (tasks : List Task)
    → (ordinal_needs_problems (drop_foreign_needs tasks) ≡ [])
      × (ids (drop_foreign_needs tasks) ≡ ids tasks)
unfolding ordinal_needs_problems drop_foreign_needs
drop_foreign_needs_sound tasks = (
  ap (λ known. problems_of known (map (without_foreign (ids tasks)) tasks))
        (ids-without (ids tasks) tasks)
      ∙ problems_of-without (ids tasks) tasks,
  ids-without (ids tasks) tasks,
)
