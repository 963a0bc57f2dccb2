-- ===== src/Decompose/Repos.antt =====
-- graphs/delivery/initiative_decompose.py: the tasks that span several repositories, and their parts.
use mathlib.Core.Path.{subst}
use coxswain_graphs.Prelude.{
  ◌≤◌, ◌≡◌, ◌⊎◌, refl, sym, ap, ◌∙◌, Bool, true, false, ◌&&◌, ◌||◌, Option, none, some,
  Option-cases, List, [], ◌∷◌, ◌++◌, map, length, leb, leb→le, any, if◌then◌else◌, ◌==◌, list_eq,
  nat_eq, text_eq, text_ord, Text, elem, elem-select, elem-sort, elem-dedup, dedup, Dict, lookup,
  In, here, there, arith, Bool-cases, inl, inr,
}
use coxswain_graphs.Decompose.{
  Task, Tree, repo_of, repos_in, repos_of, in_repo, part, parts_of, split_tasks, with_parts,
  part_ids, split_cross_repo,
}

repos_in-elem :
    (known : Dict Text Text) (s r : Text) (ss : List Text)
    → elem s ss ≡ true
    → lookup s known ≡ some r
    → elem r (repos_in known ss) ≡ true
repos_in-elem known s r [] e l = absurd (ground (arith, e))
repos_in-elem known s r (x ∷ ss) e l = elim (Bool-cases (s == x)) [
  | inl h ↦
      let q : lookup x known ≡ some r =
        ap (λ y. lookup y known) (sym ((text_eq.beq_iff s x).0 h)) ∙ l in
      ground (arith, q, text_eq.beq_iff r r)
  | inr h ↦
      let rest : elem s ss ≡ true = ground (arith, e, h) in
      let ih = repos_in-elem known s r ss rest l in
      elim (Option-cases (lookup x known)) [
        | inl w ↦ ground (arith, w, ih)
        | inr (y, w) ↦ ground (arith, w, ih)
      ]
]

repos_of-elem :
    (known : Dict Text Text) (s r : Text) (t : Task)
    → elem s t.surfaces ≡ true
    → lookup s known ≡ some r
    → elem r (repos_of known t) ≡ true
repos_of-elem known s r t e l =
    elem-sort r (dedup (repos_in known t.surfaces))
    ∙ elem-dedup r (repos_in known t.surfaces)
    ∙ repos_in-elem known s r t.surfaces e l

only_one :
    (a b : Text) (xs : List Text) → length xs ≤ 1 → elem a xs ≡ true → elem b xs ≡ true → a ≡ b
only_one a b [] few e f = absurd (ground (arith, e))
only_one a b (x ∷ []) few e f = ground (arith, e, f, text_eq.beq_iff a x, text_eq.beq_iff b x)
only_one a b (x ∷ y ∷ xs) few e f = absurd (omega (arith, few))

in_repo-is :
    (known : Dict Text Text) (repo s r : Text)
    → in_repo known repo s ≡ true
    → lookup s known ≡ some r
    → r ≡ repo
in_repo-is known repo s r e l = ground (arith, e, l, text_eq.beq_iff r repo)

-- Two known surfaces of one task lie in one repository.
abbrev IsOneRepo : Dict Text Text → Task → Type 0
IsOneRepo known t =
    (s s' r r' : Text)
    → elem s t.surfaces ≡ true
    → elem s' t.surfaces ≡ true
    → lookup s known ≡ some r
    → lookup s' known ≡ some r'
    → r ≡ r'

part-IsOneRepo :
    (known : Dict Text Text) (t : Task) (repo : Text) → IsOneRepo known (part known t repo)
part-IsOneRepo known t repo s s' r r' e e' l l' =
    let a : in_repo known repo s ≡ true =
      ground (arith, e, elem-select s (in_repo known repo) t.surfaces) in
    let b : in_repo known repo s' ≡ true =
      ground (arith, e', elem-select s' (in_repo known repo) t.surfaces) in
    in_repo-is known repo s r a l ∙ sym (in_repo-is known repo s' r' b l')

In-parts :
    (known : Dict Text Text) (t x : Task) (repos : List Text)
    → In x (map (part known t) repos)
    → IsOneRepo known x
In-parts known t x [] i = elim i [ ]
In-parts known t x (repo ∷ repos) (here e) =
    subst (IsOneRepo known) (sym e) (part-IsOneRepo known t repo)
In-parts known t x (repo ∷ repos) (there i) = In-parts known t x repos i

parts_of-IsOneRepo :
    (known : Dict Text Text) (t x : Task) → In x (parts_of known t) → IsOneRepo known x
unfolding parts_of
parts_of-IsOneRepo known t x i = split (leb (length (repos_of known t)) 1) refl i
  where
    alone : leb (length (repos_of known t)) 1 ≡ true → In x (t ∷ []) → IsOneRepo known x
    alone w (here e) = subst (IsOneRepo known) (sym e) (λ s s' r r' a a' l l'.
        only_one r r' (repos_of known t) (leb→le (length (repos_of known t)) 1 w)
          (repos_of-elem known s r t a l) (repos_of-elem known s' r' t a' l'))
    alone w (there j) = elim j [ ]

    split :
        (b : Bool)
        → leb (length (repos_of known t)) 1 ≡ b
        → In x (if b then t ∷ [] else map (part known t) (repos_of known t))
        → IsOneRepo known x
    split true w j = alone w j
    split false w j = In-parts known t x (repos_of known t) j

In-append {ℓ} : {A : Type ℓ} (a : A) (xs ys : List A) → In a (xs ++ ys) → In a xs ⊎ In a ys
In-append a [] ys i = inr i
In-append a (x ∷ xs) ys (here e) = inl (here e)
In-append a (x ∷ xs) ys (there i) = elim (In-append a xs ys i) [
  | inl j ↦ inl (there j)
  | inr j ↦ inr j
]

split_tasks-IsOneRepo :
    (known : Dict Text Text) (ts : List Task) (x : Task)
    → In x (split_tasks known ts)
    → IsOneRepo known x
split_tasks-IsOneRepo known [] x i = elim i [ ]
split_tasks-IsOneRepo known (t ∷ ts) x i =
    elim (In-append x (parts_of known t) (split_tasks known ts) i) [
      | inl j ↦ parts_of-IsOneRepo known t x j
      | inr j ↦ split_tasks-IsOneRepo known ts x j
    ]

In-with_parts :
    (parts : Dict Text (List Text)) (ts : List Task) (x : Task)
    → In x (map (with_parts parts) ts)
    → (t : Task) × In t ts × (x.surfaces ≡ t.surfaces)
In-with_parts parts [] x i = elim i [ ]
In-with_parts parts (t ∷ ts) x (here e) = (t, here refl, ap (λ y. y.surfaces) e)
In-with_parts parts (t ∷ ts) x (there i) =
    let (u, j, e) = In-with_parts parts ts x i in (u, there j, e)

-- Of the tasks that the split gives, none spans two repositories: two of its surfaces that the tree knows
-- are in the same one.
pub split_cross_repo-one_repo :
    (tasks : List Task) (tree : Tree) (x : Task) (s s' r r' : Text)
    → In x (split_cross_repo tasks tree)
    → elem s x.surfaces ≡ true
    → elem s' x.surfaces ≡ true
    → lookup s (repo_of tree []) ≡ some r
    → lookup s' (repo_of tree []) ≡ some r'
    → r ≡ r'
unfolding split_cross_repo
split_cross_repo-one_repo tasks tree x s s' r r' i e e' l l' =
    let (t, j, q) =
      In-with_parts (part_ids (repo_of tree []) tasks []) (split_tasks (repo_of tree []) tasks) x
        i in
    split_tasks-IsOneRepo (repo_of tree []) tasks t j s s' r r' (sym (ap (elem s) q) ∙ e)
      (sym (ap (elem s') q) ∙ e') l l'

abbrev pub is_known : Option Text → Bool
is_known none = false
is_known (some r) = true

any-part :
    (known : Dict Text Text) (t : Task) (s : Text) (repos : List Text)
    → any (λ p. elem s p.surfaces) (map (part known t) repos)
      ≡ (elem s t.surfaces && (elim (lookup s known) [ none ↦ false | some r ↦ elem r repos ]))
any-part known t s [] = elim (Option-cases (lookup s known)) [
  | inl w ↦ ground (arith, w)
  | inr (r, w) ↦ ground (arith, w)
]
any-part known t s (repo ∷ repos) = elim (Option-cases (lookup s known)) [
  | inl w ↦
      ground (arith, w, any-part known t s repos, elem-select s (in_repo known repo) t.surfaces)
  | inr (r, w) ↦ ground (
    arith,
    w,
    any-part known t s repos,
    elem-select s (in_repo known repo) t.surfaces,
    text_eq.beq_iff r repo,
  )
]

-- A surface of a task is in a part of it exactly where the task is not split, or where the tree knows the
-- surface's repository: a split task loses the surfaces of files that are not there yet.
pub parts_of-surfaces :
    (known : Dict Text Text) (t : Task) (s : Text)
    → any (λ p. elem s p.surfaces) (parts_of known t)
      ≡ (elem s t.surfaces && (leb (length (repos_of known t)) 1 || is_known (lookup s known)))
unfolding parts_of
parts_of-surfaces known t s = elim (Bool-cases (leb (length (repos_of known t)) 1)) [
  | inl w ↦ ground (arith, w)
  | inr w ↦ elim (Option-cases (lookup s known)) [
    | inl v ↦ ground (arith, w, v, any-part known t s (repos_of known t))
    | inr (r, v) ↦ elim (Bool-cases (elem s t.surfaces)) [
      | inl e ↦
          ground (arith, w, v, any-part known t s (repos_of known t), repos_of-elem known s r t e v)
      | inr e ↦ ground (arith, w, v, e, any-part known t s (repos_of known t))
    ]
  ]
]
