-- ===== src/PhaseSplit/Levels.antt =====
-- graphs/delivery/phase_split.py: a need within a phase has a lower level, where the needs have no cycle.
use coxswain_graphs.Prelude.{
  ℕ, zero, suc, ◌<◌, ◌≡◌, refl, sym, ap, ◌∙◌, max, true, not, Option, some, Option-cases, List, [],
  ◌∷◌, ◌++◌, select, ◌==◌, list_eq, nat_eq, text_eq, Text, elem, elem-select, elem-append, Dict,
  lookup, arith, Bool-cases, inl, inr,
}
use coxswain_graphs.PhaseSplit.{Task, is_in_phase, same_phase_needs, deepest, level}

module _ (known : Dict Text Task) (rank : Text → ℕ) where
  -- The needs within a phase have no cycle: a rank falls along each of them.
  abbrev pub IsRanked : Type 0
  IsRanked =
      (id n : Text) (t : Task)
      → lookup id known ≡ some t
      → elem n (same_phase_needs known t) ≡ true
      → rank n < rank id

  -- Every id of the path is above.
  abbrev IsAbove : ℕ → List Text → Type 0
  IsAbove k path = (p : Text) → elem p path ≡ true → k < rank p

  IsAbove-cons :
      (k : ℕ) (id : Text) (path : List Text)
      → IsAbove (rank id) path
      → k < rank id
      → IsAbove k (path ++ id ∷ [])
  IsAbove-cons k id path above less p e = elim (Bool-cases (elem p path)) [
    | inl h ↦ omega (arith, above p h, less)
    | inr h ↦
        let q : p ≡ id = ground (arith, e, h, elem-append p path (id ∷ []), text_eq.beq_iff p id) in
        omega (arith, less, ap rank q)
  ]

  unmet :
      (k : ℕ) (path ns : List Text)
      → IsAbove k path
      → ((n : Text) → elem n ns ≡ true → rank n < k)
      → select (λ n. not (elem n path)) ns ≡ ns
  unmet k path [] above below = refl
  unmet k path (n ∷ ns) above below = elim (Bool-cases (elem n path)) [
    | inl h ↦ absurd (omega (arith, above n h, below n (ground (arith, text_eq.beq_iff n n))))
    | inr h ↦ ground (arith, h, unmet k path ns above (λ m e. below m (ground (arith, e))))
  ]

  deepest-same :
      (f g : Text → Option ℕ) (ns : List Text)
      → ((n : Text) → elem n ns ≡ true → f n ≡ g n)
      → deepest f ns ≡ deepest g ns
  deepest-same f g [] same = refl
  deepest-same f g (n ∷ ns) same = ground (
    arith,
    same n (ground (arith, text_eq.beq_iff n n)),
    deepest-same f g ns (λ m e. same m (ground (arith, e))),
  )

  -- Along a rank, neither the path nor the rest of the fuel matters.
  level-same :
      (fuel other : ℕ) (id : Text) (path path' : List Text)
      → IsRanked
      → rank id < fuel
      → rank id < other
      → IsAbove (rank id) path
      → IsAbove (rank id) path'
      → level known fuel id path ≡ level known other id path'
  unfolding level
  level-same zero other id path path' ranked a b above above' = absurd (omega (arith, a))
  level-same (suc fuel) zero id path path' ranked a b above above' = absurd (omega (arith, b))
  level-same (suc fuel) (suc other) id path path' ranked a b above above' =
      elim (Option-cases (lookup id known)) [
        | inl w ↦ ground (arith, w)
        | inr (t, w) ↦
            let ns : List Text = same_phase_needs known t in
            let below : (n : Text) → elem n ns ≡ true → rank n < rank id =
              λ n e. ranked id n t w e in
            let l : level known (suc fuel) id path
                ≡ deepest (λ n. level known fuel n (path ++ id ∷ [])) ns =
              rw (w, level)
                (ap (deepest (λ n. level known fuel n (path ++ id ∷ [])))
                  (unmet (rank id) path ns above below)) in
            let r : level known (suc other) id path'
                ≡ deepest (λ n. level known other n (path' ++ id ∷ [])) ns =
              rw (w, level)
                (ap (deepest (λ n. level known other n (path' ++ id ∷ [])))
                  (unmet (rank id) path' ns above' below)) in
            l
            ∙ deepest-same (λ n. level known fuel n (path ++ id ∷ []))
                (λ n. level known other n (path' ++ id ∷ [])) ns
                (λ n e.
                  level-same fuel other n (path ++ id ∷ []) (path' ++ id ∷ []) ranked
                    (omega (arith, below n e, a)) (omega (arith, below n e, b))
                    (IsAbove-cons (rank n) id path above (below n e))
                    (IsAbove-cons (rank n) id path' above' (below n e)))
            ∙ sym r
      ]

  in_phase-known :
      (phase n : Text) → is_in_phase known phase n ≡ true → (t : Task) × (lookup n known ≡ some t)
  in_phase-known phase n e = elim (Option-cases (lookup n known)) [
    | inl w ↦ absurd (ground (arith, e, w))
    | inr (t, w) ↦ (t, w)
  ]

  need-known :
      (t : Task) (n : Text)
      → elem n (same_phase_needs known t) ≡ true
      → (u : Task) × (lookup n known ≡ some u)
  need-known t n e =
      in_phase-known t.phase n
        (ground (arith, e, elem-select n (is_in_phase known t.phase) t.needs))

  deepest-total :
      (f : Text → Option ℕ) (ns : List Text)
      → ((n : Text) → elem n ns ≡ true → (k : ℕ) × (f n ≡ some k))
      → (k : ℕ) × (deepest f ns ≡ some k)
  deepest-total f [] total = (0, refl)
  deepest-total f (n ∷ ns) total =
      let (a, e) = total n (ground (arith, text_eq.beq_iff n n)) in
      let (b, g) = deepest-total f ns (λ m h. total m (ground (arith, h))) in
      (max (suc a) b, ground (arith, e, g))

  deepest-above :
      (f : Text → Option ℕ) (ns : List Text) (n : Text) (a b : ℕ)
      → elem n ns ≡ true
      → f n ≡ some a
      → deepest f ns ≡ some b
      → a < b
  deepest-above f [] n a b e g h = absurd (ground (arith, e))
  deepest-above f (m ∷ ns) n a b e g h = elim (Option-cases (f m)) [
    | inl w ↦ absurd (ground (arith, h, w))
    | inr (c, w) ↦ elim (Option-cases (deepest f ns)) [
      | inl v ↦ absurd (ground (arith, h, w, v))
      | inr (d, v) ↦
          let is : max (suc c) d ≡ b = ground (arith, h, w, v) in
          elim (Bool-cases (n == m)) [
            | inl q ↦
                let x : c ≡ a =
                  ground (arith, sym w ∙ ap f (sym ((text_eq.beq_iff n m).0 q)) ∙ g) in
                omega (arith, x, is)
            | inr q ↦ omega (arith, is, deepest-above f ns n a d (ground (arith, e, q)) g v)
          ]
    ]
  ]

  level-total :
      (fuel : ℕ) (id : Text) (path : List Text) (t : Task)
      → IsRanked
      → lookup id known ≡ some t
      → rank id < fuel
      → IsAbove (rank id) path
      → (k : ℕ) × (level known fuel id path ≡ some k)
  unfolding level
  level-total zero id path t ranked w less above = absurd (omega (arith, less))
  level-total (suc fuel) id path t ranked w less above =
      let ns : List Text = same_phase_needs known t in
      let below : (n : Text) → elem n ns ≡ true → rank n < rank id = λ n e. ranked id n t w e in
      let (k, e) =
        deepest-total (λ n. level known fuel n (path ++ id ∷ [])) ns
          (λ n e.
            let (u, v) = need-known t n e in
            level-total fuel n (path ++ id ∷ []) u ranked v (omega (arith, below n e, less))
              (IsAbove-cons (rank n) id path above (below n e))) in
      (
        k,
        rw (w, level)
            (ap (deepest (λ n. level known fuel n (path ++ id ∷ [])))
                (unmet (rank id) path ns above below)
              ∙ e),
      )

  -- Where the needs within a phase have no cycle, and the fuel is above the rank, a task and each of its
  -- needs within its phase have a level, and the need's is lower.
  pub level-need :
      (fuel : ℕ) (id n : Text) (t : Task)
      → IsRanked
      → lookup id known ≡ some t
      → elem n (same_phase_needs known t) ≡ true
      → rank id < fuel
      → (a : ℕ) × (b : ℕ) × (level known fuel n [] ≡ some a)
        × (level known fuel id [] ≡ some b)
        × (a < b)
  unfolding level
  level-need zero id n t ranked w e less = absurd (omega (arith, less))
  level-need (suc fuel) id n t ranked w e less =
      let ns : List Text = same_phase_needs known t in
      let below : (m : Text) → elem m ns ≡ true → rank m < rank id = λ m q. ranked id m t w q in
      let none_above : IsAbove (rank id) [] = λ p q. absurd (ground (arith, q)) in
      let none_above' : IsAbove (rank n) [] = λ p q. absurd (ground (arith, q)) in
      let (u, v) = need-known t n e in
      let (a, is) =
        level-total (suc fuel) n [] u ranked v (omega (arith, below n e, less)) none_above' in
      let (b, found) = level-total (suc fuel) id [] t ranked w less none_above in
      let inner : level known fuel n ([] ++ id ∷ []) ≡ some a =
        level-same fuel (suc fuel) n ([] ++ id ∷ []) [] ranked (omega (arith, below n e, less))
          (omega (arith, below n e, less)) (IsAbove-cons (rank n) id [] none_above (below n e))
          none_above'
        ∙ is in
      let step : level known (suc fuel) id []
          ≡ deepest (λ m. level known fuel m ([] ++ id ∷ [])) (select (λ m. not (elem m [])) ns) =
        rw (w, level) refl in
      let whole : deepest (λ m. level known fuel m ([] ++ id ∷ [])) ns ≡ some b =
        ap (deepest (λ m. level known fuel m ([] ++ id ∷ [])))
          (sym (unmet (rank id) [] ns none_above below))
        ∙ sym step
        ∙ found in
      (
        a,
        b,
        is,
        found,
        deepest-above (λ m. level known fuel m ([] ++ id ∷ [])) ns n a b e inner whole,
      )
