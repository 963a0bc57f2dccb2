-- ===== src/Decompose/Edges.antt =====
-- graphs/delivery/initiative_decompose.py: `_apply_challenge`, the edges that the adversary drops and adds.
use coxswain_graphs.Prelude.{
  ◌≡◌, refl, sym, ap, ◌∙◌, Bool, true, false, not, ◌&&◌, ◌||◌, Option, none, some, Option-cases,
  List, [], ◌∷◌, ◌++◌, any, select, if◌then◌else◌, ◌==◌, list_eq, nat_eq, text_eq, Text, elem,
  elem-select, elem-append, Dict, lookup, insert, lookup-insert, arith, Bool-cases, inl, inr,
}
use coxswain_graphs.Decompose.{
  Task, Edge, Challenge, tasks_by_id, drop_edge, add_edge, drop_all, add_all, challenged,
}

-- Whether a task is in the plan, and whether it needs another.
abbrev pub is_task : Text → Dict Text Task → Bool
is_task id d = elim (lookup id d) [ none ↦ false | some t ↦ true ]

abbrev pub needs_in : Text → Text → Dict Text Task → Bool
needs_in id n d = elim (lookup id d) [ none ↦ false | some t ↦ elem n t.needs ]

abbrev pub names : Text → Text → Edge → Bool
names id n e = e.task == id && e.needs == n

-- Each task is filed under its id.
abbrev IsFiled : Dict Text Task → Type 0
IsFiled d = (id : Text) (t : Task) → lookup id d ≡ some t → t.id ≡ id

IsFiled-insert :
    (d : Dict Text Task) (k : Text) (t : Task) → t.id ≡ k → IsFiled d → IsFiled (insert k t d)
IsFiled-insert d k t e filed id u w = elim (Bool-cases (k == id)) [
  | inl h ↦
      let q : t ≡ u = ground (arith, w, h, lookup-insert k id t d) in
      ap (λ x. x.id) (sym q) ∙ e ∙ (text_eq.beq_iff k id).0 h
  | inr h ↦ filed id u (ground (arith, w, h, lookup-insert k id t d))
]

tasks_by_id-IsFiled : (ts : List Task) (d : Dict Text Task) → IsFiled d → IsFiled (tasks_by_id ts d)
tasks_by_id-IsFiled [] d filed = filed
tasks_by_id-IsFiled (t ∷ ts) d filed =
    tasks_by_id-IsFiled ts (insert t.id t d) (IsFiled-insert d t.id t refl filed)

drop_edge-IsFiled : (d : Dict Text Task) (e : Edge) → IsFiled d → IsFiled (drop_edge e d)
drop_edge-IsFiled d e filed = split (lookup e.task d) refl
  where
    drop :
        (t : Task)
        → lookup e.task d ≡ some t
        → (b : Bool)
        → IsFiled (
            if b
            then insert e.task (record t { needs = select (λ m. not (m == e.needs)) t.needs }) d
            else d)
    drop t w true = IsFiled-insert d e.task _ (filed e.task t w) filed
    drop t w false = filed

    split : (o : Option Task) → lookup e.task d ≡ o → IsFiled (drop_edge e d)
    split none w = rw (w, drop_edge) filed
    split (some t) w = rw (w, drop_edge) (drop t w (elem e.needs t.needs))

-- An element is dropped, or was not there.
dropped :
    (m : Text) (ns : List Text) (n : Text)
    → elem m ns ≡ false
    → elem n ns ≡ (elem n ns && not (m == n))
dropped m ns n e = elim (Bool-cases (m == n)) [
  | inl h ↦ ground (arith, h, e, ap (λ x. elem x ns) ((text_eq.beq_iff m n).0 h))
  | inr h ↦ ground (arith, h)
]

drop_edge-needs :
    (d : Dict Text Task) (e : Edge) (id n : Text)
    → (needs_in id n (drop_edge e d) ≡ (needs_in id n d && not (names id n e)))
      × (is_task id (drop_edge e d) ≡ is_task id d)
drop_edge-needs d e id n = elim (Option-cases (lookup e.task d)) [
  | inl w ↦ elim (Bool-cases (e.task == id)) [
    | inl h ↦
        let q : lookup id d ≡ none =
          ap (λ x. lookup x d) (sym ((text_eq.beq_iff e.task id).0 h)) ∙ w in
        ground (arith, w, h, q)
    | inr h ↦ ground (arith, w, h)
  ]
  | inr (t, w) ↦
      let i =
        lookup-insert e.task id (record t { needs = select (λ m. not (m == e.needs)) t.needs }) d in
      elim (Bool-cases (e.task == id)) [
        | inl h ↦
            let q : lookup id d ≡ some t =
              ap (λ x. lookup x d) (sym ((text_eq.beq_iff e.task id).0 h)) ∙ w in
            elim (Bool-cases (elem e.needs t.needs)) [
              | inl v ↦ ground (
                arith,
                w,
                h,
                q,
                v,
                i,
                elem-select n (λ m. not (m == e.needs)) t.needs,
                text_eq.beq_iff n e.needs,
                text_eq.beq_iff e.needs n,
              )
              | inr v ↦ ground (arith, w, h, q, v, dropped e.needs t.needs n v)
            ]
        | inr h ↦ ground (arith, w, h, i)
      ]
]

add_edge-IsFiled : (d : Dict Text Task) (e : Edge) → IsFiled d → IsFiled (add_edge e d)
add_edge-IsFiled d e filed = split (lookup e.task d) refl
  where
    put :
        (t : Task)
        → lookup e.task d ≡ some t
        → (b : Bool)
        → IsFiled (if b then insert e.task (record t { needs = t.needs ++ e.needs ∷ [] }) d else d)
    put t w true = IsFiled-insert d e.task _ (filed e.task t w) filed
    put t w false = filed

    split : (o : Option Task) → lookup e.task d ≡ o → IsFiled (add_edge e d)
    split none w = rw (w, add_edge) filed
    split (some t) w = elim (Option-cases (lookup e.needs d)) [
      | inl v ↦ rw (w, v, add_edge) filed
      | inr (u, v) ↦
          rw (w, v, add_edge) (put t w (not (e.needs == t.id) && not (elem e.needs t.needs)))
    ]

add_edge-needs :
    (d : Dict Text Task) (e : Edge) (id n : Text)
    → IsFiled d
    → (needs_in id n (add_edge e d)
        ≡ (needs_in id n d || (names id n e && is_task id d && is_task n d && not (n == id))))
      × (is_task id (add_edge e d) ≡ is_task id d)
add_edge-needs d e id n filed = elim (Option-cases (lookup e.task d)) [
  | inl w ↦ elim (Bool-cases (e.task == id)) [
    | inl h ↦
        let q : lookup id d ≡ none =
          ap (λ x. lookup x d) (sym ((text_eq.beq_iff e.task id).0 h)) ∙ w in
        ground (arith, w, h, q)
    | inr h ↦ ground (arith, w, h)
  ]
  | inr (t, w) ↦ elim (Option-cases (lookup e.needs d)) [
    | inl v ↦ elim (Bool-cases (e.needs == n)) [
      | inl g ↦
          let q : lookup n d ≡ none =
            ap (λ x. lookup x d) (sym ((text_eq.beq_iff e.needs n).0 g)) ∙ v in
          ground (arith, w, v, q, g)
      | inr g ↦ ground (arith, w, v, g)
    ]
    | inr (u, v) ↦
        let i = lookup-insert e.task id (record t { needs = t.needs ++ e.needs ∷ [] }) d in
        elim (Bool-cases (e.task == id)) [
          | inr h ↦ ground (arith, w, v, h, i)
          | inl h ↦
              let q : lookup id d ≡ some t =
                ap (λ x. lookup x d) (sym ((text_eq.beq_iff e.task id).0 h)) ∙ w in
              let own : t.id ≡ id = filed id t q in
              elim (Bool-cases (e.needs == n)) [
                | inl g ↦
                    let m : e.needs ≡ n = (text_eq.beq_iff e.needs n).0 g in
                    let k : lookup n d ≡ some u = ap (λ x. lookup x d) (sym m) ∙ v in
                    let x : (e.needs == t.id) ≡ (n == id) =
                      ap (λ z. z == t.id) m ∙ ap (λ z. n == z) own in
                    let y : elem e.needs t.needs ≡ elem n t.needs = ap (λ z. elem z t.needs) m in
                    let z : (n == e.needs) ≡ true = (text_eq.beq_iff n e.needs).1 (sym m) in
                    ground
                      (arith, w, v, h, i, q, g, k, x, y, z, elem-append n t.needs (e.needs ∷ []))
                | inr g ↦
                    let z : (n == e.needs) ≡ false =
                      ground (arith, g, text_eq.beq_iff n e.needs, text_eq.beq_iff e.needs n) in
                    ground (arith, w, v, h, i, q, g, z, elem-append n t.needs (e.needs ∷ []))
              ]
        ]
  ]
]

drop_all-needs :
    (es : List Edge) (d : Dict Text Task) (id n : Text)
    → (needs_in id n (drop_all es d) ≡ (needs_in id n d && not (any (names id n) es)))
      × (is_task id (drop_all es d) ≡ is_task id d)
drop_all-needs [] d id n = (ground arith, refl)
drop_all-needs (e ∷ es) d id n =
    let (a, b) = drop_all-needs es (drop_edge e d) id n in
    let (f, g) = drop_edge-needs d e id n in (ground (arith, a, f), b ∙ g)

drop_all-IsFiled : (es : List Edge) (d : Dict Text Task) → IsFiled d → IsFiled (drop_all es d)
drop_all-IsFiled [] d filed = filed
drop_all-IsFiled (e ∷ es) d filed =
    drop_all-IsFiled es (drop_edge e d) (drop_edge-IsFiled d e filed)

add_all-needs :
    (es : List Edge) (d : Dict Text Task) (id n : Text)
    → IsFiled d
    → needs_in id n (add_all es d)
      ≡ (needs_in id n d || (any (names id n) es && is_task id d && is_task n d && not (n == id)))
add_all-needs [] d id n filed = ground arith
add_all-needs (e ∷ es) d id n filed =
    let a = add_all-needs es (add_edge e d) id n (add_edge-IsFiled d e filed) in
    let (f, g) = add_edge-needs d e id n filed in
    let (_, h) = add_edge-needs d e n n filed in ground (arith, a, f, g, h)

-- After the challenge a task needs another exactly where it did and the edge was not called spurious, or
-- where the edge was called missing, both are tasks of the plan and are not the same.
pub challenged-needs :
    (tasks : List Task) (c : Challenge) (id n : Text)
    → needs_in id n (challenged tasks c) ≡ (
        (needs_in id n (tasks_by_id tasks []) && not (any (names id n) c.spurious_edges))
        || (any (names id n) c.missing_edges
            && is_task id (tasks_by_id tasks [])
            && is_task n (tasks_by_id tasks [])
            && not (n == id)))
challenged-needs tasks c id n =
    let d = tasks_by_id tasks [] in
    let filed : IsFiled (drop_all c.spurious_edges d) =
      drop_all-IsFiled c.spurious_edges d
        (tasks_by_id-IsFiled tasks [] (λ id t w. absurd (ground (arith, w)))) in
    let a = add_all-needs c.missing_edges (drop_all c.spurious_edges d) id n filed in
    let (f, g) = drop_all-needs c.spurious_edges d id n in
    let (_, h) = drop_all-needs c.spurious_edges d n n in ground (arith, a, f, g, h)
