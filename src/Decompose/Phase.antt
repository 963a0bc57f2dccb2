-- ===== src/Decompose/Phase.antt =====
-- graphs/delivery/initiative_decompose.py: the phases that `_resolve_phase` corrects.
use coxswain_graphs.Prelude.{
  ◌≤◌, ◌≡◌, refl, sym, ap, ◌∙◌, true, false, ◌&&◌, ◌||◌, ◌==◌, ◌↔◌, some, List, [], ◌∷◌, leb, ltb,
  leb→le, list_eq, nat_eq, text_eq, Text, elem, elem-select, all, arith, Bool-cases, inl, inr,
}
use coxswain_graphs.Prelude.{le→leb, any, not, nat_beq, length, select}
use coxswain_graphs.Decompose.{edit_distance, near, note_of, resolve_phase}
use coxswain_graphs.Decompose.Distance.{Edits}
use coxswain_graphs.Decompose.Distance.Rows.{edit_distance-Edits}

near-elem :
    (phase d : Text) (declared : List Text)
    → elem d (near phase declared) ≡ (elem d declared && leb (edit_distance phase d) 2)
near-elem phase d declared = elem-select d (λ x. leb (edit_distance phase x) 2) declared

-- What passes the filter is declared, and within two edits.
near-declared :
    (phase d : Text) (declared : List Text)
    → elem d (near phase declared) ≡ true
    → (elem d declared ≡ true) × (edit_distance phase d ≤ 2)
near-declared phase d declared h =
    let q : (elem d declared && leb (edit_distance phase d) 2) ≡ true =
      sym (near-elem phase d declared) ∙ h in
    (ground (arith, q), leb→le (edit_distance phase d) 2 (ground (arith, q)))

-- What the filter leaves out is further than two edits: where it keeps `p` alone, so does any other.
alone :
    (phase p : Text) (ds : List Text)
    → all (λ d. d == p) (near phase ds) ≡ true
    → all (λ d. ltb 2 (edit_distance phase d) || d == p) ds ≡ true
alone phase p [] h = refl
alone phase p (d ∷ ds) h = elim (Bool-cases (leb (edit_distance phase d) 2)) [
  | inl reached ↦ ground (arith, reached, alone phase p ds)
  | inr far ↦ ground (arith, far, alone phase p ds)
]

any-length :
    (p : Text) (ds : List Text)
    → any (λ d. d == p) ds ≡ not (nat_beq (length (select (λ d. d == p) ds)) 0)
any-length p [] = refl
any-length p (d ∷ ds) = ground (arith, any-length p ds)

near-none :
    (phase p : Text) (ds : List Text)
    → all (λ d. ltb 2 (edit_distance phase d) || d == p) ds ≡ true
    → any (λ d. d == p) ds ≡ false
    → near phase ds ≡ []
near-none phase p [] far gone = refl
near-none phase p (d ∷ ds) far gone = ground (arith, near-none phase p ds)

near-one :
    (phase p : Text) (ds : List Text)
    → edit_distance phase p ≤ 2
    → all (λ d. ltb 2 (edit_distance phase d) || d == p) ds ≡ true
    → length (select (λ d. d == p) ds) ≡ 1
    → near phase ds ≡ p ∷ []
near-one phase p [] few far once = absurd (ground arith)
near-one phase p (d ∷ ds) few far once = elim (Bool-cases (d == p)) [
  | inr other ↦ ground (arith, other, near-one phase p ds few)
  | inl same ↦
      let is : d ≡ p = (text_eq.beq_iff d p).0 same in
      let gone : near phase ds ≡ [] =
        near-none phase p ds (ground (arith, far)) (ground (arith, once, same, any-length p ds)) in
      rw (is, gone) (ground (arith, few))
]

near-count :
    (phase p : Text) (ds : List Text)
    → edit_distance phase p ≤ 2
    → length (select (λ d. d == p) (near phase ds)) ≡ length (select (λ d. d == p) ds)
near-count phase p [] few = refl
near-count phase p (d ∷ ds) few = elim (Bool-cases (d == p)) [
  | inr other ↦ elim (Bool-cases (leb (edit_distance phase d) 2)) [
    | inl reached ↦ ground (arith, other, reached, near-count phase p ds few)
    | inr far ↦ ground (arith, other, far, near-count phase p ds few)
  ]
  | inl same ↦
      let is : d ≡ p = (text_eq.beq_iff d p).0 same in
      let reached : leb (edit_distance phase d) 2 ≡ true =
        le→leb (edit_distance phase d) 2 (omega (arith, few, ap (edit_distance phase) is)) in
      ground (arith, same, reached, near-count phase p ds few)
]

corrected :
    (phase p note : Text) (declared : List Text)
    → resolve_phase phase declared ≡ some (p, some note)
    → (elem phase declared ≡ false)
      × (elem p declared ≡ true)
      × Edits phase p (edit_distance phase p)
      × (edit_distance phase p ≤ 2)
      × (all (λ d. ltb 2 (edit_distance phase d) || d == p) declared ≡ true)
      × (length (select (λ d. d == p) declared) ≡ 1)
      × (note ≡ note_of phase p)
unfolding resolve_phase
corrected phase p note declared e = elim (Bool-cases (elem phase declared)) [
  | inl w ↦ absurd (ground (arith, e, w))
  | inr w ↦ split w (near phase declared) refl
]
  where
    split :
        elem phase declared ≡ false
        → (ds : List Text) → near phase declared ≡ ds
        → (elem phase declared ≡ false)
          × (elem p declared ≡ true)
          × Edits phase p (edit_distance phase p)
          × (edit_distance phase p ≤ 2)
          × (all (λ d. ltb 2 (edit_distance phase d) || d == p) declared ≡ true)
          × (length (select (λ d. d == p) declared) ≡ 1)
          × (note ≡ note_of phase p)
    split w [] v = absurd (ground (arith, e, w, v))
    split w (d ∷ []) v =
        let is : d ≡ p = ground (arith, e, w, v) in
        let (declares, few) =
          near-declared phase p declared
            (ap (elem p) v ∙ ground (arith, is, text_eq.beq_iff p d)) in
        (
          w,
          declares,
          edit_distance-Edits phase p,
          few,
          alone phase p declared
              (ap (all (λ x. x == p)) v ∙ ground (arith, is, text_eq.beq_iff d p)),
          sym (near-count phase p declared few)
              ∙ ap (λ ds. length (select (λ x. x == p) ds)) v
              ∙ ground (arith, is, text_eq.beq_iff d p),
          ground (arith, e, w, v),
        )
    split w (d ∷ c ∷ ds) v = absurd (ground (arith, e, w, v))

-- A correction to `p` is made exactly where the phase is not declared, `p` is declared, once, and is at most
-- two edits away, and every other declared phase is further than two edits away. A list of that many edits
-- turns the phase into `p`, and the note names the two.
pub resolve_phase-corrected :
    (phase p note : Text) (declared : List Text)
    → (resolve_phase phase declared ≡ some (p, some note)) ↔ (
        (elem phase declared ≡ false)
        × (elem p declared ≡ true)
        × Edits phase p (edit_distance phase p)
        × (edit_distance phase p ≤ 2)
        × (all (λ d. ltb 2 (edit_distance phase d) || d == p) declared ≡ true)
        × (length (select (λ d. d == p) declared) ≡ 1)
        × (note ≡ note_of phase p))
resolve_phase-corrected phase p note declared = (
  corrected phase p note declared,
  λ (a, _, _, few, far, once, named).
      unfold resolve_phase in ground (arith, a, near-one phase p declared few far once, named),
)
