-- ===== src/Driver/Views.antt =====
-- What the ready view, the attempt cap and the work state keep.
use coxswain_graphs.Prelude.{
  String, ◌≡◌, refl, ap, Bool, true, false, ◌&&◌, ◌||◌, Option, none, some, List, [], ◌∷◌, map, any,
  if◌then◌else◌, ◌==◌, option_eq, list_eq, string_eq, nat_eq, Text, codes, lookup, Dict, text_ord,
  Result, ok, err, arith,
}
use coxswain_graphs.Phases.{Item}
use coxswain_graphs.Driver.{
  ready_view, presented, Value, text, other, checked_work_state, work_state_of, is_postgres,
}

-- The items that a need on `t` may be satisfied by: those of the id that are done.
abbrev pub has_done : Text → List Item → Bool
has_done t items = any (λ i. i.ident == t && i.state == "done") items

at_test :
    (i : Item) (b : Bool)
    → (((if b then record i { state = "done" } else i).state == "done") ≡ (i.state == "done" || b))
      × ((if b then record i { state = "done" } else i).ident ≡ i.ident)
at_test i true = (ground arith, refl)
at_test i false = (ground arith, refl)

presented_lem :
    (i : Item)
    → (((presented i).state == "done") ≡ (i.state == "done" || (i.state == "approved" && i.merged)))
      × ((presented i).ident ≡ i.ident)
presented_lem i = at_test i (i.state == "approved" && i.merged)

-- In the view a task is done exactly where it is done in the items, or approved with its work merged; ids
-- and their order are unchanged.
pub ready_view-done :
    (t : Text) (items : List Item)
    → (has_done t (ready_view items)
        ≡ any
            (λ i. i.ident == t && (i.state == "done" || (i.state == "approved" && i.merged)))
            items)
      × (map (λ i. i.ident) (ready_view items) ≡ map (λ i. i.ident) items)
unfolding ready_view
ready_view-done t [] = (refl, refl)
ready_view-done t (i ∷ items) = (
  rw ((presented_lem i).0, (presented_lem i).1, (ready_view-done t items).0) refl,
  rw ((presented_lem i).1, (ready_view-done t items).1) refl,
)

known_from :
    (t s : Text) (b : Bool)
    → (t == codes "files" || (t == codes "store" || false)) ≡ b
    → ◌≡◌ {A = Result Value Text} (if b then ok t else err (text t)) (ok s)
    → (s == codes "files" || s == codes "store") ≡ true
known_from t s true e h =
    ground (arith, λ (q : t ≡ s). ap (λ x. x == codes "files" || x == codes "store") q)
known_from t s false e h = absurd (ground arith)

-- An accepted value is one of the two states.
checked_work_state-known :
    (v : Value) (s : Text)
    → checked_work_state v ≡ ok s
    → (s == codes "files" || s == codes "store") ≡ true
unfolding checked_work_state
checked_work_state-known (text t) s h =
    known_from t s (t == codes "files" || (t == codes "store" || false)) refl h
checked_work_state-known other s h = absurd (ground arith)

work_state_of_from :
    (v : Option Value) (b : Bool) (s : Text)
    → elim v as (λ x. Result Value Text) [
      | some value ↦ checked_work_state value
      | none ↦ if b then ok (codes "store") else ok (codes "files")
    ]
      ≡ ok s
    → (s == codes "files" || s == codes "store") ≡ true
work_state_of_from (some v) b s h = checked_work_state-known v s h
work_state_of_from none true s h = ground arith
work_state_of_from none false s h = ground arith

-- A profile that is not refused has the work state `files` or `store`.
pub work_state_of-known :
    (profile : Dict String Value) (s : Text)
    → work_state_of profile ≡ ok s
    → (s == codes "files" || s == codes "store") ≡ true
unfolding work_state_of
work_state_of-known profile s h =
    work_state_of_from (lookup "work_state" profile) (is_postgres (lookup "storage_url" profile)) s
      h
