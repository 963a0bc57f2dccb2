-- ===== src/Escalate/Rewrite.antt =====
-- What escalation does to the proposals of a run.
use coxswain_graphs.Prelude.{
  String, ◌≡◌, refl, false, Option, none, some, List, [], ◌∷◌, ◌++◌, map, if◌then◌else◌, ◌==◌,
  string_eq, list_eq, nat_eq, Text, is_empty, arith, Bool-cases, inl, inr, ◌⊎◌, lookup, ok, err,
}
use coxswain_graphs.Cartridge.{Cartridge, Spec, mapping, malformed, Evidence, Proposal}
use coxswain_graphs.Escalate.{
  governance_hits, touched_paths, carries_patch, self_modification, Refusal, governance_row,
  escalate_one, escalate_with, escalate_self_modification, kind_not_declared, kind_without_risk,
}

-- What a proposal may have become: it no longer carries the patch under a kind of its own.
pub record IsEscalated (risk : String) (row : Evidence) (before after : Proposal) : Type 0 where
  pub no_patch_kind : carries_patch after.kind ≡ false
  pub at_risk : after.risk ≡ (if carries_patch before.kind then risk else before.risk)
  pub named : after.kind ≡ (if carries_patch before.kind then self_modification else before.kind)
  pub traced :
      after.escalated_from
      ≡ (if carries_patch before.kind then some before.kind else before.escalated_from)
  pub extended :
      after.evidence
      ≡ (if carries_patch before.kind then before.evidence ++ row ∷ [] else before.evidence)
  pub same_target : after.target ≡ before.target
  pub same_rationale : after.rationale ≡ before.rationale
  pub same_subject : after.subject ≡ before.subject
  pub same_subject_new : after.subject_new ≡ before.subject_new
  pub same_attempts : after.attempts ≡ before.attempts
  pub same_action : after.suggested_action ≡ before.suggested_action

-- The two lists have the same length, and the relation holds place by place.
pub data Pairwise (R : Proposal → Proposal → Type 0) : List Proposal → List Proposal → Type 0 where
  none_left : Pairwise R [] []
  pair :
      {a b : Proposal} {xs ys : List Proposal}
      → R a b
      → Pairwise R xs ys
      → Pairwise R (a ∷ xs) (b ∷ ys)

self_modification_plain : carries_patch self_modification ≡ false
unfolding carries_patch
self_modification_plain = refl

escalate_one-IsEscalated :
    (risk : String) (row : Evidence) (item : Proposal)
    → IsEscalated risk row item (escalate_one risk row item)
unfolding escalate_one
escalate_one-IsEscalated risk row item = ground (arith, self_modification_plain)

map-escalate_one :
    (risk : String) (row : Evidence) (items : List Proposal)
    → Pairwise (IsEscalated risk row) items (map (escalate_one risk row) items)
map-escalate_one risk row [] = none_left
map-escalate_one risk row (item ∷ items) =
    pair (escalate_one-IsEscalated risk row item) (map-escalate_one risk row items)

-- The risk that the taxonomy gives the kind, or what is wrong with its entry.
abbrev pub declared_risk : Option Spec → Refusal ⊎ String
declared_risk none = inl kind_not_declared
declared_risk (some malformed) = inl kind_not_declared
declared_risk (some (mapping none arm)) = inl kind_without_risk
declared_risk (some (mapping (some risk) arm)) =
    if risk == "" then inl kind_without_risk else inr risk

escalate_with-ok :
    (items after : List Proposal) (hits found : List Text) (spec : Option Spec)
    → escalate_with items hits spec ≡ ok (after, found)
    → (risk : String) × (arm : Option String) × (spec ≡ some (mapping (some risk) arm))
      × (found ≡ hits)
      × Pairwise (IsEscalated risk (governance_row found)) items after
escalate_with-ok items after hits found none h = absurd (cc)
escalate_with-ok items after hits found (some malformed) h = absurd (cc)
escalate_with-ok items after hits found (some (mapping none arm)) h = absurd (cc)
escalate_with-ok items after hits found (some (mapping (some risk) arm)) h =
    elim (Bool-cases (risk == "")) [
      | inl blank ↦ absurd (ground (arith, blank, h))
      | inr named ↦
          let same : after ≡ map (escalate_one risk (governance_row hits)) items =
            ground (arith, named, h) in
          let kept : found ≡ hits = ground (arith, named, h) in
          (
            risk,
            arm,
            refl,
            kept,
            rw (same, kept) (map-escalate_one risk (governance_row hits) items),
          )
    ]

-- Where the patch touches a governed path and the escalation does not raise, the cartridge declares
-- `self_modification` with a risk; every proposal that carried the patch is now of that kind, at that
-- risk, with the touched paths appended to its evidence and its former kind in `escalated_from`, and every
-- other field of it as it was; a proposal that did not carry the patch is as it was in every field; no
-- proposal is left with a patch-bearing kind; and the order and the number are unchanged.
pub escalate_self_modification-rewrites :
    (items after : List Proposal) (patch : Text) (cartridge : Cartridge) (ledger_name : Text)
    (hits : List Text)
    → is_empty (governance_hits (touched_paths patch) ledger_name []) ≡ false
    → escalate_self_modification items patch cartridge ledger_name ≡ ok (after, hits)
    → (risk : String) × (arm : Option String) × (lookup self_modification cartridge.write_kinds
        ≡ some (mapping (some risk) arm))
      × (hits ≡ governance_hits (touched_paths patch) ledger_name [])
      × Pairwise (IsEscalated risk (governance_row hits)) items after
unfolding escalate_self_modification
escalate_self_modification-rewrites items after patch cartridge ledger_name hits touched h =
    let found = governance_hits (touched_paths patch) ledger_name [] in
    let (risk, arm, declared, same, rewritten) =
      escalate_with-ok items after found hits (lookup self_modification cartridge.write_kinds)
        (ground (arith, touched, h)) in
    (risk, arm, declared, same, rewritten)

-- It raises exactly where governance is touched and the cartridge cannot name the kind with a risk,
-- and a patch that touches none is passed on as it came, with no hits.
pub escalate_self_modification-branches :
    (items : List Proposal) (patch : Text) (cartridge : Cartridge) (ledger_name : Text)
    → escalate_self_modification items patch cartridge ledger_name ≡ (
        if is_empty (governance_hits (touched_paths patch) ledger_name [])
        then ok (items, [])
        else elim (declared_risk (lookup self_modification cartridge.write_kinds)) [
          | inl refusal ↦ err refusal
          | inr risk ↦ ok (
            map
                (escalate_one risk
                  (governance_row (governance_hits (touched_paths patch) ledger_name [])))
                items,
            governance_hits (touched_paths patch) ledger_name [],
          )
        ])
unfolding escalate_self_modification
escalate_self_modification-branches items patch cartridge ledger_name = ground arith
