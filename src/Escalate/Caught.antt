-- ===== src/Escalate/Caught.antt =====
-- From the text of a file header to the proposals: a patch to the rules does not pass as an ordinary one.
use coxswain_graphs.Prelude.{
  suc, String, Eq, ◌≡◌, refl, ap, ◌∙◌, Bool, true, false, not, List, [], ◌∷◌, Text, text_eq,
  list_eq, nat_eq, elem, any, all, is_empty, arith, codes, split_at_code, splitlines, length, ok,
}
use coxswain_graphs.Cartridge.{Cartridge, Proposal, Evidence}
use coxswain_graphs.Escalate.{
  is_governed, entries_of, segments_match, governance_paths, carries_patch,
  escalate_self_modification, governance_row,
}
use coxswain_graphs.Escalate.Headers.{governance_hits-catch}
use coxswain_graphs.Escalate.Rewrite.{
  IsEscalated, Pairwise, none_left, pair, escalate_self_modification-rewrites,
}
use coxswain_graphs.Escalate.Governance.{IsRun, segments_match_iff}
use coxswain_graphs.Escalate.Sides.{
  Side, header_line, is_relative, relative_some, line_paths-header,
}

abbrev segments_eq : Eq (List Text)
segments_eq = list_eq

-- The rules, by the segments of their paths.
abbrev pub governed_entries : List (List Text)
governed_entries =
    (codes "cartridges" ∷ [])
    ∷ (codes "skills-plugins" ∷ [])
    ∷ (codes "core" ∷ codes "policy.py" ∷ [])
    ∷ (codes "core" ∷ codes "ledger.py" ∷ [])
    ∷ (codes "harness" ∷ [])
    ∷ []

entries : entries_of [] ≡ governed_entries
unfolding governance_paths
entries = refl

any-entry :
    (entry : List Text) (es : List (List Text)) (p : List Text → Bool)
    → elem entry es ≡ true
    → p entry ≡ true
    → any p es ≡ true
any-entry entry [] p m h = absurd (ground arith)
any-entry entry (e ∷ es) p m h =
    ground (arith, segments_eq.beq_iff entry e, λ (q : entry ≡ e). ap p q, any-entry entry es p)

-- A path with a rule's segments in it is governed, whatever the ledger is called.
pub is_governed-run :
    (path ledger_name : Text) (entry : List Text)
    → is_empty path ≡ false
    → elem entry governed_entries ≡ true
    → IsRun (split_at_code b'/' path) entry
    → is_governed ledger_name [] path ≡ true
unfolding is_governed
is_governed-run path ledger_name entry some_path rule run =
    let found : any (segments_match (split_at_code b'/' path)) (entries_of []) ≡ true =
      ap (any (segments_match (split_at_code b'/' path))) entries
      ∙ any-entry entry governed_entries (segments_match (split_at_code b'/' path)) rule
          ((segments_match_iff (split_at_code b'/' path) entry).1 run) in
    ground (arith, some_path, found)

no_patch_left :
    (risk : String) (row : Evidence) (items after : List Proposal)
    → Pairwise (IsEscalated risk row) items after
    → (all (λ x. not (carries_patch x.kind)) after ≡ true) × (length after ≡ length items)
no_patch_left risk row [] [] none_left = (refl, refl)
no_patch_left risk row [] (b ∷ after) p = elim p [ ]
no_patch_left risk row (a ∷ items) [] p = elim p [ ]
no_patch_left risk row (a ∷ items) (b ∷ after) (pair one rest) = (
  ground (arith, one.no_patch_kind, (no_patch_left risk row items after rest).0),
  ap suc (no_patch_left risk row items after rest).1,
)

-- Where a line `--- a/…` or `+++ b/…` of the patch names a relative path, without a tab or white space at its
-- end, that has the segments of a rule (`cartridges`, `skills-plugins`, `core/policy.py`, `core/ledger.py`
-- or `harness`) at any place, and the escalation does not raise, the path is among the hits, no proposal
-- comes out with a kind that carries the patch, and as many come out as went in.
pub escalate_self_modification-catches :
    (items after : List Proposal) (patch : Text) (cartridge : Cartridge) (ledger_name : Text)
    (hits : List Text) (side : Side) (path : Text) (entry : List Text)
    → elem (header_line side path) (splitlines patch) ≡ true
    → is_relative path ≡ true
    → elem entry governed_entries ≡ true
    → IsRun (split_at_code b'/' path) entry
    → escalate_self_modification items patch cartridge ledger_name ≡ ok (after, hits)
    → (elem path hits ≡ true)
      × (all (λ x. not (carries_patch x.kind)) after ≡ true)
      × (length after ≡ length items)
escalate_self_modification-catches items after patch cartridge ledger_name hits side path entry
      there relative rule run done =
    let (hit, touched) =
      governance_hits-catch patch (header_line side path) path ledger_name there
        (rw (line_paths-header side path relative) (ground (arith, text_eq.beq_iff path path)))
        (is_governed-run path ledger_name entry (relative_some path relative) rule run) in
    let (risk, arm, declared, same, rewritten) =
      escalate_self_modification-rewrites items after patch cartridge ledger_name hits touched
        done in
    let (clean, number) = no_patch_left risk (governance_row hits) items after rewritten in
    (rw same hit, clean, number)
