-- ===== src/Escalate/Headers.antt =====
-- harness/escalate.py: the lines of a patch, the paths that they name, and the hits among these.
use coxswain_graphs.Prelude.{
  ◌≡◌, refl, ap, ◌∙◌, Bool, true, false, List, [], ◌∷◌, Text, text_eq, list_eq, nat_eq, elem, any,
  dedup, is_empty, arith, elem-sort, elem-dedup, elem-append, splitlines, text_ord,
}
use coxswain_graphs.Escalate.{is_governed, governance_hits, touched_paths, paths_of, line_paths}
use coxswain_graphs.Escalate.Governance.{elem-governance_hits}

elem-paths_of :
    (path : Text) (lines : List Text)
    → elem path (paths_of lines) ≡ any (λ line. elem path (line_paths line)) lines
unfolding paths_of
elem-paths_of path [] = refl
elem-paths_of path (line ∷ lines) =
    ground (arith, elem-append path (line_paths line) (paths_of lines), elem-paths_of path lines)

-- A path is touched exactly where some line of the patch names it.
pub elem-touched_paths :
    (path patch : Text)
    → elem path (touched_paths patch) ≡ any (λ line. elem path (line_paths line)) (splitlines patch)
unfolding touched_paths
elem-touched_paths path patch =
    elem-sort path (dedup (paths_of (splitlines patch)))
    ∙ elem-dedup path (paths_of (splitlines patch))
    ∙ elem-paths_of path (splitlines patch)

any-elem :
    (line : Text) (lines : List Text) (p : Text → Bool)
    → elem line lines ≡ true
    → p line ≡ true
    → any p lines ≡ true
any-elem line [] p m h = absurd (ground arith)
any-elem line (x ∷ lines) p m h =
    ground (arith, text_eq.beq_iff line x, λ (q : line ≡ x). ap p q, any-elem line lines p)

not-is_empty : (path : Text) (paths : List Text) → elem path paths ≡ true → is_empty paths ≡ false
not-is_empty path [] m = absurd (ground arith)
not-is_empty path (x ∷ paths) m = refl

-- A governed path that some line of the patch names is among the hits.
pub governance_hits-catch :
    (patch line path ledger_name : Text)
    → elem line (splitlines patch) ≡ true
    → elem path (line_paths line) ≡ true
    → is_governed ledger_name [] path ≡ true
    → (elem path (governance_hits (touched_paths patch) ledger_name []) ≡ true)
      × (is_empty (governance_hits (touched_paths patch) ledger_name []) ≡ false)
governance_hits-catch patch line path ledger_name there names governed =
    let hit : elem path (governance_hits (touched_paths patch) ledger_name []) ≡ true = ground (
      arith,
      elem-governance_hits path (touched_paths patch) ledger_name [],
      elem-touched_paths path patch,
      any-elem line (splitlines patch) (λ l. elem path (line_paths l)) there names,
      governed,
    ) in
    (hit, not-is_empty path _ hit)
