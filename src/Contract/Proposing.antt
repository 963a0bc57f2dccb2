-- ===== src/Contract/Proposing.antt =====
-- `proposal` builds only what the cartridge authorises, at the cartridge's risk.
use coxswain_graphs.Prelude.{
  String, ◌≡◌, refl, false, Option, none, some, lookup, is_empty, ok, arith, string_eq,
}
use coxswain_graphs.Cartridge.{Cartridge, Spec, mapping, malformed, Proposal}
use coxswain_graphs.Contract.{Request, proposal, with_spec, at_risk}

with_spec-ok :
    (cartridge : Cartridge) (r : Request) (p : Proposal) (spec : Option Spec)
    → with_spec cartridge r spec ≡ ok p
    → (risk : String) × (arm : Option String) × (spec ≡ some (mapping (some risk) arm))
      × (is_empty r.evidence ≡ false)
      × (p ≡ at_risk r risk)
with_spec-ok cartridge r p none h = absurd (cc)
with_spec-ok cartridge r p (some malformed) h = absurd (cc)
with_spec-ok cartridge r p (some (mapping none arm)) h = absurd (cc)
with_spec-ok cartridge r p (some (mapping (some risk) arm)) h =
    (risk, arm, refl, ground (arith, h), ground (arith, h))

-- A proposal that is built is of the kind asked for, at the risk that the taxonomy gives that kind,
-- and carries the caller's evidence, which is not empty; its target and subject are the caller's.
pub proposal-authorised :
    (cartridge : Cartridge) (r : Request) (p : Proposal)
    → proposal cartridge r ≡ ok p
    → (arm : Option String) × (lookup p.kind cartridge.write_kinds
        ≡ some (mapping (some p.risk) arm))
      × (p.kind ≡ r.kind)
      × (is_empty p.evidence ≡ false)
      × (p.evidence ≡ r.evidence)
      × (p.target ≡ r.target)
      × (p.subject ≡ r.subject)
      × (p.subject_new ≡ r.subject_new)
unfolding proposal
proposal-authorised cartridge r p h =
    let (risk, arm, declared, some_evidence, e) =
      with_spec-ok cartridge r p (lookup r.kind cartridge.write_kinds) h in
    rw e (arm, declared, refl, some_evidence, refl, refl, refl, refl)
