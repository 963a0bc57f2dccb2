-- ===== src/Checkpoint/Rules.antt =====
-- When the build goes on, and what the ledger line keeps of it.
use coxswain_graphs.Prelude.{
  ℕ, String, ◌≡◌, string_eq, refl, ◌↔◌, Bool, true, not, ◌&&◌, ◌||◌, none, some, List, [], ◌∷◌,
  is_empty, Text, arith,
}
use coxswain_graphs.Checkpoint.{
  CheckpointSignals, Decision, resume, revise, is_last, checkpoint_decision, LedgerLine,
  checkpoint_ledger_line,
}

resume_iff :
    (index : ℕ) (grew pass : Bool) (outside : List Text) (fractions : List ℕ)
    (s : CheckpointSignals)
    → s.files_outside_surfaces ≡ outside
    → (checkpoint_decision s fractions ≡ resume) ↔ (
        (is_empty outside
          && s.diff_grew
          && (s.checks_pass || not (is_last s.checkpoint_index fractions)))
        ≡ true)
unfolding checkpoint_decision
resume_iff index grew pass [] fractions s e = ground arith
resume_iff index grew pass (first ∷ files) fractions s e = ground arith

-- The build goes on exactly where nothing is outside the surfaces, the diff grew, and the checks pass or
-- this is not the last checkpoint.
pub checkpoint_decision-resume :
    (s : CheckpointSignals) (fractions : List ℕ)
    → (checkpoint_decision s fractions ≡ resume) ↔ (
        (is_empty s.files_outside_surfaces
          && s.diff_grew
          && (s.checks_pass || not (is_last s.checkpoint_index fractions)))
        ≡ true)
checkpoint_decision-resume s fractions =
    resume_iff 0 true true s.files_outside_surfaces fractions s refl

-- The decision that a ledger line names, read back.
abbrev pub read_back : LedgerLine → Decision
read_back line = elim line.reason [ none ↦ resume | some why ↦ revise why ]

-- The ledger line determines the decision and the signals that it was written from.
pub checkpoint_ledger_line-read_back :
    (ts task role : String) (s : CheckpointSignals) (d : Decision)
    → let line = checkpoint_ledger_line ts task role s d in
      (read_back line ≡ d)
      × (line.signals ≡ s)
      × ((line.reason ≡ none) ↔ (line.decision ≡ "resume"))
unfolding checkpoint_ledger_line
checkpoint_ledger_line-read_back ts task role s resume = (refl, refl, ground arith)
checkpoint_ledger_line-read_back ts task role s (revise why) =
    (refl, refl, ground (arith, string_eq.beq_iff "revise" "resume"))
