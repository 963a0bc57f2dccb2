-- ===== src/Checkpoint.antt =====
-- graphs/delivery/checkpoint.py: resume the build or send it back. Amounts are whole cents.
pub mod Rules
mod Examples
use coxswain_graphs.Prelude.{
  ℕ, zero, suc, ◌+◌, String, Bool, true, false, not, ◌&&◌, Option, none, some, List, [], ◌∷◌,
  is_empty, length, if◌then◌else◌, nat_beq, Text,
}

pub record CheckpointSignals : Type 0 where
  pub spend_usd : ℕ
  pub guide_usd : ℕ
  pub checkpoint_index : ℕ
  pub turns : ℕ
  pub diff_grew : Bool
  pub checks_pass : Bool
  pub files_outside_surfaces : List Text
  pub scratch_ignored : List Text

-- The remedies, with the name that the message prints.
pub data Remedy : Type 0 where
  re_scope : Text → Remedy
  re_ground split_task : Remedy

pub data Decision : Type 0 where
  resume : Decision
  revise : Remedy → Decision

-- `checkpoint_index == len(fractions) - 1`, where the length less one may be -1.
pub is_last : ℕ → List ℕ → Bool
is_last index fractions = nat_beq (suc index) (length fractions)

pub checkpoint_decision : CheckpointSignals → List ℕ → Decision
checkpoint_decision signals fractions = elim signals.files_outside_surfaces [
  | first ∷ files ↦ revise (re_scope first)
  | [] ↦
      if not signals.diff_grew
      then revise re_ground
      else if is_last signals.checkpoint_index fractions && not signals.checks_pass
      then revise split_task
      else resume
]

pub record LedgerLine : Type 0 where
  pub ts : String
  pub task : String
  pub role : String
  pub signals : CheckpointSignals
  pub decision : String
  pub reason : Option Remedy

-- The fields of the signals are keys of the line of their own; a line without a `reason` key has none.
pub checkpoint_ledger_line : String → String → String → CheckpointSignals → Decision → LedgerLine
checkpoint_ledger_line ts task role signals resume = record {
  ts = ts;
  task = task;
  role = role;
  signals = signals;
  decision = "resume";
  reason = none;
}
checkpoint_ledger_line ts task role signals (revise why) = record {
  ts = ts;
  task = task;
  role = role;
  signals = signals;
  decision = "revise";
  reason = some why;
}
