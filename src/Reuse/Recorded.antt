-- ===== src/Reuse/Recorded.antt =====
-- harness/resume.py over graphs/delivery/lifecycle_propose.py: which recorded tasks are reused.
use coxswain_graphs.Prelude.{
  ℕ, ◌≡◌, refl, not, ◌&&◌, Option, none, some, [], ◌∷◌, list_eq, nat_eq, text_eq, Text, codes,
  strip, is_empty, arith,
}
use coxswain_graphs.FixLoop.{
  Team, Runner, Loop, Stopped, checkpoint, patch_truncated, build_output_invalid,
  review_placeholders, budget, no_progress, objection_standing, attempts_exhausted,
}
use coxswain_graphs.FixLoop.Faithful.{is_some}
use coxswain_graphs.FixLoop.Run.{Opening, Proposal, recorded, run}
use coxswain_graphs.FixLoop.Run.Approved.{run-stopped}
use coxswain_graphs.Reuse.{SavedResult, draft_pr_create, reusable}

-- `fix_loop["stopped"]`, where None is the empty text.
abbrev pub stopped_text : Option Stopped → Text
stopped_text none = []
stopped_text (some checkpoint) = codes "checkpoint"
stopped_text (some patch_truncated) = codes "patch_truncated"
stopped_text (some build_output_invalid) = codes "build_output_invalid"
stopped_text (some review_placeholders) = codes "harness fault: review placeholders"
stopped_text (some budget) = codes "budget"
stopped_text (some no_progress) = codes "no_progress"
stopped_text (some objection_standing) = codes "objection_standing"
stopped_text (some attempts_exhausted) = codes "attempts_exhausted"

-- The record of a task, as it is saved.
abbrev pub saved : Loop → Option Proposal → SavedResult
saved l p = record {
  patch = l.build.patch;
  kinds = elim p [ none ↦ [] | some q ↦ draft_pr_create ∷ [] ];
  stopped = stopped_text l.stopped;
}

stopped_text-is_empty : (s : Option Stopped) → is_empty (stopped_text s) ≡ not (is_some s)
stopped_text-is_empty none = refl
stopped_text-is_empty (some checkpoint) = refl
stopped_text-is_empty (some patch_truncated) = refl
stopped_text-is_empty (some build_output_invalid) = refl
stopped_text-is_empty (some review_placeholders) = refl
stopped_text-is_empty (some budget) = refl
stopped_text-is_empty (some no_progress) = refl
stopped_text-is_empty (some objection_standing) = refl
stopped_text-is_empty (some attempts_exhausted) = refl

-- A recorded task is reused by a later run exactly where it has a proposal and its patch is not blank.
pub reusable-run :
    (team : Team) (runner : Runner) (patience fuel : ℕ) (o : Opening) (m : Loop)
    (p : Option Proposal)
    → run team runner patience fuel o ≡ recorded m p
    → reusable (some (saved m p)) ≡ (is_some p && not (is_empty (strip m.build.patch)))
unfolding reusable
reusable-run team runner patience fuel o m none e =
    ground
      (arith, run-stopped team runner patience fuel o m none e, stopped_text-is_empty m.stopped)
reusable-run team runner patience fuel o m (some p) e = ground (
  arith,
  run-stopped team runner patience fuel o m (some p) e,
  stopped_text-is_empty m.stopped,
  text_eq.beq_iff draft_pr_create draft_pr_create,
)
