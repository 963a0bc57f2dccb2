-- ===== src/Reuse/Examples.antt =====
-- The approved task of the fix loop, saved and read again.
use coxswain_graphs.Prelude.{
  ◌≡◌, refl, false, not, ◌&&◌, none, some, [], ◌∷◌, codes, is_empty, strip,
}
use coxswain_graphs.FixLoop.Faithful.{is_some}
use coxswain_graphs.FixLoop.Examples.{team, runner, opening, proposed, last, ran}
use coxswain_graphs.Reuse.{reusable, draft_pr_create}
use coxswain_graphs.Reuse.Recorded.{saved, reusable-run}

reusable-run_example :
    reusable (some (saved last (some proposed)))
    ≡ (is_some (some proposed) && not (is_empty (strip last.build.patch)))
reusable-run_example = reusable-run team runner 3 4 opening last (some proposed) ran.1

-- A result that stopped is not reused, nor is a missing one.
stopped_result :
    reusable
      (some (record { patch = codes "x"; kinds = draft_pr_create ∷ []; stopped = codes "budget" }))
    ≡ false
unfolding reusable
stopped_result = refl

missing_result : reusable none ≡ false
unfolding reusable
missing_result = refl
