-- ===== src/FixLoop/Run/Approved.antt =====
-- graphs/delivery/lifecycle_propose.py: what a proposal of a task rests on, and when there is none.
use mathlib.Core.Path.{subst}
use coxswain_graphs.Prelude.{
  ℕ, ◌≡◌, refl, ap, sym, ◌∙◌, true, false, not, ◌&&◌, Option, none, some, Result, ok, err, arith,
}
use coxswain_graphs.Review.{is_approve, review_round}
use coxswain_graphs.Review.Judgment.{
  review_round-quarantined, review_round-decides, decides, opinions,
}
use coxswain_graphs.FixLoop.Steps.{is_left}
use coxswain_graphs.FixLoop.Bounds.{is_ended}
use coxswain_graphs.FixLoop.Faithful.{
  by_review, by_handoff, unread, is_some, Consistent, Sound, fix_loop-Consistent, Judged,
}
use coxswain_graphs.FixLoop.{
  Team, Runner, Loop, Stopped, End, ended, infra, raises, unfinished, goes_on, is_complete,
}
use coxswain_graphs.FixLoop.Run.{Opening, start, Proposal, exhausted, proposal, recorded, run}
use coxswain_graphs.FixLoop.Run.Total.{start-by, run-recorded}

module _ (team : Team) (runner : Runner) where
  abbrev Starts : Result End Loop → Type 0
  Starts (ok l) = Sound team runner l
  Starts (err e) = is_ended e ≡ false

  start-Sound : (o : Opening) → Starts (start team runner o)
  unfolding goes_on is_complete
  start-Sound o =
      start-by Starts team runner o left (λ f w. ((unread refl, ground arith), ground (arith, w)))
        (λ h r f w e. (
          (
            by_review o.calls e refl (ground (arith, w)),
            ground (
              arith,
              f,
              review_round-quarantined team.bound (team.tier_of o.build)
                  (runner.seats o.calls o.build h) r e,
            ),
          ),
          ground (arith, f),
        ))
        (λ h f w. ((by_handoff h refl w refl, ground (arith, f)), ground (arith, f)))
    where
      left : (e : End) → is_left e ≡ true → is_ended e ≡ false
      left (ended m) e = ground (arith, e)
      left (infra x h f) e = refl
      left (raises out) e = refl
      left unfinished e = refl

  recorded-Consistent :
      (patience fuel : ℕ) (o : Opening) (m : Loop) (p : Option Proposal)
      → run team runner patience fuel o ≡ recorded m p
      → (last : Loop) × Consistent team runner last × (m ≡ exhausted last) × (p ≡ proposal last)
  recorded-Consistent patience fuel o m p e =
      let (l, last, s, f, x, y) = run-recorded team runner patience fuel o m p e in
      (
        last,
        fix_loop-Consistent team runner patience fuel l last (subst Starts s (start-Sound o)) f,
        x,
        y,
      )

  proposal-approve :
      (l : Loop) (p : Proposal)
      → proposal l ≡ some p
      → (is_approve l.round.verdict ≡ true) × (p.review_tier ≡ l.tier)
  unfolding proposal
  proposal-approve l p e = ground (arith, e)

  exhausted-approve : (l : Loop) → is_approve l.round.verdict ≡ true → exhausted l ≡ l
  exhausted-approve l a = split l.stopped refl
    where
      split : (s : Option Stopped) → l.stopped ≡ s → exhausted l ≡ l
      split none w = ground (arith, w, a)
      split (some why) w = ground (arith, w)

  -- A proposal of a draft PR stands on a review round of the very build that the record carries, at that
  -- build's own tier: it approved, by the arbiter or, where it did not answer, by every reviewer that judged,
  -- of which there was one at least. The build's handoff was complete where the team has a handoff.
  pub run-proposal :
      (patience fuel : ℕ) (o : Opening) (m : Loop) (p : Proposal)
      → run team runner patience fuel o ≡ recorded m (some p)
      → (n : ℕ) × (review_round team.bound (team.tier_of m.build) (runner.seats n m.build m.handoff)
          ≡ ok m.round)
        × (decides m.round.arbitration
              (opinions team.bound (team.tier_of m.build) (runner.seats n m.build m.handoff))
            ≡ true)
        × (p.review_tier ≡ team.tier_of m.build)
        × ((team.has_handoff && not (is_complete m.handoff)) ≡ false)
  run-proposal patience fuel o m p e =
      let (last, (j, c), x, y) = recorded-Consistent patience fuel o m (some p) e in
      let (a, t) = proposal-approve last p (sym y) in
      subst Approves (sym (x ∙ exhausted-approve last a)) (of_judged last j a t)
    where
      Approves : Loop → Type 0
      Approves k =
          (n : ℕ) × (review_round team.bound (team.tier_of k.build)
              (runner.seats n k.build k.handoff)
            ≡ ok k.round)
          × (decides k.round.arbitration
                (opinions team.bound (team.tier_of k.build) (runner.seats n k.build k.handoff))
              ≡ true)
          × (p.review_tier ≡ team.tier_of k.build)
          × ((team.has_handoff && not (is_complete k.handoff)) ≡ false)

      of_judged :
          (k : Loop)
          → Judged team runner k
          → is_approve k.round.verdict ≡ true
          → p.review_tier ≡ k.tier
          → Approves k
      of_judged k (by_review n r t h) a q = (
        n,
        r,
        sym (
              review_round-decides team.bound (team.tier_of k.build)
                (runner.seats n k.build k.handoff) k.round r)
            ∙ a,
        q ∙ t,
        h,
      )
      of_judged k (by_handoff h w c r) a q = absurd (ground (arith, a, ap (λ x. x.verdict) r))
      of_judged k (unread r) a q = absurd (ground (arith, a, r))

  -- A recorded task has a proposal exactly where its record names no reason to have stopped.
  pub run-stopped :
      (patience fuel : ℕ) (o : Opening) (m : Loop) (p : Option Proposal)
      → run team runner patience fuel o ≡ recorded m p
      → is_some p ≡ not (is_some m.stopped)
  unfolding proposal
  run-stopped patience fuel o m p e =
      let (last, (j, c), x, y) = recorded-Consistent patience fuel o m p e in
      split last c (ap is_some y) (ap (λ k. is_some k.stopped) x) last.stopped refl
    where
      split :
          (k : Loop)
          → (is_some k.stopped && is_approve k.round.verdict) ≡ false
          → is_some p ≡ is_some (proposal k)
          → is_some m.stopped ≡ is_some (exhausted k).stopped
          → (s : Option Stopped) → k.stopped ≡ s
          → is_some p ≡ not (is_some m.stopped)
      split k c y x none w = ground (arith, c, y, x, w)
      split k c y x (some why) w = ground (arith, c, y, x, w)
