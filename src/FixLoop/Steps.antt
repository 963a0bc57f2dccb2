-- ===== src/FixLoop/Steps.antt =====
-- graphs/delivery/lifecycle_propose.py: what holds of a turn of the fix loop, from what holds of its ends.
use coxswain_graphs.Prelude.{
  Bool, true, false, not, Option, some, ◌≡◌, refl, list_eq, nat_eq, Result, ok, err, Bool-cases,
  inl, inr, if◌then◌else◌, any, elem,
}
use coxswain_graphs.Review.{Round, Fault, node_failure, budget_stop, review_round, is_approve}
use coxswain_graphs.FixLoop.Resume.{Build}
use coxswain_graphs.FixLoop.Scope.{claims}
use coxswain_graphs.FixLoop.Handover.{
  Handoff, Handed, handed, held, handoff_fails, contract_violation, settle,
}
use coxswain_graphs.FixLoop.{
  Team, Runner, Loop, review_placeholders, no_progress, objection_standing, End, ended, infra,
  raises, unfinished, Step, again, stay, leaves, makes_no_progress, stopped_at, after_review,
  reviewed, review_retry, sent_back, take_retry,
}

-- The ends that a turn leaves the loop by.
abbrev pub is_left : End → Bool
is_left (ended l) = false
is_left (infra b h f) = true
is_left (raises o) = true
is_left unfinished = false

module _ {ℓ} (P : Step → Type ℓ) where
  pub after_review-by :
      (l : Loop)
      → (l.round.quarantine ≡ true → P (stay (stopped_at review_placeholders l)))
      → (is_approve l.round.verdict ≡ true → P (stay l))
      → (is_approve l.round.verdict ≡ false → P (stay (stopped_at objection_standing l)))
      → P (again l)
      → P (after_review l)
  unfolding after_review
  after_review-by l a b c d = quarantined l.round.quarantine refl
    where
      standing :
          is_approve l.round.verdict ≡ false
          → (s : Bool) → P (if s then stay (stopped_at objection_standing l) else again l)
      standing e true = c e
      standing e false = d

      judged :
          (v : Bool)
          → is_approve l.round.verdict ≡ v
          → P (
              if v
              then stay l
              else if any (λ c. elem c l.standing) (claims l.round.adversary)
              then stay (stopped_at objection_standing l)
              else again l)
      judged true e = b e
      judged false e = standing e (any (λ c. elem c l.standing) (claims l.round.adversary))

      quarantined :
          (q : Bool)
          → l.round.quarantine ≡ q
          → P (
              if q
              then stay (stopped_at review_placeholders l)
              else if is_approve l.round.verdict
              then stay l
              else if any (λ c. elem c l.standing) (claims l.round.adversary)
              then stay (stopped_at objection_standing l)
              else again l)
      quarantined true e = a e
      quarantined false e = judged (is_approve l.round.verdict) refl

  module _ (team : Team) (runner : Runner) (l : Loop) (b : Build)
      (left : (e : End) → is_left e ≡ true → P (leaves e)) where
    pub review_retry-by :
        (handoff : Option Handoff)
        → ((round : Round)
            → review_round team.bound (team.tier_of b) (runner.seats l.calls b handoff) ≡ ok round
            → P (after_review (reviewed team l b handoff round)))
        → P (review_retry team runner l b handoff)
    unfolding review_retry
    review_retry-by handoff k =
        split (review_round team.bound (team.tier_of b) (runner.seats l.calls b handoff)) refl
      where
        split :
            (r : Result Fault Round)
            → review_round team.bound (team.tier_of b) (runner.seats l.calls b handoff) ≡ r
            → P (review_retry team runner l b handoff)
        split (err budget_stop) w = rw (w, review_retry) (left _ refl)
        split (err (node_failure role x y)) w = rw (w, review_retry) (left _ refl)
        split (ok round) w = rw (w, review_retry) (k round w)

    pub take_retry-by :
        P (stay (stopped_at no_progress l))
        → (team.has_handoff ≡ false → P (review_retry team runner l b l.handoff))
        → ((h : Handoff)
            → settle team.shuttle b (runner.handoff l.calls b) ≡ ok h
            → h.complete ≡ true
            → P (review_retry team runner l b (some h)))
        → ((h : Handoff) → h.complete ≡ false → P (again (sent_back l b h)))
        → P (take_retry team runner l b)
    unfolding take_retry
    take_retry-by stale alone whole partial = elim (Bool-cases (makes_no_progress team l b)) [
      | inl w ↦ rw (w, take_retry) stale
      | inr w ↦ rw (w, take_retry) (by_handoff team.has_handoff refl)
    ]
      where
        complete :
            (h : Handoff)
            → settle team.shuttle b (runner.handoff l.calls b) ≡ ok h
            → (v : Bool) → h.complete ≡ v
            → P (if v then review_retry team runner l b (some h) else again (sent_back l b h))
        complete h w true e = whole h w e
        complete h w false e = partial h e

        split :
            (r : Result Handed Handoff)
            → settle team.shuttle b (runner.handoff l.calls b) ≡ r
            → P (elim r [
              | err (handoff_fails fault) ↦ leaves (infra b l.handoff fault)
              | err (held out) ↦ leaves (raises out)
              | err (handed h) ↦ leaves (raises contract_violation)
              | ok h ↦
                  if h.complete
                  then review_retry team runner l b (some h)
                  else again (sent_back l b h)
            ])
        split (err (handoff_fails fault)) w = left _ refl
        split (err (held out)) w = left _ refl
        split (err (handed h)) w = left _ refl
        split (ok h) w = complete h w h.complete refl

        by_handoff :
            (v : Bool)
            → team.has_handoff ≡ v
            → P (
                if not v
                then review_retry team runner l b l.handoff
                else elim (settle team.shuttle b (runner.handoff l.calls b)) [
                  | err (handoff_fails fault) ↦ leaves (infra b l.handoff fault)
                  | err (held out) ↦ leaves (raises out)
                  | err (handed h) ↦ leaves (raises contract_violation)
                  | ok h ↦
                      if h.complete
                      then review_retry team runner l b (some h)
                      else again (sent_back l b h)
                ])
        by_handoff false e = alone e
        by_handoff true e = split (settle team.shuttle b (runner.handoff l.calls b)) refl
