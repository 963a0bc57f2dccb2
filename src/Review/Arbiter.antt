-- ===== src/Review/Arbiter.antt =====
-- graphs/delivery/lifecycle_propose.py: when a round goes without the arbiter.
use coxswain_graphs.Prelude.{
  ℕ, ◌∙◌, Bool, true, false, not, ◌&&◌, ◌||◌, Option, none, some, List, [], ◌∷◌, leb, nat_beq, ok,
  ◌≡◌, inl, inr, refl, ap, arith, Bool-cases,
}
use coxswain_graphs.Review.{
  Verdict, approve, revise, reject, is_approve, same_verdict, Review, Adversary, Arbitration,
  Arbitrated, unasked, skipped, decided, Reply, answers, stops, fails, Bound, Seats, Round,
  abstained_review, abstained_adversary, sole_round, full_round, concluded, review_round,
}
use coxswain_graphs.Review.Judgment.{opinions, heard, is_asked, review_round-Concluded}

abbrev pub is_decided : Arbitrated → Bool
is_decided unasked = false
is_decided skipped = false
is_decided (decided a) = true

same_verdict_lem : (v w : Verdict) → same_verdict v w ≡ true → v ≡ w
same_verdict_lem approve approve e = refl
same_verdict_lem approve revise e = ground (arith, e)
same_verdict_lem approve reject e = ground (arith, e)
same_verdict_lem revise approve e = ground (arith, e)
same_verdict_lem revise revise e = refl
same_verdict_lem revise reject e = ground (arith, e)
same_verdict_lem reject approve e = ground (arith, e)
same_verdict_lem reject revise e = ground (arith, e)
same_verdict_lem reject reject e = refl

-- The verdicts of two reviewers that the arbiter need not hear.
abbrev Agreed : ℕ → List Verdict → Type 0
Agreed tier verdicts =
    (v : Verdict) × (verdicts ≡ v ∷ v ∷ []) × ((not (nat_beq tier 2) || is_approve v) ≡ true)

full_round-Agreed :
    (bound : Bound) (tier : ℕ) (seats : Seats) (review : Review) (a : Adversary) (r : Round)
    → full_round bound tier seats review (some a) ≡ ok r
    → bound.has_arbiter ≡ true
    → is_decided r.arbitration ≡ false
    → Agreed tier (review.verdict ∷ a.verdict ∷ [])
unfolding full_round
full_round-Agreed bound tier seats review a r e has none_decided =
    split (seats.arbiter (some review) (some a)) refl
  where
    agreed :
        same_verdict a.verdict review.verdict ≡ true
        → (not (nat_beq tier 2) || is_approve review.verdict) ≡ true
        → Agreed tier (review.verdict ∷ a.verdict ∷ [])
    agreed s t = (
      review.verdict,
      ap (λ v. review.verdict ∷ v ∷ []) (same_verdict_lem a.verdict review.verdict s),
      t,
    )

    split :
        (reply : Reply Arbitration)
        → seats.arbiter (some review) (some a) ≡ reply
        → Agreed tier (review.verdict ∷ a.verdict ∷ [])
    split reply w = elim (Bool-cases (same_verdict a.verdict review.verdict)) [
      | inl s ↦ agreed s (at_two reply w s)
      | inr s ↦ absurd (ground (arith, apart reply w s))
    ]
      where
        at_two :
            (reply : Reply Arbitration)
            → seats.arbiter (some review) (some a) ≡ reply
            → same_verdict a.verdict review.verdict ≡ true
            → (not (nat_beq tier 2) || is_approve review.verdict) ≡ true
        at_two (answers x) w s = ground (arith, e, w, s, has, none_decided)
        at_two stops w s = ground (arith, e, w, s, has, none_decided)
        at_two fails w s = ground (arith, e, w, s, has, none_decided)

        apart :
            (reply : Reply Arbitration)
            → seats.arbiter (some review) (some a) ≡ reply
            → same_verdict a.verdict review.verdict ≡ false
            → false ≡ true
        apart (answers x) w s = ground (arith, e, w, s, has, none_decided)
        apart stops w s = ground (arith, e, w, s, has, none_decided)
        apart fails w s = ground (arith, e, w, s, has, none_decided)

sole_round-decided :
    (bound : Bound) (reply : Reply Arbitration) (raw review : Review) (raw' : Option Adversary)
    (a : Adversary) (v : Verdict) (r : Round)
    → sole_round bound reply raw raw' review a v ≡ ok r
    → bound.has_arbiter ≡ true
    → is_decided r.arbitration ≡ true
unfolding sole_round
sole_round-decided bound (answers x) raw review raw' a v r e has = ground (arith, e, has)
sole_round-decided bound stops raw review raw' a v r e has = ground (arith, e, has)
sole_round-decided bound fails raw review raw' a v r e has = ground (arith, e, has)

concluded-Agreed :
    (bound : Bound) (tier : ℕ) (seats : Seats) (review : Review) (b : Bool)
    (asked : Option (Adversary × Bool)) (r : Round)
    → is_asked asked ≡ true
    → concluded bound tier seats (review, b) asked ≡ ok r
    → bound.has_arbiter ≡ true
    → r.quarantine ≡ false
    → is_decided r.arbitration ≡ false
    → Agreed tier (heard (review, b) asked)
unfolding concluded
concluded-Agreed bound tier seats review true none r i e has q d = absurd (ground (arith, i))
concluded-Agreed bound tier seats review false none r i e has q d = absurd (ground (arith, i))
concluded-Agreed bound tier seats review true (some (a, true)) r i e has q d =
    absurd (ground (arith, e, q))
concluded-Agreed bound tier seats review true (some (a, false)) r i e has q d = absurd (
    ground (
      arith,
      d,
      sole_round-decided bound (seats.arbiter none (some a)) review abstained_review (some a) a
          a.verdict r e has,
    ))
concluded-Agreed bound tier seats review false (some (a, true)) r i e has q d = absurd (
    ground (
      arith,
      d,
      sole_round-decided bound (seats.arbiter (some review) none) review review (some a)
          abstained_adversary review.verdict r e has,
    ))
concluded-Agreed bound tier seats review false (some (a, false)) r i e has q d =
    full_round-Agreed bound tier seats review a r e has d

-- Where an arbiter and an adversary are bound and the tier asks for the adversary, a finished round that is
-- not quarantined goes without the arbiter's decision only where both reviewers judged and gave the same
-- verdict, and at tier 2 only where that verdict is to approve.
pub review_round-unarbitrated :
    (bound : Bound) (tier : ℕ) (seats : Seats) (r : Round)
    → review_round bound tier seats ≡ ok r
    → bound.has_arbiter ≡ true
    → (leb 1 tier && bound.has_adversary) ≡ true
    → r.quarantine ≡ false
    → is_decided r.arbitration ≡ false
    → (v : Verdict) × (opinions bound tier seats ≡ v ∷ v ∷ [])
      × ((not (nat_beq tier 2) || is_approve v) ≡ true)
review_round-unarbitrated bound tier seats r e has on q d =
    let (review, b, asked, p, t, i, done, is) = review_round-Concluded bound tier seats r e in
    let (v, two, approved) =
      concluded-Agreed bound tier seats review b asked r (i ∙ on) done has q d in
    (v, is ∙ two, approved)
