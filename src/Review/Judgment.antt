-- ===== src/Review/Judgment.antt =====
-- graphs/delivery/lifecycle_propose.py: what a round's verdict rests on.
use mathlib.Core.Path.{subst}
use coxswain_graphs.Prelude.{
  ℕ, sym, Bool, true, false, not, ◌&&◌, ◌||◌, Option, none, some, List, [], ◌∷◌, ◌++◌, all, leb,
  if◌then◌else◌, is_empty, Result, ok, err, ◌≡◌, inl, inr, refl, ap, ◌∙◌, arith, Bool-cases,
}
use coxswain_graphs.Review.{
  Verdict, is_approve, Review, Adversary, Arbitration, Arbitrated, unasked, skipped, decided, Reply,
  answers, stops, fails, Fault, Role, Bound, Seats, Round, review_is_placeholder,
  adversary_is_placeholder, reviewer_answer, abstained_review, abstained_adversary,
  review_harness_fault, sole_round, full_round, concluded, review_round, review_charter,
  review_adversary,
}

-- The last thing that a reviewer says, and its judgment, which a placeholder is not.
abbrev pub last_word {ℓ} : {A : Type ℓ} → (A → Bool) → Reply A → Reply A → Option A
last_word p (answers a) (answers b) = some (if p a then b else a)
last_word p (answers a) stops = if p a then none else some a
last_word p (answers a) fails = if p a then none else some a
last_word p stops again = none
last_word p fails again = none

abbrev pub judged {ℓ} : {A : Type ℓ} → (A → Bool) → Option A → Option A
judged p none = none
judged p (some a) = if p a then none else some a

abbrev verdict_of_review : Option Review → List Verdict
verdict_of_review none = []
verdict_of_review (some r) = r.verdict ∷ []

abbrev verdict_of_adversary : Option Adversary → List Verdict
verdict_of_adversary none = []
verdict_of_adversary (some r) = r.verdict ∷ []

-- What the charter reviewer says last, and the verdicts of the reviewers that judged.
abbrev pub charter_word : Seats → Option Review
charter_word seats = last_word review_is_placeholder seats.charter_first seats.charter_again

abbrev adversary_word : Seats → Option Review → Option Adversary
adversary_word seats none = none
adversary_word seats (some review) =
    last_word adversary_is_placeholder (seats.adversary_first review) (seats.adversary_again review)

abbrev pub opinions : Bound → ℕ → Seats → List Verdict
opinions bound tier seats =
    verdict_of_review (judged review_is_placeholder (charter_word seats))
    ++ (if leb 1 tier && bound.has_adversary
        then verdict_of_adversary
            (judged adversary_is_placeholder (adversary_word seats (charter_word seats)))
        else [])

-- The decision of a round: the arbiter's where it answered, else that of the reviewers that judged.
abbrev pub decides : Arbitrated → List Verdict → Bool
decides unasked verdicts = not (is_empty verdicts) && all is_approve verdicts
decides skipped verdicts = not (is_empty verdicts) && all is_approve verdicts
decides (decided a) verdicts = is_approve a.verdict

reviewer_answer-word {ℓ} :
    {A : Type ℓ} (role : Role) (p : A → Bool) (first again : Reply A) (a : A) (b : Bool)
    → reviewer_answer role p first again ≡ ok (a, b)
    → (last_word p first again ≡ some a) × (p a ≡ b)
unfolding reviewer_answer
reviewer_answer-word role p (answers x) (answers y) a b e = elim (Bool-cases (p x)) [
  | inl h ↦ ground (arith, h, e)
  | inr h ↦ ground (arith, h, e)
]
reviewer_answer-word role p (answers x) stops a b e = ground (arith, e)
reviewer_answer-word role p (answers x) fails a b e = ground (arith, e)
reviewer_answer-word role p stops again a b e = ground (arith, e)
reviewer_answer-word role p fails again a b e = ground (arith, e)

-- The verdicts of those that judged, as `concluded` is told of them.
abbrev pub heard : Review × Bool → Option (Adversary × Bool) → List Verdict
heard (review, true) none = []
heard (review, false) none = review.verdict ∷ []
heard (review, true) (some (a, true)) = []
heard (review, true) (some (a, false)) = a.verdict ∷ []
heard (review, false) (some (a, true)) = review.verdict ∷ []
heard (review, false) (some (a, false)) = review.verdict ∷ a.verdict ∷ []

sole_round-decides :
    (bound : Bound) (reply : Reply Arbitration) (raw review : Review) (raw' : Option Adversary)
    (a : Adversary) (v : Verdict) (r : Round)
    → sole_round bound reply raw raw' review a v ≡ ok r
    → (is_approve r.verdict ≡ decides r.arbitration (v ∷ []))
      × (r.review ≡ review)
      × (r.adversary ≡ some a)
unfolding sole_round
sole_round-decides bound (answers x) raw review raw' a v r e = elim (Bool-cases bound.has_arbiter) [
  | inl h ↦ ground (arith, h, e)
  | inr h ↦ ground (arith, h, e)
]
sole_round-decides bound stops raw review raw' a v r e = ground (arith, e)
sole_round-decides bound fails raw review raw' a v r e = ground (arith, e)

full_round-decides :
    (bound : Bound) (tier : ℕ) (seats : Seats) (review : Review) (a : Adversary) (r : Round)
    → full_round bound tier seats review (some a) ≡ ok r
    → (is_approve r.verdict ≡ decides r.arbitration (review.verdict ∷ a.verdict ∷ []))
      × (r.review ≡ review)
      × (r.adversary ≡ some a)
unfolding full_round
full_round-decides bound tier seats review a r e = split (seats.arbiter (some review) (some a)) refl
  where
    split :
        (reply : Reply Arbitration)
        → seats.arbiter (some review) (some a) ≡ reply
        → (is_approve r.verdict ≡ decides r.arbitration (review.verdict ∷ a.verdict ∷ []))
          × (r.review ≡ review)
          × (r.adversary ≡ some a)
    split (answers x) w = ground (arith, e, w)
    split stops w = ground (arith, e, w)
    split fails w = ground (arith, e, w)

-- What the two steps of a round keep: the decision, and answers that are real.
abbrev Grounded : List Verdict → Round → Type 0
Grounded verdicts r =
    (is_approve r.verdict ≡ decides r.arbitration verdicts)
    × (r.quarantine ≡ is_empty verdicts)
    × (review_is_placeholder r.review ≡ false)
    × (r.quarantine ≡ false
        → (elim r.adversary [ none ↦ false | some a ↦ adversary_is_placeholder a ]) ≡ false)
    × ((r.quarantine && is_approve r.verdict) ≡ false)

abstained_real :
    (review_is_placeholder abstained_review ≡ false)
    × (adversary_is_placeholder abstained_adversary ≡ false)
    × (review_is_placeholder review_harness_fault ≡ false)
unfolding review_is_placeholder adversary_is_placeholder
abstained_real = (refl, refl, refl)

sole_round-open :
    (bound : Bound) (reply : Reply Arbitration) (raw review : Review) (raw' : Option Adversary)
    (a : Adversary) (v : Verdict) (r : Round)
    → sole_round bound reply raw raw' review a v ≡ ok r
    → r.quarantine ≡ false
unfolding sole_round
sole_round-open bound (answers x) raw review raw' a v r e = ground (arith, e)
sole_round-open bound stops raw review raw' a v r e = ground (arith, e)
sole_round-open bound fails raw review raw' a v r e = ground (arith, e)

full_round-open :
    (bound : Bound) (tier : ℕ) (seats : Seats) (review : Review) (a : Option Adversary) (r : Round)
    → full_round bound tier seats review a ≡ ok r
    → r.quarantine ≡ false
unfolding full_round
full_round-open bound tier seats review none r e = ground (arith, e)
full_round-open bound tier seats review (some a) r e =
    split (seats.arbiter (some review) (some a)) refl
  where
    split :
        (reply : Reply Arbitration)
        → seats.arbiter (some review) (some a) ≡ reply
        → r.quarantine ≡ false
    split (answers x) w = ground (arith, e, w)
    split stops w = ground (arith, e, w)
    split fails w = ground (arith, e, w)

-- The flag tells whether the adversary's answer is a placeholder.
abbrev pub IsTrue : Option (Adversary × Bool) → Type 0
IsTrue none = Unit
IsTrue (some (a, b)) = adversary_is_placeholder a ≡ b

full_round-alone :
    (bound : Bound) (tier : ℕ) (seats : Seats) (review : Review) (r : Round)
    → review_is_placeholder review ≡ false
    → full_round bound tier seats review none ≡ ok r
    → Grounded (review.verdict ∷ []) r
unfolding full_round
full_round-alone bound tier seats review r p e = ground (arith, e, p)

concluded-Grounded :
    (bound : Bound) (tier : ℕ) (seats : Seats) (review : Review) (b : Bool)
    (asked : Option (Adversary × Bool)) (r : Round)
    → review_is_placeholder review ≡ b
    → IsTrue asked
    → concluded bound tier seats (review, b) asked ≡ ok r
    → Grounded (heard (review, b) asked) r
unfolding concluded
concluded-Grounded bound tier seats review true none r p q e = ground (arith, e, abstained_real.2)
concluded-Grounded bound tier seats review true (some (a, true)) r p q e =
    ground (arith, e, abstained_real.2)
concluded-Grounded bound tier seats review true (some (a, false)) r p q e =
    let (d, s, t) =
      sole_round-decides bound (seats.arbiter none (some a)) review abstained_review (some a) a
        a.verdict r e in
    let o =
      sole_round-open bound (seats.arbiter none (some a)) review abstained_review (some a) a
        a.verdict r e in
    (
      d,
      o,
      ap review_is_placeholder s ∙ abstained_real.0,
      λ _. ground (arith, t, q),
      ground (arith, o),
    )
concluded-Grounded bound tier seats review false (some (a, true)) r p q e =
    let (d, s, t) =
      sole_round-decides bound (seats.arbiter (some review) none) review review (some a)
        abstained_adversary review.verdict r e in
    let o =
      sole_round-open bound (seats.arbiter (some review) none) review review (some a)
        abstained_adversary review.verdict r e in
    (
      d,
      o,
      ap review_is_placeholder s ∙ p,
      λ _. ground (arith, t, abstained_real.1),
      ground (arith, o),
    )
concluded-Grounded bound tier seats review false none r p q e =
    full_round-alone bound tier seats review r p e
concluded-Grounded bound tier seats review false (some (a, false)) r p q e =
    let (d, s, t) = full_round-decides bound tier seats review a r e in
    let o = full_round-open bound tier seats review (some a) r e in
    (d, o, ap review_is_placeholder s ∙ p, λ _. ground (arith, t, q), ground (arith, o))

abbrev pub is_asked : Option (Adversary × Bool) → Bool
is_asked none = false
is_asked (some p) = true

abbrev pub Concluded : Bound → ℕ → Seats → Round → Type 0
Concluded bound tier seats r =
    (review : Review) × (b : Bool) × (asked : Option (Adversary × Bool)) × (review_is_placeholder
        review
      ≡ b)
    × IsTrue asked
    × (is_asked asked ≡ (leb 1 tier && bound.has_adversary))
    × (concluded bound tier seats (review, b) asked ≡ ok r)
    × (opinions bound tier seats ≡ heard (review, b) asked)

-- A finished round was concluded from what its reviewers said.
pub review_round-Concluded :
    (bound : Bound) (tier : ℕ) (seats : Seats) (r : Round)
    → review_round bound tier seats ≡ ok r
    → Concluded bound tier seats r
unfolding review_round
review_round-Concluded bound tier seats r e =
    split
      (reviewer_answer review_charter review_is_placeholder seats.charter_first seats.charter_again)
      refl
  where
    heard_asked :
        (review : Review) (b : Bool) (a : Adversary) (c : Bool)
        → charter_word seats ≡ some review
        → review_is_placeholder review ≡ b
        → last_word adversary_is_placeholder
            (seats.adversary_first review)
            (seats.adversary_again review)
          ≡ some a
        → adversary_is_placeholder a ≡ c
        → (leb 1 tier && bound.has_adversary) ≡ true
        → opinions bound tier seats ≡ heard (review, b) (some (a, c))
    heard_asked review true a true w p v q on = ground (arith, w, p, v, q, on)
    heard_asked review true a false w p v q on = ground (arith, w, p, v, q, on)
    heard_asked review false a true w p v q on = ground (arith, w, p, v, q, on)
    heard_asked review false a false w p v q on = ground (arith, w, p, v, q, on)

    heard_alone :
        (review : Review) (b : Bool)
        → charter_word seats ≡ some review
        → review_is_placeholder review ≡ b
        → (leb 1 tier && bound.has_adversary) ≡ false
        → opinions bound tier seats ≡ heard (review, b) none
    heard_alone review true w p off = ground (arith, w, p, off)
    heard_alone review false w p off = ground (arith, w, p, off)

    asked :
        (review : Review) (b : Bool) (answer : Result Fault (Adversary × Bool))
        → reviewer_answer review_charter review_is_placeholder seats.charter_first
            seats.charter_again
          ≡ ok (review, b)
        → reviewer_answer review_adversary adversary_is_placeholder
            (seats.adversary_first review)
            (seats.adversary_again review)
          ≡ answer
        → (leb 1 tier && bound.has_adversary) ≡ true
        → Concluded bound tier seats r
    asked review b (err fault) w v on = absurd (ground (arith, e, w, v, on))
    asked review b (ok (a, c)) w v on =
        let (said, is) =
          reviewer_answer-word review_charter review_is_placeholder seats.charter_first
            seats.charter_again review b w in
        let (said', is') =
          reviewer_answer-word review_adversary adversary_is_placeholder
            (seats.adversary_first review) (seats.adversary_again review) a c v in
        let done : concluded bound tier seats (review, b) (some (a, c)) ≡ ok r =
          ground (arith, e, w, v, on) in
        (
          review,
          b,
          some (a, c),
          is,
          is',
          sym on,
          done,
          heard_asked review b a c said is said' is' on,
        )

    alone :
        (review : Review) (b : Bool)
        → reviewer_answer review_charter review_is_placeholder seats.charter_first
            seats.charter_again
          ≡ ok (review, b)
        → (leb 1 tier && bound.has_adversary) ≡ false
        → Concluded bound tier seats r
    alone review b w off =
        let (said, is) =
          reviewer_answer-word review_charter review_is_placeholder seats.charter_first
            seats.charter_again review b w in
        let done : concluded bound tier seats (review, b) none ≡ ok r = ground (arith, e, w, off) in
        (review, b, none, is, tt, sym off, done, heard_alone review b said is off)

    split :
        (answer : Result Fault (Review × Bool))
        → reviewer_answer review_charter review_is_placeholder seats.charter_first
            seats.charter_again
          ≡ answer
        → Concluded bound tier seats r
    split (err fault) w = absurd (ground (arith, e, w))
    split (ok (review, b)) w = elim (Bool-cases (leb 1 tier && bound.has_adversary)) [
      | inl on ↦
          asked review b
            (reviewer_answer review_adversary adversary_is_placeholder
              (seats.adversary_first review) (seats.adversary_again review))
            w refl on
      | inr off ↦ alone review b w off
    ]

review_round-Grounded :
    (bound : Bound) (tier : ℕ) (seats : Seats) (r : Round)
    → review_round bound tier seats ≡ ok r
    → Grounded (opinions bound tier seats) r
review_round-Grounded bound tier seats r e =
    let (review, b, asked, p, q, _, done, is) = review_round-Concluded bound tier seats r e in
    subst (λ vs. Grounded vs r) (sym is)
      (concluded-Grounded bound tier seats review b asked r p q done)

-- A finished round approves exactly where the arbiter answered and approved, or where it did not answer,
-- some reviewer judged the change, and every reviewer that judged it approved. A placeholder is no judgment.
pub review_round-decides :
    (bound : Bound) (tier : ℕ) (seats : Seats) (r : Round)
    → review_round bound tier seats ≡ ok r
    → is_approve r.verdict ≡ decides r.arbitration (opinions bound tier seats)
review_round-decides bound tier seats r e = (review_round-Grounded bound tier seats r e).0

-- A finished round is quarantined exactly where no reviewer judged the change. The review that it records
-- is never a placeholder, and the adversary's answer is none either where the round is not quarantined.
pub review_round-genuine :
    (bound : Bound) (tier : ℕ) (seats : Seats) (r : Round)
    → review_round bound tier seats ≡ ok r
    → (r.quarantine ≡ is_empty (opinions bound tier seats))
      × (review_is_placeholder r.review ≡ false)
      × ((r.quarantine
            || not (elim r.adversary [ none ↦ false | some a ↦ adversary_is_placeholder a ]))
          ≡ true)
review_round-genuine bound tier seats r e =
    let (d, q, p, a, _) = review_round-Grounded bound tier seats r e in
    (
      q,
      p,
      elim (Bool-cases r.quarantine) [ inl h ↦ ground (arith, h) | inr h ↦ ground (arith, a h) ],
    )

-- A quarantined round does not approve.
pub review_round-quarantined :
    (bound : Bound) (tier : ℕ) (seats : Seats) (r : Round)
    → review_round bound tier seats ≡ ok r
    → (r.quarantine && is_approve r.verdict) ≡ false
review_round-quarantined bound tier seats r e =
    let (_, _, _, _, v) = review_round-Grounded bound tier seats r e in v
