-- ===== src/FixLoop/Ends.antt =====
-- graphs/delivery/lifecycle_propose.py: the fix loop ends, and how often the builder is called.
use mathlib.Core.Path.{subst}
use coxswain_graphs.Prelude.{
  ℕ, zero, suc, ◌+◌, ◌*◌, ◌≤◌, ◌<◌, ◌≡◌, refl, ap, true, false, none, arith, Bool-cases, inl, inr,
}
use coxswain_graphs.FixLoop.Resume.{
  Call, built, stops, fails, Outcome, finished, refused, revised, raised, out_of_fuel,
}
use coxswain_graphs.FixLoop.Resume.Continued.{IsPlain, Bounded, resume_build-Bounded, is_raised}
use coxswain_graphs.FixLoop.Bounds.{
  is_unfinished, Calls, Ends, take_retry-Ends, Spends, turn-Spends, goes_on-within,
}
use coxswain_graphs.FixLoop.{
  Team, Runner, Loop, ended, Step, again, stay, leaves, goes_on, retry_tier, ask_build, asking,
  spent, turn, fix_loop,
}

-- The retry's call under a plain runner: within the patience, and each continuation is one more call.
ask_build-Bounded :
    (team : Team) (runner : Runner) (patience : ℕ) (l : Loop)
    → team.setting.hard_ceiling ≡ none
    → IsPlain runner.build
    → 3 ≤ patience
    → l.continuations ≤ 2
    → Bounded l.continuations (l.calls + 1) (ask_build team runner patience l)
unfolding ask_build
ask_build-Bounded team runner patience l ceiling plain enough few =
    split (runner.build l.calls (retry_tier team l)) refl
  where
    split :
        (c : Call)
        → runner.build l.calls (retry_tier team l) ≡ c
        → Bounded l.continuations (l.calls + 1) (ask_build team runner patience l)
    split (built b) w =
        rw (w, ask_build) (record { ends = refl; few = few; counted = λ _. omega arith })
    split fails w =
        rw (w, ask_build) (record { ends = refl; few = few; counted = λ _. omega arith })
    split (stops stop) w =
        rw (w, ask_build)
          (resume_build-Bounded team.setting (retry_tier team l) runner.build patience stop
            l.continuations l.previous_patch (l.calls + 1) ceiling
            (plain l.calls (retry_tier team l) stop w) plain few (omega (arith, enough)))

turn-Ends :
    (team : Team) (runner : Runner) (patience : ℕ) (l : Loop)
    → Bounded l.continuations (l.calls + 1) (ask_build team runner patience l)
    → Ends l (turn team runner patience l)
unfolding turn
turn-Ends team runner patience l b = outcome (ask_build team runner patience l).outcome refl
  where
    counted :
        is_raised (ask_build team runner patience l).outcome ≡ false
        → Calls l (spent (asking team l) (ask_build team runner patience l))
    counted e = (b.few, omega (arith, b.counted e))

    outcome :
        (o : Outcome)
        → (ask_build team runner patience l).outcome ≡ o
        → Ends l (turn team runner patience l)
    outcome (finished x) v =
        rw (v, turn)
          (take_retry-Ends team runner l (spent (asking team l) (ask_build team runner patience l))
            x (counted (ap is_raised v)))
    outcome (refused why) v = rw (v, turn) (counted (ap is_raised v))
    outcome (revised why) v = rw (v, turn) (counted (ap is_raised v))
    outcome raised v = rw (v, turn) refl
    outcome out_of_fuel v = absurd (ground (arith, b.ends, v))

-- A loop that starts with at most two continuations ends, whatever the runner answers, once the fuel is
-- more than the halves that are left.
pub fix_loop-ends :
    (team : Team) (runner : Runner) (patience fuel : ℕ) (l : Loop)
    → team.setting.hard_ceiling ≡ none
    → IsPlain runner.build
    → 3 ≤ patience
    → l.continuations ≤ 2
    → 2 * team.fix_attempts < fuel + l.halves
    → is_unfinished (fix_loop team runner patience fuel l) ≡ false
unfolding fix_loop
fix_loop-ends team runner patience zero l ceiling plain enough few fuel =
    elim (Bool-cases (goes_on team l)) [
      | inl on ↦ absurd (omega (arith, goes_on-within team l on))
      | inr off ↦ rw (off, fix_loop) refl
    ]
fix_loop-ends team runner patience (suc fuel) l ceiling plain enough few more =
    elim (Bool-cases (goes_on team l)) [
      | inr off ↦ rw (off, fix_loop) refl
      | inl on ↦
          split on (λ n c. fix_loop-ends team runner patience fuel n ceiling plain enough c)
            (turn team runner patience l) refl (turn-Spends team runner patience l)
            (turn-Ends team runner patience l
              (ask_build-Bounded team runner patience l ceiling plain enough few))
    ]
  where
    split :
        goes_on team l ≡ true
        → ((n : Loop)
            → n.continuations ≤ 2
            → 2 * team.fix_attempts < fuel + n.halves
            → is_unfinished (fix_loop team runner patience fuel n) ≡ false)
        → (s : Step) → turn team runner patience l ≡ s
        → Spends l s
        → Ends l s
        → is_unfinished (fix_loop team runner patience (suc fuel) l) ≡ false
    split on ih (again n) v (a, b) (c, d) = rw (on, v, fix_loop) (ih n c (omega (arith, a, more)))
    split on ih (stay n) v b c = rw (on, v, fix_loop) refl
    split on ih (leaves end) v b c = rw (on, v, fix_loop) c

-- The calls of the builder up to the end of the loop: one for each half attempt that is left, and one for
-- each continuation.
abbrev pub Counted : Team → Loop → Loop → Type 0
Counted team l last =
    (last.continuations ≤ 2)
    × (last.calls + l.continuations + l.halves
        ≤ l.calls + last.continuations + (2 * team.fix_attempts + 2))

Counted-one : (team : Team) (l n : Loop) → goes_on team l ≡ true → Calls l n → Counted team l n
Counted-one team l n on (c, d) = (c, omega (arith, d, goes_on-within team l on))

pub fix_loop-Counted :
    (team : Team) (runner : Runner) (patience fuel : ℕ) (l last : Loop)
    → team.setting.hard_ceiling ≡ none
    → IsPlain runner.build
    → 3 ≤ patience
    → l.continuations ≤ 2
    → l.halves ≤ 2 * team.fix_attempts + 2
    → fix_loop team runner patience fuel l ≡ ended last
    → Counted team l last
unfolding fix_loop
fix_loop-Counted team runner patience zero l last ceiling plain enough few within e =
    elim (Bool-cases (goes_on team l)) [
      | inl on ↦ absurd (ground (arith, e, on))
      | inr off ↦
          let q : l ≡ last = ground (arith, e, off) in
          subst (Counted team l) q (few, omega (arith, within))
    ]
fix_loop-Counted team runner patience (suc fuel) l last ceiling plain enough few within e =
    elim (Bool-cases (goes_on team l)) [
      | inr off ↦
          let q : l ≡ last = ground (arith, e, off) in
          subst (Counted team l) q (few, omega (arith, within))
      | inl on ↦
          split on
            (λ n c w. fix_loop-Counted team runner patience fuel n last ceiling plain enough c w)
            (turn team runner patience l) refl (turn-Spends team runner patience l)
            (turn-Ends team runner patience l
              (ask_build-Bounded team runner patience l ceiling plain enough few))
    ]
  where
    split :
        goes_on team l ≡ true
        → ((n : Loop)
            → n.continuations ≤ 2
            → n.halves ≤ 2 * team.fix_attempts + 2
            → fix_loop team runner patience fuel n ≡ ended last
            → Counted team n last)
        → (s : Step) → turn team runner patience l ≡ s
        → Spends l s
        → Ends l s
        → Counted team l last
    split on ih (again n) v (a, (b, _)) (c, d) =
        let (f, g) =
          ih n c (omega (arith, b, goes_on-within team l on)) (ground (arith, e, on, v)) in
        (f, omega (arith, g, d, a))
    split on ih (stay n) v b c =
        let q : n ≡ last = ground (arith, e, on, v) in
        subst (Counted team l) q (Counted-one team l n on c)
    split on ih (leaves end) v b c = absurd (ground (arith, e, on, v, b))
