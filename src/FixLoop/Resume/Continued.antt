-- ===== src/FixLoop/Resume/Continued.antt =====
-- graphs/delivery/lifecycle_propose.py: how often a stopped build is resumed.
use coxswain_graphs.Prelude.{
  ℕ, zero, suc, ◌+◌, ◌≤◌, ◌<◌, ◌≡◌, refl, Bool, true, false, Option, none, some, List, [], ◌∷◌,
  Text, Result, ok, err, arith,
}
use coxswain_graphs.FixLoop.Resume.{
  BudgetStop, Call, built, stops, fails, Refused, continue_ok, Setting, Tier, Outcome, finished,
  refused, revised, raised, out_of_fuel, Resumed, judge_stop, resume_build,
}
use coxswain_graphs.FixLoop.Paths.{files_outside_surfaces, touched_paths}

-- A runner that stops at the final ceiling only, never at a checkpoint.
abbrev pub IsPlain : (ℕ → Tier → Call) → Type 0
IsPlain runner =
    (n : ℕ) (tier : Tier) (stop : BudgetStop)
    → runner n tier ≡ stops stop
    → stop.checkpoint_index ≡ none

abbrev pub is_raised : Outcome → Bool
is_raised (finished b) = false
is_raised (refused w) = false
is_raised (revised w) = false
is_raised raised = true
is_raised out_of_fuel = false

abbrev pub is_out_of_fuel : Outcome → Bool
is_out_of_fuel (finished b) = false
is_out_of_fuel (refused w) = false
is_out_of_fuel (revised w) = false
is_out_of_fuel raised = false
is_out_of_fuel out_of_fuel = true

continue_ok-few :
    (stop : BudgetStop) (surfaces : List Text) (continuations : ℕ)
    → continue_ok stop surfaces continuations none ≡ none
    → continuations < 2
unfolding continue_ok
continue_ok-few stop surfaces continuations e =
    split (files_outside_surfaces (touched_paths stop.partial_patch) surfaces) refl
  where
    split :
        (outside : List Text)
        → files_outside_surfaces (touched_paths stop.partial_patch) surfaces ≡ outside
        → continuations < 2
    split [] w = ground (arith, e, w)
    split (f ∷ fs) w = ground (arith, e, w)

judge_stop-ok :
    (setting : Setting) (tier : Tier) (stop : BudgetStop) (continuations : ℕ)
    (previous p : Option Text)
    → setting.hard_ceiling ≡ none
    → stop.checkpoint_index ≡ none
    → judge_stop setting tier stop continuations previous ≡ ok p
    → continuations < 2
unfolding judge_stop
judge_stop-ok setting tier stop continuations previous p ceiling plain e =
    continue_ok-few stop setting.surfaces continuations
      (split (continue_ok stop setting.surfaces continuations none) refl)
  where
    split :
        (r : Option Refused)
        → continue_ok stop setting.surfaces continuations none ≡ r
        → continue_ok stop setting.surfaces continuations none ≡ none
    split none w = w
    split (some why) w = ground (arith, e, w, ceiling, plain)

judge_stop-err :
    (setting : Setting) (tier : Tier) (stop : BudgetStop) (continuations : ℕ)
    (previous : Option Text) (end : Outcome)
    → setting.hard_ceiling ≡ none
    → stop.checkpoint_index ≡ none
    → judge_stop setting tier stop continuations previous ≡ err end
    → (is_raised end ≡ false) × (is_out_of_fuel end ≡ false)
unfolding judge_stop
judge_stop-err setting tier stop continuations previous end ceiling plain e =
    split (continue_ok stop setting.surfaces continuations none) refl
  where
    split :
        (r : Option Refused)
        → continue_ok stop setting.surfaces continuations none ≡ r
        → (is_raised end ≡ false) × (is_out_of_fuel end ≡ false)
    split none w = ground (arith, e, w, ceiling, plain)
    split (some why) w = ground (arith, e, w, ceiling, plain)

-- What a resumption comes to, from the continuations and the calls at its start.
pub record Bounded (continuations calls : ℕ) (r : Resumed) : Type 0 where
  pub ends : is_out_of_fuel r.outcome ≡ false
  pub few : r.continuations ≤ 2
  pub counted : is_raised r.outcome ≡ false → r.calls + continuations ≡ calls + r.continuations

-- Without a ceiling of the role and without checkpoints, a build that stopped at its budget is resumed at
-- most twice in all: three rounds of fuel are enough, at most two continuations are counted, and each
-- of them is one call of the builder.
pub resume_build-Bounded :
    (setting : Setting) (tier : Tier) (runner : ℕ → Tier → Call) (fuel : ℕ) (stop : BudgetStop)
    (continuations : ℕ) (previous : Option Text) (calls : ℕ)
    → setting.hard_ceiling ≡ none
    → stop.checkpoint_index ≡ none
    → IsPlain runner
    → continuations ≤ 2
    → 3 ≤ fuel + continuations
    → Bounded continuations calls
        (resume_build setting tier runner fuel stop continuations previous calls)
unfolding resume_build
resume_build-Bounded setting tier runner zero stop continuations previous calls ceiling plain plains
      few enough =
    absurd (omega arith)
resume_build-Bounded setting tier runner (suc fuel) stop continuations previous calls ceiling plain
      plains few enough =
    judged
      (λ next p plain' few'.
        resume_build-Bounded setting tier runner fuel next (continuations + 1) p (calls + 1) ceiling
          plain' plains few' (omega arith))
      (judge_stop setting tier stop continuations previous) refl
  where
    asked :
        ((next : BudgetStop) (p : Option Text)
          → next.checkpoint_index ≡ none
          → continuations + 1 ≤ 2
          → Bounded
              (continuations + 1)
              (calls + 1)
              (resume_build setting tier runner fuel next (continuations + 1) p (calls + 1)))
        → (p : Option Text) → judge_stop setting tier stop continuations previous ≡ ok p
        → continuations < 2
        → (c : Call) → runner calls tier ≡ c
        → Bounded continuations calls
            (resume_build setting tier runner (suc fuel) stop continuations previous calls)
    asked again p w small (built b) v =
        rw (w, v, resume_build)
          (record { ends = refl; few = omega (arith, small); counted = λ _. omega arith })
    asked again p w small fails v =
        rw (w, v, resume_build)
          (record { ends = refl; few = few; counted = λ e. ground (arith, e) })
    asked again p w small (stops next) v =
        let ih = again next p (plains calls tier next v) (omega (arith, small)) in
        rw (w, v, resume_build)
          (record { ends = ih.ends; few = ih.few; counted = λ e. omega (arith, ih.counted e) })

    judged :
        ((next : BudgetStop) (p : Option Text)
          → next.checkpoint_index ≡ none
          → continuations + 1 ≤ 2
          → Bounded
              (continuations + 1)
              (calls + 1)
              (resume_build setting tier runner fuel next (continuations + 1) p (calls + 1)))
        → (j : Result Outcome (Option Text))
        → judge_stop setting tier stop continuations previous ≡ j
        → Bounded continuations calls
            (resume_build setting tier runner (suc fuel) stop continuations previous calls)
    judged again (err end) w =
        let (a, b) = judge_stop-err setting tier stop continuations previous end ceiling plain w in
        rw (w, resume_build) (record { ends = b; few = few; counted = λ _. omega arith })
    judged again (ok p) w =
        asked again p w (judge_stop-ok setting tier stop continuations previous p ceiling plain w)
          (runner calls tier) refl
