-- ===== src/LoadTests/Shape.antt =====
-- What a load shape asks for, and when it ends.
use mycelium_consciousness.Prelude.{
  ℕ, zero, suc, ◌+◌, ◌-◌, ◌≤◌, ◌<◌, List, [], ◌∷◌, none, some, ◌≡◌, ◌↔◌, refl, arith, ltb, leb,
  ◌==◌, Bool-cases, inl, inr, ltb→lt, other_than, ap, sym, ◌∙◌,
}
use mycelium_consciousness.Effects.{ok}
use mycelium_consciousness.LoadTests.{
  Stage, Profile, stages_end, duration, steps, step_profile, tick,
}

-- The ends of the stages are in ascending order.
abbrev pub Ascending : ℕ → List Stage → Type 0
Ascending t [] = Unit
Ascending t (s ∷ ss) = (t < s.end_time) × Ascending s.end_time ss

steps-Ascending :
    (fuel users stop step hold ramp t : ℕ)
    → 1 ≤ hold
    → Ascending t (steps fuel users stop step hold ramp t)
unfolding steps
steps-Ascending zero users stop step hold ramp t h = tt
steps-Ascending (suc fuel) users stop step hold ramp t h = elim (Bool-cases (leb users stop)) [
  | inl e ↦ rw e (omega arith, steps-Ascending fuel (users + step) stop step hold ramp (t + hold) h)
  | inr e ↦ rw e tt
]

-- Any fuel that reaches the end of the range gives the same stages.
steps-enough :
    (fuel fuel' users stop step hold ramp t : ℕ)
    → 1 ≤ step
    → stop < users + fuel
    → stop < users + fuel'
    → steps fuel users stop step hold ramp t ≡ steps fuel' users stop step hold ramp t
unfolding steps
steps-enough zero zero users stop step hold ramp t h k k' = refl
steps-enough zero (suc fuel') users stop step hold ramp t h k k' = ground arith
steps-enough (suc fuel) zero users stop step hold ramp t h k k' = ground arith
steps-enough (suc fuel) (suc fuel') users stop step hold ramp t h k k' =
    let ih =
      steps-enough fuel fuel' (users + step) stop step hold ramp (t + hold) h (omega arith)
        (omega arith) in
    elim (Bool-cases (leb users stop)) [ inl e ↦ rw (e, ih) refl | inr e ↦ rw e refl ]

-- The later of two ends, in an ascending list, is the last one.
end-later :
    (t : ℕ) (s : Stage) (ss : List Stage) (d : ℕ)
    → Ascending t (s ∷ ss)
    → stages_end (s ∷ ss) ≡ some d
    → s.end_time ≤ d
unfolding stages_end
end-later t s [] d a h = ground arith
end-later t s (s' ∷ ss) d (a, (b, rest)) h =
    let k = end-later s.end_time s' ss d (b, rest) h in omega arith

tick-end :
    (run_time t : ℕ) (s : Stage) (ss : List Stage) (d : ℕ)
    → Ascending t (s ∷ ss)
    → stages_end (s ∷ ss) ≡ some d
    → (tick run_time (s ∷ ss) ≡ none) ↔ (d ≤ run_time)
unfolding tick stages_end
tick-end run_time t s [] d a h = (λ e. ground arith, λ e. ground arith)
tick-end run_time t s (s' ∷ ss) d (a, rest) h =
    let (to, from) = tick-end run_time s.end_time s' ss d rest h in
    let late = end-later s.end_time s' ss d rest h in
    let (b, _) = rest in
    elim (Bool-cases (ltb run_time s.end_time)) [
      | inl e ↦ rw e (λ n. cc, λ k. absurd (omega (arith, ltb→lt run_time s.end_time e)))
      | inr e ↦ rw e (to, from)
    ]

stages-tick :
    (run_time t : ℕ) (ss : List Stage) (d : ℕ)
    → Ascending t ss
    → stages_end ss ≡ some d
    → (tick run_time ss ≡ none) ↔ (d ≤ run_time)
unfolding stages_end
stages-tick run_time t [] d a h = cc
stages-tick run_time t (s ∷ ss) d a h = tick-end run_time t s ss d a h

of_ok : {p q : Profile} → ok p ≡ ok q → q ≡ p
of_ok h = cc

-- A step profile with a stage, and a hold of at least a second, asks for users at every second before
-- its duration and ends the test from then on; and its stages are those that the loop makes with
-- any fuel that goes past the last number of users.
pub step_profile-tick :
    (start stop step hold ramp : ℕ) (p : Profile) (d run_time : ℕ)
    → 1 ≤ hold
    → step_profile start stop step hold ramp ≡ ok p
    → duration p ≡ some d
    → ((tick run_time p.stages ≡ none) ↔ (d ≤ run_time))
      × ((fuel : ℕ) → stop < start + fuel → steps fuel start stop step hold ramp 0 ≡ p.stages)
unfolding step_profile
step_profile-tick start stop step hold ramp p d run_time h made ends =
    elim (Bool-cases (step == 0)) [
      | inl e ↦ let bad = rw e at made in cc
      | inr e ↦
          let some_step = other_than step 0 e in
          let same = ap (λ q. q.stages) (of_ok (rw e at made)) in
          rw same (
            stages-tick run_time 0 (steps (stop + 1 - start) start stop step hold ramp 0) d
                (steps-Ascending (stop + 1 - start) start stop step hold ramp 0 h)
                (ap stages_end (sym same) ∙ ends),
            λ fuel k.
                steps-enough fuel (stop + 1 - start) start stop step hold ramp 0 (omega arith) k
                  (omega arith),
          )
    ]
