-- ===== src/LoadTests.antt =====
-- loadtests/profiles.py: the shapes of the load tests. A run time is a whole number of seconds, and
-- a spawn rate, a float, is a fraction.
pub mod Shape
pub mod Provision
pub mod Locust
pub mod Binary64
pub mod DockerStats
pub mod Generator
pub mod Report
use mycelium_consciousness.Prelude.{
  ℕ, zero, suc, ◌+◌, ◌-◌, Bool, List, [], ◌∷◌, Option, none, some, ltb, leb, ◌==◌, if◌then◌else◌,
}
use mycelium_consciousness.Effects.{Result, ok, err, value_error}

pub record Stage : Type 0 where
  pub end_time : ℕ
  pub users : ℕ
  pub spawn_rate : ℕ × ℕ

pub record Profile : Type 0 where
  pub stages : List Stage

abbrev larger : ℕ → Option ℕ → Option ℕ
larger n none = some n
larger n (some m) = some (if ltb m n then n else m)

most_users : List Stage → Option ℕ
most_users [] = none
most_users (s ∷ ss) = larger s.users (most_users ss)

-- `max` of no stages is a ValueError.
abbrev max_users : Profile → Option ℕ
max_users p = most_users p.stages

unfoldable pub stages_end : List Stage → Option ℕ
stages_end [] = none
stages_end (s ∷ []) = some s.end_time
stages_end (s ∷ s' ∷ ss) = stages_end (s' ∷ ss)

-- `stages[-1]` of no stages is an IndexError.
abbrev pub duration : Profile → Option ℕ
duration p = stages_end p.stages

-- The loop of `_step`, over `range(users, stop + 1, step)`.
unfoldable pub steps : (fuel : ℕ) → (users stop step hold ramp t : ℕ) → List Stage
steps zero users stop step hold ramp t = []
steps (suc fuel) users stop step hold ramp t =
    let rest = steps fuel (users + step) stop step hold ramp (t + hold) in
    if leb users stop
    then record { end_time = t + hold; users = users; spawn_rate = (ramp, 1) } ∷ rest
    else []

-- A `range` with step 0 is a ValueError.
unfoldable pub step_profile : (start stop step hold ramp : ℕ) → Result Profile
step_profile start stop step hold ramp =
    if step == 0
    then err value_error
    else ok (record { stages = steps (stop + 1 - start) start stop step hold ramp 0 })

-- `tick`; `none` ends the test.
unfoldable pub tick : (run_time : ℕ) → List Stage → Option (ℕ × (ℕ × ℕ))
tick run_time [] = none
tick run_time (s ∷ ss) =
    let rest = tick run_time ss in
    if ltb run_time s.end_time then some (s.users, s.spawn_rate) else rest

abbrev baseline : Profile
baseline = record {
  stages =
      record { end_time = 30; users = 50; spawn_rate = (50, 30) }
      ∷ record { end_time = 180; users = 50; spawn_rate = (1, 1) }
      ∷ [];
}
