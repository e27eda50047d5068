-- ===== src/LoadTests/Report/Windows.antt =====
-- Which samples the report takes for a step.
use mycelium_consciousness.Prelude.{
  ℕ, ◌-◌, ◌≤◌, ◌<◌, true, List, [], ◌∷◌, some, ◌≡◌, ap, arith, ltb, refl, select-satisfies,
}
use mathlib.Core.List.{Memᴰ}
use mathlib.Core.List.Memᴰ
use mycelium_consciousness.LoadTests.{Stage, Profile, tick}
use mycelium_consciousness.LoadTests.Shape.{Ascending}
use mycelium_consciousness.LoadTests.Report.{History, in_window, window, steps_from}

-- A step starts no sooner than the steps before it end.
start-le :
    (t : ℕ) (ss : List Stage) (start : ℕ) (stage : Stage)
    → Ascending t ss
    → Memᴰ (start, stage) (steps_from t ss)
    → t ≤ start
unfolding steps_from
start-le t [] start stage a m = absurd (Memᴰ.not-nil m)
start-le t (s ∷ ss) start stage (a, b) (Memᴰ.head e) = ground (arith, ap (λ p. p.0) e)
start-le t (s ∷ ss) start stage (a, b) (Memᴰ.tail m) =
    let h = start-le s.end_time ss start stage b m in omega arith

steps_from-tick :
    (t : ℕ) (ss : List Stage) (start : ℕ) (stage : Stage) (time : ℕ)
    → Ascending t ss
    → Memᴰ (start, stage) (steps_from t ss)
    → start ≤ time
    → time < stage.end_time
    → tick time ss ≡ some (stage.users, stage.spawn_rate)
unfolding steps_from tick
steps_from-tick t [] start stage time a m h k = absurd (Memᴰ.not-nil m)
steps_from-tick t (s ∷ ss) start stage time (a, b) (Memᴰ.head e) h k =
    let same : stage ≡ s = ap (λ p. p.1) e in
    let before : time < s.end_time = rw (← same) k in
    let is_before : ltb time s.end_time ≡ true = ground (arith, before) in rw (is_before, same) refl
steps_from-tick t (s ∷ ss) start stage time (a, b) (Memᴰ.tail m) h k =
    let later = start-le s.end_time ss start stage b m in
    let ih = steps_from-tick s.end_time ss start stage time b m h k in ground arith

-- The report takes a sample for a step only if, at the time of the sample, the load shape asked for
-- the users and the spawn rate of that step, for stages whose ends ascend.
pub window-tick :
    (p : Profile) (start : ℕ) (stage : Stage) (origin : ℕ) (h : History) (hs : List History)
    → Ascending 0 p.stages
    → Memᴰ (start, stage) (steps_from 0 p.stages)
    → Memᴰ h (window start stage origin hs)
    → tick (h.timestamp - origin) p.stages ≡ some (stage.users, stage.spawn_rate)
unfolding window in_window
window-tick p start stage origin h hs a m k =
    let inside = select-satisfies _ hs k in
    let (after, before) : (start ≤ h.timestamp - origin) × (h.timestamp - origin < stage.end_time) =
      ground (arith, inside) in
    steps_from-tick 0 p.stages start stage (h.timestamp - origin) a m after before
