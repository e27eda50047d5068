-- ===== src/LoadTests/Report.antt =====
-- loadtests/make_report.py: the table of the steps in `summary`, behind what pandas reads from the
-- files. A float counts some small unit, `none` is a NaN, and means and shares are fractions. The
-- times of the containers count `unit`s of a second.
pub mod Windows
use mycelium_consciousness.Prelude.{
  ℕ, ◌+◌, ◌-◌, ◌*◌, Text, codes, Bool, ◌&&◌, List, [], ◌∷◌, map, Option, none, some, ltb, leb,
  if◌then◌else◌, length, select, text_eq,
}
use mycelium_consciousness.Effects.{Result, ok, err, key_error, ◌>>?◌}
use mycelium_consciousness.LoadTests.{Stage, Profile}

-- A row of the history that Locust writes.
pub record History : Type 0 where
  pub name : Text
  pub timestamp : ℕ
  pub requests_s : Option ℕ
  pub p50 : Option ℕ
  pub p95 : Option ℕ
  pub total_requests : ℕ
  pub total_failures : ℕ

-- A row that collect_docker_stats.py writes.
pub record Usage : Type 0 where
  pub elapsed : ℕ
  pub container : Text
  pub cpu_percent : Option ℕ

-- `_history`; `iloc[0]` of no rows is an IndexError.
abbrev aggregated : List History → List History
aggregated = select (λ h. text_eq h.name (codes "Aggregated"))

abbrev first_time : List History → Result ℕ
first_time [] = err key_error
first_time (h ∷ hs) = ok h.timestamp

largest : List Usage → ℕ
largest [] = 0
largest (u ∷ us) = let m = largest us in if ltb m u.elapsed then u.elapsed else m

-- `t >= start + (end - start) / 3 and t < end`, where `t` is `time - origin`.
unfoldable pub in_window : (unit start stop origin time : ℕ) → Bool
in_window unit start stop origin time =
    leb ((2 * start + stop) * unit + 3 * origin) (3 * time) && ltb time (stop * unit + origin)

unfoldable pub window : (start : ℕ) → Stage → (origin : ℕ) → List History → List History
unfolding in_window
window start stage origin = select (λ h. in_window 1 start stage.end_time origin h.timestamp)

abbrev present : List (Option ℕ) → List ℕ
present [] = []
present (none ∷ values) = present values
present (some n ∷ values) = n ∷ present values

abbrev total : List ℕ → ℕ
total [] = 0
total (n ∷ ns) = n + total ns

abbrev mean_of : List ℕ → Option (ℕ × ℕ)
mean_of [] = none
mean_of (n ∷ ns) = some (total (n ∷ ns), length (n ∷ ns))

-- `Series.mean`, which skips what is not a number.
abbrev mean : List (Option ℕ) → Option (ℕ × ℕ)
mean values = mean_of (present values)

-- How much a counter has changed.
pub data Delta : Type 0 where
  grown shrunk : ℕ → Delta

abbrev delta : (first last : ℕ) → Delta
delta first last = if leb first last then grown (last - first) else shrunk (first - last)

-- `max(delta, 1)`
abbrev at_least_one : Delta → ℕ
at_least_one (grown n) = if ltb n 1 then 1 else n
at_least_one (shrunk n) = 1

pub record StepRow : Type 0 where
  pub users : ℕ
  pub requests_s : Option (ℕ × ℕ)
  pub p50 : Option (ℕ × ℕ)
  pub p95 : Option (ℕ × ℕ)
  -- the share of failures, `100 * failures / requests`
  pub failures : Delta
  pub requests : ℕ
  pub api_cpu : Option (ℕ × ℕ)

abbrev last_of : History → List History → History
last_of h [] = h
last_of h (g ∷ gs) = last_of g gs

-- The row of a step; a window without samples has none.
abbrev step_row : Stage → List History → (api_cpu : Option (ℕ × ℕ)) → List StepRow → List StepRow
step_row stage [] api_cpu rows = rows
step_row stage (h ∷ hs) api_cpu rows =
    let last = last_of h hs in
    record {
      users = stage.users;
      requests_s = mean (map (λ g. g.requests_s) (h ∷ hs));
      p50 = mean (map (λ g. g.p50) (h ∷ hs));
      p95 = mean (map (λ g. g.p95) (h ∷ hs));
      failures = delta h.total_failures last.total_failures;
      requests = at_least_one (delta h.total_requests last.total_requests);
      api_cpu = api_cpu;
    }
    ∷ rows

-- The steps with their starts.
unfoldable pub steps_from : (start : ℕ) → List Stage → List (ℕ × Stage)
steps_from start [] = []
steps_from start (stage ∷ stages) = (start, stage) ∷ steps_from stage.end_time stages

module _ (unit : ℕ) where
  -- `_docker`, by when the file was written, and the samples of the API in a window.
  api_samples : (start : ℕ) → Stage → (written locust_start : ℕ) → List Usage → List Usage
  unfolding largest in_window
  api_samples start stage written locust_start usages =
      let origin = locust_start * unit + largest usages in
      select
        (λ u.
          leb origin (u.elapsed + written)
          && text_eq u.container (codes "api")
          && in_window unit start stage.end_time origin (u.elapsed + written))
        usages

  step_rows : (written origin : ℕ) → List History → List Usage → List (ℕ × Stage) → List StepRow
  unfolding window api_samples
  step_rows written origin history usages [] = []
  step_rows written origin history usages ((start, stage) ∷ steps) =
      step_row stage (window start stage origin history)
        (mean (map (λ u. u.cpu_percent) (api_samples start stage written origin usages)))
        (step_rows written origin history usages steps)

  -- The last table of `summary`, for a profile with more than three stages.
  step_table : (written : ℕ) → Profile → List History → List Usage → Result (List StepRow)
  unfolding step_rows steps_from
  step_table written profile rows usages =
      let history = aggregated rows in
      first_time history >>? λ origin. ok (
        if ltb 3 (length profile.stages)
        then step_rows written origin history usages (steps_from 0 profile.stages)
        else [])
