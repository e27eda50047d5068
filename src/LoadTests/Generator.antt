-- ===== src/LoadTests/Generator.antt =====
-- tools/load_generator.py. What the workers' requests come to, and the clock, are parameters; a time
-- is a whole number of ticks, and a float product is exact.
pub mod Percentiles
use mycelium_consciousness.Prelude.{
  ℕ, zero, suc, ◌+◌, ◌*◌, ◌/◌, Text, codes, Bool, true, false, List, [], ◌∷◌, ◌++◌, Option, none,
  some, ltb, leb, ◌==◌, if◌then◌else◌, length,
}
use mycelium_consciousness.Effects.{Result, ok, err, system_exit, value_error, ◌>>?◌}

pub record Stats : Type 0 where
  pub sent : ℕ
  pub failed : ℕ
  pub latencies : List ℕ

abbrev pub no_stats : Stats
no_stats = record { sent = 0; failed = 0; latencies = [] }

-- How a request of a worker ends: answered, or an `httpx.HTTPError`.
pub data Outcome : Type 0 where
  answered : (status_code latency : ℕ) → Outcome
  http_error : Outcome

-- One turn of the loop of `worker`.
pub count : Outcome → Stats → Stats
count (answered status_code latency) stats =
    let timed = stats.latencies ++ latency ∷ [] in
    if status_code == 202
    then record stats { sent = stats.sent + 1; latencies = timed }
    else record stats { failed = stats.failed + 1; latencies = timed }
count http_error stats = record stats { failed = stats.failed + 1 }

-- The turns of all workers, as they end.
pub count_all : List Outcome → Stats → Stats
unfolding count
count_all [] stats = stats
count_all (o ∷ os) stats = count_all os (count o stats)

pub insert : ℕ → List ℕ → List ℕ
insert x [] = x ∷ []
insert x (y ∷ ys) = let rest = insert x ys in if leb x y then x ∷ y ∷ ys else y ∷ rest

-- `sorted`
pub sorted : List ℕ → List ℕ
unfolding insert
sorted [] = []
sorted (x ∷ xs) = insert x (sorted xs)

-- `xs[i]`; `none` is an IndexError.
pub get_elem? : List ℕ → ℕ → Option ℕ
get_elem? [] i = none
get_elem? (x ∷ xs) zero = some x
get_elem? (x ∷ xs) (suc i) = get_elem? xs i

-- What `report` prints. The throughput is a fraction.
pub record Report : Type 0 where
  pub sent : ℕ
  pub failed : ℕ
  pub throughput : ℕ × ℕ
  pub percentiles : Option (ℕ × ℕ)
  pub nothing_sent : Bool

abbrev pair : Option ℕ → Option ℕ → Result (Option (ℕ × ℕ))
pair (some p50) (some p99) = ok (some (p50, p99))
pair _ _ = err value_error

-- The two percentiles, if there is a latency.
pub percentiles_of : List ℕ → Result (Option (ℕ × ℕ))
unfolding sorted get_elem?
percentiles_of [] = ok none
percentiles_of (l ∷ ls) =
    let ordered = sorted (l ∷ ls) in
    let n = length ordered in pair (get_elem? ordered (n / 2)) (get_elem? ordered (n * 99 / 100))

-- `Stats.report`; with no time gone, a ZeroDivisionError.
pub report : (elapsed : ℕ) → Stats → Result Report
unfolding percentiles_of
report elapsed stats =
    if elapsed == 0
    then err value_error
    else (percentiles_of stats.latencies >>? λ percentiles. ok (record {
      sent = stats.sent;
      failed = stats.failed;
      throughput = (stats.sent, elapsed);
      percentiles = percentiles;
      nothing_sent = stats.sent + stats.failed == 0;
    }))

-- `run`, by the status of the login.
pub run : (login_status elapsed : ℕ) → List Outcome → Result Report
unfolding report count_all
run login_status elapsed outcomes =
    if login_status == 200
    then report elapsed (count_all outcomes no_stats)
    else err (system_exit 1)
