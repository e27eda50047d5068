-- ===== src/Witnesses/Loads.antt =====
-- The theorems on the load tests, applied.
use mycelium_consciousness.Schemas.{valid_register}
use mycelium_consciousness.Api.{handle, handle_public, respond}
use mycelium_consciousness.Prelude.{
  ◌+◌, ◌-◌, ◌*◌, Text, codes, false, List, [], ◌∷◌, none, some, ◌≡◌, ◌≢◌, refl, arith, All, text_eq,
  lower, str_of, int_of, split,
}
use mycelium_consciousness.Effects.{Result, ok}
use mycelium_consciousness.Database.{World, distinct, distinct_texts, intact, commit}
use mycelium_consciousness.Subscriptions.{second}
use mycelium_consciousness.Accounts.{LoginRequest, register, new_profile, new_user}
use mycelium_consciousness.Auth.{epoch}
use mathlib.Core.List.Memᴰ
use mycelium_consciousness.LoadTests.{Profile, tick}
use mycelium_consciousness.LoadTests.Report.{History, window, in_window, steps_from}
use mycelium_consciousness.LoadTests.Report.Windows.{window-tick}
use mycelium_consciousness.LoadTests.Provision.{main, load_account}
use mycelium_consciousness.LoadTests.Provision.Accounts.{host}
use mycelium_consciousness.LoadTests.Locust.Start.{Starts, main-Starts}
use mycelium_consciousness.LoadTests.DockerStats.{
  Row, Sample, row_of, mebibyte_tenths, float_of, factor,
}
use mycelium_consciousness.LoadTests.Binary64.{nearest}
use mycelium_consciousness.LoadTests.DockerStats.Rows.{row_of-printed}
use mycelium_consciousness.LoadTests.Generator.{Outcome, answered, http_error, Report, run}
use mycelium_consciousness.LoadTests.Generator.Percentiles.{Reports, run-Reports}
use mycelium_consciousness.Witnesses.Samples.Formats.{hasher_laws, jwt_laws}
use mycelium_consciousness.Witnesses.Samples.Tables.{services, world}
use mycelium_consciousness.Witnesses.Systems.{context}

abbrev run_id : Text
run_id = codes "a1"

-- Two accounts are provisioned.
abbrev provisioned : Result (List LoginRequest) × World (services false)
provisioned = main (host context (λ i. 1) (λ i. i)) run_id 2 (world false)

main-Starts_example :
    (load_account run_id 0 ∷ load_account run_id 1 ∷ [] ≢ [])
    × All
        (Starts hasher_laws jwt_laws context
          (λ i. 1)
          (λ i. i)
          run_id
          epoch
          (epoch + second)
          provisioned.1)
        (load_account run_id 0 ∷ load_account run_id 1 ∷ [])
unfolding main distinct handle respond handle_public valid_register str_of register commit intact
    new_user distinct_texts text_eq lower new_profile
main-Starts_example =
    main-Starts hasher_laws jwt_laws context (λ i. 1) (λ i. i) run_id epoch (epoch + second) 2
      (world false) (load_account run_id 0 ∷ load_account run_id 1 ∷ []) (omega arith) (omega arith)
      refl refl

abbrev beat : Sample
beat = record {
  name = codes "clone-sandbox-celery-beat-1";
  cpu_perc = codes "3.07%";
  mem_usage = codes "12.35MiB / 7.6GiB";
}

row_of-printed_example :
    (r : Row) × (row_of (codes "clone-sandbox") 12 beat ≡ ok r)
    × (r.elapsed_s ≡ 12)
    × (r.container ≡ codes "celery-beat")
    × (r.cpu_percent ≡ codes "3.07")
unfolding float_of split int_of factor
row_of-printed_example =
    row_of-printed (codes "clone-sandbox") (codes "celery-beat") (codes "1") (codes "3.07")
      (codes "12.35") (codes "MiB") (codes " 7.6GiB") 12 (nearest (1235, 100)) (1024 * 1024) refl
      refl refl refl refl refl

-- The float 12.35 is less than the decimal number, and so it is rounded down.
mebibyte_tenths_test :
    mebibyte_tenths (nearest ((nearest (1235, 100)).0 * (1024 * 1024), (nearest (1235, 100)).1))
    ≡ 123
unfolding mebibyte_tenths nearest
mebibyte_tenths_test = refl

abbrev outcomes : List Outcome
outcomes = answered 202 30 ∷ http_error ∷ answered 503 10 ∷ answered 202 20 ∷ []

run-Reports_example : (r : Report) × (run 200 5 outcomes ≡ ok r) × Reports outcomes r
run-Reports_example = run-Reports 5 outcomes (omega arith)

-- Four steps, and a sample 70 s after the start, which is 25 s into the second.
abbrev four_steps : Profile
four_steps = record {
  stages =
      record { end_time = 45; users = 50; spawn_rate = (10, 1) }
      ∷ record { end_time = 90; users = 100; spawn_rate = (10, 1) }
      ∷ record { end_time = 135; users = 150; spawn_rate = (10, 1) }
      ∷ record { end_time = 180; users = 200; spawn_rate = (10, 1) }
      ∷ [];
}

abbrev sample : History
sample = record {
  name = codes "Aggregated";
  timestamp = 1070;
  requests_s = some 97;
  p50 = some 12;
  p95 = none;
  total_requests = 4000;
  total_failures = 3;
}

window-tick_example : tick (1070 - 1000) four_steps.stages ≡ some (100, (10, 1))
unfolding steps_from window in_window
window-tick_example =
    window-tick four_steps 45 (record { end_time = 90; users = 100; spawn_rate = (10, 1) }) 1000
      sample (sample ∷ []) (omega arith, (omega arith, (omega arith, (omega arith, tt))))
      (Memᴰ.tail (Memᴰ.head refl)) (Memᴰ.head refl)
