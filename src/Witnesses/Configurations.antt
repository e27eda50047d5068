-- ===== src/Witnesses/Configurations.antt =====
-- The theorems on settings, applied.
use mycelium_consciousness.LoadTests.{Profile, steps, step_profile, stages_end, tick}
use mycelium_consciousness.LoadTests.Shape.{step_profile-tick}
use mycelium_consciousness.Prelude.{ℕ, ◌≤◌, ◌<◌, ◌+◌, arith, codes, false, none, ◌≡◌, ◌↔◌, refl}
use mycelium_consciousness.Effects.{ok}
use mycelium_consciousness.Settings.{Settings, production, enforce_environment_isolation}
use mycelium_consciousness.Settings.Isolation.{IsIsolatedIn, enforce_environment_isolation_iff}

abbrev deployed : Settings
deployed = record {
  app_env = production;
  debug = false;
  postgres_user = codes "app";
  postgres_password = codes "p";
  postgres_host = codes "db";
  postgres_port = 5432;
  postgres_db = codes "mycelium_prod";
  db_pool_size = 10;
  db_max_overflow = 5;
  db_pool_recycle = 1800;
  celery_broker_url = codes "redis://redis/0";
  celery_result_backend = codes "redis://redis/1";
  celery_task_queue = codes "memory_batches";
  rollup_check_interval_seconds = 3600;
  stream_flush_interval_seconds = 60;
  memory_stream_maxlen = 10000;
  rollup_interval_override_seconds = none;
  minio_endpoint = codes "http://minio";
  minio_access_key = codes "a";
  minio_secret_key = codes "s";
  minio_bucket = codes "backups";
  jwt_secret_key = codes "0123456789abcdef0123456789abcdef";
  jwt_algorithm = codes "HS256";
  access_token_ttl_minutes = 60;
  allow_insecure_jwt_secret = false;
  api_host = codes "0.0.0.0";
  api_port = 8000;
  api_workers = 2;
  api_reload = false;
  log_level = codes "INFO";
}

enforce_environment_isolation_iff_example :
    (enforce_environment_isolation deployed ≡ ok deployed) ↔ IsIsolatedIn production deployed
enforce_environment_isolation_iff_example = enforce_environment_isolation_iff deployed

-- From 50 to 150 users, by 50 every 45 seconds.
abbrev ladder : Profile
ladder = record { stages = steps 101 50 150 50 45 10 0 }

step_profile-tick_example :
    ((tick 100 ladder.stages ≡ none) ↔ (135 ≤ 100))
    × ((fuel : ℕ) → 150 < 50 + fuel → steps fuel 50 150 50 45 10 0 ≡ ladder.stages)
unfolding step_profile stages_end steps
step_profile-tick_example = step_profile-tick 50 150 50 45 10 ladder 135 100 (omega arith) refl refl
