-- ===== src/Settings.antt =====
-- shared/src/shared/settings.py. What pydantic parses from the files and the environment is a
-- parameter; the validator of `Settings` and the choice of the files are modelled.
pub mod Isolation
use mycelium_consciousness.Prelude.{
  ℕ, Text, codes, Bool, true, false, ◌||◌, List, [], ◌∷◌, ◌++◌, Option, none, some, any, select,
  lower, strip_prefix, text_eq, if◌then◌else◌,
}
use mycelium_consciousness.Effects.{Result, ok, err, value_error, configuration_error, ◌>>?◌}
use mycelium_consciousness.Memories.{strip}

pub data Environment : Type 0 where
  sandbox production test : Environment

pub record Settings : Type 0 where
  pub app_env : Environment
  pub debug : Bool
  pub postgres_user : Text
  pub postgres_password : Text
  pub postgres_host : Text
  pub postgres_port : ℕ
  pub postgres_db : Text
  pub db_pool_size : ℕ
  pub db_max_overflow : ℕ
  pub db_pool_recycle : ℕ
  pub celery_broker_url : Text
  pub celery_result_backend : Text
  pub celery_task_queue : Text
  pub rollup_check_interval_seconds : ℕ
  pub stream_flush_interval_seconds : ℕ
  pub memory_stream_maxlen : ℕ
  pub rollup_interval_override_seconds : Option ℕ
  pub minio_endpoint : Text
  pub minio_access_key : Text
  pub minio_secret_key : Text
  pub minio_bucket : Text
  pub jwt_secret_key : Text
  pub jwt_algorithm : Text
  pub access_token_ttl_minutes : ℕ
  pub allow_insecure_jwt_secret : Bool
  pub api_host : Text
  pub api_port : ℕ
  pub api_workers : ℕ
  pub api_reload : Bool
  pub log_level : Text

abbrev begins : Option Text → Bool
begins none = false
begins (some _) = true

-- `part in s`
pub contains : (part s : Text) → Bool
unfolding strip_prefix
contains part [] = begins (strip_prefix part [])
contains part (c ∷ s) = begins (strip_prefix part (c ∷ s)) || contains part s

abbrev pub secrets : Settings → List Text
secrets s = s.postgres_password ∷ s.minio_access_key ∷ s.minio_secret_key ∷ s.jwt_secret_key ∷ []

-- The names of the database and of the bucket, in lower case.
abbrev pub names : Settings → List Text
names s = lower s.postgres_db ∷ lower s.minio_bucket ∷ []

abbrev pub is_placeholder : Text → Bool
is_placeholder secret = contains (codes "change_me") (lower secret)

abbrev pub not_for_production : Text → Bool
not_for_production name = contains (codes "sandbox") name || contains (codes "test") name

-- `_enforce_environment_isolation`, in production
pub enforce_production : Settings → Result Settings
unfolding contains lower
enforce_production s =
    if s.debug
    then err value_error
    else if s.api_reload
    then err value_error
    else if s.allow_insecure_jwt_secret
    then err value_error
    else if any is_placeholder (secrets s)
    then err value_error
    else if any not_for_production (names s)
    then err value_error
    else ok s

-- The same, in the sandbox.
pub enforce_sandbox : Settings → Result Settings
unfolding contains lower
enforce_sandbox s = if any (contains (codes "prod")) (names s) then err value_error else ok s

abbrev enforce_in : Environment → Settings → Result Settings
enforce_in production s = enforce_production s
enforce_in sandbox s = enforce_sandbox s
enforce_in test s = ok s

pub enforce_environment_isolation : Settings → Result Settings
enforce_environment_isolation s = enforce_in s.app_env s

-- ENVIRONMENTS
abbrev pub environments : List Text
environments = codes "sandbox" ∷ codes "production" ∷ codes "test" ∷ []

pub env_file_candidates : (cwd app_env : Text) → List Text
env_file_candidates cwd app_env =
    (cwd ++ (codes "/.env." ++ app_env)) ∷ (cwd ++ (codes "/infra/.env." ++ app_env)) ∷ []

abbrev or_empty : Option Text → Text
or_empty none = []
or_empty (some s) = s

-- `[Path(explicit)] if explicit else …`; an empty text counts as none.
abbrev pub files : (cwd app_env : Text) → (explicit : Option Text) → List Text
files cwd app_env none = env_file_candidates cwd app_env
files cwd app_env (some []) = env_file_candidates cwd app_env
files cwd app_env (some (c ∷ s)) = (c ∷ s) ∷ []

-- `os.environ.get("APP_ENV", "").strip().lower()`
pub selected : Option Text → Text
unfolding strip lower
selected raw = lower (strip (or_empty raw))

-- `raw` and `explicit` are APP_ENV and ENV_FILE; `load` is pydantic's parse of the environment and
-- the files, before the validator.
pub get_settings :
    (load : List Text → Result Settings)
    → (is_file : Text → Bool) → (cwd : Text) → (raw explicit : Option Text) → Result Settings
unfolding selected enforce_environment_isolation text_eq
get_settings load is_file cwd raw explicit =
    if any (text_eq (selected raw)) environments
    then (load (select is_file (files cwd (selected raw) explicit))
        >>? enforce_environment_isolation)
    else err configuration_error
