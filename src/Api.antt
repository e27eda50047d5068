-- ===== src/Api.antt =====
-- services/api/src/api/main.py: the application over the routers. A request is an endpoint with its
-- parameters; FastAPI resolves the guards before it validates a body, validates the body before the
-- handler runs, and turns an HTTPException into its status.
pub mod Start
pub mod Guards
pub mod Frames
pub mod Confined
pub mod Untouched
pub mod Intact
use mycelium_consciousness.Prelude.{
  ℕ, suc, Text, codes, Bool, true, false, List, [], ◌∷◌, map, Option, none, some, if◌then◌else◌,
}
use mycelium_consciousness.Effects.{
  Error, http, Result, ok, err, Exec, pure, raise, gets, lift, ◌>>=◌, ◌>>◌, continue,
}
use mycelium_consciousness.Services.{Services}
use mycelium_consciousness.Subscriptions.{SubscriptionTier}
use mycelium_consciousness.Models.{User, CloneProfile, MemoryBackup}
use mycelium_consciousness.Database.{World, Action}
use mycelium_consciousness.Auth.{validate_jwt_secret}
use mycelium_consciousness.Storage.{ensure_bucket}
use mycelium_consciousness.Schemas.{
  TokenResponse, UserResponse, ProfileResponse, BackupResponse, BackupDetailResponse, user_response,
  profile_response, backup_response, detail_body, valid_register, valid_login, valid_update,
}
use mycelium_consciousness.Accounts.{RegisterRequest, LoginRequest, register, login}
use mycelium_consciousness.Home.{HomeResponse, clone_home, admin_home}
use mycelium_consciousness.Profiles.{
  ProfileUpdateRequest, current_user, read_own_profile, apply_update, load, read_profile,
  list_profiles,
}
use mycelium_consciousness.Memories.{
  MemoryWriteRequest, write_memory, stream_status, list_own_backups, read_own_backup,
  restore_own_backup, resurrect_from,
}
use mycelium_consciousness.Rollup.{RollupResult}
use mycelium_consciousness.Admin.{
  RegistryStats, list_users, list_clones, update_subscription, list_clone_backups, trigger_rollup,
  deactivate_user, registry_stats,
}

pub data Body : Type 0 where
  user : UserResponse → Body
  users : List UserResponse → Body
  token : TokenResponse → Body
  home : HomeResponse → Body
  profile : ProfileResponse → Body
  profiles : List ProfileResponse → Body
  backups : List BackupResponse → Body
  backup : BackupDetailResponse → Body
  rollup : RollupResult → Body
  stats : RegistryStats → Body
  buffered_entries : ℕ → Body
  recorded healthy : Body
  detail : Text → Body
  -- {"detail": "Internal server error", "error_id": …}, with the number of the uuid4 call
  internal_error : (error_id : ℕ) → Body
  -- Starlette's page with the traceback
  debug_page : Error → Body

pub record Response : Type 0 where
  pub status_code : ℕ
  pub body : Body

-- The endpoints for everyone.
pub data Public : Type 0 where
  register_account : RegisterRequest → Public
  log_in : LoginRequest → Public
  health_check : Public

-- The endpoints for any account.
pub data ForUser : Type 0 where
  read_current_user list_own_profiles : ForUser
  read_profile_of : ℕ → ForUser
  update_profile_of : ℕ → ProfileUpdateRequest → ForUser

-- The endpoints for accounts with the role CLONE.
pub data ForClone : Type 0 where
  clone_console read_profile_me status_me : ForClone
  update_profile_me : ProfileUpdateRequest → ForClone
  write_me : MemoryWriteRequest → ForClone
  backups_me : (limit : ℕ) → ForClone
  backup_me restore_me : (backup_id : ℕ) → ForClone
  resurrect_me : (source_profile_id : ℕ) → ForClone

-- The endpoints for administrators.
pub data ForAdmin : Type 0 where
  operator_console stats_all : ForAdmin
  users_all clones_all : (limit : ℕ) → ForAdmin
  subscribe : (profile_id : ℕ) → SubscriptionTier → ForAdmin
  backups_all : (profile_id limit : ℕ) → ForAdmin
  rollup_now : (profile_id : ℕ) → ForAdmin
  deactivate : (user_id : ℕ) → ForAdmin

-- The settings, the moment and what the libraries choose, for one request.
pub record Context (s : Services) : Type 1 where
  pub debug : Bool
  pub ttl_minutes : ℕ
  pub maxlen : ℕ
  pub now : ℕ
  pub salt : ℕ
  pub normalize : Text → Option Text
  -- the worker's answer to a rollup task
  pub answered : ℕ → Action s RollupResult

module _ {s : Services} (c : Context s) where
  unfoldable pub handle_public : Public → Action s (ℕ × Body)
  handle_public (register_account r) = do
    payload ← lift (valid_register c.normalize r)
    u ← register c.salt payload
    pure (201, user (user_response u))
  handle_public (log_in r) = do
    payload ← lift (valid_login c.normalize r)
    t ← (λ w. (login s.hasher s.jwt c.ttl_minutes c.now payload w.db, w))
    pure (200, token (record { access_token = t; token_type = codes "bearer" }))
  handle_public health_check = pure (200, healthy)

  module _ (credentials : Option Text) where
    pub handle_user : ForUser → Action s (ℕ × Body)
    handle_user read_current_user = do
      u ← current_user c.now credentials
      pure (200, user (user_response u))
    handle_user list_own_profiles = do
      ps ← list_profiles c.now credentials
      pure (200, profiles (map profile_response ps))
    handle_user (read_profile_of id) = do
      p ← read_profile c.now credentials id
      pure (200, profile (profile_response p))
    handle_user (update_profile_of id r) = do
      u ← current_user c.now credentials
      payload ← lift (valid_update r)
      p ← load id u
      q ← apply_update p payload
      pure (200, profile (profile_response q))

    unfoldable pub handle_clone : ForClone → Action s (ℕ × Body)
    handle_clone clone_console = do
      h ← (λ w. (clone_home s.jwt c.now credentials w.db, w))
      pure (200, home h)
    handle_clone read_profile_me = do
      p ← read_own_profile c.now credentials
      pure (200, profile (profile_response p))
    handle_clone status_me = do n ← stream_status c.now credentials; pure (200, buffered_entries n)
    handle_clone (update_profile_me r) = do
      p ← read_own_profile c.now credentials
      payload ← lift (valid_update r)
      q ← apply_update p payload
      pure (200, profile (profile_response q))
    handle_clone (write_me r) = do write_memory c.maxlen c.now credentials r; pure (202, recorded)
    handle_clone (backups_me limit) = do
      bs ← list_own_backups c.now credentials limit
      pure (200, backups (map backup_response bs))
    handle_clone (backup_me id) = do
      d ← read_own_backup c.now credentials id
      pure (200, backup (detail_body d))
    handle_clone (restore_me id) = do
      d ← restore_own_backup c.now credentials id
      pure (200, backup (detail_body d))
    handle_clone (resurrect_me id) = do
      d ← resurrect_from c.now credentials id
      pure (201, backup (detail_body d))

    pub handle_admin : ForAdmin → Action s (ℕ × Body)
    handle_admin operator_console = do
      h ← (λ w. (admin_home s.jwt c.now credentials w.db, w))
      pure (200, home h)
    handle_admin stats_all = do n ← registry_stats c.now credentials; pure (200, stats n)
    handle_admin (users_all limit) = do
      us ← list_users c.now credentials limit
      pure (200, users (map user_response us))
    handle_admin (clones_all limit) = do
      ps ← list_clones c.now credentials limit
      pure (200, profiles (map profile_response ps))
    handle_admin (subscribe id tier) = do
      p ← update_subscription c.now credentials id tier
      pure (200, profile (profile_response p))
    handle_admin (backups_all id limit) = do
      bs ← list_clone_backups c.now credentials id limit
      pure (200, backups (map backup_response bs))
    handle_admin (rollup_now id) = do
      r ← trigger_rollup c.now credentials id c.answered
      pure (200, rollup r)
    handle_admin (deactivate id) = do
      u ← deactivate_user c.now credentials id
      pure (200, user (user_response u))

  -- What the server sends for the outcome of a handler; `unhandled_exception_handler` is installed
  -- unless DEBUG is on.
  unfoldable pub respond : Result (ℕ × Body) × World s → Response × World s
  respond (ok (code, b), w) = (record { status_code = code; body = b }, w)
  respond (err (http code text), w) = (record { status_code = code; body = detail text }, w)
  respond (err e, w) = if c.debug then (record { status_code = 500; body = debug_page e }, w) else (
    record { status_code = 500; body = internal_error w.uuid_calls },
    record w { uuid_calls = suc w.uuid_calls },
  )

pub data Request : Type 0 where
  public : Public → Request
  for_user : Option Text → ForUser → Request
  for_clone : Option Text → ForClone → Request
  for_admin : Option Text → ForAdmin → Request

module _ {s : Services} (c : Context s) where
  abbrev pub handler : Request → Action s (ℕ × Body)
  handler (public r) = handle_public c r
  handler (for_user credentials r) = handle_user c credentials r
  handler (for_clone credentials r) = handle_clone c credentials r
  handler (for_admin credentials r) = handle_admin c credentials r

  unfoldable pub handle : Request → World s → Response × World s
  handle r w = respond c (handler r w)

-- `lifespan`, up to the `yield`: the process serves requests only if this returns.
module _ {s : Services} where
  pub lifespan : (allowed : Bool) → (secret : Text) → Action s (Unit {0})
  lifespan allowed secret = do lift (validate_jwt_secret allowed secret); ensure_bucket

-- `docs_url`, `redoc_url` and `openapi_url`
documentation : (is_production : Bool) → Option (List Text)
documentation is_production =
    if is_production
    then none
    else some (codes "/docs" ∷ codes "/redoc" ∷ codes "/openapi.json" ∷ [])
