-- ===== src/Admin.antt =====
-- services/api/src/api/routers/admin.py, and the worker's task behind `trigger_rollup`.
pub mod Accounts
use mycelium_consciousness.Prelude.{
  ℕ, Text, codes, Bool, true, false, List, [], ◌∷◌, Option, none, some, any, length, take, update,
  ◌==◌, leb, if◌then◌else◌,
}
use mycelium_consciousness.Effects.{
  Error, http, database_error, timeout_error, Result, ok, err, Exec, pure, raise, gets, lift,
  attempt, ◌>>=◌, ◌>>◌, ◌>>?◌,
}
use mycelium_consciousness.Services.{Services}
use mycelium_consciousness.Subscriptions.{SubscriptionTier}
use mycelium_consciousness.Models.{User, CloneProfile, MemoryBackup}
use mycelium_consciousness.Database.{Db, World, Action, commit, get_user, get_profile}
use mycelium_consciousness.Deps.{current_admin, not_found, or_error}
use mycelium_consciousness.Profiles.{update_profile_row, by_id}
use mycelium_consciousness.Memories.{listed_backups, valid_limit}
use mycelium_consciousness.Rollup.{RollupResult, rollup_clone}
use mycelium_consciousness.Rollup

abbrev pub own_account : Error
own_account = http 400 (codes "Cannot deactivate your own account")

abbrev rollup_timeout : Error
rollup_timeout = http 504 (codes "Rollup did not complete in time")

-- ORDER BY id
insert_user_by_id : User → List User → List User
insert_user_by_id u [] = u ∷ []
insert_user_by_id u (v ∷ vs) = if leb u.id v.id then u ∷ v ∷ vs else v ∷ insert_user_by_id u vs

pub users_by_id : List User → List User
unfolding insert_user_by_id
users_by_id [] = []
users_by_id (u ∷ us) = insert_user_by_id u (users_by_id us)

-- UPDATE of a user that the session has loaded.
unfoldable pub update_user_row : ℕ → (User → User) → Db → Result Db
update_user_row c f db =
    if any (λ u. u.id == c) db.users
    then ok (record db { users = update (λ u. u.id == c) f db.users })
    else err database_error

pub record RegistryStats : Type 0 where
  pub users : ℕ
  pub clones : ℕ
  pub backups : ℕ

module _ {s : Services} where
  -- The dependency CurrentAdmin.
  unfoldable pub admin_user : (now : ℕ) → Option Text → Action s User
  admin_user now credentials w = (current_admin s.jwt now credentials w.db, w)

  unfoldable pub load_profile : ℕ → Action s CloneProfile
  load_profile profile_id w = (or_error not_found (get_profile profile_id w.db), w)

  unfoldable pub load_user : ℕ → Action s User
  load_user user_id w = (or_error not_found (get_user user_id w.db), w)

  unfoldable pub list_users : (now : ℕ) → Option Text → (limit : ℕ) → Action s (List User)
  list_users now credentials limit = do
    admin_user now credentials
    n ← lift (valid_limit 500 limit)
    gets (λ w. take n (users_by_id w.db.users))

  unfoldable pub list_clones : (now : ℕ) → Option Text → (limit : ℕ) → Action s (List CloneProfile)
  list_clones now credentials limit = do
    admin_user now credentials
    n ← lift (valid_limit 500 limit)
    gets (λ w. take n (by_id w.db.profiles))

  unfoldable pub update_subscription :
      (now : ℕ) → Option Text → (profile_id : ℕ) → SubscriptionTier → Action s CloneProfile
  update_subscription now credentials profile_id tier = do
    admin_user now credentials
    profile ← load_profile profile_id
    commit (update_profile_row profile.id (λ p. record p { subscription_tier = tier }))
    row ← gets (λ w. get_profile profile.id w.db)
    lift (or_error database_error row)

  unfoldable pub list_clone_backups :
      (now : ℕ) → Option Text → (profile_id limit : ℕ) → Action s (List MemoryBackup)
  list_clone_backups now credentials profile_id limit = do
    admin_user now credentials
    n ← lift (valid_limit 200 limit)
    gets (λ w. listed_backups profile_id n w.db)

  -- `force_rollup_clone` of services/celery/src/celery_worker/tasks/memory.py
  abbrev rollup_found : (now : ℕ) → ℕ → Option CloneProfile → Action s RollupResult
  rollup_found now clone_id none =
      pure (record { clone_id = clone_id; status = Rollup.not_found; entry_count = 0 })
  rollup_found now clone_id (some clone) = rollup_clone clone now

  pub force_rollup_clone : (now : ℕ) → ℕ → Action s RollupResult
  force_rollup_clone now clone_id = do
    row ← gets (λ w. get_profile clone_id w.db)
    rollup_found now clone_id row

  abbrev or_timeout : Error → Action s RollupResult
  or_timeout timeout_error = raise rollup_timeout
  or_timeout e = raise e

  -- `answered` is the worker's answer as the broker hands it back within the time, if it does.
  unfoldable pub trigger_rollup :
      (now : ℕ)
      → Option Text
      → (profile_id : ℕ) → (answered : ℕ → Action s RollupResult) → Action s RollupResult
  trigger_rollup now credentials profile_id answered = do
    admin_user now credentials
    load_profile profile_id
    attempt (answered profile_id) or_timeout

  unfoldable pub deactivate_user : (now : ℕ) → Option Text → (user_id : ℕ) → Action s User
  deactivate_user now credentials user_id = do
    admin ← admin_user now credentials
    if user_id == admin.id then raise own_account else pure tt
    user ← load_user user_id
    commit (update_user_row user.id (λ u. record u { is_active = false }))
    row ← gets (λ w. get_user user.id w.db)
    lift (or_error database_error row)

  unfoldable pub registry_stats : (now : ℕ) → Option Text → Action s RegistryStats
  registry_stats now credentials = do
    admin_user now credentials
    gets (λ w. record {
      users = length w.db.users;
      clones = length w.db.profiles;
      backups = length w.db.backups;
    })
