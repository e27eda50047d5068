-- ===== src/Profiles.antt =====
-- services/api/src/api/routers/profiles.py. Each endpoint is an action from the request's
-- credentials on: `session` says what identifies the caller.
pub mod Access
use mycelium_consciousness.Prelude.{
  ℕ, Text, codes, Bool, true, false, List, [], ◌∷◌, Option, none, some, any, find, select, update,
  ◌==◌, leb, if◌then◌else◌,
}
use mycelium_consciousness.Effects.{
  Error, http, database_error, Result, ok, err, Exec, pure, raise, gets, lift, attempt, ◌>>=◌, ◌>>◌,
  ◌>>?◌,
}
use mycelium_consciousness.Services.{Services}
use mycelium_consciousness.Subscriptions.{UserRole, admin, clone}
use mycelium_consciousness.Models.{User, CloneProfile}
use mycelium_consciousness.Database.{Db, World, Action, commit, get_profile}
use mycelium_consciousness.Deps.{
  get_current_user, own_profile, not_found, or_error, owned_by, same_role,
}
use mycelium_consciousness.Accounts.{conflict}

pub record ProfileUpdateRequest : Type 0 where
  pub designation : Option Text
  pub status : Option Text

abbrev not_owner : Error
not_owner = http 403 (codes "You do not own this profile")

abbrev pub designation_taken : Error
designation_taken = http 409 (codes "Designation already taken")

-- `_assert_can_access`
pub assert_can_access : CloneProfile → User → Result (Unit {0})
assert_can_access profile user =
    if same_role user.role admin
    then ok tt
    else if owned_by user.id profile
    then ok tt
    else err not_owner

abbrev or_old : Text → Option Text → Text
or_old old none = old
or_old old (some new) = new

-- The two assignments of `_apply_update`.
pub updated : ProfileUpdateRequest → CloneProfile → CloneProfile
updated payload p = record p {
  designation = or_old p.designation payload.designation;
  status = or_old p.status payload.status;
}

-- UPDATE of a profile that the session has loaded; a row that has gone is a StaleDataError.
unfoldable pub update_profile_row : ℕ → (CloneProfile → CloneProfile) → Db → Result Db
update_profile_row c f db =
    if any (λ p. p.id == c) db.profiles
    then ok (record db { profiles = update (λ p. p.id == c) f db.profiles })
    else err database_error

pub load_accessible : (profile_id : ℕ) → User → Db → Result CloneProfile
unfolding assert_can_access
load_accessible profile_id user db = or_error not_found (get_profile profile_id db) >>? λ profile.
    assert_can_access profile user >>? λ _. ok profile

module _ {s : Services} where
  -- `_apply_update`; the refresh reads the row again.
  unfoldable pub apply_update : CloneProfile → ProfileUpdateRequest → Action s CloneProfile
  apply_update profile payload = do
    attempt (commit (update_profile_row profile.id (updated payload))) (conflict designation_taken)
    row ← gets (λ w. get_profile profile.id w.db)
    lift (or_error database_error row)

  unfoldable pub read_own_profile : (now : ℕ) → Option Text → Action s CloneProfile
  read_own_profile now credentials w = (own_profile s.jwt now credentials w.db, w)

  update_own_profile : (now : ℕ) → Option Text → ProfileUpdateRequest → Action s CloneProfile
  update_own_profile now credentials payload = do
    profile ← read_own_profile now credentials
    apply_update profile payload

  unfoldable pub current_user : (now : ℕ) → Option Text → Action s User
  current_user now credentials w = (get_current_user s.jwt now credentials w.db, w)

  unfoldable pub load : (profile_id : ℕ) → User → Action s CloneProfile
  load profile_id user w = (load_accessible profile_id user w.db, w)

  unfoldable pub read_profile : (now : ℕ) → Option Text → (profile_id : ℕ) → Action s CloneProfile
  read_profile now credentials profile_id = do
    user ← current_user now credentials
    load profile_id user

  pub update_profile :
      (now : ℕ) → Option Text → (profile_id : ℕ) → ProfileUpdateRequest → Action s CloneProfile
  update_profile now credentials profile_id payload = do
    user ← current_user now credentials
    profile ← load profile_id user
    apply_update profile payload

-- ORDER BY id
pub insert_by_id : CloneProfile → List CloneProfile → List CloneProfile
insert_by_id p [] = p ∷ []
insert_by_id p (q ∷ qs) = if leb p.id q.id then p ∷ q ∷ qs else q ∷ insert_by_id p qs

pub by_id : List CloneProfile → List CloneProfile
unfolding insert_by_id
by_id [] = []
by_id (p ∷ ps) = insert_by_id p (by_id ps)

-- The query of `list_profiles`, for a user.
pub visible_profiles : User → Db → List CloneProfile
unfolding by_id
visible_profiles user db =
    by_id (if same_role user.role admin then db.profiles else select (owned_by user.id) db.profiles)

module _ {s : Services} where
  unfoldable pub list_profiles : (now : ℕ) → Option Text → Action s (List CloneProfile)
  list_profiles now credentials = do
    user ← current_user now credentials
    gets (λ w. visible_profiles user w.db)
