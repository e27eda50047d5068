-- ===== src/Accounts.antt =====
-- services/api/src/api/routers/auth.py and services/api/src/api/seed_admin.py. What argon2 takes in
-- time, which the dummy hash evens out, is outside the model. `salt` is the hasher's.
pub mod Register
pub mod Login
pub mod SeedAdmin
use mycelium_consciousness.Prelude.{
  ℕ, ◌+◌, Text, codes, Bool, true, false, List, [], ◌∷◌, ◌++◌, Option, none, some, find, update,
  any, lower, text_eq, ◌==◌, if◌then◌else◌, ltb, length,
}
use mycelium_consciousness.Effects.{
  Error, http, system_exit, integrity_error, database_error, Result, ok, err, pure, raise, gets,
  lift, attempt, ◌>>=◌, ◌>>◌,
}
use mycelium_consciousness.Services.{Services, Hasher, Jwt}
use mycelium_consciousness.Subscriptions.{UserRole, admin, clone, free}
use mycelium_consciousness.Models.{User, CloneProfile, active_status}
use mycelium_consciousness.Database.{Db, World, Action, commit, get_user}
use mycelium_consciousness.Auth.{hash_password, verify_password, create_access_token}
use mycelium_consciousness.Deps.{or_error}

pub record RegisterRequest : Type 0 where
  pub email : Text
  pub password : Text
  pub designation : Text

pub record LoginRequest : Type 0 where
  pub email : Text
  pub password : Text

abbrev pub invalid_credentials : Error
invalid_credentials = http 401 (codes "Incorrect email or password")

abbrev deactivated : Error
deactivated = http 403 (codes "Account is deactivated")

abbrev pub already_registered : Error
already_registered = http 409 (codes "Email or designation already registered")

-- The User of `register`; the columns that it does not set have the models' defaults.
unfoldable pub new_user : Hasher → (salt : ℕ) → RegisterRequest → (id created : ℕ) → User
new_user hasher salt payload id created = record {
  id = id;
  email = lower payload.email;
  password_hash = hash_password hasher salt payload.password;
  role = clone;
  is_active = true;
  created_at = created;
}

unfoldable pub new_profile : RegisterRequest → (id user_id created : ℕ) → CloneProfile
new_profile payload id user_id created = record {
  id = id;
  designation = payload.designation;
  status = active_status;
  subscription_tier = free;
  user_id = some user_id;
  created_at = created;
}

-- INSERT of the account and of its profile.
unfoldable pub insert_account : (ℕ → ℕ → User) → (ℕ → ℕ → ℕ → CloneProfile) → Db → Result Db
insert_account user profile db = ok (record db {
  users = db.users ++ user db.user_seq db.server_now ∷ [];
  profiles = db.profiles ++ profile db.profile_seq db.user_seq db.server_now ∷ [];
  user_seq = db.user_seq + 1;
  profile_seq = db.profile_seq + 1;
})

-- `except IntegrityError: rollback; raise HTTPException(409, …)`
abbrev pub conflict : {s : Services} → Error → Error → Action s (Unit {0})
conflict answer integrity_error = raise answer
conflict answer e = raise e

module _ {s : Services} where
  unfoldable pub register : (salt : ℕ) → RegisterRequest → Action s User
  unfolding insert_account
  register salt payload = do
    id ← gets (λ w. w.db.user_seq)
    attempt (commit (insert_account (new_user s.hasher salt payload) (new_profile payload)))
        (conflict already_registered)
    found ← gets (λ w. get_user id w.db)
    lift (or_error database_error found)

unfoldable pub by_email : Text → Db → Option User
by_email email db = find (λ u. text_eq u.email (lower email)) db.users

-- `login`, from the loaded row on; the token is the response.
abbrev login_as : Hasher → Jwt → (ttl_minutes now : ℕ) → LoginRequest → Option User → Result Text
login_as hasher jwt ttl_minutes now payload none = err invalid_credentials
login_as hasher jwt ttl_minutes now payload (some user) =
    if verify_password hasher payload.password user.password_hash
    then (if user.is_active
        then ok (create_access_token jwt ttl_minutes now user.id user.role)
        else err deactivated)
    else err invalid_credentials

unfoldable pub login : Hasher → Jwt → (ttl_minutes now : ℕ) → LoginRequest → Db → Result Text
unfolding by_email
login hasher jwt ttl_minutes now payload db =
    login_as hasher jwt ttl_minutes now payload (by_email payload.email db)

pub seeded : Hasher → (salt : ℕ) → (email password : Text) → (id created : ℕ) → User
seeded hasher salt email password id created = record {
  id = id;
  email = lower email;
  password_hash = hash_password hasher salt password;
  role = admin;
  is_active = true;
  created_at = created;
}

abbrev promote : Hasher → ℕ → Text → User → User
promote hasher salt password u = record u {
  role = admin;
  password_hash = hash_password hasher salt password;
  is_active = true;
}

-- What `seed_admin` writes for the row that it has loaded.
unfoldable pub seed_rows :
    Hasher → (salt : ℕ) → (email password : Text) → Option User → Db → Result Db
unfolding seeded
seed_rows hasher salt email password none db = ok (record db {
  users = db.users ++ seeded hasher salt email password db.user_seq db.server_now ∷ [];
  user_seq = db.user_seq + 1;
})
seed_rows hasher salt email password (some u) db =
    if any (λ v. v.id == u.id) db.users
    then ok
        (record db { users = update (λ v. v.id == u.id) (promote hasher salt password) db.users })
    else err database_error

module _ {s : Services} where
  -- The text of the outcome, which `main` prints, is left out.
  unfoldable pub seed_admin : (salt : ℕ) → (email password : Text) → Action s (Unit {0})
  seed_admin salt email password = do
    row ← gets (λ w. by_email email w.db)
    commit (seed_rows s.hasher salt email password row)

  -- `main`, over `sys.argv`. Disposing of the engine at the end leaves the world as it is.
  unfoldable pub main : (salt : ℕ) → (argv : List Text) → Action s (Unit {0})
  main salt (program ∷ email ∷ password ∷ []) =
      if ltb (length password) 8 then raise (system_exit 2) else seed_admin salt email password
  main salt argv = raise (system_exit 2)
