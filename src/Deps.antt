-- ===== src/Deps.antt =====
-- services/api/src/api/deps.py: the dependencies that FastAPI resolves before a handler runs. They
-- only read the tables, so each is a function of them.
pub mod Guards
use mycelium_consciousness.Prelude.{
  ℕ, Text, codes, Bool, true, false, not, ◌||◌, List, [], ◌∷◌, Option, none, some, any, find, ◌==◌,
  if◌then◌else◌,
}
use mycelium_consciousness.Prelude.Integers.{natural_of}
use mycelium_consciousness.Effects.{Error, http, Result, ok, err, ◌>>?◌}
use mycelium_consciousness.Services.{Jwt, Claims}
use mycelium_consciousness.Subscriptions.{UserRole, admin, clone}
use mycelium_consciousness.Models.{User, CloneProfile, MemoryBackup}
use mycelium_consciousness.Database.{Db, get_user, get_backup}
use mycelium_consciousness.Auth.{decode_access_token}

abbrev pub unauthorized : Error
unauthorized = http 401 (codes "Not authenticated")

abbrev pub forbidden : Error
forbidden = http 403 (codes "Insufficient privileges")

abbrev pub no_profile : Error
no_profile = http 404 (codes "No clone profile linked to this account")

abbrev pub not_found : Error
not_found = http 404 (codes "Not found")

abbrev pub or_error {ℓ} : {A : Type ℓ} → Error → Option A → Result A
or_error e none = err e
or_error e (some a) = ok a

abbrev pub same_role : UserRole → UserRole → Bool
same_role admin admin = true
same_role clone clone = true
same_role _ _ = false

-- `if user is None or not user.is_active`
abbrev if_active : Option User → Result User
if_active none = err unauthorized
if_active (some u) = if u.is_active then ok u else err unauthorized

-- `credentials` is the bearer token of the request, if it has one; `now` is an instant.
-- The query finds no row for a number below 0.
unfoldable pub get_current_user : Jwt → (now : ℕ) → (credentials : Option Text) → Db → Result User
get_current_user jwt now credentials db = or_error unauthorized credentials >>? λ token.
    or_error unauthorized (decode_access_token jwt now token) >>? λ payload.
    or_error unauthorized payload.sub >>? λ subject.
    or_error unauthorized (natural_of subject) >>? λ user_id. if_active (get_user user_id db)

unfoldable pub require_role : List UserRole → User → Result User
require_role roles user = if any (same_role user.role) roles then ok user else err forbidden

-- CurrentAdmin and CurrentClone
unfoldable pub current_admin : Jwt → ℕ → Option Text → Db → Result User
unfolding get_current_user require_role
current_admin jwt now credentials db =
    get_current_user jwt now credentials db >>? require_role (admin ∷ [])

unfoldable pub current_clone : Jwt → ℕ → Option Text → Db → Result User
unfolding get_current_user require_role
current_clone jwt now credentials db =
    get_current_user jwt now credentials db >>? require_role (clone ∷ [])

abbrev pub owned_by : ℕ → CloneProfile → Bool
owned_by user_id p = elim p.user_id [ none ↦ false | some u ↦ u == user_id ]

-- `user.profile`, the profile whose foreign key is the user's id.
unfoldable pub get_own_profile : User → Db → Result CloneProfile
get_own_profile user db = or_error no_profile (find (owned_by user.id) db.profiles)

-- OwnProfile
unfoldable pub own_profile : Jwt → ℕ → Option Text → Db → Result CloneProfile
unfolding current_clone get_own_profile
own_profile jwt now credentials db =
    current_clone jwt now credentials db >>? λ user. get_own_profile user db

-- `if backup is None or backup.clone_id != profile.id`
abbrev if_of : ℕ → Option MemoryBackup → Result MemoryBackup
if_of c none = err not_found
if_of c (some b) = if b.clone_id == c then ok b else err not_found

pub get_own_backup : (backup_id : ℕ) → CloneProfile → Db → Result MemoryBackup
get_own_backup backup_id profile db = if_of profile.id (get_backup backup_id db)

-- OwnBackup
unfoldable pub own_backup : (backup_id : ℕ) → Jwt → ℕ → Option Text → Db → Result MemoryBackup
unfolding own_profile get_own_backup
own_backup backup_id jwt now credentials db =
    own_profile jwt now credentials db >>? λ profile. get_own_backup backup_id profile db
