-- ===== src/Deps/Guards.antt =====
-- What a request that passes a dependency has proved, and how one that fails is answered.
use mycelium_consciousness.Prelude.{
  ℕ, Text, Bool, true, List, [], ◌∷◌, Option, none, some, ◌≡◌, ap, ◌∙◌, arith, find,
}
use mycelium_consciousness.Prelude.Integers.{natural_of}
use mycelium_consciousness.Effects.{Error, ok, err}
use mycelium_consciousness.Services.{Jwt, Claims}
use mycelium_consciousness.Subscriptions.{admin, clone}
use mycelium_consciousness.Models.{User, CloneProfile, MemoryBackup}
use mycelium_consciousness.Database.{Db, get_user, get_backup}
use mycelium_consciousness.Auth.{decode_access_token}
use mycelium_consciousness.Deps.{
  get_current_user, require_role, current_admin, current_clone, get_own_profile, own_profile,
  get_own_backup, own_backup, unauthorized, no_profile, owned_by, or_error, if_active,
}
use mycelium_consciousness.Effects.Binds.{>>?-eq-ok}

-- A request that is authenticated as a user: its token decodes to a subject that `int` reads as the
-- id of the user's row, and the account is active.
pub record IsAuthenticated (jwt : Jwt) (now : ℕ) (credentials : Option Text) (db : Db) (user : User)
    : Type 0 where
  pub token : Text
  pub claims : Claims
  pub subject : Text
  pub user_id : ℕ
  pub bears : credentials ≡ some token
  pub decodes : decode_access_token jwt now token ≡ some claims
  pub has_subject : claims.sub ≡ some subject
  pub is_id : natural_of subject ≡ some user_id
  pub is_row : get_user user_id db ≡ some user
  pub is_active : user.is_active ≡ true

pub find-satisfies {ℓ} :
    {A : Type ℓ} (p : A → Bool) (xs : List A) (x : A) → find p xs ≡ some x → p x ≡ true
find-satisfies p [] x h = cc
find-satisfies p (y ∷ xs) x h = ground (arith, find-satisfies p xs x)

pub or_error-eq-ok :
    {A : Type 0} (e : Error) (o : Option A) {a : A} → or_error e o ≡ ok a → o ≡ some a
or_error-eq-ok e none h = cc
or_error-eq-ok e (some a) h = cc

if_active-eq-ok :
    (o : Option User) (user : User)
    → if_active o ≡ ok user
    → (o ≡ some user) × (user.is_active ≡ true)
if_active-eq-ok none user h = cc
if_active-eq-ok (some u) user h = ground arith

module _ (jwt : Jwt) (now : ℕ) (credentials : Option Text) (db : Db) where
  -- Only a token that decodes, with a subject that `int` reads as the id of an
  -- active account, authenticates a request.
  pub get_current_user-IsAuthenticated :
      (user : User)
      → get_current_user jwt now credentials db ≡ ok user
      → IsAuthenticated jwt now credentials db user
  unfolding get_current_user
  get_current_user-IsAuthenticated user h =
      let (token, bears, h1) = >>?-eq-ok (or_error unauthorized credentials) _ h in
      let (claims, decodes, h2) =
        >>?-eq-ok (or_error unauthorized (decode_access_token jwt now token)) _ h1 in
      let (subject, has_subject, h3) = >>?-eq-ok (or_error unauthorized claims.sub) _ h2 in
      let (user_id, is_id, h4) = >>?-eq-ok (or_error unauthorized (natural_of subject)) _ h3 in
      let (is_row, is_active) = if_active-eq-ok (get_user user_id db) user h4 in
      record {
        token = token;
        claims = claims;
        subject = subject;
        user_id = user_id;
        bears = or_error-eq-ok unauthorized credentials bears;
        decodes = or_error-eq-ok unauthorized (decode_access_token jwt now token) decodes;
        has_subject = or_error-eq-ok unauthorized claims.sub has_subject;
        is_id = or_error-eq-ok unauthorized (natural_of subject) is_id;
        is_row = is_row;
        is_active = is_active;
      }

  -- Every request that fails to authenticate gets the same answer, 401.
  pub get_current_user-unauthorized :
      (e : Error) → get_current_user jwt now credentials db ≡ err e → e ≡ unauthorized
  unfolding get_current_user
  get_current_user-unauthorized e h = ground arith

  -- An admin endpoint serves only an authenticated account whose row has the role ADMIN.
  pub current_admin-IsAuthenticated :
      (user : User)
      → current_admin jwt now credentials db ≡ ok user
      → IsAuthenticated jwt now credentials db user × (user.role ≡ admin)
  unfolding current_admin require_role
  current_admin-IsAuthenticated user h =
      let (u, authenticated, h1) = >>?-eq-ok (get_current_user jwt now credentials db) _ h in
      let same : u ≡ user = ground arith in
      (get_current_user-IsAuthenticated user (authenticated ∙ ap ok same), ground arith)

  -- An endpoint for a clone's own profile serves only an authenticated account with the role CLONE,
  -- and hands it a profile whose owner is that account.
  own_profile_lem :
      (profile : CloneProfile)
      → own_profile jwt now credentials db ≡ ok profile
      → (user : User) × IsAuthenticated jwt now credentials db user
        × (user.role ≡ clone)
        × (profile.user_id ≡ some user.id)
  unfolding own_profile current_clone require_role get_own_profile
  own_profile_lem profile h =
      let (user, is_clone, h1) = >>?-eq-ok (current_clone jwt now credentials db) _ h in
      let (u, authenticated, h2) = >>?-eq-ok (get_current_user jwt now credentials db) _ is_clone in
      let same : u ≡ user = ground arith in
      let found = or_error-eq-ok no_profile (find (owned_by user.id) db.profiles) h1 in
      let mine = find-satisfies (owned_by user.id) db.profiles profile found in
      (
        user,
        get_current_user-IsAuthenticated user (authenticated ∙ ap ok same),
        ground arith,
        ground arith,
      )

  -- A backup endpoint serves only the backup of the id that was asked for, and only if it is one
  -- of the caller's own profile.
  pub own_backup_lem :
      (backup_id : ℕ) (b : MemoryBackup)
      → own_backup backup_id jwt now credentials db ≡ ok b
      → (profile : CloneProfile) × (own_profile jwt now credentials db ≡ ok profile)
        × (b.clone_id ≡ profile.id)
        × (get_backup backup_id db ≡ some b)
  unfolding own_backup get_own_backup
  own_backup_lem backup_id b h =
      let (profile, mine, h1) = >>?-eq-ok (own_profile jwt now credentials db) _ h in
      (profile, mine, ground arith, ground arith)
