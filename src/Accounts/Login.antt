-- ===== src/Accounts/Login.antt =====
-- Logging in, and the requests that the token then authenticates.
use mycelium_consciousness.Prelude.{
  ℕ, ◌+◌, ◌*◌, ◌≤◌, ◌<◌, Text, true, false, Option, none, some, ◌≡◌, ◌⊎◌, inl, inr, refl, arith,
  lower, text_eq, map,
}
use mycelium_consciousness.Prelude.Integers.{natural_of-str_of}
use mycelium_consciousness.Effects.{ok, err}
use mycelium_consciousness.Services.{Hasher, Jwt}
use mycelium_consciousness.Services.Laws.{JwtLaws}
use mycelium_consciousness.Subscriptions.{second}
use mycelium_consciousness.Models.{User}
use mycelium_consciousness.Database.{Db, get_user, distinct}
use mycelium_consciousness.Database.Unique.{find-by_key}
use mycelium_consciousness.Auth.{
  claims_for, create_access_token, decode_access_token, timestamp, verify_password,
}
use mycelium_consciousness.Deps.{get_current_user, unauthorized}
use mycelium_consciousness.Accounts.{LoginRequest, login, login_as, by_email, invalid_credentials}

module _ (hasher : Hasher) (jwt : Jwt) (ttl now : ℕ) (payload : LoginRequest) (db : Db) where
  -- The account that a login is for: its email, password and state admit the request.
  pub record IsAdmitted (user : User) : Type 0 where
    pub found : by_email payload.email db ≡ some user
    pub password : verify_password hasher payload.password user.password_hash ≡ true
    pub active : user.is_active ≡ true

  of_row :
      (row : Option User) (token : Text)
      → login_as hasher jwt ttl now payload row ≡ ok token
      → (user : User) × (row ≡ some user)
        × (verify_password hasher payload.password user.password_hash ≡ true)
        × (user.is_active ≡ true)
        × (token ≡ create_access_token jwt ttl now user.id user.role)
  of_row none token h = cc
  of_row (some user) token h = (user, refl, ground arith, ground arith, ground arith)

  -- A login that succeeds is for an active account with the email and the password.
  login-IsAdmitted :
      (token : Text)
      → login hasher jwt ttl now payload db ≡ ok token
      → (user : User) × IsAdmitted user
        × (token ≡ create_access_token jwt ttl now user.id user.role)
  unfolding login
  login-IsAdmitted token h =
      let (user, found, password, active, made) = of_row (by_email payload.email db) token h in
      (user, record { found = found; password = password; active = active }, made)

  -- An unknown email, and a wrong password for a known one, are answered alike.
  login_uniform :
      (row : Option User)
      → by_email payload.email db ≡ row
      → (row ≡ none)
        ⊎ ((user : User) × (row ≡ some user)
            × (verify_password hasher payload.password user.password_hash ≡ false))
      → login hasher jwt ttl now payload db ≡ err invalid_credentials
  unfolding login
  login_uniform row found (inl unknown) = rw (found, unknown) refl
  login_uniform row found (inr (user, known, wrong)) = rw (found, known, wrong) refl

  timestamp-le : (t u : ℕ) → t ≤ u → timestamp t ≤ timestamp u
  timestamp-le t u h = omega arith

  -- The token of an account authenticates it until it expires.
  pub created_token_lem :
      (user : User) (later : ℕ)
      → JwtLaws jwt
      → distinct (map (λ u. u.id) db.users) ≡ true
      → IsAdmitted user
      → now ≤ later
      → timestamp later < timestamp (now + ttl * 60 * second)
      → get_current_user jwt later (some (create_access_token jwt ttl now user.id user.role)) db
        ≡ ok user
  unfolding get_current_user decode_access_token create_access_token claims_for by_email
  created_token_lem user later laws unique admitted since early =
      let decodes =
        laws.decode-encode (timestamp later) (claims_for ttl now user.id user.role)
          (timestamp-le now later since) early in
      let row : get_user user.id db ≡ some user =
        find-by_key (λ u. u.id) (λ u. text_eq u.email (lower payload.email)) db.users user unique
          admitted.found in
      rw (decodes, natural_of-str_of user.id, row, admitted.active) refl

  -- Once it has expired, the token authenticates nobody.
  login_expired :
      (token : Text) (later : ℕ)
      → JwtLaws jwt
      → login hasher jwt ttl now payload db ≡ ok token
      → timestamp (now + ttl * 60 * second) ≤ timestamp later
      → (db' : Db) → get_current_user jwt later (some token) db' ≡ err unauthorized
  unfolding get_current_user decode_access_token create_access_token claims_for
  login_expired token later laws h late db' =
      let (user, admitted, made) = login-IsAdmitted token h in
      rw (made, laws.decode_expired (timestamp later) (claims_for ttl now user.id user.role) late)
        refl
