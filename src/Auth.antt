-- ===== src/Auth.antt =====
-- shared/src/shared/auth.py and services/api/src/api/security.py
pub mod Secrets
pub mod Passwords
use mycelium_consciousness.Prelude.{
  ℕ, ◌+◌, ◌-◌, ◌*◌, ◌/◌, Text, codes, Bool, true, false, List, [], ◌∷◌, Option, none, some, any,
  length, ltb, text_eq, str_of, if◌then◌else◌,
}
use mycelium_consciousness.Effects.{Result, ok, err, insecure_secret}
use mycelium_consciousness.Services.{Hasher, Jwt, Claims}
use mycelium_consciousness.Subscriptions.{UserRole, role_value, second}

abbrev known_insecure_secrets : List Text
known_insecure_secrets =
    codes "dev-only-insecure-secret-change-me"
    ∷ codes "replace-me-with-at-least-32-random-bytes"
    ∷ codes "change-me"
    ∷ codes "changeme"
    ∷ codes "secret"
    ∷ codes "password"
    ∷ codes "test"
    ∷ []

abbrev pub min_secret_length : ℕ
min_secret_length = 32

pub is_known_insecure : Text → Bool
unfolding text_eq
is_known_insecure secret = any (text_eq secret) known_insecure_secrets

-- `validate_jwt_secret`; `allowed` is whether ALLOW_INSECURE_JWT_SECRET is "1".
pub validate_jwt_secret : (allowed : Bool) (secret : Text) → Result (Unit {0})
validate_jwt_secret allowed secret =
    if allowed
    then ok tt
    else if is_known_insecure secret
    then err insecure_secret
    else if ltb (length secret) min_secret_length
    then err insecure_secret
    else ok tt

-- Microseconds from the first year to 1970.
abbrev pub epoch : ℕ
epoch = 62135596800000000

-- `int(t.timestamp())`, for times from 1970 on.
abbrev pub timestamp : ℕ → ℕ
timestamp t = (t - epoch) / second

-- The payload of `create_access_token`.
unfoldable pub claims_for : (ttl_minutes : ℕ) → (now user_id : ℕ) → UserRole → Claims
claims_for ttl_minutes now user_id role = record {
  sub = some (str_of user_id);
  role = role_value role;
  iat = timestamp now;
  exp = timestamp (now + ttl_minutes * 60 * second);
}

unfoldable pub create_access_token : Jwt → (ttl_minutes : ℕ) → (now user_id : ℕ) → UserRole → Text
create_access_token jwt ttl_minutes now user_id role =
    jwt.encode (claims_for ttl_minutes now user_id role)

unfoldable pub decode_access_token : Jwt → (now : ℕ) → Text → Option Claims
decode_access_token jwt now token = jwt.decode (timestamp now) token

unfoldable pub hash_password : Hasher → (salt : ℕ) → Text → Text
hash_password hasher salt password = hasher.hash salt password

abbrev or_false : Option Bool → Bool
or_false none = false
or_false (some b) = b

-- `verify_password`, false where argon2 raises.
unfoldable pub verify_password : Hasher → (password password_hash : Text) → Bool
verify_password hasher password password_hash = or_false (hasher.verify password_hash password)
