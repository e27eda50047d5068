-- ===== src/Auth/Secrets.antt =====
-- The signing keys that the service starts with.
use mycelium_consciousness.Prelude.{◌≤◌, Text, Bool, true, false, ◌≡◌, ◌⊎◌, ◌↔◌, length, arith}
use mycelium_consciousness.Effects.{ok}
use mycelium_consciousness.Auth.{validate_jwt_secret, is_known_insecure, min_secret_length}

-- The service starts exactly when the override is set, or the key is none of the published ones
-- and has at least 32 characters.
pub validate_jwt_secret_iff :
    (allowed : Bool) (secret : Text)
    → (validate_jwt_secret allowed secret ≡ ok tt) ↔ (
        (allowed ≡ true)
        ⊎ ((is_known_insecure secret ≡ false) × (min_secret_length ≤ length secret)))
unfolding validate_jwt_secret
validate_jwt_secret_iff allowed secret = (λ h. ground arith, λ h. ground arith)
