-- ===== src/Auth/Passwords.antt =====
-- Passwords and their hashes.
use mycelium_consciousness.Prelude.{ℕ, Text, true, false, ◌≡◌, ◌≢◌, arith}
use mycelium_consciousness.Services.{Hasher}
use mycelium_consciousness.Services.Laws.{HasherLaws}
use mycelium_consciousness.Auth.{hash_password, verify_password}

module _ (h : Hasher) (laws : HasherLaws h) where
  -- A stored hash accepts the password that it was made of, and refuses any other.
  pub verify_password-hash :
      (salt : ℕ) (p : Text) → verify_password h p (hash_password h salt p) ≡ true
  unfolding verify_password hash_password
  verify_password-hash salt p = ground (arith, laws.verify-hash salt p)

  verify_password-hash_ne :
      (salt : ℕ) (p q : Text) → p ≢ q → verify_password h q (hash_password h salt p) ≡ false
  unfolding verify_password hash_password
  verify_password-hash_ne salt p q ne = ground (arith, laws.verify-hash_ne salt p q ne)
