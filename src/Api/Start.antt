-- ===== src/Api/Start.antt =====
-- When the API begins to serve.
use mycelium_consciousness.Prelude.{Text, Bool, true, false, ◌≤◌, ◌≡◌, ◌⊎◌, refl, length}
use mycelium_consciousness.Effects.{Result, ok, err}
use mycelium_consciousness.Effects.Binds.{lift-ends}
use mycelium_consciousness.Services.{Services}
use mycelium_consciousness.Services.Laws.{BucketSetupLaws}
use mycelium_consciousness.Database.{World}
use mycelium_consciousness.Auth.{is_known_insecure, min_secret_length, validate_jwt_secret}
use mycelium_consciousness.Auth.Secrets.{validate_jwt_secret_iff}
use mycelium_consciousness.Storage.{ensure_bucket}
use mycelium_consciousness.Storage.Calls.{SameTables}
use mycelium_consciousness.Storage.Setup.{Ensures, ensure_bucket-Ensures}
use mycelium_consciousness.Api.{lifespan}

module _ {s : Services} (laws : BucketSetupLaws s.bucket) (allowed : Bool) (secret : Text)
    (w : World s) where
  -- The key is allowed and the bucket is there, or an exception has been raised.
  abbrev pub Starts : Result (Unit {0}) × World s → Type 0
  Starts (ok _, w') =
      ((allowed ≡ true)
        ⊎ ((is_known_insecure secret ≡ false) × (min_secret_length ≤ length secret)))
      × (laws.exists w'.bucket ≡ true)
      × SameTables w w'
  Starts (err _, w') = SameTables w w'

  ensured :
      (q : Result (Unit {0}) × World s)
      → validate_jwt_secret allowed secret ≡ ok tt
      → Ensures laws w q
      → Starts q
  ensured (ok u, w') h (e, same) = ((validate_jwt_secret_iff allowed secret).0 h, e, same)
  ensured (err x, w') h same = same

  -- Whatever the bucket answers, the start changes neither tables nor streams; and it succeeds only
  -- where the signing key is safe or the override is set, and leaves a bucket that is there.
  pub lifespan-Starts : Starts (lifespan allowed secret w)
  unfolding lifespan
  lifespan-Starts =
      lift-ends Starts (λ _. ensure_bucket) (validate_jwt_secret allowed secret) w
        (λ x h. (refl, refl, refl))
        (λ u h. ensured (ensure_bucket w) h (ensure_bucket-Ensures laws w))
