-- ===== src/Effects.antt =====
-- Exceptions as values, and coroutines as actions on a state. What an action wrote before it
-- raised stays written, so the state comes back beside the error too.
pub mod Stays
pub mod Binds
use mycelium_consciousness.Prelude.{ℕ, Text}

-- `http` is FastAPI's HTTPException and `client_error` botocore's ClientError; the rest are the exceptions of the libraries and of Python.
pub data Error : Type 0 where
  http : (status_code : ℕ) (detail : Text) → Error
  client_error : (code : Text) → Error
  redis_error storage_error database_error integrity_error : Error
  broker_error decode_error value_error key_error overflow_error timeout_error runtime_error : Error
  insecure_secret configuration_error : Error
  system_exit : (code : ℕ) → Error

pub data Result {ℓ} (A : Type ℓ) : Type ℓ where
  ok : A → Result A
  err : Error → Result A

abbrev pub Exec : Type 0 → Type 0 → Type 0
Exec W A = W → Result A × W

module _ {W A : Type 0} where
  abbrev pub pure : A → Exec W A
  pure a w = (ok a, w)

  abbrev pub raise : Error → Exec W A
  raise e w = (err e, w)

  abbrev pub gets : (W → A) → Exec W A
  gets f w = (ok (f w), w)

  -- A pure computation that may raise.
  abbrev pub lift : Result A → Exec W A
  lift r w = (r, w)

module _ {W A B : Type 0} where
  abbrev pub continue : Result A → (A → Exec W B) → Exec W B
  continue (ok a) f w = f a w
  continue (err e) f w = (err e, w)

  infixl 5 ◌>>=◌ ◌>>◌
  abbrev pub ◌>>=◌ : Exec W A → (A → Exec W B) → Exec W B
  ◌>>=◌ m f w = let (r, w') = m w in continue r f w'

  abbrev pub ◌>>◌ : Exec W A → Exec W B → Exec W B
  m >> n = m >>= λ _. n

module _ {W A : Type 0} where
  abbrev pub handle : Result A → (Error → Exec W A) → Exec W A
  handle (ok a) h w = (ok a, w)
  handle (err e) h w = h e w

  -- `try: … except Exception: …`
  abbrev pub attempt : Exec W A → (Error → Exec W A) → Exec W A
  attempt m h w = let (r, w') = m w in handle r h w'

infixl 5 ◌>>?◌
abbrev pub ◌>>?◌ : {A B : Type 0} → Result A → (A → Result B) → Result B
ok a >>? f = f a
err e >>? f = err e
