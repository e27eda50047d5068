-- ===== src/Services.antt =====
-- What the program calls and does not implement: Redis streams, the S3 bucket, msgpack and gzip,
-- ISO 8601 texts, uuid4. Each is a record of operations; `Services/Laws.antt` states what the code
-- relies on. `State` is what the service holds, and a service's replies may depend on it.
pub mod Ids
pub mod Laws
use mycelium_consciousness.Prelude.{ℕ, Text, List, Option, Bool}
use mycelium_consciousness.Effects.{Result}

abbrev pub Bytes : Type 0
Bytes = List ℕ

-- The dict {"content": …, "captured_at": …} of a stream entry and of a payload.
pub record Item : Type 0 where
  pub content : Text
  pub captured_at : Text

-- An aware datetime is its instant in UTC; both count microseconds.
pub data Datetime : Type 0 where
  naive aware : ℕ → Datetime
  -- in another zone than UTC: the instant, and what the clock shows there
  aware_at : (instant wall : ℕ) → Datetime

-- redis.asyncio, as far as `shared.streams` calls it.
pub record Redis : Type 1 where
  pub State : Type 0
  -- What the stream at a key holds, oldest entry first. The program itself never sees this.
  pub entries : State → Text → List (Text × Item)
  pub xadd : Text → Item → State → Result Text × State
  pub xlen : Text → State → Result ℕ × State
  pub xrange : Text → State → Result (List (Text × Item)) × State
  pub xtrim : (key minid : Text) → State → Result (Unit {0}) × State
  pub scan_iter : (prefix : Text) → State → Result (List Text) × State

-- boto3's S3 client, as far as `shared.object_storage` calls it.
pub record Bucket : Type 1 where
  pub State : Type 0
  -- The bytes of the object at a key. The program itself never sees this.
  pub object : State → Text → Option Bytes
  pub put_object : Text → Bytes → State → Result (Unit {0}) × State
  pub get_object : Text → State → Result Bytes × State
  pub delete_object : Text → State → Result (Unit {0}) × State
  pub head_bucket : State → Result (Unit {0}) × State
  pub create_bucket : State → Result (Unit {0}) × State
  -- The pages of `list_objects_v2`; a page without keys has no "Contents".
  pub list_pages : (prefix : Text) → State → Result (List (Option (List Text))) × State

-- msgpack and gzip. `none` is an exception.
pub record Codec : Type 0 where
  pub packb : List Item → Bytes
  pub unpackb : Bytes → Option (List Item)
  pub compress : Bytes → Bytes
  pub decompress : Bytes → Option Bytes

-- `datetime.isoformat`, `datetime.fromisoformat` and the format `%Y%m%dT%H%M%S`.
pub record Iso : Type 0 where
  pub isoformat : Datetime → Text
  pub fromisoformat : Text → Option Datetime
  pub stamp : Datetime → Text

-- argon2's PasswordHasher. A hash has a random salt; a `verify` that raises gives `none`.
pub record Hasher : Type 0 where
  pub hash : (salt : ℕ) (password : Text) → Text
  pub verify : (password_hash password : Text) → Option Bool

-- The payload of an access token; another issuer's may lack "sub".
pub record Claims : Type 0 where
  pub sub : Option Text
  pub role : Text
  pub iat : ℕ
  pub exp : ℕ

-- PyJWT at one key and algorithm. `decode` takes the time, in seconds; `none` is a PyJWTError.
pub record Jwt : Type 0 where
  pub encode : Claims → Text
  pub decode : (now : ℕ) → Text → Option Claims

pub record Services : Type 1 where
  pub redis : Redis
  pub bucket : Bucket
  pub codec : Codec
  pub iso : Iso
  pub hasher : Hasher
  pub jwt : Jwt
  -- `uuid.uuid4().hex[:8]` at its n-th call
  pub uuid_hex8 : ℕ → Text
