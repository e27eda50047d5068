-- ===== src/Models.antt =====
-- The tables of shared/src/shared/db/models.py. `updated_at` of a buffer is left out: the server
-- writes it and nothing reads it. Relationships are the foreign keys that they follow.
use mycelium_consciousness.Prelude.{
  ℕ, Text, codes, Bool, List, [], Option, none, some, ◌==◌, if◌then◌else◌,
}
use mycelium_consciousness.Effects.{Result, ok, err, decode_error}
use mycelium_consciousness.Services.{Bytes, Item, Codec}
use mycelium_consciousness.Codec.{decode_payload}
use mycelium_consciousness.Subscriptions.{UserRole, SubscriptionTier}

pub record User : Type 0 where
  pub id : ℕ
  pub email : Text
  pub password_hash : Text
  pub role : UserRole
  pub is_active : Bool
  pub created_at : ℕ

abbrev pub active_status : Text
active_status = codes "active"

pub record CloneProfile : Type 0 where
  pub id : ℕ
  pub designation : Text
  pub status : Text
  pub subscription_tier : SubscriptionTier
  pub user_id : Option ℕ
  pub created_at : ℕ

pub record MemoryBuffer : Type 0 where
  pub clone_id : ℕ
  pub payload_blob : Bytes
  pub entry_count : ℕ

-- The timestamps are instants, in microseconds, as `timestamptz` columns hold them.
pub record MemoryBackup : Type 0 where
  pub id : ℕ
  pub clone_id : ℕ
  pub period_start : ℕ
  pub period_end : ℕ
  pub entry_count : ℕ
  pub storage_key : Text
  pub subscription_tier : SubscriptionTier
  pub created_at : ℕ
  pub restored_at : Option ℕ

abbrev pub or_decode_error : Option (List Item) → Result (List Item)
or_decode_error none = err decode_error
or_decode_error (some xs) = ok xs

-- `MemoryBuffer.payload`
unfoldable pub payload : Codec → MemoryBuffer → Result (List Item)
payload c b =
    if b.entry_count == 0 then ok [] else or_decode_error (decode_payload c b.payload_blob)
