-- ===== src/Schemas.antt =====
-- services/api/src/api/schemas.py: what pydantic asks of the requests' fields, and what the responses
-- show of the rows. `normalize` is `EmailStr`, of the library email-validator; `none` is a refusal.
use mycelium_consciousness.Prelude.{
  ℕ, Text, codes, Bool, ◌&&◌, List, Option, none, some, length, leb, if◌then◌else◌,
}
use mycelium_consciousness.Effects.{Error, http, Result, ok, err, ◌>>?◌}
use mycelium_consciousness.Services.{Item}
use mycelium_consciousness.Subscriptions.{UserRole, SubscriptionTier}
use mycelium_consciousness.Models.{User, CloneProfile, MemoryBackup}
use mycelium_consciousness.Accounts.{RegisterRequest, LoginRequest}
use mycelium_consciousness.Profiles.{ProfileUpdateRequest}
use mycelium_consciousness.Memories.{BackupDetail}

abbrev pub unprocessable : Error
unprocessable = http 422 (codes "Unprocessable Entity")

-- `Field(min_length=…, max_length=…)`
unfoldable pub sized : (least most : ℕ) → Text → Result Text
sized least most s = if leb least (length s) && leb (length s) most then ok s else err unprocessable

-- The same of a field that may be left out.
sized_if : (least most : ℕ) → Option Text → Result (Option Text)
unfolding sized
sized_if least most none = ok none
sized_if least most (some s) = sized least most s >>? λ t. ok (some t)

abbrev valid_email : Option Text → Result Text
valid_email none = err unprocessable
valid_email (some e) = ok e

unfoldable pub valid_register :
    (normalize : Text → Option Text) → RegisterRequest → Result RegisterRequest
unfolding sized
valid_register normalize r = valid_email (normalize r.email) >>? λ email.
    sized 8 128 r.password >>? λ password. sized 3 64 r.designation >>? λ designation.
    ok (record { email = email; password = password; designation = designation })

unfoldable pub valid_login : (normalize : Text → Option Text) → LoginRequest → Result LoginRequest
valid_login normalize r = valid_email (normalize r.email) >>? λ email.
    ok (record { email = email; password = r.password })

unfoldable pub valid_update : ProfileUpdateRequest → Result ProfileUpdateRequest
unfolding sized_if
valid_update r = sized_if 3 64 r.designation >>? λ designation.
    sized_if 1 32 r.status >>? λ status. ok (record { designation = designation; status = status })

pub record TokenResponse : Type 0 where
  pub access_token : Text
  pub token_type : Text

pub record UserResponse : Type 0 where
  pub id : ℕ
  pub email : Text
  pub role : UserRole
  pub is_active : Bool
  pub created_at : ℕ

unfoldable pub user_response : User → UserResponse
user_response u = record {
  id = u.id;
  email = u.email;
  role = u.role;
  is_active = u.is_active;
  created_at = u.created_at;
}

pub record ProfileResponse : Type 0 where
  pub id : ℕ
  pub designation : Text
  pub status : Text
  pub subscription_tier : SubscriptionTier
  pub user_id : Option ℕ
  pub created_at : ℕ

unfoldable pub profile_response : CloneProfile → ProfileResponse
profile_response p = record {
  id = p.id;
  designation = p.designation;
  status = p.status;
  subscription_tier = p.subscription_tier;
  user_id = p.user_id;
  created_at = p.created_at;
}

pub record BackupResponse : Type 0 where
  pub id : ℕ
  pub clone_id : ℕ
  pub period_start : ℕ
  pub period_end : ℕ
  pub entry_count : ℕ
  pub created_at : ℕ
  pub restored_at : Option ℕ

pub backup_response : MemoryBackup → BackupResponse
backup_response b = record {
  id = b.id;
  clone_id = b.clone_id;
  period_start = b.period_start;
  period_end = b.period_end;
  entry_count = b.entry_count;
  created_at = b.created_at;
  restored_at = b.restored_at;
}

pub record BackupDetailResponse : Type 0 where
  pub backup : BackupResponse
  pub payload : List Item

unfoldable pub detail_body : BackupDetail → BackupDetailResponse
unfolding backup_response
detail_body d = record { backup = backup_response d.backup; payload = d.payload }
