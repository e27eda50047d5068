-- ===== src/Subscriptions.antt =====
-- shared/src/shared/roles.py and shared/src/shared/subscriptions.py
use mycelium_consciousness.Prelude.{ℕ, ◌*◌, Text, codes, Option, none, some}

pub data UserRole : Type 0 where
  admin clone : UserRole

-- The member's value, as `UserRole` is a StrEnum.
unfoldable pub role_value : UserRole → Text
role_value admin = codes "admin"
role_value clone = codes "clone"

pub data SubscriptionTier : Type 0 where
  free standard premium : SubscriptionTier

pub record BackupPolicy : Type 0 where
  pub interval_days : ℕ
  pub retain_count : ℕ

-- Microseconds in a second and in a day.
abbrev pub second : ℕ
second = 1000000

abbrev day : ℕ
day = 86400000000

-- `BackupPolicy.interval`, in microseconds; the override is in seconds.
unfoldable pub interval : (override : Option ℕ) → BackupPolicy → ℕ
interval none policy = policy.interval_days * day
interval (some seconds) policy = seconds * second

-- BACKUP_POLICIES, the dict that `policy_for` reads.
unfoldable pub policy_for : SubscriptionTier → BackupPolicy
policy_for free = record { interval_days = 30; retain_count = 1 }
policy_for standard = record { interval_days = 7; retain_count = 4 }
policy_for premium = record { interval_days = 1; retain_count = 30 }
