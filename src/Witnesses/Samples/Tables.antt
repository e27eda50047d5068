-- ===== src/Witnesses/Samples/Tables.antt =====
-- Services and tables: an account with a profile, a buffer and a stream, and an administrator.
use mycelium_consciousness.Prelude.{
  ℕ, Text, codes, Bool, true, false, [], ◌∷◌, none, some, str_of, text_eq,
}
use mycelium_consciousness.Services.{Services, Item, aware}
use mycelium_consciousness.Services.Laws.{RedisLaws, TrimFailsCleanly}
use mycelium_consciousness.Subscriptions.{admin, clone, free}
use mycelium_consciousness.Models.{User, CloneProfile, MemoryBuffer, MemoryBackup, active_status}
use mycelium_consciousness.Database.{Db, World}
use mycelium_consciousness.Streams.{stream_key}
use mycelium_consciousness.Witnesses.Samples.Formats.{codec, iso, hasher, jwt, iso_text}
use mycelium_consciousness.Witnesses.Samples.Stores.{redis_laws, redis_clean, redis, bucket, Stored}

abbrev pub services : Bool → Services
services lossy = record {
  redis = redis lossy (stream_key 7 ∷ []);
  bucket = bucket;
  codec = codec;
  iso = iso;
  hasher = hasher;
  jwt = jwt;
  uuid_hex8 = str_of;
}

abbrev pub memory : ℕ → Item
memory n = record { content = 109 ∷ n ∷ []; captured_at = iso_text (aware n) }

abbrev pub password : Text
password = codes "open sesame"

abbrev pub alice : User
alice = record {
  id = 1;
  email = codes "alice@example.org";
  password_hash = 5 ∷ password;
  role = clone;
  is_active = true;
  created_at = 10;
}

abbrev pub boss : User
boss = record {
  id = 2;
  email = codes "boss@example.org";
  password_hash = 6 ∷ password;
  role = admin;
  is_active = true;
  created_at = 11;
}

abbrev pub profile : CloneProfile
profile = record {
  id = 7;
  designation = codes "Alice-1";
  status = active_status;
  subscription_tier = free;
  user_id = some 1;
  created_at = 12;
}

abbrev pub fallen : CloneProfile
fallen = record {
  id = 8;
  designation = codes "Alice-0";
  status = codes "lost";
  subscription_tier = free;
  user_id = none;
  created_at = 13;
}

abbrev pub buffer : MemoryBuffer
buffer = record { clone_id = 7; payload_blob = codec.packb (memory 1 ∷ []); entry_count = 1 }

abbrev pub backup : (id clone_id period_end : ℕ) → MemoryBackup
backup id clone_id period_end = record {
  id = id;
  clone_id = clone_id;
  period_start = 20;
  period_end = period_end;
  entry_count = 1;
  storage_key = codes "k";
  subscription_tier = free;
  created_at = 40;
  restored_at = none;
}

abbrev pub tables : Db
tables = record {
  users = alice ∷ boss ∷ [];
  profiles = profile ∷ fallen ∷ [];
  buffers = buffer ∷ [];
  backups = backup 1 7 30 ∷ backup 2 8 31 ∷ backup 3 7 32 ∷ [];
  user_seq = 3;
  profile_seq = 9;
  backup_seq = 4;
  server_now = 50;
}

-- The stream of clone 7 holds two memories; those of other clones are empty.
unfoldable pub streams : Text → Stored
unfolding text_eq stream_key
streams k = elim (text_eq k (stream_key 7)) [
  | true ↦ (true, memory 2) ∷ (true, memory 3) ∷ []
  | false ↦ []
]

abbrev pub world : (lossy : Bool) → World (services lossy)
world lossy = record {
  db = tables;
  outages = [];
  redis = streams;
  bucket = λ k. some (codec.packb (memory 4 ∷ []));
  uuid_calls = 0;
  flush_tasks = [];
  refusals = [];
}

abbrev pub laws : (lossy : Bool) → RedisLaws (services lossy).redis
laws lossy = redis_laws lossy (stream_key 7 ∷ [])

abbrev pub clean : TrimFailsCleanly (services false).redis
clean = redis_clean (stream_key 7 ∷ [])
