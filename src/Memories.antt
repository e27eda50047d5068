-- ===== src/Memories.antt =====
-- services/api/src/api/routers/memories.py and the validators of its requests in
-- services/api/src/api/schemas.py. `length` bounds are pydantic's, before the validators.
pub mod Write
pub mod Resurrect
pub mod Copy
pub mod Readback
pub mod Restore
use mycelium_consciousness.Prelude.{
  ℕ, ◌+◌, Text, codes, Bool, true, false, not, ◌&&◌, ◌||◌, List, [], ◌∷◌, ◌++◌, Option, none, some,
  any, find, length, select, take, update, reverse, ◌==◌, leb, ltb, text_eq, if◌then◌else◌,
}
use mycelium_consciousness.Effects.{
  Error, http, database_error, broker_error, decode_error, value_error, Result, ok, err, Exec, pure,
  raise, gets, lift, attempt, ◌>>=◌, ◌>>◌, ◌>>?◌,
}
use mycelium_consciousness.Services.{Services, Item, Bytes, Datetime, naive, aware, aware_at}
use mycelium_consciousness.Codec.{decode_payload}
use mycelium_consciousness.Models.{User, CloneProfile, MemoryBackup, active_status, or_decode_error}
use mycelium_consciousness.Database.{
  Db, World, Action, commit, lost, later, get_profile, get_backup, insert_backup,
}
use mycelium_consciousness.Deps.{own_profile, own_backup, not_found, or_error}
use mycelium_consciousness.Profiles.{read_own_profile}
use mycelium_consciousness.Streams.{append_memory, stream_length}
use mycelium_consciousness.Storage.{put_object, get_object, backup_key}
use mycelium_consciousness.Rollup.{backups_of, latest_first}

pub record MemoryWriteRequest : Type 0 where
  pub content : Text
  pub captured_at : Option Datetime

-- The white space that `str.strip` drops.
abbrev pub is_space : ℕ → Bool
is_space c =
    c == 32
    || (leb 9 c && leb c 13)
    || (leb 28 c && leb c 31)
    || c == 0x85
    || c == 0xa0
    || c == 0x1680
    || (leb 0x2000 c && leb c 0x200a)
    || (leb 0x2028 c && leb c 0x2029)
    || c == 0x202f
    || c == 0x205f
    || c == 0x3000

unfoldable pub lstrip : Text → Text
lstrip [] = []
lstrip (c ∷ s) = let rest = lstrip s in if is_space c then rest else c ∷ s

unfoldable pub strip : Text → Text
unfolding lstrip
strip s = reverse (lstrip (reverse (lstrip s)))

abbrev unprocessable : Error
unprocessable = http 422 (codes "Unprocessable Entity")

-- `_reject_blank`, behind the field's length bounds
pub valid_content : Text → Result Text
unfolding strip
valid_content value =
    if leb 1 (length value) && leb (length value) 8192
    then (if length (strip value) == 0 then err unprocessable else ok (strip value))
    else err unprocessable

-- `_require_timezone`
pub valid_captured_at : Option Datetime → Result (Option Datetime)
valid_captured_at (some (naive t)) = err unprocessable
valid_captured_at (some (aware t)) = ok (some (aware t))
valid_captured_at (some (aware_at t wall)) = ok (some (aware_at t wall))
valid_captured_at none = ok none

unfoldable pub valid_write : MemoryWriteRequest → Result MemoryWriteRequest
unfolding valid_content valid_captured_at
valid_write r = valid_content r.content >>? λ content.
    valid_captured_at r.captured_at >>? λ captured_at.
    ok (record { content = content; captured_at = captured_at })

abbrev or_now : ℕ → Option Datetime → Datetime
or_now now none = aware now
or_now now (some t) = t

module _ {s : Services} where
  -- `flush_clone_stream` of services/api/src/api/tasks.py, which sends a task or raises.
  unfoldable pub send_flush : ℕ → Action s (Unit {0})
  send_flush clone_id w = (
    if lost w.refusals then err broker_error else ok tt,
    record w {
      flush_tasks = if lost w.refusals then w.flush_tasks else w.flush_tasks ++ clone_id ∷ [];
      refusals = later w.refusals;
    },
  )

  -- `write_memory`, with the request as pydantic hands it over; `maxlen` is MEMORY_STREAM_MAXLEN.
  unfoldable pub record_memory :
      (maxlen now : ℕ) → CloneProfile → MemoryWriteRequest → Action s (Unit {0})
  record_memory maxlen now profile r = do
    (entry_id, length) ←
        append_memory profile.id
          (record { content = r.content; captured_at = s.iso.isoformat (or_now now r.captured_at) })
    if leb maxlen length then send_flush profile.id else pure tt

  unfoldable pub write_memory :
      (maxlen now : ℕ) → Option Text → MemoryWriteRequest → Action s (Unit {0})
  write_memory maxlen now credentials payload = do
    profile ← read_own_profile now credentials
    r ← lift (valid_write payload)
    record_memory maxlen now profile r

  unfoldable pub stream_status : (now : ℕ) → Option Text → Action s ℕ
  stream_status now credentials = do
    profile ← read_own_profile now credentials
    stream_length profile.id

-- The query of `list_own_backups`, and of the admin's `list_clone_backups`.
pub listed_backups : (c limit : ℕ) → Db → List MemoryBackup
unfolding latest_first backups_of
listed_backups c limit db = take limit (latest_first (backups_of c db.backups))

-- `Query(default=…, ge=1, le=…)`
unfoldable pub valid_limit : (most limit : ℕ) → Result ℕ
valid_limit most limit = if leb 1 limit && leb limit most then ok limit else err unprocessable

pub record BackupDetail : Type 0 where
  pub backup : MemoryBackup
  pub payload : List Item

-- UPDATE of the row that the session has loaded.
unfoldable pub set_restored : ℕ → (now : ℕ) → Db → Result Db
set_restored id now db =
    if any (λ b. b.id == id) db.backups
    then ok (record db {
      backups = update (λ b. b.id == id) (λ b. record b { restored_at = some now }) db.backups;
    })
    else err database_error

module _ {s : Services} where
  unfoldable pub list_own_backups :
      (now : ℕ) → Option Text → (limit : ℕ) → Action s (List MemoryBackup)
  list_own_backups now credentials limit = do
    profile ← read_own_profile now credentials
    n ← lift (valid_limit 200 limit)
    gets (λ w. listed_backups profile.id n w.db)

  unfoldable pub detail_response : MemoryBackup → Action s BackupDetail
  detail_response backup = do
    raw ← get_object backup.storage_key
    items ← lift (or_decode_error (decode_payload s.codec raw))
    pure (record { backup = backup; payload = items })

  -- The dependency OwnBackup.
  unfoldable pub load_own_backup : (now : ℕ) → Option Text → (backup_id : ℕ) → Action s MemoryBackup
  load_own_backup now credentials backup_id w = (own_backup backup_id s.jwt now credentials w.db, w)

  unfoldable pub read_own_backup : (now : ℕ) → Option Text → (backup_id : ℕ) → Action s BackupDetail
  read_own_backup now credentials backup_id = do
    backup ← load_own_backup now credentials backup_id
    detail_response backup

  -- The refresh reads the row again.
  unfoldable pub refreshed : ℕ → Action s MemoryBackup
  refreshed id w = (or_error database_error (get_backup id w.db), w)

  unfoldable pub restore_own_backup :
      (now : ℕ) → Option Text → (backup_id : ℕ) → Action s BackupDetail
  restore_own_backup now credentials backup_id = do
    backup ← load_own_backup now credentials backup_id
    commit (set_restored backup.id now)
    row ← refreshed backup.id
    detail_response row

abbrev own_source : Error
own_source = http 400 (codes "Cannot resurrect from your own profile")

abbrev pub no_source : Error
no_source = http 404 (codes "Source clone not found")

abbrev still_active : Error
still_active = http 409 (codes "Cannot resurrect from a clone that is still active")

abbrev pub no_backup : Error
no_backup = http 404 (codes "Source clone has no backup to resurrect from")

abbrev first : List MemoryBackup → Option MemoryBackup
first [] = none
first (b ∷ bs) = some b

abbrev if_inactive : CloneProfile → Result CloneProfile
if_inactive source = if text_eq source.status active_status then err still_active else ok source

-- The guards of `resurrect_from`, and the backup that it copies.
unfoldable pub resurrection_source :
    (source_profile_id : ℕ) → CloneProfile → Db → Result MemoryBackup
unfolding latest_first backups_of
resurrection_source source_profile_id profile db =
    if source_profile_id == profile.id
    then err own_source
    else or_error no_source (get_profile source_profile_id db) >>? λ source.
        if_inactive source >>? λ source.
        or_error no_backup (first (latest_first (backups_of source.id db.backups)))

pub resurrected :
    CloneProfile → MemoryBackup → (new_key : Text) → (now : ℕ) → (id created : ℕ) → MemoryBackup
resurrected profile latest new_key now id created = record {
  id = id;
  clone_id = profile.id;
  period_start = latest.period_start;
  period_end = latest.period_end;
  entry_count = latest.entry_count;
  storage_key = new_key;
  subscription_tier = profile.subscription_tier;
  created_at = created;
  restored_at = some now;
}

module _ {s : Services} where
  -- The guards read the tables once.
  unfoldable pub load_source : (source_profile_id : ℕ) → CloneProfile → Action s MemoryBackup
  load_source source_profile_id profile w = (resurrection_source source_profile_id profile w.db, w)

  -- From the copied backup on.
  unfoldable pub copy_backup : (now : ℕ) → CloneProfile → MemoryBackup → Action s BackupDetail
  copy_backup now profile latest = do
    raw ← get_object latest.storage_key
    new_key ← backup_key profile.id (aware latest.period_start) (aware latest.period_end)
    put_object new_key raw
    id ← gets (λ w. w.db.backup_seq)
    commit (insert_backup (resurrected profile latest new_key now))
    row ← refreshed id
    detail_response row

  unfoldable pub resurrect_from :
      (now : ℕ) → Option Text → (source_profile_id : ℕ) → Action s BackupDetail
  resurrect_from now credentials source_profile_id = do
    profile ← read_own_profile now credentials
    latest ← load_source source_profile_id profile
    copy_backup now profile latest
