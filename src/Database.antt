-- ===== src/Database.antt =====
-- The database as the tables of `Models`, with the constraints that the models declare, and the
-- world that a coroutine runs in. A commit applies its statements to the tables as they are then;
-- it fails where the connection is lost (`outages`) or a constraint is broken, and then changes
-- nothing. Reads do not fail. The keys of new rows come from the sequences.
pub mod Commit
pub mod Unique
pub mod Buffers
use mycelium_consciousness.Prelude.{
  ℕ, ◌+◌, Text, Bool, true, false, not, ◌&&◌, ◌||◌, List, [], ◌∷◌, ◌++◌, map, Option, none, some,
  ◌==◌, if◌then◌else◌, any, all, find, select, update, text_eq,
}
use mycelium_consciousness.Effects.{Result, ok, err, Exec, database_error, integrity_error}
use mycelium_consciousness.Services.{Services, Bytes}
use mycelium_consciousness.Models.{User, CloneProfile, MemoryBuffer, MemoryBackup}

pub record Db : Type 0 where
  pub users : List User
  pub profiles : List CloneProfile
  pub buffers : List MemoryBuffer
  pub backups : List MemoryBackup
  pub user_seq : ℕ
  pub profile_seq : ℕ
  pub backup_seq : ℕ
  -- what `func.now()` gives
  pub server_now : ℕ

unfoldable pub distinct : List ℕ → Bool
distinct [] = true
distinct (n ∷ ns) = not (any (λ m. m == n) ns) && distinct ns

unfoldable pub distinct_texts : List Text → Bool
distinct_texts [] = true
distinct_texts (s ∷ ts) = not (any (λ t. text_eq t s) ts) && distinct_texts ts

-- A nullable column: a unique constraint lets any number of rows be NULL.
not_null : List (Option ℕ) → List ℕ
not_null [] = []
not_null (none ∷ r) = not_null r
not_null (some n ∷ r) = n ∷ not_null r

-- A foreign key: every value is among the keys.
abbrev pub refers : List ℕ → List ℕ → Bool
refers ns keys = all (λ n. any (λ k. k == n) keys) ns

unfoldable pub user_ids : Db → List ℕ
user_ids db = map (λ u. u.id) db.users

unfoldable pub profile_ids : Db → List ℕ
profile_ids db = map (λ p. p.id) db.profiles

unfoldable pub owner_ids : Db → List ℕ
unfolding not_null
owner_ids db = not_null (map (λ p. p.user_id) db.profiles)

-- The primary keys, the unique columns and the foreign keys of the four tables.
unfoldable pub intact : Db → Bool
unfolding user_ids profile_ids owner_ids
intact db =
    distinct (user_ids db)
    && distinct_texts (map (λ u. u.email) db.users)
    && distinct (profile_ids db)
    && distinct_texts (map (λ p. p.designation) db.profiles)
    && distinct (owner_ids db)
    && distinct (map (λ b. b.clone_id) db.buffers)
    && distinct (map (λ b. b.id) db.backups)
    && refers (owner_ids db) (user_ids db)
    && refers (map (λ b. b.clone_id) db.buffers) (profile_ids db)
    && refers (map (λ b. b.clone_id) db.backups) (profile_ids db)

pub record World (s : Services) : Type 0 where
  pub db : Db
  -- whether the connection is lost at the next commits; none is, past the end
  pub outages : List Bool
  pub redis : s.redis.State
  pub bucket : s.bucket.State
  pub uuid_calls : ℕ
  -- the clones for which a flush task has been sent to the workers
  pub flush_tasks : List ℕ
  -- whether the broker refuses the next tasks; none is refused, past the end
  pub refusals : List Bool

abbrev pub Action : Services → Type 0 → Type 0
Action s A = Exec (World s) A

abbrev pub lost : List Bool → Bool
lost [] = false
lost (b ∷ _) = b

abbrev pub later : List Bool → List Bool
later [] = []
later (_ ∷ bs) = bs

abbrev checked : Result Db → Result Db
checked (ok db) = if intact db then ok db else err integrity_error
checked (err e) = err e

module _ {s : Services} where
  abbrev settle : Result Db → World s → Result (Unit {0}) × World s
  settle (ok db) w = (ok tt, record w { db = db })
  settle (err e) w = (err e, w)

  -- `await session.commit()`, with the statements that the session has collected.
  unfoldable pub commit : (Db → Result Db) → Action s (Unit {0})
  commit statements w =
      settle (if lost w.outages then err database_error else checked (statements w.db))
        (record w { outages = later w.outages })

-- `session.get(MemoryBuffer, clone_id)` and its like, on the tables of the moment.
abbrev pub get_buffer : ℕ → Db → Option MemoryBuffer
get_buffer c db = find (λ b. b.clone_id == c) db.buffers

abbrev pub get_profile : ℕ → Db → Option CloneProfile
get_profile c db = find (λ p. p.id == c) db.profiles

abbrev pub get_user : ℕ → Db → Option User
get_user c db = find (λ u. u.id == c) db.users

abbrev pub get_backup : ℕ → Db → Option MemoryBackup
get_backup c db = find (λ b. b.id == c) db.backups

-- INSERT of a buffer that the session has added.
unfoldable pub insert_buffer : MemoryBuffer → Db → Result Db
insert_buffer b db = ok (record db { buffers = db.buffers ++ b ∷ [] })

-- UPDATE of a buffer that the session has loaded; a row that has gone is a StaleDataError.
unfoldable pub update_buffer : ℕ → Bytes → ℕ → Db → Result Db
update_buffer c blob n db =
    if any (λ b. b.clone_id == c) db.buffers
    then ok (record db {
      buffers =
          update (λ b. b.clone_id == c) (λ b. record b { payload_blob = blob; entry_count = n })
            db.buffers;
    })
    else err database_error

-- INSERT of a backup, whose key and creation time the server gives.
unfoldable pub insert_backup : (ℕ → ℕ → MemoryBackup) → Db → Result Db
insert_backup row db = ok (record db {
  backups = db.backups ++ row db.backup_seq db.server_now ∷ [];
  backup_seq = db.backup_seq + 1;
})

-- DELETE of a buffer that the session has loaded; that no row matched is a warning only.
unfoldable pub delete_buffer : ℕ → Db → Result Db
delete_buffer c db = ok (record db { buffers = select (λ b. not (b.clone_id == c)) db.buffers })

-- DELETE FROM memory_backups WHERE id IN (…)
unfoldable pub delete_backups : List ℕ → Db → Result Db
delete_backups ids db =
    ok (record db { backups = select (λ b. not (any (λ i. i == b.id) ids)) db.backups })
