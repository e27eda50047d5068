-- ===== src/Rollup.antt =====
-- services/celery/src/celery_worker/pipeline.py. Rows that a query orders by `period_end` alone are
-- taken in table order where that ties. Times are instants in microseconds; the SELECTs of `Prune`
-- and `Due` see the tables of the moment.
pub mod Due
pub mod Prune
pub mod Retention
pub mod Archive
pub mod Pruning
pub mod Whole
pub mod Frames
pub mod Empties
pub mod Races
use mycelium_consciousness.Prelude.{
  ℕ, ◌+◌, ◌-◌, Text, Bool, true, false, not, List, [], ◌∷◌, ◌++◌, map, Option, none, some, ◌==◌,
  ltb, leb, if◌then◌else◌, select,
}
use mycelium_consciousness.Effects.{
  Error, Result, ok, err, Exec, pure, raise, gets, lift, ◌>>=◌, ◌>>◌, ◌>>?◌, value_error,
  overflow_error, integrity_error, database_error, runtime_error,
}
use mycelium_consciousness.Services.{Services, Iso, Item, Datetime, naive, aware, aware_at}
use mycelium_consciousness.Subscriptions.{
  SubscriptionTier, free, standard, premium, interval, policy_for, BackupPolicy,
}
use mycelium_consciousness.Models.{CloneProfile, MemoryBuffer, MemoryBackup, payload}
use mycelium_consciousness.Database.{
  Db, World, Action, commit, get_buffer, insert_backup, delete_buffer, delete_backups,
}
use mycelium_consciousness.Storage.{put_object, delete_object, backup_key}

pub data RollupStatus : Type 0 where
  empty backed_up not_found : RollupStatus

pub record RollupResult : Type 0 where
  pub clone_id : ℕ
  pub status : RollupStatus
  pub entry_count : ℕ

-- `_aware`: a naive time is taken to be UTC.
aware_time : Datetime → Datetime
aware_time (naive t) = aware t
aware_time (aware t) = aware t
aware_time (aware_at t wall) = aware_at t wall

-- The instant of an aware time.
abbrev pub instant : Datetime → ℕ
instant (naive t) = t
instant (aware t) = t
instant (aware_at t wall) = t

abbrev earlier_than : Datetime → Result Datetime → Result Datetime
earlier_than t (ok u) = ok (if ltb (instant u) (instant t) then u else t)
earlier_than t (err e) = err e

abbrev parsed : Option Datetime → Result Datetime
parsed none = err value_error
parsed (some d) = ok (aware_time d)

-- `min(_aware(datetime.fromisoformat(item["captured_at"])) for item in payload)`; the minimum of
-- nothing is a ValueError.
unfoldable pub period_start : Iso → List Item → Result Datetime
unfolding aware_time
period_start iso [] = err value_error
period_start iso (x ∷ []) = parsed (iso.fromisoformat x.captured_at)
period_start iso (x ∷ y ∷ xs) =
    parsed (iso.fromisoformat x.captured_at) >>? λ t. earlier_than t (period_start iso (y ∷ xs))

-- The MemoryBackup of `rollup_clone`, less what the server gives.
pub new_backup :
    CloneProfile → MemoryBuffer → (start now : ℕ) (key : Text) (id created : ℕ) → MemoryBackup
new_backup clone b start now key id created = record {
  id = id;
  clone_id = clone.id;
  period_start = start;
  period_end = now;
  entry_count = b.entry_count;
  storage_key = key;
  subscription_tier = clone.subscription_tier;
  created_at = created;
  restored_at = none;
}

-- The statements of the first commit.
unfoldable pub archive_rows :
    CloneProfile → MemoryBuffer → (start now : ℕ) (key : Text) → Db → Result Db
unfolding insert_backup delete_buffer new_backup
archive_rows clone b start now key db =
    insert_backup (new_backup clone b start now key) db >>? delete_buffer clone.id

module _ {s : Services} where
  -- From the payload of the loaded row to the first commit.
  unfoldable pub archive : CloneProfile → MemoryBuffer → ℕ → Action s (Unit {0})
  archive clone b now = do
    items ← lift (payload s.codec b)
    start ← lift (period_start s.iso items)
    key ← backup_key clone.id start (aware now)
    put_object key b.payload_blob
    commit (archive_rows clone b (instant start) now key)

-- ORDER BY period_end DESC
pub insert_desc : MemoryBackup → List MemoryBackup → List MemoryBackup
insert_desc b [] = b ∷ []
insert_desc b (x ∷ xs) = if leb x.period_end b.period_end then b ∷ x ∷ xs else x ∷ insert_desc b xs

unfoldable pub latest_first : List MemoryBackup → List MemoryBackup
unfolding insert_desc
latest_first [] = []
latest_first (b ∷ bs) = insert_desc b (latest_first bs)

pub retain_count : MemoryBackup → ℕ
retain_count b = (policy_for b.subscription_tier).retain_count

-- WHERE rank > retain_count, over rows that are ranked from a number on.
pub stale_from : ℕ → List MemoryBackup → List MemoryBackup
unfolding retain_count
stale_from rank [] = []
stale_from rank (b ∷ bs) =
    let rest = stale_from (rank + 1) bs in if ltb (retain_count b) rank then b ∷ rest else rest

unfoldable pub backups_of : ℕ → List MemoryBackup → List MemoryBackup
backups_of c = select (λ b. b.clone_id == c)

pub stale_backups : ℕ → Db → List MemoryBackup
unfolding stale_from latest_first backups_of
stale_backups c db = stale_from 1 (latest_first (backups_of c db.backups))

abbrev nothing_to_do : ℕ → RollupResult
nothing_to_do c = record { clone_id = c; status = empty; entry_count = 0 }

module _ {s : Services} where
  pub delete_objects : List MemoryBackup → Action s (Unit {0})
  delete_objects [] = pure tt
  delete_objects (b ∷ bs) = do delete_object b.storage_key; delete_objects bs

  -- `_prune_stale_backups` with the commit that follows it; with no stale row nothing is deleted.
  pub prune_stale_backups : ℕ → Action s (Unit {0})
  prune_stale_backups c = do
    stale ← gets (λ w. stale_backups c w.db)
    delete_objects stale
    commit (delete_backups (map (λ b. b.id) stale))

  -- From the loaded row on.
  pub rollup_loaded : CloneProfile → MemoryBuffer → ℕ → Action s RollupResult
  rollup_loaded clone b now = do
    archive clone b now
    prune_stale_backups clone.id
    pure (record { clone_id = clone.id; status = backed_up; entry_count = b.entry_count })

  abbrev rollup_row : CloneProfile → ℕ → Option MemoryBuffer → Action s RollupResult
  rollup_row clone now none = pure (nothing_to_do clone.id)
  rollup_row clone now (some b) =
      if b.entry_count == 0 then pure (nothing_to_do clone.id) else rollup_loaded clone b now

  pub rollup_clone : CloneProfile → ℕ → Action s RollupResult
  rollup_clone clone now = do row ← gets (λ w. get_buffer clone.id w.db); rollup_row clone now row

-- COALESCE(MAX(period_end) of the clone's backups, created_at)
pub last_end : List MemoryBackup → Option ℕ
last_end [] = none
last_end (b ∷ bs) =
    let rest = last_end bs in
    elim rest [
      | none ↦ some b.period_end
      | some t ↦ some (if ltb t b.period_end then b.period_end else t)
    ]

abbrev or_else : Option ℕ → ℕ → ℕ
or_else none t = t
or_else (some e) t = e

pub anchor : Db → CloneProfile → ℕ
unfolding last_end backups_of
anchor db p = or_else (last_end (backups_of p.id db.backups)) p.created_at

-- `now - policy.interval`; before the first year it is an OverflowError.
abbrev cutoff : (override : Option ℕ) → ℕ → SubscriptionTier → Result ℕ
cutoff override now tier =
    let length = interval override (policy_for tier) in
    if leb length now then ok (now - length) else err overflow_error

-- `_cutoff_by_tier(now)`, whose CASE computes the cutoff of every tier.
abbrev pub Cutoffs : Type 0
Cutoffs = SubscriptionTier → ℕ

abbrev choose : ℕ → ℕ → ℕ → Cutoffs
choose f s p free = f
choose f s p standard = s
choose f s p premium = p

pub cutoff_by_tier : (override : Option ℕ) → ℕ → Result Cutoffs
cutoff_by_tier override now = cutoff override now free >>? λ f.
    cutoff override now standard >>? λ s. cutoff override now premium >>? λ p. ok (choose f s p)

pub is_due : Cutoffs → Db → CloneProfile → Bool
unfolding anchor
is_due cutoffs db p = leb (anchor db p) (cutoffs p.subscription_tier)

unfoldable pub find_due_clones : (override : Option ℕ) → ℕ → Db → Result (List CloneProfile)
unfolding cutoff_by_tier is_due
find_due_clones override now db =
    cutoff_by_tier override now >>? λ cutoffs. ok (select (is_due cutoffs db) db.profiles)

abbrev collect : RollupResult → Result (List RollupResult) → Result (List RollupResult)
collect r (ok rest) = ok (r ∷ rest)
collect r (err e) = err e

-- What the loop comes to after a failure. The rollback expires the clones that the session has
-- loaded, and reading `clone.id` of an expired one raises: for the next clone, and again in the
-- handler. Where a commit has failed, its own rollback comes before the handler reads it.
abbrev after_failure : Error → List CloneProfile → Result (List RollupResult)
after_failure integrity_error ps = err runtime_error
after_failure database_error ps = err runtime_error
after_failure e [] = ok []
after_failure e (p ∷ ps) = err runtime_error

module _ {s : Services} where
  -- The loop of `run_rollup`.
  pub rollup_each : ℕ → List CloneProfile → Action s (List RollupResult)
  rollup_each now [] w = (ok [], w)
  rollup_each now (p ∷ ps) w =
      let (r, w') = rollup_clone p now w in
      let (rest, w'') = rollup_each now ps w' in
      elim r [ ok a ↦ (collect a rest, w'') | err e ↦ (after_failure e ps, w') ]

  pub run_rollup : (override : Option ℕ) → ℕ → Action s (List RollupResult)
  run_rollup override now w = (lift (find_due_clones override now w.db) >>= rollup_each now) w
