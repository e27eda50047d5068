-- ===== src/Rollup/Archive.antt =====
-- The first transaction of a rollup.
use mycelium_consciousness.Prelude.{
  ℕ, suc, Text, List, [], ◌∷◌, ◌++◌, none, some, ◌≡◌, ◌≢◌, refl, ap, ◌∙◌, arith, ◌==◌, not, select,
  find,
}
use mycelium_consciousness.Effects.{Result, ok, err, continue}
use mycelium_consciousness.Services.{Services}
use mycelium_consciousness.Services.Laws.{BucketLaws}
use mycelium_consciousness.Models.{CloneProfile, MemoryBuffer, MemoryBackup, payload}
use mycelium_consciousness.Database.{Db, World, get_buffer, commit}
use mycelium_consciousness.Database.Commit.{Commits, commit-Commits}
use mycelium_consciousness.Storage.Calls.{object_at, Puts, put_object-Puts, backup_key_lem}
use mycelium_consciousness.Effects.Binds.{lift-ends}
use mycelium_consciousness.Rollup.{archive, archive_rows, instant, new_backup, period_start}

pub find-deleted :
    (c : ℕ) (bs : List MemoryBuffer)
    → find (λ b. b.clone_id == c) (select (λ b. not (b.clone_id == c)) bs) ≡ none
find-deleted c [] = refl
find-deleted c (b ∷ bs) = ground (arith, find-deleted c bs)

pub find-deleted_ne :
    (c j : ℕ) (bs : List MemoryBuffer)
    → j ≢ c
    → find (λ b. b.clone_id == j) (select (λ b. not (b.clone_id == c)) bs)
      ≡ find (λ b. b.clone_id == j) bs
find-deleted_ne c j [] ne = refl
find-deleted_ne c j (b ∷ bs) ne = ground (arith, find-deleted_ne c j bs)

rows_archived :
    (clone : CloneProfile) (b : MemoryBuffer) (now start : ℕ) (key : Text) (db : Db) {db' : Db}
    → archive_rows clone b start now key db ≡ ok db'
    → (db'.backups
        ≡ db.backups ++ new_backup clone b start now key db.backup_seq db.server_now ∷ [])
      × (get_buffer clone.id db' ≡ none)
unfolding archive_rows
rows_archived clone b now start key db h = ground (arith, find-deleted clone.id db.buffers)

module _ {s : Services} (laws : BucketLaws s.bucket) (clone : CloneProfile) (b : MemoryBuffer)
    (now : ℕ) where
  -- The buffer's row is replaced by a backup row, whose object holds the buffer's bytes; or the
  -- tables are unchanged.
  abbrev pub Archived : World s → Result (Unit {0}) × World s → Type 0
  Archived w (ok _, w') =
      (row : MemoryBackup) × (w'.db.backups ≡ w.db.backups ++ row ∷ [])
      × (row.clone_id ≡ clone.id)
      × (row.period_end ≡ now)
      × (row.entry_count ≡ b.entry_count)
      × (row.subscription_tier ≡ clone.subscription_tier)
      × (object_at laws row.storage_key w' ≡ some b.payload_blob)
      × (get_buffer clone.id w'.db ≡ none)
      × (w'.redis ≡ w.redis)
  Archived w (err _, w') = (w'.db ≡ w.db) × (w'.redis ≡ w.redis)

  committed :
      (start : ℕ) (key : Text) (w : World s)
      → object_at laws key w ≡ some b.payload_blob
      → (c : Result (Unit {0}) × World s) → Commits (archive_rows clone b start now key) w c
      → Archived w c
  unfolding new_backup
  committed start key w o (err x, w') (d, _, r, _, _) = (d, r)
  committed start key w o (ok u, w') (e, _, _, r, k, _) =
      let (rows, gone) = rows_archived clone b now start key w.db e in
      (
        new_backup clone b start now key w.db.backup_seq w.db.server_now,
        rows,
        refl,
        refl,
        refl,
        refl,
        ap (λ st. s.bucket.object st key) k ∙ o,
        gone,
        r,
      )

  stored :
      (start : ℕ) (key : Text) (w : World s) (p : Result (Unit {0}) × World s)
      → Puts laws key b.payload_blob w p
      → Archived w (continue p.0 (λ _. commit (archive_rows clone b start now key)) p.1)
  stored start key w (err x, w') (d, r, _) = (d, r)
  stored start key w (ok u, w') (o, (d, r, _)) =
      moved w' (commit (archive_rows clone b start now key) w') d r
        (committed start key w' o _ (commit-Commits _ w'))
    where
      moved :
          (w' : World s) (c : Result (Unit {0}) × World s)
          → w'.db ≡ w.db
          → w'.redis ≡ w.redis
          → Archived w' c
          → Archived w c
      moved w' (err x, v) d r (e, q) = (e ∙ d, q ∙ r)
      moved w' (ok u, v) d r (row, e, c, n, m, t, o, g, q) =
          (row, e ∙ ap (λ db. db.backups ++ row ∷ []) d, c, n, m, t, o, g, q ∙ r)

  -- Whatever raises on the way, the first transaction of a rollup is done whole or not at all: it
  -- returns only once the buffer's row is gone and one backup row has been added, of the clone and
  -- its tier, that ends now, counts the buffer's entries and points at an object with its bytes;
  -- if it raises, the tables are as they were. The streams are unchanged.
  pub archive-Archived : (w : World s) → Archived w (archive clone b now w)
  unfolding archive
  archive-Archived w =
      lift-ends (Archived w) _ (payload s.codec b) w (λ e h. (refl, refl))
        (λ items h.
          lift-ends (Archived w) _ (period_start s.iso items) w (λ e h. (refl, refl))
            (λ start h. rw backup_key_lem (
              stored (instant start) _ (record w { uuid_calls = suc w.uuid_calls }) _
                (put_object-Puts laws _ _ _))))
