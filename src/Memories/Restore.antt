-- ===== src/Memories/Restore.antt =====
-- What restoring a backup leaves in the tables.
use mycelium_consciousness.Prelude.{
  ℕ, Text, List, Option, some, ◌≡◌, ◌⊎◌, inl, inr, refl, ◌∙◌, arith, update, ◌==◌,
}
use mycelium_consciousness.Effects.{Result, ok, err, continue, ◌>>=◌}
use mycelium_consciousness.Effects.Binds.{lift-ends}
use mycelium_consciousness.Services.{Services}
use mycelium_consciousness.Services.Laws.{BucketLaws}
use mycelium_consciousness.Models.{MemoryBackup}
use mycelium_consciousness.Database.{Db, World}
use mycelium_consciousness.Database.Commit.{Commits, commit-Commits}
use mycelium_consciousness.Deps.{own_backup}
use mycelium_consciousness.Effects.Stays.{Stays-bind}
use mycelium_consciousness.Memories.{
  BackupDetail, restore_own_backup, load_own_backup, set_restored, refreshed, detail_response,
}
use mycelium_consciousness.Memories.Copy.{
  Unchanged-order, refreshed-Unchanged, detail_response-Unchanged,
}

abbrev mark : (id now : ℕ) → List MemoryBackup → List MemoryBackup
mark id now = update (λ b. b.id == id) (λ b. record b { restored_at = some now })

marked :
    (id now : ℕ) (db : Db) {db' : Db}
    → set_restored id now db ≡ ok db'
    → db' ≡ record db { backups = mark id now db.backups }
unfolding set_restored
marked id now db h = ground arith

module _ {s : Services} (laws : BucketLaws s.bucket) (now : ℕ) (credentials : Option Text)
    (backup_id : ℕ) (w : World s) where
  -- The caller's backup has its mark, and nothing else in the tables has changed.
  abbrev Marked : World s → Type 0
  Marked w' =
      (b : MemoryBackup) × (own_backup backup_id s.jwt now credentials w.db ≡ ok b)
      × (w'.db ≡ record w.db { backups = mark b.id now w.db.backups })

  abbrev pub Restores : Result BackupDetail × World s → Type 0
  Restores (ok _, w') = Marked w'
  Restores (err _, w') = (w'.db ≡ w.db) ⊎ Marked w'

  concluded : (p : Result BackupDetail × World s) → Marked p.1 → Restores p
  concluded (ok d, w') m = m
  concluded (err e, w') m = inr m

  after_commit :
      (b : MemoryBackup) (c : Result (Unit {0}) × World s)
      → own_backup backup_id s.jwt now credentials w.db ≡ ok b
      → Commits (set_restored b.id now) w c
      → Restores (continue c.0 (λ _. refreshed b.id >>= detail_response) c.1)
  after_commit b (err e, w') mine (same, _, _, _, _) = inl same
  after_commit b (ok u, w') mine (wrote, _, _, _, _, _) =
      let (same, _) =
        (Stays-bind (Unchanged-order laws) (refreshed {s = s} b.id) detail_response
            (refreshed-Unchanged laws b.id) (detail_response-Unchanged laws)).at
          w' in
      concluded _ (b, mine, same ∙ marked b.id now w.db wrote)

  -- A restoration that returns has marked the backup that was asked for as restored now, which is
  -- one of the caller's own, and has changed nothing else in the tables; one that raises has done
  -- that or has left the tables as they were.
  pub restore_own_backup-Restores : Restores (restore_own_backup now credentials backup_id w)
  unfolding restore_own_backup load_own_backup
  restore_own_backup-Restores =
      lift-ends Restores _ (own_backup backup_id s.jwt now credentials w.db) w (λ e h. inl refl)
        (λ b h. after_commit b _ h (commit-Commits (set_restored b.id now) w))
