-- ===== src/Rollup/Whole.antt =====
-- A whole rollup of one clone.
use mycelium_consciousness.Prelude.{
  ℕ, Option, none, some, ◌≡◌, ◌≢◌, ◌⊎◌, inl, inr, refl, ◌==◌, ==→eq, other_than, Bool-cases,
}
use mycelium_consciousness.Effects.{Result, ok, err, continue, pure, ◌>>◌}
use mycelium_consciousness.Services.{Services}
use mycelium_consciousness.Services.Laws.{BucketLaws}
use mycelium_consciousness.Models.{CloneProfile, MemoryBuffer}
use mycelium_consciousness.Database.{World, get_buffer}
use mycelium_consciousness.Rollup.{
  RollupResult, backed_up, nothing_to_do, prune_stale_backups, rollup_loaded, rollup_row,
  rollup_clone,
}
use mycelium_consciousness.Rollup.Archive.{Archived, archive-Archived}
use mycelium_consciousness.Rollup.Pruning.{Prunes, prune_stale_backups-Prunes}

module _ {s : Services} (laws : BucketLaws s.bucket) (clone : CloneProfile) (now : ℕ)
    (w : World s) where
  -- There is nothing to archive.
  abbrev IsDrained : Option MemoryBuffer → Type 0
  IsDrained none = Unit
  IsDrained (some b) = b.entry_count ≡ 0

  abbrev pub summary : MemoryBuffer → RollupResult
  summary b = record { clone_id = clone.id; status = backed_up; entry_count = b.entry_count }

  -- The rollup ended in its first transaction, or in its second.
  abbrev pub Rolls : Result RollupResult × World s → Type 0
  Rolls (ok r, w') =
      (IsDrained (get_buffer clone.id w.db) × (r ≡ nothing_to_do clone.id) × (w' ≡ w))
      ⊎ ((b : MemoryBuffer) × (get_buffer clone.id w.db ≡ some b)
          × (b.entry_count ≢ 0)
          × (r ≡ summary b)
          × ((w1 : World s) × Archived laws clone b now w (ok tt, w1)
              × Prunes laws clone.id w1 (ok tt, w')))
  Rolls (err e, w') =
      (b : MemoryBuffer) × (get_buffer clone.id w.db ≡ some b)
      × (b.entry_count ≢ 0)
      × (Archived laws clone b now w (err e, w')
          ⊎ ((w1 : World s) × Archived laws clone b now w (ok tt, w1)
              × Prunes laws clone.id w1 (err e, w')))

  module _ (b : MemoryBuffer) (row : get_buffer clone.id w.db ≡ some b)
      (some_entries : b.entry_count ≢ 0) where
    of_Prunes :
        (w1 : World s) (q : Result (Unit {0}) × World s)
        → Archived laws clone b now w (ok tt, w1)
        → Prunes laws clone.id w1 q
        → Rolls (continue q.0 (λ _. pure (summary b)) q.1)
    of_Prunes w1 (ok u, w') a p = inr (b, row, some_entries, refl, (w1, a, p))
    of_Prunes w1 (err e, w') a p = (b, row, some_entries, inr (w1, a, p))

    of_Archived :
        (p : Result (Unit {0}) × World s)
        → Archived laws clone b now w p
        → Rolls (continue p.0 (λ _. prune_stale_backups clone.id >> pure (summary b)) p.1)
    of_Archived (ok u, w1) a = of_Prunes w1 _ a (prune_stale_backups-Prunes laws clone.id w1)
    of_Archived (err e, w') a = (b, row, some_entries, inl a)

  of_row :
      (row : Option MemoryBuffer)
      → get_buffer clone.id w.db ≡ row
      → Rolls (rollup_row clone now row w)
  unfolding rollup_loaded
  of_row none h = inl (rw h tt, refl, refl)
  of_row (some b) h = elim (Bool-cases (b.entry_count == 0)) [
    | inl e ↦ rw e (inl (rw h (==→eq b.entry_count 0 e), refl, refl))
    | inr e ↦
        rw e
          (of_Archived b h (other_than b.entry_count 0 e) _ (archive-Archived laws clone b now w))
  ]

  -- A rollup of a clone without buffered entries changes nothing and says so. Any other that returns
  -- has archived the buffer and then pruned the stale backups, and returns the number of entries;
  -- one that raises has stopped in the first of these transactions or, with the first done whole, in
  -- the second.
  pub rollup_clone-Rolls : Rolls (rollup_clone clone now w)
  unfolding rollup_clone
  rollup_clone-Rolls = of_row (get_buffer clone.id w.db) refl
