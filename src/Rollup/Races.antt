-- ===== src/Rollup/Races.antt =====
-- A flush that commits while a rollup uploads. The rollup has read its buffer row without a lock,
-- and deletes whatever the row holds by then.
use mycelium_consciousness.Prelude.{ℕ, List, [], ◌∷◌, ◌++◌, none, some, ◌≡◌, refl, ap, ◌∙◌, false}
use mycelium_consciousness.Effects.{Result, ok, err}
use mycelium_consciousness.Services.{Services, Item}
use mycelium_consciousness.Services.Laws.{CodecLaws, RedisLaws, BucketLaws, TrimFailsCleanly}
use mycelium_consciousness.Models.{CloneProfile, MemoryBuffer, MemoryBackup, payload}
use mycelium_consciousness.Database.{World, get_buffer, lost, later}
use mycelium_consciousness.Streams.{stream_key}
use mycelium_consciousness.Flush.{FlushResult, existing_items, new_items, flush_one_stream}
use mycelium_consciousness.Flush.Outcome.{buffered, buffered-row}
use mycelium_consciousness.Flush.Moves.{streamed, Flushed-ok, flush_one_stream-Flushed}
use mycelium_consciousness.Storage.Calls.{object_at}
use mycelium_consciousness.Rollup.{archive}
use mycelium_consciousness.Rollup.Archive.{Archived, archive-Archived}

module _ {s : Services} (codec : CodecLaws s.codec) (redis : RedisLaws s.redis)
    (clean : TrimFailsCleanly s.redis) (bucket : BucketLaws s.bucket) (clone : CloneProfile)
    (b : MemoryBuffer) (now : ℕ) where
  Archived-ok :
      (w : World s) (p : Result (Unit {0}) × World s)
      → p.0 ≡ ok tt
      → Archived bucket clone b now w p
      → (row : MemoryBackup) × (p.1.db.backups ≡ w.db.backups ++ row ∷ [])
        × (object_at bucket row.storage_key p.1 ≡ some b.payload_blob)
        × (get_buffer clone.id p.1.db ≡ none)
        × (p.1.redis ≡ w.redis)
  Archived-ok w (ok u, w') h (row, e, _, _, _, _, o, g, r) = (row, e, o, g, r)
  Archived-ok w (err x, w') h a = cc

  -- The world once the other flush has run, and once the rollup has archived what it had loaded.
  abbrev pub after_flush : World s → World s
  after_flush w = (flush_one_stream clone.id w).1

  abbrev pub after_archive : World s → World s
  after_archive w = (archive clone b now (after_flush w)).1

  -- A rollup loads the buffer row of a clone, with the memories `old`; a flush of the clone runs
  -- and returns; the rollup's first transaction commits. Then the flush has put the memories of
  -- the stream into the buffer, and now the buffer and the stream are empty, and the one backup
  -- that the rollup has added holds the bytes of `old` alone: what was flushed is lost.
  pub rollup_race :
      (old : List Item) (w : World s) {r : FlushResult}
      → get_buffer clone.id w.db ≡ some b
      → payload s.codec b ≡ ok old
      → lost (later w.outages) ≡ false
      → (flush_one_stream clone.id w).0 ≡ ok r
      → (archive clone b now (after_flush w)).0 ≡ ok tt
      → (buffered s.codec clone.id (after_flush w).db
          ≡ ok (old ++ streamed codec redis clean clone.id w))
        × (buffered s.codec clone.id (after_archive w).db ≡ ok [])
        × (streamed codec redis clean clone.id (after_archive w) ≡ [])
        × ((row : MemoryBackup) × ((after_archive w).db.backups
              ≡ (after_flush w).db.backups ++ row ∷ [])
            × (object_at bucket row.storage_key (after_archive w) ≡ some b.payload_blob))
  unfolding existing_items
  rollup_race old w loaded items l flushed archived =
      let (moved, drained) = Flushed-ok codec redis clean clone.id old w _ flushed (
        flush_one_stream-Flushed codec redis clean clone.id old w
          (buffered-row s.codec codec clone.id w.db b loaded items) l) in
      let (row, e, o, g, r) =
        Archived-ok (after_flush w) (archive clone b now (after_flush w)) archived
          (archive-Archived bucket clone b now (after_flush w)) in
      (
        moved,
        rw g refl,
        ap (λ st. new_items (s.redis.entries st (stream_key clone.id))) r ∙ drained,
        (row, e, o),
      )
