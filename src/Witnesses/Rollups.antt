-- ===== src/Witnesses/Rollups.antt =====
-- The theorems on rollups, applied.
use mycelium_consciousness.Prelude.{
  true, ◌&&◌, str_of, int_of, split, ℕ, ◌≤◌, false, [], ◌∷◌, ◌++◌, Option, some, ◌≡◌, refl, length,
  arith, select, All, text_eq,
}
use mycelium_consciousness.Effects.{ok, ◌>>?◌}
use mycelium_consciousness.Subscriptions.{free, policy_for, interval}
use mycelium_consciousness.Codec.{encode_payload, decode_payload}
use mycelium_consciousness.Streams.{read_all, trim_up_to, next_id, stream_key}
use mycelium_consciousness.Database.{distinct_texts, World, intact, distinct, get_backup, commit}
use mycelium_consciousness.Models.{MemoryBackup, payload}
use mycelium_consciousness.Storage.{put_object, backup_key, key_text}
use mycelium_consciousness.Rollup.{
  archive_rows, period_start, find_due_clones, archive, backups_of, latest_first,
}
use mycelium_consciousness.Memories.{detail_response}
use mycelium_consciousness.Memories.Readback.{archived_reads_back}
use mycelium_consciousness.Rollup.Due.{has_waited, find_due_clones-has_waited}
use mycelium_consciousness.Rollup.Prune.{same_tier}
use mycelium_consciousness.Rollup.Retention.{pruned, pruned-le-retain_count, pruned_keeps_latest}
use mycelium_consciousness.Rollup.Archive.{Archived, archive-Archived}
use mycelium_consciousness.Rollup.Races.{after_flush, after_archive, rollup_race}
use mycelium_consciousness.Flush.{
  existing_items, flush_entries, save_and_trim, write_buffer, revert, flush_one_stream,
}
use mycelium_consciousness.Storage.Calls.{object_at}
use mycelium_consciousness.Flush.Moves.{streamed}
use mycelium_consciousness.Flush.Outcome.{buffered}
use mycelium_consciousness.Witnesses.Samples.Formats.{unpack, iso_text, codec, codec_laws}
use mycelium_consciousness.Witnesses.Samples.Stores.{put, bucket_laws}
use mycelium_consciousness.Witnesses.Samples.Tables.{
  streams, services, memory, tables, world, laws, clean, profile, fallen, buffer, backup,
}

-- Two seconds after the tables' times, with an interval of one.
abbrev now : ℕ
now = 2000000

abbrev quick : Option ℕ
quick = some 1

find_due_clones-has_waited_example :
    length (select (λ p. true) (profile ∷ fallen ∷ []))
    ≡ length (select (λ p. true && has_waited quick now tables p) tables.profiles)
unfolding find_due_clones interval
find_due_clones-has_waited_example = find_due_clones-has_waited quick now tables (λ p. true) refl

pruned-le-retain_count_example :
    length
      (select (λ b. same_tier free b.subscription_tier) (backups_of 7 (pruned 7 tables).backups))
    ≤ (policy_for free).retain_count
pruned-le-retain_count_example = pruned-le-retain_count 7 tables free

pruned_keeps_latest_example :
    All (λ x. x.period_end ≤ 32) (backup 1 7 30 ∷ [])
    × (get_backup 3 (pruned 7 tables) ≡ get_backup 3 tables)
unfolding distinct latest_first backups_of
pruned_keeps_latest_example =
    pruned_keeps_latest 7 tables (backup 3 7 32) (backup 1 7 30 ∷ []) refl refl

archive-Archived_example :
    Archived bucket_laws profile buffer now (world false) (archive profile buffer now (world false))
archive-Archived_example = archive-Archived bucket_laws profile buffer now (world false)

abbrev flushed : World (services false)
flushed = after_flush codec_laws (laws false) clean bucket_laws profile buffer now (world false)

abbrev archived : World (services false)
archived = after_archive codec_laws (laws false) clean bucket_laws profile buffer now (world false)

rollup_race_example :
    (buffered codec 7 flushed.db
      ≡ ok (memory 1 ∷ streamed codec_laws (laws false) clean 7 (world false)))
    × (buffered codec 7 archived.db ≡ ok [])
    × (streamed codec_laws (laws false) clean 7 archived ≡ [])
    × ((row : MemoryBackup) × (archived.db.backups ≡ flushed.db.backups ++ row ∷ [])
        × (object_at bucket_laws row.storage_key archived ≡ some buffer.payload_blob))
unfolding archive flush_one_stream commit payload decode_payload unpack iso_text str_of read_all
    flush_entries streams existing_items save_and_trim write_buffer intact distinct distinct_texts
    trim_up_to next_id split int_of encode_payload revert text_eq archive_rows period_start
    backup_key key_text put_object stream_key put
rollup_race_example =
    rollup_race codec_laws (laws false) clean bucket_laws profile buffer now (memory 1 ∷ [])
      (world false) refl refl refl refl refl

archived_reads_back_example :
    (row : MemoryBackup) × ((archive profile buffer now (world false)).1.db.backups
      ≡ tables.backups ++ row ∷ [])
    × ((detail_response row (archive profile buffer now (world false)).1).0
        ≡ ((services false).bucket.get_object row.storage_key
            (archive profile buffer now (world false)).1.bucket).0
          >>? λ raw. ok (record { backup = row; payload = memory 1 ∷ [] }))
unfolding archive payload decode_payload unpack period_start iso_text str_of int_of backup_key
    put_object commit archive_rows intact distinct distinct_texts
archived_reads_back_example =
    archived_reads_back bucket_laws profile buffer now (memory 1 ∷ []) (world false)
      (archive profile buffer now (world false)).1 refl refl (λ e. omega arith)
