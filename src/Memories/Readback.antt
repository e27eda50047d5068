-- ===== src/Memories/Readback.antt =====
-- Reading a backup, and what a rollup has archived in it.
use mycelium_consciousness.Prelude.{
  ℕ, List, [], ◌∷◌, ◌++◌, Option, some, ◌≡◌, ◌≢◌, refl, ap, sym, ◌∙◌, arith, subst,
}
use mycelium_consciousness.Effects.{Result, ok, err, continue, lift, pure, ◌>>=◌, ◌>>?◌}
use mycelium_consciousness.Services.{Services, Item, Bytes, Codec}
use mycelium_consciousness.Services.Laws.{BucketLaws}
use mycelium_consciousness.Models.{
  CloneProfile, MemoryBuffer, MemoryBackup, payload, or_decode_error,
}
use mycelium_consciousness.Codec.{decode_payload}
use mycelium_consciousness.Database.{World, Action}
use mycelium_consciousness.Storage.{get_object}
use mycelium_consciousness.Storage.Calls.{object_at}
use mycelium_consciousness.Rollup.{archive}
use mycelium_consciousness.Rollup.Archive.{Archived, archive-Archived}
use mycelium_consciousness.Memories.{BackupDetail, detail_response}

decodes :
    (c : Codec) (b : MemoryBuffer) (items : List Item)
    → payload c b ≡ ok items
    → b.entry_count ≢ 0
    → decode_payload c b.payload_blob ≡ some items
unfolding payload
decodes c b items h ne = ground arith

same_object : {k : Option Bytes} {d e : Bytes} → k ≡ some d → k ≡ some e → d ≡ e
same_object h k = cc

module _ {s : Services} (laws : BucketLaws s.bucket) where
  -- `detail_response` from the object on.
  abbrev decoded : MemoryBackup → Bytes → Action s BackupDetail
  decoded row raw = do
    xs ← lift (or_decode_error (decode_payload s.codec raw))
    pure (record { backup = row; payload = xs })

  detail_response-decoded :
      (row : MemoryBackup) (blob : Bytes) (items : List Item) (w : World s)
      → object_at laws row.storage_key w ≡ some blob
      → decode_payload s.codec blob ≡ some items
      → (detail_response row w).0 ≡ (
          (s.bucket.get_object row.storage_key w.bucket).0 >>? λ raw.
          ok (record { backup = row; payload = items }))
  unfolding detail_response get_object
  detail_response-decoded row blob items w here h =
      by_reply (s.bucket.get_object row.storage_key w.bucket)
        (λ d e. laws.get_ok row.storage_key w.bucket e)
    where
      by_reply :
          (reply : Result Bytes × s.bucket.State)
          → ((d : Bytes) → reply.0 ≡ ok d → object_at laws row.storage_key w ≡ some d)
          → (continue reply.0 (decoded row) (record w { bucket = reply.1 })).0
            ≡ (reply.0 >>? λ raw. ok (record { backup = row; payload = items }))
      by_reply (err e, st) found = refl
      by_reply (ok raw, st) found =
          let same : blob ≡ raw = same_object here (found raw refl) in
          rw (sym (ap (decode_payload s.codec) same) ∙ h) refl

  module _ (clone : CloneProfile) (b : MemoryBuffer) (now : ℕ) (items : List Item)
      (w w1 : World s) where
    -- After a rollup has archived a buffer with entries, there is one backup row more, and reading
    -- it gives exactly the entries of the buffer, unless the bucket raises.
    pub archived_reads_back :
        archive clone b now w ≡ (ok tt, w1)
        → payload s.codec b ≡ ok items
        → b.entry_count ≢ 0
        → (row : MemoryBackup) × (w1.db.backups ≡ w.db.backups ++ row ∷ [])
          × ((detail_response row w1).0 ≡ (
              (s.bucket.get_object row.storage_key w1.bucket).0 >>? λ raw.
              ok (record { backup = row; payload = items })))
    archived_reads_back h reads ne =
        let (row, rows, _, _, _, _, here, _, _) =
          subst (Archived laws clone b now w) h (archive-Archived laws clone b now w) in
        (
          row,
          rows,
          detail_response-decoded row b.payload_blob items w1 here
              (decodes s.codec b items reads ne),
        )
