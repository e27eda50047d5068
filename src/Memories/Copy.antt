-- ===== src/Memories/Copy.antt =====
-- What a resurrection leaves in the tables and in the bucket.
use mycelium_consciousness.Prelude.{
  ℕ, Text, [], ◌∷◌, ◌++◌, some, ◌≡◌, refl, suc, arith, ap, ◌∙◌, ◌⊎◌, inl, inr,
}
use mycelium_consciousness.Effects.{Result, ok, err, continue, ◌>>=◌, ◌>>◌, gets}
use mycelium_consciousness.Effects.Stays.{IsOrder, Stays, Stays-bind, Stays-lift, Stays-pure}
use mycelium_consciousness.Services.{Services, Bytes, aware}
use mycelium_consciousness.Services.Laws.{BucketLaws}
use mycelium_consciousness.Models.{CloneProfile, MemoryBackup, or_decode_error}
use mycelium_consciousness.Database.{Db, World, insert_backup, commit, Action}
use mycelium_consciousness.Database.Commit.{Commits, commit-Commits}
use mycelium_consciousness.Storage.{backup_key, key_text, put_object, get_object}
use mycelium_consciousness.Storage.Calls.{object_at, Gets, Puts, put_object-Puts, get_object-Gets}
use mycelium_consciousness.Codec.{decode_payload}
use mycelium_consciousness.Memories.{
  BackupDetail, copy_backup, resurrected, refreshed, detail_response,
}

rows_added :
    (row : ℕ → ℕ → MemoryBackup) (db : Db) {db' : Db}
    → insert_backup row db ≡ ok db'
    → db'.backups ≡ db.backups ++ row db.backup_seq db.server_now ∷ []
unfolding insert_backup
rows_added row db h = ground arith

module _ {s : Services} (laws : BucketLaws s.bucket) where
  -- The tables and the objects are as they were.
  abbrev Unchanged : World s → World s → Type 0
  Unchanged w w' = (w'.db ≡ w.db) × ((k : Text) → object_at laws k w' ≡ object_at laws k w)

  pub Unchanged-order : IsOrder Unchanged
  Unchanged-order = record {
    same = λ w. (refl, λ k. refl);
    then_by = λ u v w p q. (q.0 ∙ p.0, λ k. q.1 k ∙ p.1 k);
  }

  pub refreshed-Unchanged : (id : ℕ) → Stays Unchanged (refreshed {s = s} id)
  unfolding refreshed
  refreshed-Unchanged id = record { at = λ w. (refl, λ k. refl) }

  get_object-Unchanged : (k : Text) → Stays Unchanged (get_object k)
  get_object-Unchanged k = record {
    at = λ w. let (_, objects, tables) = get_object-Gets laws k w in (tables.0, objects);
  }

  pub detail_response-Unchanged : (b : MemoryBackup) → Stays Unchanged (detail_response {s = s} b)
  unfolding detail_response
  detail_response-Unchanged b =
      Stays-bind Unchanged-order _ _ (get_object-Unchanged b.storage_key) (λ raw.
        Stays-bind Unchanged-order _ _
          (Stays-lift Unchanged-order (or_decode_error (decode_payload s.codec raw)))
          (λ items. Stays-pure Unchanged-order _))

  module _ (now : ℕ) (profile : CloneProfile) (latest : MemoryBackup) (w : World s) where
    -- The copied row, as `db` numbers and dates it.
    abbrev pub row_in : Text → Db → MemoryBackup
    row_in key db = record {
      id = db.backup_seq;
      clone_id = profile.id;
      period_start = latest.period_start;
      period_end = latest.period_end;
      entry_count = latest.entry_count;
      storage_key = key;
      subscription_tier = profile.subscription_tier;
      created_at = db.server_now;
      restored_at = some now;
    }

    -- One row has been added, of the caller's clone, and its object holds the source's bytes.
    abbrev Copied : World s → Type 0
    Copied w' =
        (key : Text) × (raw : Bytes) × (object_at laws latest.storage_key w ≡ some raw)
        × (object_at laws key w' ≡ some raw)
        × (w'.db.backups ≡ w.db.backups ++ row_in key w.db ∷ [])

    abbrev pub Copies : Result BackupDetail × World s → Type 0
    Copies (ok _, w') = Copied w'
    Copies (err _, w') = (w'.db ≡ w.db) ⊎ Copied w'

    concluded : (p : Result BackupDetail × World s) → Copied p.1 → Copies p
    concluded (ok d, w') c = c
    concluded (err e, w') c = inr c

    Copied-Unchanged : (u v : World s) → Unchanged u v → Copied u → Copied v
    Copied-Unchanged u v (d, objects) (key, raw, from, to, rows) =
        (key, raw, from, objects key ∙ to, ap (λ db. db.backups) d ∙ rows)

    after_commit :
        (id : ℕ) (key : Text) (raw : Bytes) (w1 : World s) (c : Result (Unit {0}) × World s)
        → w1.db ≡ w.db
        → object_at laws latest.storage_key w ≡ some raw
        → object_at laws key w1 ≡ some raw
        → Commits (insert_backup (resurrected profile latest key now)) w1 c
        → Copies (continue c.0 (λ _. refreshed id >>= detail_response) c.1)
    unfolding insert_backup resurrected
    after_commit id key raw w1 (err e, w') d from to (same, _, _, _, _) = inl (same ∙ d)
    after_commit id key raw w1 (ok u, w') d from to (wrote, _, _, _, b, _) = concluded _ (
        Copied-Unchanged w' ((refreshed {s = s} id >>= detail_response) w').1
          ((Stays-bind Unchanged-order _ _ (refreshed-Unchanged id) detail_response-Unchanged).at
            w')
          (
            key,
            raw,
            from,
            ap (λ st. s.bucket.object st key) b ∙ to,
            rows_added (resurrected profile latest key now) w1.db wrote
                ∙ ap (λ db. db.backups ++ row_in key db ∷ []) d,
          ))

    -- From the row's key on.
    abbrev committing : Text → Action s BackupDetail
    committing key = do
      id ← gets (λ w. w.db.backup_seq)
      commit (insert_backup (resurrected profile latest key now))
      row ← refreshed id
      detail_response row

    after_put :
        (key : Text) (raw : Bytes) (w1 : World s) (p : Result (Unit {0}) × World s)
        → w1.db ≡ w.db
        → object_at laws latest.storage_key w ≡ some raw
        → Puts laws key raw w1 p
        → Copies (continue p.0 (λ _. committing key) p.1)
    after_put key raw w1 (err e, w') d from (same, _, _) = inl (same ∙ d)
    after_put key raw w1 (ok u, w') d from (to, (same, _, _)) =
        after_commit w'.db.backup_seq key raw w' _ (same ∙ d) from to (commit-Commits _ w')

    after_read :
        (r : Result Bytes × World s)
        → Gets laws latest.storage_key w r
        → Copies (
            continue r.0
              (λ raw.
                backup_key profile.id (aware latest.period_start) (aware latest.period_end)
                >>= λ key. put_object key raw >> committing key)
              r.1)
    unfolding backup_key
    after_read (err e, w') (_, _, (same, _, _)) = inl same
    after_read (ok raw, w') (from, _, (same, _, _)) =
        let w1 = record w' { uuid_calls = suc w'.uuid_calls } in
        let key =
          key_text profile.id (s.iso.stamp (aware latest.period_start))
            (s.iso.stamp (aware latest.period_end)) (s.uuid_hex8 w'.uuid_calls) in
        after_put key raw w1 _ same (from raw refl) (put_object-Puts laws key raw w1)

    -- A resurrection that succeeds has added one backup row, of the caller's clone and tier, with
    -- the period and the count of the source's backup and marked as restored, whose object holds
    -- the bytes of the source's; one that raises has added that row or left the tables as they were.
    pub copy_backup-Copies : Copies (copy_backup now profile latest w)
    unfolding copy_backup
    copy_backup-Copies = after_read _ (get_object-Gets laws latest.storage_key w)
