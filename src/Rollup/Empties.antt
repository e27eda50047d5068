-- ===== src/Rollup/Empties.antt =====
-- What rollups do to the buffers and the streams of all clones.
use mycelium_consciousness.Prelude.{
  ℕ, Text, List, Option, none, ◌≡◌, ◌⊎◌, inl, inr, refl, ap, ◌∙◌, arith, ◌==◌, Bool-cases, ==→eq,
}
use mycelium_consciousness.Effects.{Result, ok, err}
use mycelium_consciousness.Effects.Stays.{IsOrder, Stays}
use mycelium_consciousness.Services.{Services, Bytes, Datetime}
use mycelium_consciousness.Services.Laws.{BucketLaws}
use mycelium_consciousness.Models.{CloneProfile, MemoryBuffer, MemoryBackup}
use mycelium_consciousness.Database.{Db, World, get_buffer, commit, delete_backups}
use mycelium_consciousness.Database.Commit.{Commits, commit-Commits}
use mycelium_consciousness.Storage.{put_object, backup_key}
use mycelium_consciousness.Storage.Calls.{put_object-tables}
use mycelium_consciousness.Flush.All.{IsConnected, lost-later}
use mycelium_consciousness.Rollup.{archive_rows, delete_objects, rollup_clone, run_rollup}
use mycelium_consciousness.Rollup.Archive.{find-deleted, find-deleted_ne}
use mycelium_consciousness.Rollup.Pruning.{keyed, keyed-All, delete_objects-OnlyDeletes}
use mycelium_consciousness.Rollup.Frames.{IsFrame, rollup_clone-Stays, run_rollup-Stays}

module _ (j : ℕ) where
  archive_rows-empties :
      (p : CloneProfile) (b : MemoryBuffer) (start now : ℕ) (key : Text) (db db' : Db)
      → archive_rows p b start now key db ≡ ok db'
      → (get_buffer j db' ≡ get_buffer j db) ⊎ (get_buffer j db' ≡ none)
  unfolding archive_rows
  archive_rows-empties p b start now key db db' h = elim (Bool-cases (j == p.id)) [
    | inl e ↦ inr (ground (arith, find-deleted p.id db.buffers, ==→eq j p.id e))
    | inr e ↦ inl (ground (arith, find-deleted_ne p.id j db.buffers))
  ]

  delete_backups-empties :
      (ids : List ℕ) (db db' : Db)
      → delete_backups ids db ≡ ok db'
      → (get_buffer j db' ≡ get_buffer j db) ⊎ (get_buffer j db' ≡ none)
  unfolding delete_backups
  delete_backups-empties ids db db' h = inl (ground arith)

module _ {s : Services} (bucket : BucketLaws s.bucket) (j : ℕ) where
  -- The buffer of clone `j` is as it was or is gone, and redis and the connection are as they were.
  abbrev pub Empties : World s → World s → Type 0
  Empties w w' =
      ((get_buffer j w'.db ≡ get_buffer j w.db) ⊎ (get_buffer j w'.db ≡ none))
      × (w'.redis ≡ w.redis)
      × (IsConnected w → IsConnected w')

  order : IsOrder Empties
  order = record {
    same = λ w. (inl refl, refl, λ h. h);
    then_by = λ u v w (b, r, c) (b', r', c'). (
      elim b' [ inl e ↦ elim b [ inl e' ↦ inl (e ∙ e') | inr n ↦ inr (e ∙ n) ] | inr n ↦ inr n ],
      r' ∙ r,
      λ h. c' (c h),
    );
  }

  module _ (f : Db → Result Db)
      (k : (db db' : Db)
        → f db ≡ ok db'
        → (get_buffer j db' ≡ get_buffer j db) ⊎ (get_buffer j db' ≡ none)) where
    committed : (w : World s) (r : Result (Unit {0}) × World s) → Commits f w r → Empties w r.1
    committed w (ok u, w') (e, _, o, q, _, _) =
        (k w.db w'.db e, q, λ h. rw o (lost-later w.outages h).1)
    committed w (err x, w') (e, o, q, _, _) =
        (inl (ap (get_buffer j) e), q, λ h. rw o (lost-later w.outages h).1)

    commits : Stays Empties (commit f)
    commits = record { at = λ w. committed w (commit f w) (commit-Commits f w) }

  put_object-Empties : (k : Text) (d : Bytes) → Stays Empties (put_object {s = s} k d)
  put_object-Empties k d = record {
    at = λ w.
        let (d, r, o) = put_object-tables bucket k d w in
        (inl (ap (get_buffer j) d), r, λ h. rw o h);
  }

  delete_objects-Empties : (bs : List MemoryBackup) → Stays Empties (delete_objects {s = s} bs)
  delete_objects-Empties bs = record {
    at = λ w.
        let (d, r, o, _) = (delete_objects-OnlyDeletes bucket (keyed bs) bs (keyed-All bs)).at w in
        (inl (ap (get_buffer j) d), r, λ h. rw o h);
  }

  backup_key-Empties :
      (c : ℕ) (start end : Datetime) → Stays Empties (backup_key {s = s} c start end)
  unfolding backup_key
  backup_key-Empties c start end = record { at = λ w. (inl refl, refl, λ h. h) }

  Empties-IsFrame : IsFrame {s = s} Empties
  Empties-IsFrame = record {
    order = order;
    archives = λ p b start now key. commits _ (archive_rows-empties j p b start now key);
    deletes = λ ids. commits _ (delete_backups-empties j ids);
    put = put_object-Empties;
    objects = delete_objects-Empties;
    uuids = λ w n. (inl refl, refl, λ h. h);
  }

  -- Rollups leave the buffer of each clone as it was or remove it, and change no stream.
  pub rollup_clone-Empties :
      (p : CloneProfile) (now : ℕ) → Stays Empties (rollup_clone {s = s} p now)
  rollup_clone-Empties = rollup_clone-Stays Empties-IsFrame

  pub run_rollup-Empties :
      (override : Option ℕ) (now : ℕ) → Stays Empties (run_rollup {s = s} override now)
  run_rollup-Empties = run_rollup-Stays Empties-IsFrame
