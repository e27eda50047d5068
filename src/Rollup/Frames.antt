-- ===== src/Rollup/Frames.antt =====
-- What every step of a rollup keeps, rollups keep.
use mycelium_consciousness.Prelude.{
  suc, ℕ, Text, List, [], ◌∷◌, Option, none, some, inl, inr, map, ◌==◌, Bool-cases,
}
use mycelium_consciousness.Effects.{Result, ok, err, Exec, gets, lift, continue, ◌>>=◌}
use mycelium_consciousness.Effects.Stays.{
  IsOrder, Stays, Stays-pure, Stays-lift, Stays-gets, Stays-bind,
}
use mycelium_consciousness.Services.{Services, Bytes, Datetime, aware}
use mycelium_consciousness.Models.{CloneProfile, MemoryBuffer, MemoryBackup, payload}
use mycelium_consciousness.Database.{World, get_buffer, commit, delete_backups}
use mycelium_consciousness.Storage.{put_object, backup_key}
use mycelium_consciousness.Rollup.{
  archive, archive_rows, instant, period_start, stale_backups, delete_objects, prune_stale_backups,
  RollupResult, collect, after_failure, rollup_loaded, rollup_row, rollup_clone, rollup_each,
  run_rollup, find_due_clones,
}

-- A relation between worlds that every step of a rollup keeps.
pub record IsFrame {s : Services} (R : World s → World s → Type 0) : Type 0 where
  pub order : IsOrder R
  pub archives :
      (p : CloneProfile) (b : MemoryBuffer) (start now : ℕ) (key : Text)
      → Stays R (commit {s = s} (archive_rows p b start now key))
  pub deletes : (ids : List ℕ) → Stays R (commit {s = s} (delete_backups ids))
  pub put : (k : Text) (d : Bytes) → Stays R (put_object {s = s} k d)
  pub objects : (bs : List MemoryBackup) → Stays R (delete_objects {s = s} bs)
  pub uuids : (w : World s) (n : ℕ) → R w (record w { uuid_calls = n })

module _ {s : Services} {R : World s → World s → Type 0} (frame : IsFrame R) where
  module _ {A B : Type 0} {f : A → Exec (World s) B} where
    and_then : (m : Exec (World s) A) → Stays R m → ((a : A) → Stays R (f a)) → Stays R (m >>= f)
    and_then m = Stays-bind frame.order m f

  backup_key-Stays : (c : ℕ) (start end : Datetime) → Stays R (backup_key {s = s} c start end)
  unfolding backup_key
  backup_key-Stays c start end = record { at = λ w. frame.uuids w (suc w.uuid_calls) }

  archive-Stays :
      (p : CloneProfile) (b : MemoryBuffer) (now : ℕ) → Stays R (archive {s = s} p b now)
  unfolding archive
  archive-Stays p b now = and_then (lift (payload s.codec b)) (Stays-lift frame.order _) (λ items.
      and_then (lift (period_start s.iso items)) (Stays-lift frame.order _) (λ start.
        and_then _ (backup_key-Stays p.id start (aware now)) (λ key.
          and_then _ (frame.put key b.payload_blob)
            (λ _. frame.archives p b (instant start) now key))))

  prune_stale_backups-Stays : (c : ℕ) → Stays R (prune_stale_backups {s = s} c)
  unfolding prune_stale_backups
  prune_stale_backups-Stays c =
      and_then (gets (λ w. stale_backups c w.db)) (Stays-gets frame.order _)
        (λ stale. and_then _ (frame.objects stale) (λ _. frame.deletes (map (λ b. b.id) stale)))

  rollup_row-Stays :
      (p : CloneProfile) (now : ℕ) (row : Option MemoryBuffer)
      → Stays R (rollup_row {s = s} p now row)
  unfolding rollup_loaded
  rollup_row-Stays p now none = Stays-pure frame.order _
  rollup_row-Stays p now (some b) = elim (Bool-cases (b.entry_count == 0)) [
    | inl e ↦ rw e (Stays-pure frame.order _)
    | inr e ↦ rw e (
        and_then _ (archive-Stays p b now)
          (λ _. and_then _ (prune_stale_backups-Stays p.id) (λ _. Stays-pure frame.order _)))
  ]

  -- A rollup leaves the buffer of each clone as it was or removes it, and changes no stream.
  pub rollup_clone-Stays : (p : CloneProfile) (now : ℕ) → Stays R (rollup_clone {s = s} p now)
  unfolding rollup_clone
  rollup_clone-Stays p now =
      and_then (gets (λ w. get_buffer p.id w.db)) (Stays-gets frame.order _)
        (rollup_row-Stays p now)

  stepped :
      (ps : List CloneProfile) (w : World s) (q : Result RollupResult × World s)
      (rest : Result (List RollupResult) × World s)
      → R w q.1
      → R q.1 rest.1
      → R w
          (elim q.0 as (λ x. Result (List RollupResult) × World s) [
            | ok a ↦ (collect a rest.0, rest.1)
            | err e ↦ (after_failure e ps, q.1)
          ]).1
  stepped ps w (ok a, v) rest r r' = frame.order.then_by w v rest.1 r r'
  stepped ps w (err e, v) rest r r' = r

  rollup_each-Stays : (now : ℕ) (ps : List CloneProfile) → Stays R (rollup_each {s = s} now ps)
  unfolding rollup_each
  rollup_each-Stays now [] = record { at = frame.order.same }
  rollup_each-Stays now (p ∷ ps) = record {
    at = λ w.
        stepped ps w (rollup_clone p now w) (rollup_each now ps (rollup_clone p now w).1)
          ((rollup_clone-Stays p now).at w)
          ((rollup_each-Stays now ps).at (rollup_clone p now w).1);
  }

  pub run_rollup-Stays : (override : Option ℕ) (now : ℕ) → Stays R (run_rollup {s = s} override now)
  unfolding run_rollup
  run_rollup-Stays override now = record { at = λ w. due w (find_due_clones override now w.db) }
    where
      due : (w : World s) (r : Result (List CloneProfile)) → R w (continue r (rollup_each now) w).1
      due w (ok ps) = (rollup_each-Stays now ps).at w
      due w (err e) = frame.order.same w
