-- ===== src/Api/Frames.antt =====
-- What the requests leave alone: the buffers and the streams belong to the writes and the workers.
use mycelium_consciousness.Prelude.{suc, ℕ, Text, Bool, true, false, Option, ◌==◌, if◌then◌else◌}
use mycelium_consciousness.Effects.{
  Error, integrity_error, database_error, Result, Exec, raise, pure, gets, lift, ◌>>=◌,
}
use mycelium_consciousness.Effects.Stays.{
  IsOrder, Stays, Stays-pure, Stays-raise, Stays-lift, Stays-attempt, Stays-bind,
}
use mycelium_consciousness.Services.{Services, Bytes, Datetime, aware}
use mycelium_consciousness.Models.{User, CloneProfile, MemoryBackup, or_decode_error}
use mycelium_consciousness.Codec.{decode_payload}
use mycelium_consciousness.Subscriptions.{SubscriptionTier}
use mycelium_consciousness.Database.{World, commit, insert_backup, get_user, get_profile}
use mycelium_consciousness.Storage.{put_object, get_object, backup_key}
use mycelium_consciousness.Deps.{or_error}
use mycelium_consciousness.Accounts.{
  RegisterRequest, register, insert_account, new_user, new_profile, conflict, already_registered,
}
use mycelium_consciousness.Streams.{stream_length}
use mycelium_consciousness.Profiles.{
  ProfileUpdateRequest, update_profile_row, updated, apply_update, read_own_profile,
  designation_taken,
}
use mycelium_consciousness.Memories.{
  read_own_backup, restore_own_backup, resurrect_from, load_own_backup, detail_response,
  set_restored, refreshed, copy_backup, load_source, resurrected,
}
use mycelium_consciousness.Admin.{
  update_subscription, deactivate_user, admin_user, load_profile, load_user, update_user_row,
  own_account,
}

-- A relation between worlds that every step of a request other than a write to a stream keeps.
pub record IsFrame {s : Services} (R : World s → World s → Type 0) : Type 0 where
  pub order : IsOrder R
  pub profile_row :
      (c : ℕ) (f : CloneProfile → CloneProfile) → Stays R (commit {s = s} (update_profile_row c f))
  pub user_row : (c : ℕ) (f : User → User) → Stays R (commit {s = s} (update_user_row c f))
  pub restored : (id now : ℕ) → Stays R (commit {s = s} (set_restored id now))
  pub backup : (row : ℕ → ℕ → MemoryBackup) → Stays R (commit {s = s} (insert_backup row))
  pub account :
      (user : ℕ → ℕ → User) (profile : ℕ → ℕ → ℕ → CloneProfile)
      → Stays R (commit {s = s} (insert_account user profile))
  pub put : (k : Text) (d : Bytes) → Stays R (put_object {s = s} k d)
  pub get : (k : Text) → Stays R (get_object {s = s} k)
  pub length : (c : ℕ) → Stays R (stream_length {s = s} c)
  pub uuids : (w : World s) (n : ℕ) → R w (record w { uuid_calls = n })

module _ {s : Services} {R : World s → World s → Type 0} (frame : IsFrame R) where
  module _ {A B : Type 0} {f : A → Exec (World s) B} where
    pub and_then :
        (m : Exec (World s) A) → Stays R m → ((a : A) → Stays R (f a)) → Stays R (m >>= f)
    and_then m = Stays-bind frame.order m f

  module _ {A : Type 0} where
    pub reads : (f : World s → Result A) → Stays R (λ w. (f w, w))
    reads f = record { at = λ w. frame.order.same w }

    pub returns : (a : A) → Stays R (pure a)
    returns = Stays-pure frame.order

    pub lifts : (r : Result A) → Stays R (λ w. (r, w))
    lifts = Stays-lift frame.order

  conflicts : (answer e : Error) → Stays R (conflict {s = s} answer e)
  conflicts answer integrity_error = Stays-raise frame.order answer
  conflicts answer e = Stays-raise frame.order e

  pub register-Stays : (salt : ℕ) (r : RegisterRequest) → Stays R (register {s = s} salt r)
  unfolding register
  register-Stays salt r = and_then (gets (λ w. w.db.user_seq)) (reads _) (λ id.
      and_then _
        (Stays-attempt frame.order _ _ ((frame.account (new_user s.hasher salt r) (new_profile r)))
          (conflicts already_registered))
        (λ _.
          and_then (gets (λ w. get_user id w.db)) (reads _)
            (λ found. lifts (or_error database_error found))))

  pub apply_update-Stays :
      (p : CloneProfile) (r : ProfileUpdateRequest) → Stays R (apply_update {s = s} p r)
  unfolding apply_update
  apply_update-Stays p r =
      and_then _
        (Stays-attempt frame.order _ _ ((frame.profile_row p.id (updated r)))
          (conflicts designation_taken))
        (λ _.
          and_then (gets (λ w. get_profile p.id w.db)) (reads _)
            (λ row. lifts (or_error database_error row)))

  pub update_subscription-Stays :
      (now : ℕ) (credentials : Option Text) (id : ℕ) (tier : SubscriptionTier)
      → Stays R (update_subscription {s = s} now credentials id tier)
  unfolding update_subscription admin_user load_profile
  update_subscription-Stays now credentials id tier =
      and_then (admin_user now credentials) (reads _) (λ _.
        and_then (load_profile id) (reads _) (λ p.
          and_then _ ((frame.profile_row p.id (λ q. record q { subscription_tier = tier }))) (λ _.
            and_then (gets (λ w. get_profile p.id w.db)) (reads _)
              (λ row. lifts (or_error database_error row)))))

  unless_own : (b : Bool) → Stays R (if b then raise {W = World s} own_account else pure tt)
  unless_own true = Stays-raise frame.order own_account
  unless_own false = returns tt

  pub deactivate_user-Stays :
      (now : ℕ) (credentials : Option Text) (id : ℕ)
      → Stays R (deactivate_user {s = s} now credentials id)
  unfolding deactivate_user admin_user load_user
  deactivate_user-Stays now credentials id = and_then (admin_user now credentials) (reads _) (λ a.
      and_then _ (unless_own (id == a.id)) (λ _. and_then (load_user id) (reads _) (λ u.
        and_then _ ((frame.user_row u.id (λ v. record v { is_active = false }))) (λ _.
          and_then (gets (λ w. get_user u.id w.db)) (reads _)
            (λ row. lifts (or_error database_error row))))))

  backup_key-Stays : (c : ℕ) (start end : Datetime) → Stays R (backup_key {s = s} c start end)
  unfolding backup_key
  backup_key-Stays c start end = record { at = λ w. frame.uuids w (suc w.uuid_calls) }

  detail_response-Stays : (b : MemoryBackup) → Stays R (detail_response {s = s} b)
  unfolding detail_response
  detail_response-Stays b = and_then _ (frame.get b.storage_key) (λ raw.
      and_then (lift (or_decode_error (decode_payload s.codec raw))) (lifts _)
        (λ items. returns (record { backup = b; payload = items })))

  pub read_own_backup-Stays :
      (now : ℕ) (credentials : Option Text) (id : ℕ)
      → Stays R (read_own_backup {s = s} now credentials id)
  unfolding read_own_backup load_own_backup
  read_own_backup-Stays now credentials id =
      and_then (load_own_backup now credentials id) (reads _) detail_response-Stays

  pub restore_own_backup-Stays :
      (now : ℕ) (credentials : Option Text) (id : ℕ)
      → Stays R (restore_own_backup {s = s} now credentials id)
  unfolding restore_own_backup load_own_backup refreshed
  restore_own_backup-Stays now credentials id =
      and_then (load_own_backup now credentials id) (reads _) (λ b.
        and_then _ ((frame.restored b.id now))
          (λ _. and_then (refreshed b.id) (reads _) detail_response-Stays))

  copy_backup-Stays :
      (now : ℕ) (p : CloneProfile) (latest : MemoryBackup)
      → Stays R (copy_backup {s = s} now p latest)
  unfolding copy_backup refreshed
  copy_backup-Stays now p latest = and_then _ (frame.get latest.storage_key) (λ raw.
      and_then _ (backup_key-Stays p.id (aware latest.period_start) (aware latest.period_end))
        (λ key. and_then _ (frame.put key raw) (λ _.
          and_then (gets (λ w. w.db.backup_seq)) (reads _) (λ id.
            and_then _ ((frame.backup (resurrected p latest key now)))
              (λ _. and_then (refreshed id) (reads _) detail_response-Stays)))))

  pub resurrect_from-Stays :
      (now : ℕ) (credentials : Option Text) (id : ℕ)
      → Stays R (resurrect_from {s = s} now credentials id)
  unfolding resurrect_from read_own_profile load_source
  resurrect_from-Stays now credentials id =
      and_then (read_own_profile now credentials) (reads _)
        (λ p. and_then (load_source id p) (reads _) (copy_backup-Stays now p))
