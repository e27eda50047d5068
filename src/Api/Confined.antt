-- ===== src/Api/Confined.antt =====
-- What every step of a request keeps, the request keeps.
use mycelium_consciousness.Prelude.{
  suc, Bool-cases, inl, inr, ℕ, Text, Bool, true, false, Option, ◌≡◌, refl, arith, take,
}
use mycelium_consciousness.Effects.{http, Result, ok, err, gets, lift, ◌>>=◌}
use mycelium_consciousness.Effects.Stays.{Stays}
use mycelium_consciousness.Services.{Services}
use mycelium_consciousness.Database.{World}
use mycelium_consciousness.Schemas.{valid_register, valid_login, valid_update}
use mycelium_consciousness.Accounts.{login}
use mycelium_consciousness.Home.{clone_home, admin_home}
use mycelium_consciousness.Profiles.{
  current_user, read_own_profile, load, read_profile, list_profiles, visible_profiles, by_id,
}
use mycelium_consciousness.Memories.{stream_status, list_own_backups, listed_backups, valid_limit}
use mycelium_consciousness.Admin.{
  list_users, list_clones, list_clone_backups, registry_stats, admin_user, users_by_id,
}
use mycelium_consciousness.Api.Frames.{
  IsFrame, and_then, reads, returns, lifts, register-Stays, apply_update-Stays,
  update_subscription-Stays, deactivate_user-Stays, read_own_backup-Stays, restore_own_backup-Stays,
  resurrect_from-Stays,
}
use mycelium_consciousness.Api.{
  Context, Public, register_account, log_in, health_check, ForUser, read_current_user,
  list_own_profiles, read_profile_of, update_profile_of, ForClone, clone_console, read_profile_me,
  status_me, update_profile_me, write_me, backups_me, backup_me, restore_me, resurrect_me, ForAdmin,
  operator_console, stats_all, users_all, clones_all, subscribe, backups_all, rollup_now,
  deactivate, Request, public, for_user, for_clone, for_admin, handle_public, handle_user,
  handle_clone, handle_admin, handler, Body, handle, respond,
}

-- The requests that write to a stream or roll a buffer up.
unfoldable pub moves_memories : Request → Bool
moves_memories (for_clone credentials (write_me r)) = true
moves_memories (for_admin credentials (rollup_now id)) = true
moves_memories _ = false

-- Answering changes at most the number of uuids drawn.
pub respond-world :
    {s : Services} (c : Context s) (r : Result (ℕ × Body)) (w : World s)
    → let w' = (respond c (r, w)).1 in
      (w'.db ≡ w.db) × (w'.redis ≡ w.redis) × (w'.outages ≡ w.outages) × (w'.bucket ≡ w.bucket)
unfolding respond
respond-world c (ok (n, b)) w = (refl, refl, refl, refl)
respond-world c (err (http n text)) w = (refl, refl, refl, refl)
respond-world c (err e) w = ground arith

module _ {s : Services} {R : World s → World s → Type 0} (frame : IsFrame R) (c : Context s) where
  handle_public-Stays : (r : Public) → Stays R (handle_public c r)
  unfolding handle_public
  handle_public-Stays (register_account r) =
      and_then frame (lift (valid_register c.normalize r)) (lifts frame _)
        (λ payload. and_then frame _ (register-Stays frame c.salt payload) (λ u. returns frame _))
  handle_public-Stays (log_in r) =
      and_then frame (lift (valid_login c.normalize r)) (lifts frame _) (λ payload.
        and_then frame (λ w. (login s.hasher s.jwt c.ttl_minutes c.now payload w.db, w))
          (reads frame _) (λ t. returns frame _))
  handle_public-Stays health_check = returns frame _

  module _ (credentials : Option Text) where
    handle_user-Stays : (r : ForUser) → Stays R (handle_user c credentials r)
    unfolding handle_user current_user load list_profiles read_profile
    handle_user-Stays read_current_user =
        and_then frame (current_user c.now credentials) (reads frame _) (λ u. returns frame _)
    handle_user-Stays list_own_profiles =
        and_then frame (list_profiles c.now credentials)
          (and_then frame (current_user c.now credentials) (reads frame _)
            (λ u. reads frame (λ w. ok (visible_profiles u w.db))))
          (λ ps. returns frame _)
    handle_user-Stays (read_profile_of id) =
        and_then frame (read_profile c.now credentials id)
          (and_then frame (current_user c.now credentials) (reads frame _)
            (λ u. reads frame (λ w. (load id u w).0)))
          (λ p. returns frame _)
    handle_user-Stays (update_profile_of id r) =
        and_then frame (current_user c.now credentials) (reads frame _) (λ u.
          and_then frame (lift (valid_update r)) (lifts frame _) (λ payload.
            and_then frame (load id u) (reads frame _)
              (λ p. and_then frame _ (apply_update-Stays frame p payload) (λ q. returns frame _))))

    stream_status-Stays : Stays R (stream_status {s = s} c.now credentials)
    unfolding stream_status read_own_profile
    stream_status-Stays =
        and_then frame (read_own_profile c.now credentials) (reads frame _) (λ p. frame.length p.id)

    handle_clone-Stays :
        (r : ForClone)
        → moves_memories (for_clone credentials r) ≡ false
        → Stays R (handle_clone c credentials r)
    unfolding handle_clone moves_memories read_own_profile list_own_backups
    handle_clone-Stays clone_console h =
        and_then frame (λ w. (clone_home s.jwt c.now credentials w.db, w)) (reads frame _)
          (λ d. returns frame _)
    handle_clone-Stays read_profile_me h =
        and_then frame (read_own_profile c.now credentials) (reads frame _) (λ p. returns frame _)
    handle_clone-Stays status_me h = and_then frame _ stream_status-Stays (λ n. returns frame _)
    handle_clone-Stays (update_profile_me r) h =
        and_then frame (read_own_profile c.now credentials) (reads frame _) (λ p.
          and_then frame (lift (valid_update r)) (lifts frame _) (λ payload.
            and_then frame _ (apply_update-Stays frame p payload) (λ q. returns frame _)))
    handle_clone-Stays (write_me r) h = cc
    handle_clone-Stays (backups_me limit) h =
        and_then frame (list_own_backups c.now credentials limit)
          (and_then frame (read_own_profile c.now credentials) (reads frame _) (λ p.
            and_then frame (lift (valid_limit 200 limit)) (lifts frame _)
              (λ n. reads frame (λ w. ok (listed_backups p.id n w.db)))))
          (λ bs. returns frame _)
    handle_clone-Stays (backup_me id) h =
        and_then frame _ (read_own_backup-Stays frame c.now credentials id) (λ d. returns frame _)
    handle_clone-Stays (restore_me id) h =
        and_then frame _ (restore_own_backup-Stays frame c.now credentials id)
          (λ d. returns frame _)
    handle_clone-Stays (resurrect_me id) h =
        and_then frame _ (resurrect_from-Stays frame c.now credentials id) (λ d. returns frame _)

    -- A listing for administrators: the guard, the limit and the query.
    listing-Stays :
        {A : Type 0} (most limit : ℕ) (query : ℕ → World s → A)
        → Stays R (
            admin_user {s = s} c.now credentials >>= λ _.
            lift (valid_limit most limit) >>= λ n. gets (query n))
    unfolding admin_user
    listing-Stays most limit query =
        and_then frame (admin_user c.now credentials) (reads frame _) (λ _.
          and_then frame (lift (valid_limit most limit)) (lifts frame _)
            (λ n. reads frame (λ w. ok (query n w))))

    handle_admin-Stays :
        (r : ForAdmin)
        → moves_memories (for_admin credentials r) ≡ false
        → Stays R (handle_admin c credentials r)
    unfolding handle_admin moves_memories list_users list_clones list_clone_backups registry_stats
        admin_user
    handle_admin-Stays operator_console h =
        and_then frame (λ w. (admin_home s.jwt c.now credentials w.db, w)) (reads frame _)
          (λ d. returns frame _)
    handle_admin-Stays stats_all h =
        and_then frame (registry_stats c.now credentials)
          (and_then frame (admin_user c.now credentials) (reads frame _) (λ _. reads frame _))
          (λ n. returns frame _)
    handle_admin-Stays (users_all limit) h =
        and_then frame (list_users c.now credentials limit)
          (listing-Stays 500 limit (λ n w. take n (users_by_id w.db.users))) (λ us. returns frame _)
    handle_admin-Stays (clones_all limit) h =
        and_then frame (list_clones c.now credentials limit)
          (listing-Stays 500 limit (λ n w. take n (by_id w.db.profiles))) (λ ps. returns frame _)
    handle_admin-Stays (subscribe id tier) h =
        and_then frame _ (update_subscription-Stays frame c.now credentials id tier)
          (λ p. returns frame _)
    handle_admin-Stays (backups_all id limit) h =
        and_then frame (list_clone_backups c.now credentials id limit)
          (listing-Stays 200 limit (λ n w. listed_backups id n w.db)) (λ bs. returns frame _)
    handle_admin-Stays (rollup_now id) h = cc
    handle_admin-Stays (deactivate id) h =
        and_then frame _ (deactivate_user-Stays frame c.now credentials id) (λ u. returns frame _)

  handler-Stays : (r : Request) → moves_memories r ≡ false → Stays R (handler c r)
  handler-Stays (public r) h = handle_public-Stays r
  handler-Stays (for_user credentials r) h = handle_user-Stays credentials r
  handler-Stays (for_clone credentials r) h = handle_clone-Stays credentials r h
  handler-Stays (for_admin credentials r) h = handle_admin-Stays credentials r h

  -- Answering draws at most a uuid.
  respond-keeps :
      (v : World s) (r : Result (ℕ × Body)) (w : World s) → R v w → R v (respond c (r, w)).1
  unfolding respond
  respond-keeps v (ok (n, b)) w h = h
  respond-keeps v (err (http n text)) w h = h
  respond-keeps v (err e) w h = elim (Bool-cases c.debug) [
    | inl d ↦ rw d h
    | inr d ↦ rw d (frame.order.then_by v w _ h (frame.uuids w (suc w.uuid_calls)))
  ]

  -- A request that neither writes a memory nor rolls a buffer up keeps what each of its steps keeps.
  pub handle-Stays : (r : Request) (w : World s) → moves_memories r ≡ false → R w (handle c r w).1
  unfolding handle
  handle-Stays r w h = respond-keeps w _ _ ((handler-Stays r h).at w)
