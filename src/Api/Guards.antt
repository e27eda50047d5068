-- ===== src/Api/Guards.antt =====
-- What is answered to a request that its guard refuses.
use mycelium_consciousness.Prelude.{
  Text, codes, false, [], ◌∷◌, Option, none, some, ◌≡◌, refl, ap, ◌∙◌, arith,
}
use mycelium_consciousness.Effects.{Error, Result, ok, err, ◌>>?◌}
use mycelium_consciousness.Services.{Services}
use mycelium_consciousness.Subscriptions.{UserRole, admin, clone}
use mycelium_consciousness.Models.{User}
use mycelium_consciousness.Database.{Db, World}
use mycelium_consciousness.Deps.{
  get_current_user, unauthorized, forbidden, current_admin, current_clone, own_profile, own_backup,
  require_role, same_role,
}
use mycelium_consciousness.Deps.Guards.{get_current_user-unauthorized}
use mycelium_consciousness.Home.{clone_home, admin_home}
use mycelium_consciousness.Profiles.{current_user, read_own_profile, read_profile, list_profiles}
use mycelium_consciousness.Memories.{
  write_memory, stream_status, list_own_backups, read_own_backup, restore_own_backup,
  resurrect_from, load_own_backup,
}
use mycelium_consciousness.Admin.{
  list_users, list_clones, update_subscription, list_clone_backups, trigger_rollup, deactivate_user,
  registry_stats, admin_user,
}
use mycelium_consciousness.Api.{
  Context, Request, public, for_user, for_clone, for_admin, ForUser, read_current_user,
  list_own_profiles, read_profile_of, update_profile_of, ForClone, clone_console, read_profile_me,
  status_me, update_profile_me, write_me, backups_me, backup_me, restore_me, resurrect_me, ForAdmin,
  operator_console, stats_all, users_all, clones_all, subscribe, backups_all, rollup_now,
  deactivate, detail, Response, handle_user, handle_clone, handle_admin, respond, handle,
}

-- The answers 401 and 403.
abbrev pub not_authenticated : Response
not_authenticated = record { status_code = 401; body = detail (codes "Not authenticated") }

abbrev pub insufficient : Response
insufficient = record { status_code = 403; body = detail (codes "Insufficient privileges") }

module _ {s : Services} (c : Context s) (credentials : Option Text) (w : World s) (e : Error) where
  clone_refused :
      current_clone s.jwt c.now credentials w.db ≡ err e
      → (r : ForClone) → handle_clone c credentials r w ≡ (err e, w)
  unfolding handle_clone clone_home read_own_profile own_profile write_memory stream_status
      list_own_backups read_own_backup restore_own_backup resurrect_from load_own_backup own_backup
  clone_refused h clone_console = rw h refl
  clone_refused h read_profile_me = rw h refl
  clone_refused h status_me = rw h refl
  clone_refused h (update_profile_me r) = rw h refl
  clone_refused h (write_me r) = rw h refl
  clone_refused h (backups_me limit) = rw h refl
  clone_refused h (backup_me id) = rw h refl
  clone_refused h (restore_me id) = rw h refl
  clone_refused h (resurrect_me id) = rw h refl

  admin_refused :
      current_admin s.jwt c.now credentials w.db ≡ err e
      → (r : ForAdmin) → handle_admin c credentials r w ≡ (err e, w)
  unfolding handle_admin admin_home admin_user list_users list_clones update_subscription
      list_clone_backups trigger_rollup deactivate_user registry_stats
  admin_refused h operator_console = rw h refl
  admin_refused h stats_all = rw h refl
  admin_refused h (users_all limit) = rw h refl
  admin_refused h (clones_all limit) = rw h refl
  admin_refused h (subscribe id tier) = rw h refl
  admin_refused h (backups_all id limit) = rw h refl
  admin_refused h (rollup_now id) = rw h refl
  admin_refused h (deactivate id) = rw h refl

  user_refused :
      get_current_user s.jwt c.now credentials w.db ≡ err e
      → (r : ForUser) → handle_user c credentials r w ≡ (err e, w)
  unfolding handle_user current_user list_profiles read_profile
  user_refused h read_current_user = rw h refl
  user_refused h list_own_profiles = rw h refl
  user_refused h (read_profile_of id) = rw h refl
  user_refused h (update_profile_of id r) = rw h refl

-- Whom a request comes from, if its endpoint is not for everyone.
unfoldable pub caller : {s : Services} → Context s → Request → Db → Option (Result User)
caller {s} c (public r) db = none
caller {s} c (for_user credentials r) db = some (get_current_user s.jwt c.now credentials db)
caller {s} c (for_clone credentials r) db = some (get_current_user s.jwt c.now credentials db)
caller {s} c (for_admin credentials r) db = some (get_current_user s.jwt c.now credentials db)

-- The role that an endpoint asks for.
abbrev role_for : Request → Option UserRole
role_for (for_clone credentials r) = some clone
role_for (for_admin credentials r) = some admin
role_for _ = none

of_role-forbidden :
    (role : UserRole) (u : User) (r : Result User)
    → some r ≡ some (ok u)
    → same_role u.role role ≡ false
    → (r >>? require_role (role ∷ [])) ≡ err forbidden
unfolding require_role
of_role-forbidden role u r h wrong = ground arith

module _ {s : Services} (c : Context s) (credentials : Option Text) (w : World s) where
  unauthenticated :
      (e : Error)
      → some (get_current_user s.jwt c.now credentials w.db) ≡ some (err e)
      → get_current_user s.jwt c.now credentials w.db ≡ err unauthorized
  unauthenticated e h =
      let at : get_current_user s.jwt c.now credentials w.db ≡ err e = cc in
      at ∙ ap err (get_current_user-unauthorized s.jwt c.now credentials w.db e at)

module _ {s : Services} (c : Context s) (w : World s) where
  -- A request to an endpoint that is not for everyone, whose caller is not authenticated, is
  -- answered 401 "Not authenticated", and nothing is changed: no table, no stream and no object.
  pub handle-NotAuthenticated :
      (r : Request) (e : Error)
      → caller c r w.db ≡ some (err e)
      → handle c r w ≡ (not_authenticated, w)
  unfolding caller handle respond current_clone current_admin
  handle-NotAuthenticated (public r) e h = cc
  handle-NotAuthenticated (for_user credentials r) e h =
      rw (user_refused c credentials w unauthorized (unauthenticated c credentials w e h) r) refl
  handle-NotAuthenticated (for_clone credentials r) e h =
      rw
        (clone_refused c credentials w unauthorized (rw (unauthenticated c credentials w e h) refl)
          r)
        refl
  handle-NotAuthenticated (for_admin credentials r) e h =
      rw
        (admin_refused c credentials w unauthorized (rw (unauthenticated c credentials w e h) refl)
          r)
        refl

  -- A request of an authenticated account whose role is not the one that the endpoint asks for is
  -- answered 403 "Insufficient privileges", and nothing is changed.
  pub handle-Insufficient :
      (r : Request) (u : User) (role : UserRole)
      → caller c r w.db ≡ some (ok u)
      → role_for r ≡ some role
      → same_role u.role role ≡ false
      → handle c r w ≡ (insufficient, w)
  unfolding caller handle respond current_clone current_admin
  handle-Insufficient (public r) u role h asked wrong = cc
  handle-Insufficient (for_user credentials r) u role h asked wrong = cc
  handle-Insufficient (for_clone credentials r) u role h asked wrong =
      let is_clone : same_role u.role clone ≡ false = cc in
      rw (clone_refused c credentials w forbidden (of_role-forbidden clone u _ h is_clone) r) refl
  handle-Insufficient (for_admin credentials r) u role h asked wrong =
      let is_admin : same_role u.role admin ≡ false = cc in
      rw (admin_refused c credentials w forbidden (of_role-forbidden admin u _ h is_admin) r) refl
