-- ===== src/LoadTests/Locust/Start.antt =====
-- A load test on the API of this program: its accounts are provisioned, and its users log in.
use mycelium_consciousness.Prelude.{
  ℕ, ◌+◌, ◌*◌, ◌<◌, ◌≤◌, Text, true, List, [], ◌∷◌, map, some, ◌≡◌, ◌≢◌, refl, All, All-map,
}
use mycelium_consciousness.Effects.{Result, ok, err, Exec, continue}
use mycelium_consciousness.Services.{Services}
use mycelium_consciousness.Services.Laws.{HasherLaws, JwtLaws}
use mycelium_consciousness.Subscriptions.{clone, second}
use mycelium_consciousness.Models.{User}
use mycelium_consciousness.Database.{Db, World, distinct, intact}
use mycelium_consciousness.Database.Unique.{intact-IsUnique}
use mycelium_consciousness.Auth.{create_access_token, timestamp}
use mycelium_consciousness.Deps.{current_clone, require_role}
use mycelium_consciousness.Accounts.{LoginRequest, login}
use mycelium_consciousness.Accounts.Login.{created_token_lem}
use mycelium_consciousness.Schemas.{valid_login}
use mycelium_consciousness.Api.{Context, Public, Response, handle, handle_public, respond}
use mycelium_consciousness.LoadTests.Provision.{register_all, range, if_any, main}
use mycelium_consciousness.LoadTests.Provision.Accounts.{
  host, IsKnown, AllKnown, register_all-IsKnown,
}
use mycelium_consciousness.LoadTests.Locust.Acts.{Served, current_clone-Served}
use mycelium_consciousness.LoadTests.Locust.{on_start}

module _ {s : Services} (hashes : HasherLaws s.hasher) (jwts : JwtLaws s.jwt) (c : Context s)
    (now salt : ℕ → ℕ) (run_id : Text) (start later : ℕ) where
  -- The API when the users start.
  abbrev later_host : Public → Exec (World s) Response
  later_host = host c (λ i. start) salt 0

  abbrev expiry : ℕ
  expiry = timestamp (start + c.ttl_minutes * 60 * second)

  -- A user with the account gets a token, which stands for an account of a clone later on, and with
  -- which the API answers the acts that read the tables.
  abbrev pub Starts : World s → LoginRequest → Type 0
  Starts w a =
      (t : Text) × ((on_start later_host a w).0 ≡ ok (some t))
      × ((user : User) × (current_clone s.jwt later (some t) w.db ≡ ok user) × (user.role ≡ clone))
      × Served (record c { now = later }) (some t) w

  of_known :
      (w : World s)
      → start ≤ later
      → timestamp later < expiry
      → distinct (map (λ u. u.id) w.db.users) ≡ true
      → (a : LoginRequest) → IsKnown hashes c now salt run_id w.db a
      → Starts w a
  unfolding on_start handle handle_public respond valid_login login current_clone require_role
  of_known w since early unique a (email, n, (user, found, verified, active, is_clone, has)) =
      let t = create_access_token s.jwt c.ttl_minutes start user.id user.role in
      let known : current_clone s.jwt later (some t) w.db ≡ ok user =
        rw
          (
            created_token_lem s.hasher s.jwt c.ttl_minutes start
                (record { email = email; password = a.password }) w.db user later jwts unique
                (record { found = found; password = verified; active = active }) since early,
            is_clone,
          )
          refl in
      (
        t,
        rw (n, found, verified, active) refl,
        (user, known, is_clone),
        current_clone-Served (record c { now = later }) (some t) w user known has,
      )

  if_any-Starts :
      (db : Db) (q : Result (List LoginRequest) × World s) (accounts : List LoginRequest)
      → AllKnown hashes c now salt run_id db q
      → let (r, w') = continue q.0 (if_any (host c now salt) run_id) q.1 in
        start ≤ later
        → timestamp later < expiry
        → intact db ≡ true
        → r ≡ ok accounts
        → (accounts ≢ []) × All (Starts w') accounts
  if_any-Starts db (ok [], w') accounts (more, known) since early i h = cc
  if_any-Starts db (ok (a ∷ rest), w') accounts ((_, _, still), known) since early i h =
      let same : accounts ≡ a ∷ rest = cc in
      rw same (
        λ e. cc,
        All-map (a ∷ rest) (of_known w' since early (intact-IsUnique w'.db (still i)).users) known,
      )
  if_any-Starts db (err x, w') accounts known since early i h = cc

  -- From tables that keep their constraints: where provisioning a load test against the API ends
  -- well, it has at least one account, and a user of the load test that starts with any of them is
  -- given a token, which stands for an account of a clone from then on until it expires. Till then, while the
  -- tables stay, its acts that only read them, `read_profile`, `list_backups` and `health`, are
  -- answered 200.
  pub main-Starts :
      (count : ℕ) (w : World s) (accounts : List LoginRequest)
      → start ≤ later
      → timestamp later < expiry
      → intact w.db ≡ true
      → (main (host c now salt) run_id count w).0 ≡ ok accounts
      → (accounts ≢ []) × All (Starts (main (host c now salt) run_id count w).1) accounts
  unfolding main
  main-Starts count w accounts =
      if_any-Starts w.db (register_all (host c now salt) run_id (range 0 count) w) accounts
        (register_all-IsKnown hashes c now salt run_id (range 0 count) w)
