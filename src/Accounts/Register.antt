-- ===== src/Accounts/Register.antt =====
-- Self-registration.
use mycelium_consciousness.Prelude.{
  ℕ, Text, codes, true, false, List, [], ◌∷◌, ◌++◌, map, map-append, some, ◌≡◌, refl, ap, sym, ◌∙◌,
  arith, any, lower, text_eq, Bool-cases, inl, inr,
}
use mycelium_consciousness.Effects.{
  Error, integrity_error, database_error, Result, ok, err, continue, handle,
}
use mycelium_consciousness.Services.{Services, Hasher}
use mycelium_consciousness.Subscriptions.{clone, free}
use mycelium_consciousness.Auth.{hash_password}
use mycelium_consciousness.Models.{User, CloneProfile}
use mycelium_consciousness.Database.{Db, World, intact, distinct, distinct_texts, lost, get_user}
use mycelium_consciousness.Database.Commit.{Commits, commit-Commits, commit-eq-integrity_error}
use mycelium_consciousness.Database.Unique.{intact-IsUnique, find-added, distinct_texts-repeated}
use mycelium_consciousness.Deps.{or_error}
use mycelium_consciousness.Accounts.{
  RegisterRequest, new_user, new_profile, insert_account, conflict, already_registered, register,
}

true-false : true ≡ false → ⊥
true-false h = cc

any-map :
    (t : Text) (us : List User)
    → any (λ u. text_eq u.email t) us ≡ true
    → any (λ x. text_eq x t) (map (λ u. u.email) us) ≡ true
any-map t [] h = cc
any-map t (u ∷ us) h = ground (arith, any-map t us)

-- What is raised for an exception of the commit, with the world as it was.
conflict-raises :
    {s : Services} (answer x : Error) (w : World s)
    → (y : Error) × (conflict answer x w ≡ (err y, w))
conflict-raises answer integrity_error w = (answer, refl)
conflict-raises answer x w = (x, refl)

module _ (hasher : Hasher) (salt : ℕ) (payload : RegisterRequest) where
  -- The rows of a new account with what the server gives them.
  abbrev pub user_row : Db → User
  user_row db = record {
    id = db.user_seq;
    email = lower payload.email;
    password_hash = hasher.hash salt payload.password;
    role = clone;
    is_active = true;
    created_at = db.server_now;
  }

  abbrev pub profile_row : Db → CloneProfile
  profile_row db = record {
    id = db.profile_seq;
    designation = payload.designation;
    status = codes "active";
    subscription_tier = free;
    user_id = some db.user_seq;
    created_at = db.server_now;
  }

  abbrev pub account_rows : Db → Result Db
  account_rows = insert_account (new_user hasher salt payload) (new_profile payload)

  id-user_row : (db : Db) → (user_row db).id ≡ db.user_seq
  unfolding new_user
  id-user_row db = refl

  email-user_row : (db : Db) → (user_row db).email ≡ lower payload.email
  unfolding new_user
  email-user_row db = refl

  pub rows_added :
      (db : Db) {db' : Db}
      → account_rows db ≡ ok db'
      → (db'.users ≡ db.users ++ user_row db ∷ [])
        × (db'.profiles ≡ db.profiles ++ profile_row db ∷ [])
        × (db'.buffers ≡ db.buffers)
        × (db'.backups ≡ db.backups)
  unfolding insert_account new_user new_profile hash_password
  rows_added db h = ground arith

  -- The new account is found by its key.
  added_found :
      (db : Db) {db' : Db}
      → account_rows db ≡ ok db'
      → intact db' ≡ true
      → get_user db.user_seq db' ≡ some (user_row db)
  unfolding new_user
  added_found db {db'} h i =
      let users = (rows_added db h).0 in
      let unique : distinct (map (λ u. u.id) (db.users ++ user_row db ∷ [])) ≡ true =
        rw (← users) (intact-IsUnique db' i).users in
      rw users (find-added (λ u. u.id) db.users (user_row db) unique)

  -- An email that a row holds cannot be registered.
  pub repeated_email :
      (db : Db) {db' : Db}
      → any (λ u. text_eq u.email (lower payload.email)) db.users ≡ true
      → account_rows db ≡ ok db'
      → intact db' ≡ false
  unfolding new_user
  repeated_email db {db'} h e = elim (Bool-cases (intact db')) [
    | inr broken ↦ broken
    | inl whole ↦
        let emails : distinct_texts (map (λ u. u.email) (db.users ++ user_row db ∷ [])) ≡ true =
          rw (← (rows_added db e).0) (intact-IsUnique db' whole).emails in
        let repeated =
          distinct_texts-repeated (map (λ u. u.email) db.users) (lower payload.email)
            (any-map (lower payload.email) db.users h) in
        absurd (
          true-false (
            sym emails
            ∙ ap distinct_texts (map-append (λ u. u.email) db.users (user_row db ∷ []))
            ∙ repeated))
  ]

module _ {s : Services} (salt : ℕ) (payload : RegisterRequest) where
  -- One account and its profile have been added, or the tables are as they were.
  abbrev pub Registers : World s → Result User × World s → Type 0
  Registers w (ok user, w') =
      (user ≡ user_row s.hasher salt payload w.db)
      × (w'.db.users ≡ w.db.users ++ user ∷ [])
      × (w'.db.profiles ≡ w.db.profiles ++ profile_row s.hasher salt payload w.db ∷ [])
      × (w'.db.buffers ≡ w.db.buffers)
      × (w'.db.backups ≡ w.db.backups)
  Registers w (err _, w') = w'.db ≡ w.db

  after_commit :
      (w : World s) (c : Result (Unit {0}) × World s)
      → Commits (account_rows s.hasher salt payload) w c
      → Registers w (
          continue
            (handle c.0 (conflict {s = s} already_registered) c.1).0
            (λ _ v. (or_error database_error (get_user w.db.user_seq v.db), v))
            (handle c.0 (conflict {s = s} already_registered) c.1).1)
  after_commit w (ok u, w') (e, i, _, _, _, _) =
      let (users, profiles, buffers, backups) = rows_added s.hasher salt payload w.db e in
      rw (added_found s.hasher salt payload w.db e i) (refl, users, profiles, buffers, backups)
  after_commit w (err x, w') (d, _, _, _, _) =
      let (y, raised) = conflict-raises already_registered x w' in rw raised d

  -- Registration adds one account, with the role CLONE, the email in lower case and the password's
  -- hash, active, and one profile of it, active and in the free tier, and touches no other row; or
  -- it raises and changes nothing.
  pub register-Registers : (w : World s) → Registers w (register salt payload w)
  unfolding register
  register-Registers w = after_commit w _ (commit-Commits (account_rows s.hasher salt payload) w)

  -- With a connection to the database, registering an email that an account has already, in any
  -- case of its letters, is answered 409.
  register_repeated :
      (w : World s)
      → lost w.outages ≡ false
      → any (λ u. text_eq u.email (lower payload.email)) w.db.users ≡ true
      → (register salt payload w).0 ≡ err already_registered
  unfolding register insert_account
  register_repeated w l h = rw (
      commit-eq-integrity_error (account_rows s.hasher salt payload) w l refl
        (repeated_email s.hasher salt payload w.db h refl))
