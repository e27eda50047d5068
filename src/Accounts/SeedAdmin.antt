-- ===== src/Accounts/SeedAdmin.antt =====
-- The account that seeding leaves.
use mycelium_consciousness.Prelude.{
  ℕ, Text, true, false, Bool, List, [], ◌∷◌, ◌++◌, Option, none, some, ◌≡◌, refl, arith, find,
  update, ◌==◌, ==_self, lower, text_eq, text_eq_self, Bool-cases, inl, inr, ltb, length, ◌≤◌,
}
use mathlib.Core.Option.{some-injective}
use mycelium_consciousness.Effects.{Result, ok, err}
use mycelium_consciousness.Services.{Services, Hasher}
use mycelium_consciousness.Services.Laws.{HasherLaws}
use mycelium_consciousness.Subscriptions.{admin}
use mycelium_consciousness.Models.{User}
use mycelium_consciousness.Database.{Db, World}
use mycelium_consciousness.Database.Commit.{Commits, commit-Commits}
use mycelium_consciousness.Auth.{verify_password}
use mycelium_consciousness.Auth.Passwords.{verify_password-hash}
use mycelium_consciousness.Accounts.{by_email, seeded, promote, seed_rows, seed_admin, main}

pub find-append :
    (p : User → Bool) (us : List User) (u : User)
    → find p us ≡ none
    → p u ≡ true
    → find p (us ++ u ∷ []) ≡ some u
find-append p [] u h e = ground arith
find-append p (v ∷ us) u h e = ground (arith, find-append p us u)

module _ (hasher : Hasher) (salt : ℕ) (email password : Text) where
  abbrev has_email : User → Bool
  has_email u = text_eq u.email (lower email)

  find-promoted :
      (us : List User) (u : User)
      → find has_email us ≡ some u
      → find has_email (update (λ v. v.id == u.id) (promote hasher salt password) us)
        ≡ some (promote hasher salt password u)
  find-promoted [] u h = cc
  find-promoted (v ∷ us) u h = elim (Bool-cases (has_email v)) [
    | inl here ↦
        let same : v ≡ u = some-injective v u (rw here at h) in
        let theirs : has_email u ≡ true = rw same at here in rw (same, ==_self u.id, theirs) refl
    | inr there ↦ ground (arith, find-promoted us u (rw there at h))
  ]

  -- An admin account that accepts the password.
  pub record IsSeeded (db : Db) (user : User) : Type 0 where
    pub found : by_email email db ≡ some user
    pub role : user.role ≡ admin
    pub active : user.is_active ≡ true
    pub accepts : verify_password hasher password user.password_hash ≡ true

  seed_rows-IsSeeded :
      (row : Option User) (db : Db) {db' : Db}
      → HasherLaws hasher
      → by_email email db ≡ row
      → seed_rows hasher salt email password row db ≡ ok db'
      → (user : User) × IsSeeded db' user
  unfolding seed_rows by_email
  seed_rows-IsSeeded none db {db'} laws f h =
      let user = seeded hasher salt email password db.user_seq db.server_now in
      let users : db'.users ≡ db.users ++ user ∷ [] = ground arith in
      (
        user,
        record {
          found = rw users (find-append has_email db.users user f (text_eq_self (lower email)));
          role = refl;
          active = refl;
          accepts = verify_password-hash hasher laws salt password;
        },
      )
  seed_rows-IsSeeded (some u) db {db'} laws f h =
      let users : db'.users ≡ update (λ v. v.id == u.id) (promote hasher salt password) db.users =
        ground arith in
      (
        promote hasher salt password u,
        record {
          found = rw users (find-promoted db.users u f);
          role = refl;
          active = refl;
          accepts = verify_password-hash hasher laws salt password;
        },
      )

module _ {s : Services} (salt : ℕ) (email password : Text) where
  of_commit :
      (row : Option User) (w : World s) (c : Result (Unit {0}) × World s)
      → HasherLaws s.hasher
      → by_email email w.db ≡ row
      → Commits (seed_rows s.hasher salt email password row) w c
      → c.0 ≡ ok tt
      → (user : User) × IsSeeded s.hasher salt email password c.1.db user
  of_commit row w (ok u, w') laws f (e, _, _, _, _, _) h =
      seed_rows-IsSeeded s.hasher salt email password row w.db laws f e
  of_commit row w (err x, w') laws f c h = cc

  -- Seeding that succeeds leaves the email with an active admin account that accepts the password,
  -- whether the account was there before or not.
  seed_admin-IsSeeded :
      (w : World s)
      → HasherLaws s.hasher
      → (seed_admin salt email password w).0 ≡ ok tt
      → (user : User) × IsSeeded s.hasher salt email password
          (seed_admin salt email password w).1.db
          user
  unfolding seed_admin
  seed_admin-IsSeeded w laws h =
      of_commit (by_email email w.db) w _ laws refl
        (commit-Commits (seed_rows s.hasher salt email password (by_email email w.db)) w) h

not_below : (a b : ℕ) → ltb a b ≡ false → b ≤ a
not_below a b h = ground arith

module _ {s : Services} (salt : ℕ) where
  -- The command that ends well was given an email and a password of at least 8 characters, and
  -- leaves the email with an active admin account that accepts the password, whether the account
  -- was there before or not.
  pub main-IsSeeded :
      (argv : List Text) (w : World s)
      → HasherLaws s.hasher
      → (main salt argv w).0 ≡ ok tt
      → (program email password : Text) × (argv ≡ program ∷ email ∷ password ∷ [])
        × (8 ≤ length password)
        × ((user : User) × IsSeeded s.hasher salt email password (main salt argv w).1.db user)
  unfolding main
  main-IsSeeded [] w laws h = cc
  main-IsSeeded (a ∷ []) w laws h = cc
  main-IsSeeded (a ∷ email ∷ []) w laws h = cc
  main-IsSeeded (a ∷ email ∷ password ∷ b ∷ rest) w laws h = cc
  main-IsSeeded (a ∷ email ∷ password ∷ []) w laws h = elim (Bool-cases (ltb (length password) 8)) [
    | inl e ↦ let bad = rw e at h in cc
    | inr e ↦ (
      a,
      email,
      password,
      refl,
      not_below (length password) 8 e,
      rw e (seed_admin-IsSeeded salt email password w laws (rw e at h)),
    )
  ]
