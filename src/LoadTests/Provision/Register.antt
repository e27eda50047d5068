-- ===== src/LoadTests/Provision/Register.antt =====
-- What a registration over HTTP leaves.
use mycelium_consciousness.Prelude.{
  ℕ, Text, true, false, Bool, List, [], ◌∷◌, ◌++◌, append-nil, Option, none, some, ◌≡◌, ◌⊎◌, inl,
  inr, refl, ap, sym, ◌∙◌, arith, any, find, lower, subst, text_eq, text_eq_self, Bool-cases,
  ==_self,
}
use mycelium_consciousness.Effects.{Error, Result, ok, err, continue, database_error}
use mycelium_consciousness.Services.{Services, Hasher}
use mycelium_consciousness.Services.Laws.{HasherLaws}
use mycelium_consciousness.Subscriptions.{clone}
use mycelium_consciousness.Models.{User, CloneProfile}
use mycelium_consciousness.Database.{Db, World, commit, intact}
use mycelium_consciousness.Database.Unique.{any-snoc}
use mycelium_consciousness.Deps.{owned_by}
use mycelium_consciousness.Auth.{hash_password, verify_password}
use mycelium_consciousness.Auth.Passwords.{verify_password-hash}
use mycelium_consciousness.Accounts.{
  RegisterRequest, register, insert_account, new_user, new_profile, by_email, already_registered,
}
use mycelium_consciousness.Accounts.Register.{
  account_rows, user_row, profile_row, repeated_email, rows_added, Registers, register-Registers,
}
use mycelium_consciousness.Accounts.SeedAdmin.{find-append}
use mycelium_consciousness.Schemas.{valid_register, sized, unprocessable, user_response}
use mycelium_consciousness.Api.Confined.{respond-world}
use mycelium_consciousness.Api.{
  Context, Response, Body, public, register_account, handle_public, respond,
}
use mycelium_consciousness.Api as Api

find-none : (p : User → Bool) (us : List User) → any p us ≡ false → find p us ≡ none
find-none p [] h = refl
find-none p (u ∷ us) h = ground (arith, find-none p us)

find-more :
    (p : User → Bool) (us vs : List User) (u : User)
    → find p us ≡ some u
    → find p (us ++ vs) ≡ some u
find-more p [] vs u h = cc
find-more p (v ∷ us) vs u h = ground (arith, find-more p us vs u)

module _ (normalize : Text → Option Text) (r : RegisterRequest) where
  abbrev IsValid : Result RegisterRequest → Type 0
  IsValid (ok p) = (normalize r.email ≡ some p.email) × (p.password ≡ r.password)
  IsValid (err x) = x ≡ unprocessable

  valid_register-IsValid : IsValid (valid_register normalize r)
  unfolding valid_register sized
  valid_register-IsValid = ground arith

module _ {s : Services} (salt : ℕ) (p : RegisterRequest) (w : World s) where
  abbrev Outcome : Result User × World s → Type 0
  Outcome (ok u, w') = (account_rows s.hasher salt p w.db ≡ ok w'.db) × (intact w'.db ≡ true)
  Outcome (err x, w') = (x ≡ already_registered) ⊎ (x ≡ database_error)

  register-Outcome : Outcome (register salt p w)
  unfolding register commit insert_account
  register-Outcome = ground arith

any-more {ℓ} :
    {A : Type ℓ} (p : A → Bool) (xs ys : List A) → any p xs ≡ true → any p (xs ++ ys) ≡ true
any-more p [] ys h = cc
any-more p (x ∷ xs) ys h = ground (arith, any-more p xs ys)

-- Accounts and profiles are added at most, and the constraints hold on.
abbrev pub Extends : Db → Db → Type 0
Extends db db' =
    ((us : List User) × (db'.users ≡ db.users ++ us))
    × ((ps : List CloneProfile) × (db'.profiles ≡ db.profiles ++ ps))
    × (intact db ≡ true → intact db' ≡ true)

module _ (hasher : Hasher) (email password : Text) where
  -- An active account of a clone with the email, which accepts the password and has a profile.
  abbrev pub Admits : Db → Type 0
  Admits db =
      (user : User) × (by_email email db ≡ some user)
      × (verify_password hasher password user.password_hash ≡ true)
      × (user.is_active ≡ true)
      × (user.role ≡ clone)
      × (any (owned_by user.id) db.profiles ≡ true)

  pub Admits-Extends : (db db' : Db) → Admits db → Extends db db' → Admits db'
  unfolding by_email
  Admits-Extends db db' (user, found, verified, active, is_clone, has) ((us, e), (ps, f), _) = (
    user,
    ap (find (λ u. text_eq u.email (lower email))) e
        ∙ find-more (λ u. text_eq u.email (lower email)) db.users us user found,
    verified,
    active,
    is_clone,
    rw f (any-more (owned_by user.id) db.profiles ps has),
  )

module _ {s : Services} where
  module _ (laws : HasherLaws s.hasher) (c : Context s) (r : RegisterRequest) (w : World s) where
    -- No account has gone, and an answer 201 is for an account that a login finds.
    abbrev pub Created : Response × World s → Type 0
    Created (response, w') =
        Extends w.db w'.db
        × (response.status_code ≡ 201
            → (email : Text) × (c.normalize r.email ≡ some email)
              × Admits s.hasher email r.password w'.db)

    admitted :
        (p : RegisterRequest) {db' : Db}
        → account_rows s.hasher c.salt p w.db ≡ ok db'
        → intact db' ≡ true
        → Admits s.hasher p.email p.password db'
    unfolding by_email new_user new_profile insert_account hash_password
    admitted p {db'} e i =
        elim (Bool-cases (any (λ u. text_eq u.email (lower p.email)) w.db.users)) [
          | inl known ↦ let broken = repeated_email s.hasher c.salt p w.db known e in cc
          | inr fresh ↦ (
            user_row s.hasher c.salt p w.db,
            ap (find (λ u. text_eq u.email (lower p.email))) (rows_added s.hasher c.salt p w.db e).0
                ∙ find-append (λ u. text_eq u.email (lower p.email)) w.db.users
                    (user_row s.hasher c.salt p w.db) (find-none _ w.db.users fresh)
                    (text_eq_self (lower p.email)),
            verify_password-hash s.hasher laws c.salt p.password,
            refl,
            refl,
            rw (rows_added s.hasher c.salt p w.db e).1 (
                any-snoc _ w.db.profiles (profile_row s.hasher c.salt p w.db)
                  (==_self w.db.user_seq)),
          )
        ]

    abbrev Refusal : Error → Type 0
    Refusal x = (x ≡ unprocessable) ⊎ ((x ≡ already_registered) ⊎ (x ≡ database_error))

    not_created :
        (x : Error) (w' : World s) → Refusal x → (respond c (err x, w')).0.status_code ≡ 201 → ⊥
    unfolding respond
    not_created x w' (inl e) k =
        let bad = subst (λ y. (respond c (err y, w')).0.status_code ≡ 201) e k in omega (arith, bad)
    not_created x w' (inr (inl e)) k =
        let bad = subst (λ y. (respond c (err y, w')).0.status_code ≡ 201) e k in omega (arith, bad)
    not_created x w' (inr (inr e)) k =
        let bad = subst (λ y. (respond c (err y, w')).0.status_code ≡ 201) e k in
        elim (Bool-cases c.debug) [
          | inl d ↦ let b : 500 ≡ 201 = rw d at bad in omega (arith, b)
          | inr d ↦ let b : 500 ≡ 201 = rw d at bad in omega (arith, b)
        ]

    refused :
        (x : Error) → Refusal x → (w' : World s) → w'.db ≡ w.db → Created (respond c (err x, w'))
    refused x h w' d = (
      (
        ([], ap (λ db. db.users) ((respond-world c (err x) w').0 ∙ d) ∙ sym (append-nil _)),
        ([], ap (λ db. db.profiles) ((respond-world c (err x) w').0 ∙ d) ∙ sym (append-nil _)),
        λ i. ap intact ((respond-world c (err x) w').0 ∙ d) ∙ i,
      ),
      λ k. absurd (not_created x w' h k),
    )

    after_register :
        (p : RegisterRequest)
        → c.normalize r.email ≡ some p.email
        → p.password ≡ r.password
        → (q : Result User × World s) → Registers {s = s} c.salt p w q
        → Outcome c.salt p w q
        → Created (respond c (continue q.0 (λ u v. (ok (201, Body.user (user_response u)), v)) q.1))
    unfolding respond
    after_register p n same (ok u, w') (_, users, profiles, _, _) (e, i) = (
      ((u ∷ [], users), (_ ∷ [], profiles), λ _. i),
      λ _. (p.email, n, rw (← same) (admitted p e i)),
    )
    after_register p n same (err x, w') d o = refused x (inr o) w' d

    pub register_account-Created : Created (Api.handle c (public (register_account r)) w)
    unfolding Api.handle handle_public
    register_account-Created = by_valid _ (valid_register-IsValid c.normalize r)
      where
        by_valid :
            (v : Result RegisterRequest)
            → IsValid c.normalize r v
            → Created (
                respond c (
                  continue v
                    (λ p. λ w.
                      continue
                        (register c.salt p w).0
                        (λ u v. (ok (201, Body.user (user_response u)), v))
                        (register c.salt p w).1)
                    w))
        by_valid (ok p) (n, same) =
            after_register p n same (register c.salt p w) (register-Registers c.salt p w)
              (register-Outcome c.salt p w)
        by_valid (err x) h = refused x (inl h) w refl
