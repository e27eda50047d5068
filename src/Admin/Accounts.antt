-- ===== src/Admin/Accounts.antt =====
-- Deactivating an account.
use mycelium_consciousness.Prelude.{
  other_than, ℕ, Text, Bool, false, List, [], ◌∷◌, Option, none, some, ◌≡◌, ◌≢◌, refl, sym, arith,
  ap, ◌==◌, find, update, ◌∙◌, Bool-cases, inl, inr, ==→eq,
}
use mycelium_consciousness.Effects.{database_error, ok, err, Result, continue}
use mycelium_consciousness.Effects.Binds.{lift-ends}
use mycelium_consciousness.Services.{Services}
use mycelium_consciousness.Subscriptions.{admin}
use mycelium_consciousness.Models.{User}
use mycelium_consciousness.Database.{Db, World, get_user}
use mycelium_consciousness.Database.Commit.{Commits, commit-Commits}
use mycelium_consciousness.Deps.{get_current_user, or_error, not_found, current_admin}
use mycelium_consciousness.Deps.Guards.{
  IsAuthenticated, get_current_user-IsAuthenticated, current_admin-IsAuthenticated, find-satisfies,
  or_error-eq-ok,
}
use mycelium_consciousness.Admin.{deactivate_user, update_user_row, admin_user, load_user}

abbrev switched_off : User → User
switched_off u = record u { is_active = false }

abbrev active_or : Option User → Bool → Bool
active_or none b = b
active_or (some u) b = u.is_active

find-switched_off :
    (c : ℕ) (us : List User) {u : User}
    → find (λ v. v.id == c) (update (λ v. v.id == c) switched_off us) ≡ some u
    → u.is_active ≡ false
find-switched_off c [] h = cc
find-switched_off c (v ∷ us) {u} h = elim (Bool-cases (v.id == c)) [
  | inl e ↦
      let first : some (switched_off v) ≡ some u = rw (e, e) at h in
      ap (λ o. active_or o false) (sym first)
  | inr e ↦ find-switched_off c us (rw (e, e) at h)
]

update_user_row-ok :
    (c : ℕ) (f : User → User) (db : Db) {db' : Db}
    → update_user_row c f db ≡ ok db'
    → db'.users ≡ update (λ u. u.id == c) f db.users
unfolding update_user_row
update_user_row-ok c f db h = ground arith

of_ok : {u v : User} → ok u ≡ ok v → u ≡ v
of_ok h = cc

module _ {s : Services} (now : ℕ) (credentials : Option Text) (user_id : ℕ) where
  -- The administrator that asked has another account than the one that is inactive now.
  abbrev Deactivates : World s → Result User × World s → Type 0
  Deactivates w (err e, w') = Unit
  Deactivates w (ok u, w') =
      (by : User) × IsAuthenticated s.jwt now credentials w.db by
      × (by.role ≡ admin)
      × (user_id ≢ by.id)
      × (get_user user_id w'.db ≡ some u)
      × (u.is_active ≡ false)

  Deactivates-ok :
      (w : World s) (p : Result User × World s) {u : User}
      → p.0 ≡ ok u
      → Deactivates w p
      → (by : User) × IsAuthenticated s.jwt now credentials w.db by
        × (by.role ≡ admin)
        × (user_id ≢ by.id)
        × (get_user user_id p.1.db ≡ some u)
        × (u.is_active ≡ false)
  Deactivates-ok w (err e, w') h d = cc
  Deactivates-ok w (ok v, w') h (by, a, r, o, found, off) =
      let same = of_ok h in
      (by, a, r, o, found ∙ ap some same, ap (λ x. x.is_active) (sym same) ∙ off)

  module _ (w : World s) (by user : User) where
    Asked : Type 0
    Asked =
        IsAuthenticated s.jwt now credentials w.db by
        × (by.role ≡ admin)
        × (user_id ≢ by.id)
        × (user.id ≡ user_id)

    reply :
        (w' : World s) (o : Option User)
        → Asked
        → find (λ v. v.id == user_id) w'.db.users ≡ o
        → ((u : User) → o ≡ some u → u.is_active ≡ false)
        → Deactivates w (or_error database_error o, w')
    unfolding Asked
    reply w' none asked found off = tt
    reply w' (some u) (authenticated, is_admin, other, same) found off =
        (by, authenticated, is_admin, other, found, off u refl)

    after_commit :
        (c : Result (Unit {0}) × World s)
        → Asked
        → Commits (update_user_row user.id switched_off) w c
        → Deactivates w
            (continue c.0 (λ _ w'. (or_error database_error (get_user user.id w'.db), w')) c.1)
    unfolding Asked update_user_row
    after_commit (err x, w') asked c = tt
    after_commit (ok v, w') (authenticated, is_admin, other, same) (wrote, _, _, _, _, _) =
        let here = ap (λ n. get_user n w'.db) (sym same) in
        let users = update_user_row-ok user.id switched_off w.db wrote in
        reply w' (get_user user.id w'.db) (authenticated, is_admin, other, same) here
          (λ u k.
            find-switched_off user.id w.db.users (ap (find (λ v. v.id == user.id)) (sym users) ∙ k))

  -- An account is deactivated only for an authenticated administrator with another account, and the
  -- answer is its row in the tables, inactive.
  deactivate_user-Deactivates :
      (w : World s) → Deactivates w (deactivate_user now credentials user_id w)
  unfolding deactivate_user admin_user load_user Asked
  deactivate_user-Deactivates w =
      lift-ends (Deactivates w) _ (current_admin s.jwt now credentials w.db) w (λ e h. tt)
        (λ by h. elim (Bool-cases (user_id == by.id)) [
          | inl e ↦ rw e tt
          | inr e ↦ rw e (
              lift-ends (Deactivates w) _ (or_error not_found (get_user user_id w.db)) w (λ x k. tt)
                (λ user k.
                  after_commit w by user _
                    (let (authenticated, is_admin) =
                        current_admin-IsAuthenticated s.jwt now credentials w.db by h in
                      let found = or_error-eq-ok not_found (get_user user_id w.db) k in
                      (
                        authenticated,
                        is_admin,
                        other_than user_id by.id e,
                        ==→eq user.id user_id
                            (find-satisfies (λ v. v.id == user_id) w.db.users user found),
                      ))
                    (commit-Commits _ w)))
        ])

  -- Once an account is deactivated, no token authenticates a request as it.
  pub deactivated_refused :
      (w : World s) {u : User} (later : ℕ) (token : Option Text) (v : User)
      → (deactivate_user now credentials user_id w).0 ≡ ok u
      → get_current_user s.jwt later token (deactivate_user now credentials user_id w).1.db ≡ ok v
      → v.id ≢ user_id
  deactivated_refused w {u} later token v done asked same =
      let (by, _, _, _, found, off) =
        Deactivates-ok w (deactivate_user now credentials user_id w) done
          (deactivate_user-Deactivates w) in
      let passed = get_current_user-IsAuthenticated s.jwt later token _ v asked in
      let key =
        ==→eq v.id passed.user_id
          (find-satisfies (λ x. x.id == passed.user_id) _ v passed.is_row) in
      let db' : Db = (deactivate_user {s = s} now credentials user_id w).1.db in
      let row : get_user user_id db' ≡ some v =
        ap (λ n. get_user n db') (sym same ∙ key) ∙ passed.is_row in
      cc
