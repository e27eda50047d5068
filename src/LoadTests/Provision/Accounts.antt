-- ===== src/LoadTests/Provision/Accounts.antt =====
-- The accounts of a load test, on the API of this program.
use mycelium_consciousness.Prelude.{
  ℕ, Text, List, [], ◌∷◌, ◌++◌, append_assoc, append-nil, Option, none, some, ◌≡◌, refl, subst, ap,
  ◌∙◌, sym, All, Bool-cases, inl, inr, ◌==◌, ==→eq,
}
use mathlib.Core.Option.{some-injective}
use mycelium_consciousness.Effects.{Result, ok, err, Exec, continue, pure}
use mycelium_consciousness.Services.{Services}
use mycelium_consciousness.Services.Laws.{HasherLaws}
use mycelium_consciousness.Database.{Db, World}
use mycelium_consciousness.Accounts.{LoginRequest}
use mycelium_consciousness.Api.{Context, Public, register_account, Response, public, handle}
use mycelium_consciousness.LoadTests.Provision.{
  load_account, load_request, register, register_all, if_created, with_account,
}
use mycelium_consciousness.LoadTests.Provision.Register.{
  Admits, Admits-Extends, Extends, Created, register_account-Created,
}

-- The API serves each request at a moment of its own and with a salt of its own.
abbrev moment : {s : Services} → Context s → (now salt : ℕ → ℕ) → ℕ → Context s
moment c now salt index = record c { now = now index; salt = salt index }

abbrev pub host :
    {s : Services} → Context s → (now salt : ℕ → ℕ) → ℕ → Public → Exec (World s) Response
host c now salt index r w =
    let (response, w') = handle (moment c now salt index) (public r) w in (ok response, w')

module _ {s : Services} (laws : HasherLaws s.hasher) (c : Context s) (now salt : ℕ → ℕ)
    (run_id : Text) where
  -- A login with the account finds a row that lets it in.
  abbrev pub IsKnown : Db → LoginRequest → Type 0
  IsKnown db a =
      (email : Text) × (c.normalize a.email ≡ some email) × Admits s.hasher email a.password db

  IsKnown-Extends :
      (db db' : Db) → Extends db db' → (a : LoginRequest) → IsKnown db a → IsKnown db' a
  IsKnown-Extends db db' more a (email, n, known) =
      (email, n, Admits-Extends s.hasher email a.password db db' known more)

  Extends-trans : (u v w : Db) → Extends u v → Extends v w → Extends u w
  Extends-trans u v w ((xs, e), (ps, p), i) ((ys, f), (qs, q), k) = (
    (xs ++ ys, f ∙ ap (λ l. l ++ ys) e ∙ append_assoc u.users xs ys),
    (ps ++ qs, q ∙ ap (λ l. l ++ qs) p ∙ append_assoc u.profiles ps qs),
    λ h. k (i h),
  )

  -- Only what is answered 201 is kept, and that can log in.
  abbrev pub AllKnown : Db → Result (List LoginRequest) × World s → Type 0
  AllKnown db (ok accounts, w') = Extends db w'.db × All (IsKnown w'.db) accounts
  AllKnown db (err x, w') = Unit

  after_all :
      (db : Db) (account : Option LoginRequest) (w : World s)
      → Extends db w.db
      → ((a : LoginRequest) → account ≡ some a → IsKnown w.db a)
      → (q : Result (List LoginRequest) × World s) → AllKnown w.db q
      → AllKnown db (continue q.0 (λ accounts. pure (with_account account accounts)) q.1)
  after_all db none w more known (ok accounts, w') (m, k) = (Extends-trans db w.db w'.db more m, k)
  after_all db (some a) w more known (ok accounts, w') (m, k) =
      (Extends-trans db w.db w'.db more m, (IsKnown-Extends w.db w'.db m a (known a refl), k))
  after_all db account w more known (err x, w') h = tt

  abbrev served : ℕ → World s → Response × World s
  served index =
      handle (moment c now salt index) (public (register_account (load_request run_id index)))

  one-IsKnown :
      (index : ℕ) (p : Response × World s) (w : World s)
      → Created laws (moment c now salt index) (load_request run_id index) w p
      → (a : LoginRequest) → if_created (host c now salt) run_id index p.0 ≡ some a
      → IsKnown p.1.db a
  unfolding load_request
  one-IsKnown index (response, w') db (more, known) a h =
      elim (Bool-cases (response.status_code == 201)) [
        | inl e ↦
            let same : some (load_account run_id index) ≡ some a = rw e at h in
            let k = known (==→eq response.status_code 201 e) in
            subst (IsKnown w'.db) (some-injective (load_account run_id index) a same) k
        | inr e ↦ let none_made : none ≡ some a = rw e at h in cc
      ]

  pub register_all-IsKnown :
      (indices : List ℕ) (w : World s)
      → AllKnown w.db (register_all (host c now salt) run_id indices w)
  unfolding register_all register
  register_all-IsKnown [] w =
      ((([], sym (append-nil w.db.users)), ([], sym (append-nil w.db.profiles)), λ h. h), tt)
  register_all-IsKnown (index ∷ indices) w =
      let created =
        register_account-Created laws (moment c now salt index) (load_request run_id index) w in
      after_all w.db (if_created (host c now salt) run_id index (served index w).0)
        (served index w).1 created.0 (one-IsKnown index (served index w) w created) _
        (register_all-IsKnown indices (served index w).1)
