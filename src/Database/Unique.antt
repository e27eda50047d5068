-- ===== src/Database/Unique.antt =====
-- What the constraints promise of tables that a commit has accepted.
use mycelium_consciousness.Prelude.{
  ℕ, Text, Bool, true, false, not, List, [], ◌∷◌, ◌++◌, map, some, ◌≡◌, refl, arith, ◌==◌, any,
  find, text_eq, text_eq_iff, text_eq_self, Bool-cases, inl, inr, ==_self, ==→eq, &&-eq-true,
}
use mathlib.Core.Option.{some-injective}
use mycelium_consciousness.Database.{Db, intact, distinct, distinct_texts, owner_ids}

-- The unique columns of tables that break no constraint.
pub record IsUnique (db : Db) : Type 0 where
  pub users : distinct (map (λ u. u.id) db.users) ≡ true
  pub emails : distinct_texts (map (λ u. u.email) db.users) ≡ true
  pub profiles : distinct (map (λ p. p.id) db.profiles) ≡ true
  pub designations : distinct_texts (map (λ p. p.designation) db.profiles) ≡ true
  pub owners : distinct (owner_ids db) ≡ true
  pub buffers : distinct (map (λ b. b.clone_id) db.buffers) ≡ true
  pub backups : distinct (map (λ b. b.id) db.backups) ≡ true

pub intact-IsUnique : (db : Db) → intact db ≡ true → IsUnique db
unfolding intact
intact-IsUnique db h = ground arith

pub any-snoc {ℓ} :
    {A : Type ℓ} (q : A → Bool) (xs : List A) (x : A) → q x ≡ true → any q (xs ++ x ∷ []) ≡ true
any-snoc q [] x h = ground arith
any-snoc q (y ∷ xs) x h = ground (arith, any-snoc q xs x h)

-- A text that a column holds already cannot be added to it.
pub distinct_texts-repeated :
    (ts : List Text) (t : Text)
    → any (λ x. text_eq x t) ts ≡ true
    → distinct_texts (ts ++ t ∷ []) ≡ false
unfolding distinct_texts
distinct_texts-repeated [] t h = cc
distinct_texts-repeated (s ∷ ts) t h = elim (Bool-cases (text_eq s t)) [
  | inl same ↦
      let back : text_eq t s ≡ true = rw ((text_eq_iff s t).0 same) (text_eq_self t) in
      rw (any-snoc (λ x. text_eq x s) ts t back) refl
  | inr other ↦ ground (arith, distinct_texts-repeated ts t (rw other at h))
]

any-of-find {ℓ} :
    {A : Type ℓ} (key : A → ℕ) (p : A → Bool) (xs : List A) (x : A)
    → find p xs ≡ some x
    → any (λ m. m == key x) (map key xs) ≡ true
any-of-find key p [] x h = cc
any-of-find key p (y ∷ xs) x h = elim (Bool-cases (p y)) [
  | inl here ↦
      let same : y ≡ x = some-injective y x (rw here at h) in rw (same, ==_self (key x)) refl
  | inr there ↦ ground (arith, any-of-find key p xs x (rw there at h))
]

-- With unique keys, a row that any query finds is the one that its key finds.
pub find-by_key {ℓ} :
    {A : Type ℓ} (key : A → ℕ) (p : A → Bool) (xs : List A) (x : A)
    → distinct (map key xs) ≡ true
    → find p xs ≡ some x
    → find (λ y. key y == key x) xs ≡ some x
unfolding distinct
find-by_key key p [] x d h = cc
find-by_key key p (y ∷ xs) x d h = elim (Bool-cases (p y)) [
  | inl here ↦
      let same : y ≡ x = some-injective y x (rw here at h) in rw (same, ==_self (key x)) refl
  | inr there ↦
      let (unlisted, d') =
        &&-eq-true (not (any (λ m. m == key y) (map key xs))) (distinct (map key xs)) d in
      let found = any-of-find key p xs x (rw there at h) in
      let ih = find-by_key key p xs x d' (rw there at h) in
      elim (Bool-cases (key y == key x)) [
        | inl clash ↦
            let listed = rw (← ==→eq (key y) (key x) clash) at found in
            absurd (ground (arith, listed, unlisted))
        | inr apart ↦ rw apart ih
      ]
]

any-key-snoc {ℓ} :
    {A : Type ℓ} (key : A → ℕ) (n : ℕ) (xs : List A) (x : A)
    → key x == n ≡ true
    → any (λ m. m == n) (map key (xs ++ x ∷ [])) ≡ true
any-key-snoc key n [] x h = ground arith
any-key-snoc key n (y ∷ xs) x h = ground (arith, any-key-snoc key n xs x h)

-- With unique keys, the key of a row that has been added finds that row.
pub find-added {ℓ} :
    {A : Type ℓ} (key : A → ℕ) (xs : List A) (x : A)
    → distinct (map key (xs ++ x ∷ [])) ≡ true
    → find (λ y. key y == key x) (xs ++ x ∷ []) ≡ some x
unfolding distinct
find-added key [] x d = rw (==_self (key x)) refl
find-added key (y ∷ xs) x d =
    let (unlisted, d') =
      &&-eq-true (not (any (λ m. m == key y) (map key (xs ++ x ∷ []))))
        (distinct (map key (xs ++ x ∷ []))) d in
    let ih = find-added key xs x d' in
    elim (Bool-cases (key y == key x)) [
      | inl clash ↦
          let listed =
            any-key-snoc key (key y) xs x (rw (==→eq (key y) (key x) clash) (==_self (key x))) in
          absurd (ground (arith, listed, unlisted))
      | inr apart ↦ rw apart ih
    ]
