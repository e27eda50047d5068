-- ===== src/Prelude/Lists.antt =====
-- Lists counted by the native numbers, and the selections that stand for WHERE clauses.
use Prim.Native.Nat.{ℕ, suc, ◌+◌, ◌≤◌}
use mathlib.Core.Path.{◌≡◌, refl, sym, ap, ◌∙◌, subst}
use mathlib.Core.Logic.{inl, inr}
use mathlib.Core.Bool.{Bool, true, false, ◌&&◌, ◌||◌}
use mathlib.Core.Option.{Option, none, some}
use mathlib.Core.List.{List, [], ◌∷◌, ◌++◌, Memᴰ}
use mathlib.Core.List.Memᴰ
use native.Mathlib.Omega.{arith}
use mycelium_consciousness.Prelude.Tests.{if◌then◌else◌, Bool-cases}

module _ {ℓ} {A : Type ℓ} where
  abbrev pub length : List A → ℕ
  length [] = 0
  length (x ∷ xs) = suc (length xs)

  -- The rows that satisfy a WHERE clause, in table order.
  abbrev pub select : (A → Bool) → List A → List A
  select p [] = []
  select p (x ∷ xs) = if p x then x ∷ select p xs else select p xs

  -- The first row that satisfies a test.
  abbrev pub find : (A → Bool) → List A → Option A
  find p [] = none
  find p (x ∷ xs) = if p x then some x else find p xs

  abbrev pub any : (A → Bool) → List A → Bool
  any p [] = false
  any p (x ∷ xs) = p x || any p xs

  abbrev pub all : (A → Bool) → List A → Bool
  all p [] = true
  all p (x ∷ xs) = p x && all p xs

  -- An UPDATE of the rows that satisfy a test.
  abbrev pub update : (A → Bool) → (A → A) → List A → List A
  update p f [] = []
  update p f (x ∷ xs) = (if p x then f x else x) ∷ update p f xs

  abbrev pub take : ℕ → List A → List A
  take n [] = []
  take Prim.Native.Nat.zero (x ∷ xs) = []
  take (suc n) (x ∷ xs) = x ∷ take n xs

  length-append : (xs ys : List A) → length (xs ++ ys) ≡ length xs + length ys
  length-append [] ys = omega arith
  length-append (x ∷ xs) ys = omega (arith, length-append xs ys)

  length-select-le : (p : A → Bool) (xs : List A) → length (select p xs) ≤ length xs
  length-select-le p [] = omega arith
  length-select-le p (x ∷ xs) = ground (arith, length-select-le p xs)

  length-take-le : (n : ℕ) (xs : List A) → length (take n xs) ≤ n
  length-take-le n [] = omega arith
  length-take-le Prim.Native.Nat.zero (x ∷ xs) = omega arith
  length-take-le (suc n) (x ∷ xs) = omega (arith, length-take-le n xs)

  pub select-append :
      (p : A → Bool) (xs ys : List A) → select p (xs ++ ys) ≡ select p xs ++ select p ys
  select-append p [] ys = refl
  select-append p (x ∷ xs) ys = ground (arith, select-append p xs ys)

module _ {ℓ κ} {A : Type ℓ} (P : A → Type κ) where
  abbrev pub All : List A → Type κ
  All [] = Unit
  All (x ∷ xs) = P x × All xs

  pub All-append : (xs ys : List A) → All xs → All ys → All (xs ++ ys)
  All-append [] ys h k = k
  All-append (x ∷ xs) ys h k = (h.0, All-append xs ys h.1 k)

  pub All-parts : (xs ys : List A) → All (xs ++ ys) → All xs × All ys
  All-parts [] ys h = (tt, h)
  All-parts (x ∷ xs) ys h = let (k, l) = All-parts xs ys h.1 in ((h.0, k), l)

  pub All-Memᴰ : {x : A} {xs : List A} → All xs → Memᴰ x xs → P x
  All-Memᴰ h (Memᴰ.head e) = subst P (sym e) h.0
  All-Memᴰ h (Memᴰ.tail m) = All-Memᴰ h.1 m

pub All-map {ℓ κ μ} :
    {A : Type ℓ} {P : A → Type κ} {Q : A → Type μ} (xs : List A)
    → ((x : A) → P x → Q x)
    → All P xs
    → All Q xs
All-map [] f h = tt
All-map (x ∷ xs) f h = (f x h.0, All-map xs f h.1)

module _ {ℓ} {A : Type ℓ} (p : A → Bool) where
  pub Memᴰ-select : {x : A} (xs : List A) → p x ≡ true → Memᴰ x xs → Memᴰ x (select p xs)
  Memᴰ-select [] h m = m
  Memᴰ-select (y ∷ ys) h (Memᴰ.head e) = rw (ap p (sym e) ∙ h) (Memᴰ.head e)
  Memᴰ-select (y ∷ ys) h (Memᴰ.tail m) = elim (Bool-cases (p y)) [
    | inl b ↦ rw b (Memᴰ.tail (Memᴰ-select ys h m))
    | inr b ↦ rw b (Memᴰ-select ys h m)
  ]

  pub Memᴰ_of_select : {x : A} (xs : List A) → Memᴰ x (select p xs) → Memᴰ x xs
  Memᴰ_of_select [] m = m
  Memᴰ_of_select (y ∷ ys) m = elim (Bool-cases (p y)) [
    | inl b ↦ elim (Memᴰ.cases_cons (rw b at m)) [
      | inl e ↦ Memᴰ.head e
      | inr k ↦ Memᴰ.tail (Memᴰ_of_select ys k)
    ]
    | inr b ↦ Memᴰ.tail (Memᴰ_of_select ys (rw b at m))
  ]

  pub select-satisfies : {x : A} (xs : List A) → Memᴰ x (select p xs) → p x ≡ true
  select-satisfies [] m = absurd (Memᴰ.not-nil m)
  select-satisfies (y ∷ ys) m = elim (Bool-cases (p y)) [
    | inl b ↦ elim (Memᴰ.cases_cons (rw b at m)) [
      | inl e ↦ ap p e ∙ b
      | inr k ↦ select-satisfies ys k
    ]
    | inr b ↦ select-satisfies ys (rw b at m)
  ]
