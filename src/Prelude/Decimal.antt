-- ===== src/Prelude/Decimal.antt =====
-- `str(n)` of a natural number, and `int(s)` of a text of decimal digits. It reads what the program
-- itself prints; `Prelude/Integers` has the other forms that Python's `int` takes.
use Prim.Native.Nat.{ℕ, zero, suc, ◌+◌, ◌-◌, ◌*◌, ◌/◌, ◌%◌, ◌<◌}
use mathlib.Core.Path.{◌≡◌, refl, ◌∙◌}
use mathlib.Core.Bool.{Bool, true, ◌&&◌}
use mathlib.Core.Option.{Option, none, some}
use mathlib.Core.List.{[], ◌∷◌, ◌++◌}
use native.Mathlib.Omega.{arith}
use mycelium_consciousness.Prelude.Tests.{ltb, leb, if◌then◌else◌}
use mycelium_consciousness.Prelude.Lists.{all}
use mycelium_consciousness.Prelude.Texts.{Text}

digits : ℕ → ℕ → Text
digits zero n = []
digits (suc f) n =
    let most = digits f (n / 10) in if ltb n 10 then (48 + n) ∷ [] else most ++ (48 + n % 10) ∷ []

-- `str(n)`; a number has fewer digits than it counts.
unfoldable pub str_of : ℕ → Text
unfolding digits
str_of n = digits (suc n) n

abbrev pub is_digit : ℕ → Bool
is_digit c = leb 48 c && leb c 57

unfoldable pub int_from : ℕ → Text → Option ℕ
int_from acc [] = some acc
int_from acc (c ∷ s) = if is_digit c then int_from (acc * 10 + (c - 48)) s else none

-- `int(s)`; `none` is a ValueError.
unfoldable pub int_of : Text → Option ℕ
unfolding int_from
int_of [] = none
int_of (c ∷ s) = int_from 0 (c ∷ s)

int_from-snoc :
    (s : Text) (c acc n : ℕ)
    → int_from acc s ≡ some n
    → c < 10
    → int_from acc (s ++ (48 + c) ∷ []) ≡ some (n * 10 + c)
unfolding int_from
int_from-snoc [] c acc n h p = ground arith
int_from-snoc (d ∷ s) c acc n h p = ground (arith, int_from-snoc s c (acc * 10 + (d - 48)) n)

int_from-digits : (f n : ℕ) → n < f → int_from 0 (digits f n) ≡ some n
unfolding digits int_from
int_from-digits zero n h = elim h [ ]
int_from-digits (suc f) n h =
    ground
      (arith, int_from-digits f (n / 10), int_from-snoc (digits f (n / 10)) (n % 10) 0 (n / 10))

-- What `str` prints is not empty, and all of it is digits.
all-append-digit :
    (s : Text) (c : ℕ) → all is_digit s ≡ true → c < 10 → all is_digit (s ++ (48 + c) ∷ []) ≡ true
all-append-digit [] c h p = ground arith
all-append-digit (d ∷ s) c h p = ground (arith, all-append-digit s c)

digits-all : (f n : ℕ) → all is_digit (digits f n) ≡ true
unfolding digits
digits-all zero n = refl
digits-all (suc f) n =
    ground (arith, digits-all f (n / 10), all-append-digit (digits f (n / 10)) (n % 10))

pub str_of-all : (n : ℕ) → all is_digit (str_of n) ≡ true
unfolding str_of
str_of-all n = digits-all (suc n) n

int_of-snoc : (t : Text) (c : ℕ) → int_of (t ++ c ∷ []) ≡ int_from 0 (t ++ c ∷ [])
unfolding int_of
int_of-snoc [] c = refl
int_of-snoc (d ∷ t) c = refl

int_of-digits : (f n : ℕ) → int_of (digits (suc f) n) ≡ int_from 0 (digits (suc f) n)
unfolding digits
int_of-digits f n =
    ground (arith, int_of-snoc [] (48 + n), int_of-snoc (digits f (n / 10)) (48 + n % 10))

-- `int(str(n))` is `n`.
pub int_of-str_of : (n : ℕ) → int_of (str_of n) ≡ some n
unfolding str_of
int_of-str_of n = int_of-digits n n ∙ int_from-digits (suc n) n (omega arith)

-- Different numbers print differently.
pub str_of-injective : (m n : ℕ) → str_of m ≡ str_of n → m ≡ n
str_of-injective m n e = ground (arith, int_of-str_of m, int_of-str_of n, e)
