-- ===== src/Prelude/Integers.antt =====
-- `int(s)` of a text, as Python reads it: white space around it, a sign, decimal digits of any
-- script and single underscores between them.
use Prim.Native.Nat.{ℕ, ◌+◌, ◌-◌, ◌*◌}
use mathlib.Core.Path.{◌≡◌, refl, ap, ◌∙◌}
use mathlib.Core.Bool.{Bool, true, false, ◌&&◌, ◌||◌}
use mathlib.Core.Option.{Option, none, some}
use mathlib.Core.List.{List, [], ◌∷◌}
use native.Mathlib.Omega.{arith}
use mycelium_consciousness.Prelude.Tests.{leb, ◌==◌, if◌then◌else◌}
use mycelium_consciousness.Prelude.Lists.{all}
use mycelium_consciousness.Prelude.Texts.{Text}
use mycelium_consciousness.Prelude.Decimal.{
  is_digit, int_of, int_from, str_of, str_of-all, int_of-str_of,
}

-- The zeros of the other scripts; their digits follow them.
other_zeros : List ℕ
other_zeros =
    1632 ∷ 1776 ∷ 1984 ∷ 2406 ∷ 2534 ∷ 2662 ∷ 2790 ∷ 2918 ∷ 3046 ∷ 3174 ∷ 3302 ∷ 3430 ∷ 3558 ∷ 3664
    ∷ 3792 ∷ 3872 ∷ 4160 ∷ 4240 ∷ 6112 ∷ 6160 ∷ 6470 ∷ 6608 ∷ 6784 ∷ 6800 ∷ 6992 ∷ 7088 ∷ 7232
    ∷ 7248 ∷ 42528 ∷ 43216 ∷ 43264 ∷ 43472 ∷ 43504 ∷ 43600 ∷ 44016 ∷ 65296 ∷ 66720 ∷ 68912 ∷ 69734
    ∷ 69872 ∷ 69942 ∷ 70096 ∷ 70384 ∷ 70736 ∷ 70864 ∷ 71248 ∷ 71360 ∷ 71472 ∷ 71904 ∷ 72016 ∷ 72784
    ∷ 73040 ∷ 73120 ∷ 92768 ∷ 92864 ∷ 93008 ∷ 120782 ∷ 120792 ∷ 120802 ∷ 120812 ∷ 120822 ∷ 123200
    ∷ 123632 ∷ 125264 ∷ 130032 ∷ []

digit_from : List ℕ → ℕ → Option ℕ
digit_from [] c = none
digit_from (z ∷ zs) c =
    let rest = digit_from zs c in if leb z c && leb c (z + 9) then some (c - z) else rest

digit_value : ℕ → Option ℕ
unfolding digit_from other_zeros
digit_value = digit_from (48 ∷ other_zeros)

is_white : ℕ → Bool
is_white c =
    (leb 9 c && leb c 13)
    || c == 32
    || c == 0x85
    || c == 0xa0
    || c == 0x1680
    || (leb 0x2000 c && leb c 0x200a)
    || (leb 0x2028 c && leb c 0x2029)
    || c == 0x202f
    || c == 0x205f
    || c == 0x3000

trim_left : Text → Text
unfolding is_white
trim_left [] = []
trim_left (c ∷ s) = let rest = trim_left s in if is_white c then rest else c ∷ s

abbrev is_empty : Text → Bool
is_empty [] = true
is_empty (c ∷ s) = false

trim_right : Text → Text
unfolding is_white
trim_right [] = []
trim_right (c ∷ s) = let rest = trim_right s in if is_white c && is_empty rest then [] else c ∷ rest

-- What has been read: whether its last character is a digit, and the number.
step : Option (Bool × ℕ) → ℕ → Option (Bool × ℕ)
unfolding digit_value
step none c = none
step (some (after, n)) c = elim (digit_value c) [
  | some d ↦ some (true, n * 10 + d)
  | none ↦ if after && c == b'_' then some (false, n) else none
]

scan : Option (Bool × ℕ) → Text → Option (Bool × ℕ)
unfolding step
scan state [] = state
scan state (c ∷ s) = scan (step state c) s

abbrev complete : Option (Bool × ℕ) → Option ℕ
complete (some (true, n)) = some n
complete _ = none

unsigned : Text → Option ℕ
unfolding scan
unsigned s = complete (scan (some (false, 0)) s)

abbrev unless_negative : Option ℕ → Option ℕ
unless_negative none = none
unless_negative (some n) = if n == 0 then some 0 else none

signed : Text → Option ℕ
unfolding unsigned
signed [] = none
signed (c ∷ s) =
    if c == b'-'
    then unless_negative (unsigned s)
    else if c == b'+'
    then unsigned s
    else unsigned (c ∷ s)

-- The number that `int(s)` gives; `none` is a ValueError or a number below 0.
unfoldable pub natural_of : Text → Option ℕ
unfolding signed trim_left trim_right
natural_of s = signed (trim_right (trim_left s))

white_of_digit : (c : ℕ) → is_digit c ≡ true → is_white c ≡ false
unfolding is_white
white_of_digit c h = ground arith

value_of_digit : (c : ℕ) → is_digit c ≡ true → digit_value c ≡ some (c - 48)
unfolding digit_value digit_from
value_of_digit c h = first other_zeros
  where
    first : (zs : List ℕ) → digit_from (48 ∷ zs) c ≡ some (c - 48)
    first zs = rw h refl

trim_left-digits : (s : Text) → all is_digit s ≡ true → trim_left s ≡ s
unfolding trim_left
trim_left-digits [] h = refl
trim_left-digits (c ∷ s) h = let e = white_of_digit c (ground (arith, h)) in rw e refl

trim_right-digits : (s : Text) → all is_digit s ≡ true → trim_right s ≡ s
unfolding trim_right
trim_right-digits [] h = refl
trim_right-digits (c ∷ s) h =
    let e = white_of_digit c (ground (arith, h)) in
    rw (e, trim_right-digits s (ground (arith, h))) refl

step-digit :
    (after : Bool) (n c : ℕ)
    → is_digit c ≡ true
    → step (some (after, n)) c ≡ some (true, n * 10 + (c - 48))
unfolding step
step-digit after n c h =
    ap
      (λ d. elim d as (λ x. Option (Bool × ℕ)) [
        | some d ↦ some (true, n * 10 + d)
        | none ↦ if after && c == b'_' then some (false, n) else none
      ])
      (value_of_digit c h)

scan-digits :
    (s : Text) (n : ℕ) → all is_digit s ≡ true → complete (scan (some (true, n)) s) ≡ int_from n s
unfolding scan int_from
scan-digits [] n h = refl
scan-digits (c ∷ s) n h =
    let d : is_digit c ≡ true = ground (arith, h) in
    rw (step-digit true n c d, d) (scan-digits s (n * 10 + (c - 48)) (ground (arith, h)))

unsigned-digits : (s : Text) → all is_digit s ≡ true → unsigned s ≡ int_of s
unfolding unsigned scan int_of int_from
unsigned-digits [] h = refl
unsigned-digits (c ∷ s) h =
    let d : is_digit c ≡ true = ground (arith, h) in
    rw (step-digit false 0 c d, d) (scan-digits s (0 * 10 + (c - 48)) (ground (arith, h)))

signed-digits : (s : Text) → all is_digit s ≡ true → signed s ≡ int_of s
unfolding signed
signed-digits [] h = unsigned-digits [] h
signed-digits (c ∷ s) h =
    let minus : c == b'-' ≡ false = ground (arith, h) in
    let plus : c == b'+' ≡ false = ground (arith, h) in rw (minus, plus) (unsigned-digits (c ∷ s) h)

-- `int(str(n))` is `n`.
pub natural_of-str_of : (n : ℕ) → natural_of (str_of n) ≡ some n
unfolding natural_of
natural_of-str_of n =
    let h = str_of-all n in
    rw (trim_left-digits (str_of n) h, trim_right-digits (str_of n) h)
      (signed-digits (str_of n) h ∙ int_of-str_of n)
