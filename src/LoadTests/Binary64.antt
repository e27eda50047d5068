-- ===== src/LoadTests/Binary64.antt =====
-- The floats of Python, which the load tests compute with: binary64. A float is a fraction `(n, d)`
-- of natural numbers that the format has exactly; those of 2 ^ 1024 and more are outside.
use mycelium_consciousness.Prelude.{
  ℕ, zero, suc, ◌+◌, ◌*◌, ◌/◌, ◌%◌, true, false, ltb, ◌==◌, if◌then◌else◌,
}

abbrev two_52 : ℕ
two_52 = 4503599627370496

-- A fraction rounded to the nearest whole number, to the even one of two.
unfoldable pub rounded : (n d : ℕ) → ℕ
rounded n d =
    let whole = n / d in
    let rest = 2 * (n % d) in
    if ltb rest d then whole else if ltb d rest then whole + 1 else whole + whole % 2

-- `n` doubled until `n / d` has 53 binary digits, at most as often as the least exponent, -1074, lets
-- it; and `q` with it.
widen : (fuel n d q : ℕ) → ℕ × ℕ
widen zero n d q = (n, q)
widen (suc f) n d q = elim (ltb n (two_52 * d)) [
  | true ↦ widen f (2 * n) d (2 * q)
  | false ↦ (n, q)
]

-- `d` doubled until `n / d` has no more than 53 binary digits, up to the greatest exponent, 971.
narrow : (fuel n d r : ℕ) → ℕ × ℕ
narrow zero n d r = (d, r)
narrow (suc f) n d r = elim (ltb n (2 * two_52 * d)) [
  | true ↦ (d, r)
  | false ↦ narrow f n (2 * d) (2 * r)
]

-- The float that is nearest to a fraction, the one with the even last digit of two.
unfoldable pub nearest : ℕ × ℕ → ℕ × ℕ
unfolding rounded widen narrow
nearest (n, d) = elim (n == 0) [
  | true ↦ (0, 1)
  | false ↦
      let (n', q) = widen 1074 n d 1 in let (d', r) = narrow 971 n' d 1 in (rounded n' d' * r, q)
]
