-- ===== src/Services/Ids.antt =====
-- The ids of stream entries, "ms-seq", as Redis documents them: ordered by `ms` and then `seq`.
use mycelium_consciousness.Prelude.{
  ℕ, Text, Bool, true, false, not, ◌&&◌, ◌||◌, List, [], ◌∷◌, ◌++◌, Option, none, some, ◌≡◌, refl,
  arith, ltb, ◌==◌, all, is_digit, split, str_of, str_of-all, int_of, int_of-str_of, split-none,
  split-append,
}

abbrev pub id_text : ℕ → ℕ → Text
id_text ms seq = str_of ms ++ b'-' ∷ str_of seq

abbrev pair_up : Option ℕ → Option ℕ → Option (ℕ × ℕ)
pair_up (some ms) (some seq) = some (ms, seq)
pair_up _ _ = none

abbrev read_parts : List Text → Option (ℕ × ℕ)
read_parts (ms ∷ seq ∷ []) = pair_up (int_of ms) (int_of seq)
read_parts _ = none

-- The two numbers that an id stands for.
unfoldable pub position : Text → Option (ℕ × ℕ)
position id = read_parts (split b'-' id)

abbrev pub earlier : Option (ℕ × ℕ) → Option (ℕ × ℕ) → Bool
earlier (some (m, s)) (some (n, t)) = ltb m n || (m == n && ltb s t)
earlier _ _ = false

unfoldable pub before : Text → Text → Bool
before a b = earlier (position a) (position b)

all-no-dash : (s : Text) → all is_digit s ≡ true → all (λ c. not (c == b'-')) s ≡ true
all-no-dash [] h = refl
all-no-dash (c ∷ s) h = ground (arith, all-no-dash s)

no_dash : (n : ℕ) → all (λ c. not (c == b'-')) (str_of n) ≡ true
no_dash n = all-no-dash (str_of n) (str_of-all n)

pub split-id_text : (ms seq : ℕ) → split b'-' (id_text ms seq) ≡ str_of ms ∷ str_of seq ∷ []
split-id_text ms seq = rw (
  split-append b'-' (str_of ms) (str_of seq) (no_dash ms),
  split-none b'-' (str_of seq) (no_dash seq),
)

pub position-id_text : (ms seq : ℕ) → position (id_text ms seq) ≡ some (ms, seq)
unfolding position
position-id_text ms seq = rw (split-id_text ms seq, int_of-str_of ms, int_of-str_of seq)

-- An id that Redis has given.
abbrev pub IsId : Text → Type 0
IsId id = (ms : ℕ) × (seq : ℕ) × (id ≡ id_text ms seq)
