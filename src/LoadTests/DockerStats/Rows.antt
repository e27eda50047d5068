-- ===== src/LoadTests/DockerStats/Rows.antt =====
-- What a row says of a container that docker compose has named.
use mycelium_consciousness.Prelude.{
  ℕ, ◌*◌, Text, Bool, true, false, not, [], ◌∷◌, ◌++◌, reverse, append-nil, none, some, ◌≡◌, refl,
  ap, sym, ◌∙◌, arith, all, ◌==◌, split, split-append, text_eq, int_of, strip_prefix-append,
}
use mathlib.Core.List.{reverse-cons, reverse-append, reverse-reverse}
use mycelium_consciousness.Effects.{ok}
use mycelium_consciousness.Streams.{remove_prefix}
use mycelium_consciousness.LoadTests.Binary64.{nearest}
use mycelium_consciousness.Memories.{is_space, lstrip, strip}
use mycelium_consciousness.LoadTests.DockerStats.{
  span, is_number, is_letter, match_size, float_of, of_parts, with_places, factor, times, bytes_in,
  bytes_of, Row, upper, lookup, mebibyte_tenths, before_last_dash, service_of, without_percent,
  row_of,
}

-- The text does not begin with a character that satisfies the test.
abbrev Stops : (ℕ → Bool) → Text → Type 0
Stops p [] = Unit
Stops p (c ∷ s) = p c ≡ false

span-append :
    (p : ℕ → Bool) (s rest : Text) → all p s ≡ true → Stops p rest → span p (s ++ rest) ≡ (s, rest)
unfolding span
span-append p [] [] h k = refl
span-append p [] (c ∷ rest) h k = rw k refl
span-append p (c ∷ s) rest h k = ground (arith, span-append p s rest)

before_last_dash-none : (s : Text) → all (λ c. not (c == b'-')) s ≡ true → before_last_dash s ≡ none
unfolding before_last_dash
before_last_dash-none [] h = refl
before_last_dash-none (c ∷ s) h = ground (arith, before_last_dash-none s)

before_last_dash-append :
    (s index : Text)
    → all (λ c. not (c == b'-')) index ≡ true
    → before_last_dash (s ++ b'-' ∷ index) ≡ some s
unfolding before_last_dash
before_last_dash-append [] index h = rw (before_last_dash-none index h) refl
before_last_dash-append (c ∷ s) index h = rw (before_last_dash-append s index h) refl

-- docker compose names a container after its project, its service and a number.
abbrev container_name : (project service index : Text) → Text
container_name project service index = (project ++ b'-' ∷ []) ++ (service ++ b'-' ∷ index)

service_of-container_name :
    (project service index : Text)
    → all (λ c. not (c == b'-')) index ≡ true
    → service_of project (container_name project service index) ≡ service
unfolding service_of remove_prefix
service_of-container_name project service index h = rw (
  strip_prefix-append (project ++ b'-' ∷ []) (service ++ b'-' ∷ index),
  before_last_dash-append service index h,
)

without_percent-append :
    (cpu : Text) → all (λ c. not (c == b'%')) cpu ≡ true → without_percent (cpu ++ b'%' ∷ []) ≡ cpu
unfolding without_percent
without_percent-append [] h = refl
without_percent-append (c ∷ s) h = ground (arith, without_percent-append s)

all-append : (p : ℕ → Bool) (s t : Text) → all p s ≡ true → all p t ≡ true → all p (s ++ t) ≡ true
all-append p [] t h k = k
all-append p (c ∷ s) t h k = ground (arith, all-append p s t)

all-reverse : (p : ℕ → Bool) (s : Text) → all p s ≡ true → all p (reverse s) ≡ true
all-reverse p [] h = refl
all-reverse p (c ∷ s) h =
    rw (reverse-cons c s)
      (all-append p (reverse s) (c ∷ []) (all-reverse p s (ground arith)) (ground arith))

abbrev solid : ℕ → Bool
solid c = not (is_space c)

all-weaken :
    (p q : ℕ → Bool)
    → ((c : ℕ) → p c ≡ true → q c ≡ true)
    → (s : Text) → all p s ≡ true
    → all q s ≡ true
all-weaken p q f [] h = refl
all-weaken p q f (c ∷ s) h = ground (arith, f c, all-weaken p q f s)

lstrip-solid : (s : Text) → all solid s ≡ true → lstrip s ≡ s
unfolding lstrip
lstrip-solid [] h = refl
lstrip-solid (c ∷ s) h = ground arith

strip-trailing : (c : ℕ) (s : Text) → all solid (c ∷ s) ≡ true → strip ((c ∷ s) ++ 32 ∷ []) ≡ c ∷ s
unfolding strip lstrip
strip-trailing c s h =
    let first : is_space c ≡ false = ground arith in
    rw
      (
        first,
        reverse-append (c ∷ s) (32 ∷ []),
        lstrip-solid (reverse (c ∷ s)) (all-reverse solid (c ∷ s) h),
      )
      (reverse-reverse (c ∷ s))

number-solid : (c : ℕ) → is_number c ≡ true → solid c ≡ true
number-solid c h = ground arith

letter-solid : (c : ℕ) → is_letter c ≡ true → solid c ≡ true
letter-solid c h = ground arith

letter-number : (c : ℕ) → is_letter c ≡ true → is_number c ≡ false
letter-number c h = ground arith

match_size-append :
    (n : ℕ) (number : Text) (u : ℕ) (unit : Text)
    → all is_number (n ∷ number) ≡ true
    → all is_letter (u ∷ unit) ≡ true
    → match_size ((n ∷ number) ++ u ∷ unit) ≡ some (n ∷ number, u ∷ unit)
unfolding match_size
match_size-append n number u unit h k =
    let letter : is_letter u ≡ true = ground arith in
    let letters : all is_letter unit ≡ true = ground arith in
    let whole : span is_letter unit ≡ (unit, []) =
      ap (span is_letter) (sym (append-nil unit)) ∙ span-append is_letter unit [] letters tt in
    rw
      (
        span-append is_number (n ∷ number) (u ∷ unit) h (letter-number u letter),
        lstrip-solid (u ∷ unit) (all-weaken is_letter solid letter-solid (u ∷ unit) k),
        letter,
        whole,
      )
      refl

no_float : (q : ℕ × ℕ) → float_of [] ≡ some q → ⊥
unfolding float_of of_parts with_places split int_of
no_float q h = cc

no_unit : (f : ℕ) → factor [] ≡ some f → ⊥
unfolding factor upper lookup text_eq
no_unit f h = cc

abbrev no_slash : ℕ → Bool
no_slash c = not (c == b'/')

number-no_slash : (c : ℕ) → is_number c ≡ true → no_slash c ≡ true
number-no_slash c h = ground arith

letter-no_slash : (c : ℕ) → is_letter c ≡ true → no_slash c ≡ true
letter-no_slash c h = ground arith

-- A size as docker prints it, before a space.
bytes_of-printed :
    (number unit : Text) (q : ℕ × ℕ) (f : ℕ)
    → all is_number number ≡ true
    → all is_letter unit ≡ true
    → float_of number ≡ some q
    → factor unit ≡ some f
    → (b : ℕ × ℕ) × (bytes_of ((number ++ unit) ++ 32 ∷ []) ≡ ok b)
unfolding bytes_of bytes_in times
bytes_of-printed [] unit q f hn hu float known = absurd (no_float q float)
bytes_of-printed (c ∷ number) [] q f hn hu float known = absurd (no_unit f known)
bytes_of-printed (c ∷ number) (u ∷ unit) q f hn hu float known = (
  nearest (q.0 * f, q.1),
  rw
      (
        strip-trailing c (number ++ u ∷ unit) (
            all-append solid (c ∷ number) (u ∷ unit)
              (all-weaken is_number solid number-solid (c ∷ number) hn)
              (all-weaken is_letter solid letter-solid (u ∷ unit) hu)),
        match_size-append c number u unit hn hu,
        float,
        known,
      )
      refl,
)

-- For a container that docker compose has named, and sizes and shares as docker prints them, there
-- is a row, with the service, without the project and the number, and the share, without its
-- percent sign.
pub row_of-printed :
    (project service index : Text) (cpu number unit limit : Text) (elapsed : ℕ) (q : ℕ × ℕ) (f : ℕ)
    → all (λ c. not (c == b'-')) index ≡ true
    → all (λ c. not (c == b'%')) cpu ≡ true
    → all is_number number ≡ true
    → all is_letter unit ≡ true
    → float_of number ≡ some q
    → factor unit ≡ some f
    → (r : Row) × (row_of project elapsed (record {
      name = container_name project service index;
      cpu_perc = cpu ++ b'%' ∷ [];
      mem_usage = ((number ++ unit) ++ 32 ∷ []) ++ b'/' ∷ limit;
    })
        ≡ ok r)
      × (r.elapsed_s ≡ elapsed)
      × (r.container ≡ service)
      × (r.cpu_percent ≡ cpu)
unfolding row_of
row_of-printed project service index cpu number unit limit elapsed q f hi hc hn hu float known =
    let (b, size) = bytes_of-printed number unit q f hn hu float known in
    (
      record {
        elapsed_s = elapsed;
        container = service;
        cpu_percent = cpu;
        mem_mib = mebibyte_tenths b;
      },
      rw
          (
            split-append b'/' ((number ++ unit) ++ 32 ∷ []) limit (
                all-append no_slash (number ++ unit) (32 ∷ [])
                  (all-append no_slash number unit
                    (all-weaken is_number no_slash number-no_slash number hn)
                    (all-weaken is_letter no_slash letter-no_slash unit hu))
                  refl),
            size,
            service_of-container_name project service index hi,
            without_percent-append cpu hc,
          )
          refl,
      refl,
      refl,
      refl,
    )
