-- ===== src/LoadTests/DockerStats.antt =====
-- loadtests/collect_docker_stats.py. What `docker` prints is a parameter. Floats are those of
-- `LoadTests/Binary64`.
pub mod Rows
use mycelium_consciousness.Prelude.{
  ℕ, zero, suc, ◌+◌, ◌-◌, ◌*◌, ◌/◌, ◌%◌, Text, codes, Bool, true, false, ◌&&◌, ◌||◌, List, [], ◌∷◌,
  ◌++◌, map, reverse, Option, none, some, ltb, leb, ◌==◌, if◌then◌else◌, length, split, text_eq,
  int_of, is_digit,
}
use mycelium_consciousness.Effects.{
  Result, ok, err, Exec, pure, lift, value_error, key_error, ◌>>=◌, ◌>>◌, ◌>>?◌,
}
use mycelium_consciousness.LoadTests.Binary64.{rounded, nearest}
use mycelium_consciousness.Streams.{remove_prefix}
use mycelium_consciousness.Memories.{lstrip, strip, is_space}

abbrev kib : ℕ
kib = 1024

abbrev units : List (Text × ℕ)
units =
    (codes "B", 1)
    ∷ (codes "KB", 1000)
    ∷ (codes "MB", 1000 * 1000)
    ∷ (codes "GB", 1000 * 1000 * 1000)
    ∷ (codes "KIB", kib)
    ∷ (codes "MIB", kib * kib)
    ∷ (codes "GIB", kib * kib * kib)
    ∷ []

pub lookup : Text → List (Text × ℕ) → Option ℕ
unfolding text_eq
lookup key [] = none
lookup key ((k, n) ∷ rest) = if text_eq k key then some n else lookup key rest

-- `s.upper()` on ASCII
pub upper : Text → Text
upper = map (λ c. if leb b'a' c && leb c b'z' then c - 32 else c)

unfoldable pub factor : Text → Option ℕ
unfolding lookup upper
factor unit = lookup (upper unit) units

-- The longest beginning whose characters satisfy a test, and the rest.
pub span : (ℕ → Bool) → Text → Text × Text
span p [] = ([], [])
span p (c ∷ s) = let (t, rest) = span p s in if p c then (c ∷ t, rest) else ([], c ∷ s)

-- [\d.] and [A-Za-z], in ASCII
abbrev pub is_number : ℕ → Bool
is_number c = is_digit c || c == b'.'

abbrev pub is_letter : ℕ → Bool
is_letter c = (leb b'A' c && leb c b'Z') || (leb b'a' c && leb c b'z')

abbrev groups : Text → Text → Option (Text × Text)
groups [] unit = none
groups number [] = none
groups number unit = some (number, unit)

-- `re.match` of the pattern, whose classes are disjoint, so that it never goes back.
pub match_size : Text → Option (Text × Text)
unfolding span lstrip
match_size s =
    let (number, rest) = span is_number s in
    let (unit, _) = span is_letter (lstrip rest) in groups number unit

power : ℕ → ℕ → ℕ
power b zero = 1
power b (suc k) = b * power b k

with_places : ℕ → Option ℕ → Option (ℕ × ℕ)
unfolding power nearest
with_places k none = none
with_places k (some n) = some (nearest (n, power 10 k))

of_parts : List Text → Option (ℕ × ℕ)
unfolding with_places
of_parts (whole ∷ []) = with_places 0 (int_of whole)
of_parts (whole ∷ places ∷ []) = with_places (length places) (int_of (whole ++ places))
of_parts _ = none

-- `float(s)` of digits and dots; `none` is a ValueError.
unfoldable pub float_of : Text → Option (ℕ × ℕ)
unfolding of_parts
float_of s = of_parts (split b'.' s)

times : Option (ℕ × ℕ) → Option ℕ → Result (ℕ × ℕ)
unfolding nearest
times none f = err value_error
times (some q) none = err key_error
times (some (n, d)) (some f) = ok (nearest (n * f, d))

bytes_in : Option (Text × Text) → Result (ℕ × ℕ)
unfolding times float_of factor
bytes_in none = ok (0, 1)
bytes_in (some (number, unit)) = times (float_of number) (factor unit)

-- `_bytes`
pub bytes_of : Text → Result (ℕ × ℕ)
unfolding match_size strip bytes_in
bytes_of text = bytes_in (match_size (strip text))

-- `round(b / 1024**2, 1)`, in tenths
unfoldable pub mebibyte_tenths : ℕ × ℕ → ℕ
unfolding rounded nearest
mebibyte_tenths (n, d) = let (n', d') = nearest (n, d * (kib * kib)) in rounded (n' * 10) d'

abbrev cons_if : ℕ → Option Text → Option Text
cons_if c none = if c == b'-' then some [] else none
cons_if c (some s) = some (c ∷ s)

-- What stands before the last dash, if there is one.
pub before_last_dash : Text → Option Text
before_last_dash [] = none
before_last_dash (c ∷ s) = cons_if c (before_last_dash s)

abbrev or_all : Text → Option Text → Text
or_all s none = s
or_all s (some t) = t

-- `name.removeprefix(f"{project}-").rsplit("-", 1)[0]`
pub service_of : (project name : Text) → Text
unfolding remove_prefix before_last_dash
service_of project name =
    let rest = remove_prefix (project ++ b'-' ∷ []) name in or_all rest (before_last_dash rest)

-- `s.rstrip("%")`
pub without_percent : Text → Text
without_percent [] = []
without_percent (c ∷ s) =
    let rest = without_percent s in if c == b'%' && leb (length rest) 0 then [] else c ∷ rest

-- `s.split("/")[0]`
abbrev first_part : List Text → Text
first_part [] = []
first_part (part ∷ parts) = part

-- A line of `docker stats`, and a row of the file, whose times and sizes count tenths.
pub record Sample : Type 0 where
  pub name : Text
  pub cpu_perc : Text
  pub mem_usage : Text

pub record Row : Type 0 where
  pub elapsed_s : ℕ
  pub container : Text
  pub cpu_percent : Text
  pub mem_mib : ℕ

pub row_of : (project : Text) (elapsed : ℕ) → Sample → Result Row
unfolding service_of without_percent bytes_of mebibyte_tenths
row_of project elapsed sample = bytes_of (first_part (split b'/' sample.mem_usage)) >>? λ size.
    ok (record {
      elapsed_s = elapsed;
      container = service_of project sample.name;
      cpu_percent = without_percent sample.cpu_perc;
      mem_mib = mebibyte_tenths size;
    })

-- `s.split()`
abbrev push_char : ℕ → Bool → List Text → List Text
push_char c true words = (c ∷ []) ∷ words
push_char c false [] = (c ∷ []) ∷ []
push_char c false (word ∷ words) = (c ∷ word) ∷ words

abbrev at_gap : Text → Bool
at_gap [] = true
at_gap (c ∷ s) = is_space c

words : Text → List Text
words [] = []
words (c ∷ s) = let rest = words s in if is_space c then rest else push_char c (at_gap s) rest

-- What `docker` prints in one turn of the loop, and when.
pub record Poll : Type 0 where
  pub listed : Text
  pub elapsed : ℕ
  pub samples : List Sample

write_row : Row → Exec (List Row) (Unit {0})
write_row row rows = (ok tt, rows ++ row ∷ [])

-- The rows of one turn. Those before an exception stay written.
write_rows : (project : Text) (elapsed : ℕ) → List Sample → Exec (List Row) (Unit {0})
unfolding row_of write_row
write_rows project elapsed [] = pure tt
write_rows project elapsed (sample ∷ samples) = do
  row ← lift (row_of project elapsed sample)
  write_row row
  write_rows project elapsed samples

abbrev if_running : List Text → Exec (List Row) (Unit {0}) → Exec (List Row) (Unit {0})
if_running [] m = pure tt
if_running (name ∷ names) m = m

-- The loop of `main`, over the turns before a signal stops it.
unfoldable pub collect : (project : Text) → List Poll → Exec (List Row) (Unit {0})
unfolding words write_rows
collect project [] = pure tt
collect project (poll ∷ polls) = do
  if_running (words poll.listed) (write_rows project poll.elapsed poll.samples)
  collect project polls
