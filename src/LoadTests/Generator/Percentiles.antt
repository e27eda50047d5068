-- ===== src/LoadTests/Generator/Percentiles.antt =====
-- What the report of a run of the load generator says of it.
use mycelium_consciousness.Prelude.{
  ℕ, zero, suc, ◌+◌, ◌*◌, ◌/◌, ◌≤◌, ◌<◌, true, false, List, [], ◌∷◌, ◌++◌, Option, none, some, ◌≡◌,
  refl, ap, sym, ◌∙◌, subst, append-nil, append_assoc, ◌↔◌, arith, leb, length, select, Bool-cases,
  inl, inr, ◌==◌,
}
use mycelium_consciousness.Effects.{ok}
use mycelium_consciousness.LoadTests.Generator.{
  Stats, no_stats, Outcome, answered, http_error, count, count_all, insert, sorted, get_elem?,
  percentiles_of, report, run, Report,
}

-- How many are at most `v`.
abbrev at_most : ℕ → List ℕ → ℕ
at_most v xs = length (select (λ x. leb x v) xs)

at_most-insert : (v x : ℕ) (xs : List ℕ) → at_most v (insert x xs) ≡ at_most v (x ∷ xs)
unfolding insert
at_most-insert v x [] = refl
at_most-insert v x (y ∷ ys) = ground (arith, at_most-insert v x ys)

at_most-sorted : (v : ℕ) (xs : List ℕ) → at_most v (sorted xs) ≡ at_most v xs
unfolding sorted
at_most-sorted v [] = refl
at_most-sorted v (x ∷ xs) = ground (arith, at_most-insert v x (sorted xs), at_most-sorted v xs)

length-insert : (x : ℕ) (xs : List ℕ) → length (insert x xs) ≡ suc (length xs)
unfolding insert
length-insert x [] = refl
length-insert x (y ∷ ys) = ground (arith, length-insert x ys)

length-sorted : (xs : List ℕ) → length (sorted xs) ≡ length xs
unfolding sorted
length-sorted [] = refl
length-sorted (x ∷ xs) = length-insert x (sorted xs) ∙ ap suc (length-sorted xs)

-- Every element is at least `x`, and the list is ascending.
abbrev Ascending : ℕ → List ℕ → Type 0
Ascending x [] = Unit
Ascending x (y ∷ ys) = (x ≤ y) × Ascending y ys

abbrev IsSorted : List ℕ → Type 0
IsSorted [] = Unit
IsSorted (x ∷ xs) = Ascending x xs

insert-Ascending : (b x : ℕ) (xs : List ℕ) → b ≤ x → Ascending b xs → Ascending b (insert x xs)
unfolding insert
insert-Ascending b x [] h a = (h, tt)
insert-Ascending b x (y ∷ ys) h (k, a) = elim (Bool-cases (leb x y)) [
  | inl e ↦ rw e (h, (ground arith, a))
  | inr e ↦ rw e (k, insert-Ascending y x ys (ground arith) a)
]

Ascending-zero : (xs : List ℕ) → IsSorted xs → Ascending 0 xs
Ascending-zero [] h = tt
Ascending-zero (x ∷ xs) h = (omega arith, h)

sorted-Ascending : (xs : List ℕ) → Ascending 0 (sorted xs)
unfolding sorted
sorted-Ascending [] = tt
sorted-Ascending (x ∷ xs) = insert-Ascending 0 x (sorted xs) (omega arith) (sorted-Ascending xs)

-- In an ascending list, the element at `i` is at least `i` others.
at_most-get_elem? :
    (b i v : ℕ) (xs : List ℕ)
    → Ascending b xs
    → get_elem? xs i ≡ some v
    → (b ≤ v) × (i < at_most v xs)
unfolding get_elem?
at_most-get_elem? b i v [] a h = cc
at_most-get_elem? b zero v (x ∷ xs) (k, a) h = ground arith
at_most-get_elem? b (suc i) v (x ∷ xs) (k, a) h =
    let (low, more) = at_most-get_elem? x i v xs a h in ground arith

get_elem?-in_range : (i : ℕ) (xs : List ℕ) → i < length xs → (v : ℕ) × (get_elem? xs i ≡ some v)
unfolding get_elem?
get_elem?-in_range i [] h = absurd (omega (arith, h))
get_elem?-in_range zero (x ∷ xs) h = (x, refl)
get_elem?-in_range (suc i) (x ∷ xs) h = get_elem?-in_range i xs (omega (arith, h))

get_elem?-least : (b i v : ℕ) (xs : List ℕ) → Ascending b xs → get_elem? xs i ≡ some v → b ≤ v
unfolding get_elem?
get_elem?-least b i v [] a h = cc
get_elem?-least b zero v (x ∷ xs) (k, a) h = ground arith
get_elem?-least b (suc i) v (x ∷ xs) (k, a) h =
    let low = get_elem?-least x i v xs a h in omega arith

get_elem?-ascends :
    (b i j v u : ℕ) (xs : List ℕ)
    → Ascending b xs
    → i ≤ j
    → get_elem? xs i ≡ some v
    → get_elem? xs j ≡ some u
    → v ≤ u
unfolding get_elem?
get_elem?-ascends b i j v u [] a l h k = cc
get_elem?-ascends b zero zero v u (x ∷ xs) (c, a) l h k = ground arith
get_elem?-ascends b zero (suc j) v u (x ∷ xs) (c, a) l h k =
    let low = get_elem?-least x j u xs a k in ground arith
get_elem?-ascends b (suc i) zero v u (x ∷ xs) (c, a) l h k = ground arith
get_elem?-ascends b (suc i) (suc j) v u (x ∷ xs) (c, a) l h k =
    get_elem?-ascends x i j v u xs a (omega arith) h k

-- More than half of the latencies are at most the first number, and more than 99 of 100 the second.
abbrev Summarises : List ℕ → Option (ℕ × ℕ) → Type 0
Summarises xs none = xs ≡ []
Summarises xs (some (p50, p99)) =
    (length xs < 2 * at_most p50 xs) × (length xs * 99 < 100 * at_most p99 xs) × (p50 ≤ p99)

percentiles_of-Summarises :
    (xs : List ℕ) → (p : Option (ℕ × ℕ)) × (percentiles_of xs ≡ ok p) × Summarises xs p
unfolding percentiles_of
percentiles_of-Summarises [] = (none, refl, refl)
percentiles_of-Summarises (x ∷ xs) =
    let ordered = sorted (x ∷ xs) in
    let same = length-sorted (x ∷ xs) in
    let (p50, h) = get_elem?-in_range (length ordered / 2) ordered (omega (arith, same)) in
    let (p99, k) = get_elem?-in_range (length ordered * 99 / 100) ordered (omega (arith, same)) in
    let a = sorted-Ascending (x ∷ xs) in
    let (_, half) = at_most-get_elem? 0 (length ordered / 2) p50 ordered a h in
    let (_, most) = at_most-get_elem? 0 (length ordered * 99 / 100) p99 ordered a k in
    let half' = at_most-sorted p50 (x ∷ xs) in
    let most' = at_most-sorted p99 (x ∷ xs) in
    (
      some (p50, p99),
      rw (h, k) refl,
      (
        omega (arith, same, half, half'),
        omega (arith, same, most, most'),
        get_elem?-ascends 0 (length ordered / 2) (length ordered * 99 / 100) p50 p99 ordered a
            (omega arith) h k,
      ),
    )

-- The latencies of the requests that were answered, in order.
abbrev latencies_of : List Outcome → List ℕ
latencies_of [] = []
latencies_of (answered status_code latency ∷ os) = latency ∷ latencies_of os
latencies_of (http_error ∷ os) = latencies_of os

-- What one turn adds.
count-adds :
    (o : Outcome) (st : Stats)
    → ((count o st).sent + (count o st).failed ≡ st.sent + st.failed + 1)
      × ((count o st).latencies ≡ st.latencies ++ latencies_of (o ∷ []))
unfolding count
count-adds (answered code l) st = elim (Bool-cases (code == 202)) [
  | inl e ↦ rw e (omega arith, refl)
  | inr e ↦ rw e (omega arith, refl)
]
count-adds http_error st = (omega arith, sym (append-nil st.latencies))

latencies_of-cons :
    (o : Outcome) (os : List Outcome)
    → latencies_of (o ∷ os) ≡ latencies_of (o ∷ []) ++ latencies_of os
latencies_of-cons (answered code l) os = refl
latencies_of-cons http_error os = refl

count_all-adds :
    (os : List Outcome) (st : Stats)
    → ((count_all os st).sent + (count_all os st).failed ≡ st.sent + st.failed + length os)
      × ((count_all os st).latencies ≡ st.latencies ++ latencies_of os)
unfolding count_all
count_all-adds [] st = (omega arith, sym (append-nil st.latencies))
count_all-adds (o ∷ os) st =
    let (total, timed) = count-adds o st in
    let (totals, all_timed) = count_all-adds os (count o st) in
    (
      omega (arith, total, totals),
      all_timed
          ∙ ap (λ l. l ++ latencies_of os) timed
          ∙ append_assoc st.latencies (latencies_of (o ∷ [])) (latencies_of os)
          ∙ ap (λ l. st.latencies ++ l) (sym (latencies_of-cons o os)),
    )

none_counted : (os : List Outcome) (n : ℕ) → n ≡ length os → ((n == 0) ≡ true) ↔ (os ≡ [])
none_counted [] n h = (λ e. refl, λ e. ground arith)
none_counted (o ∷ os) n h = (λ e. ground arith, λ e. cc)

-- What the report says of the requests of a run.
abbrev pub Reports : List Outcome → Report → Type 0
Reports os r =
    (r.sent + r.failed ≡ length os)
    × ((r.nothing_sent ≡ true) ↔ (os ≡ []))
    × Summarises (latencies_of os) r.percentiles

-- Once the login is answered 200 and time has gone by, a run of the load generator is reported,
-- whatever its requests come to: each is counted once, as sent or as failed, "nothing was sent" is
-- said of no request alone, and without an answer there are no percentiles; else more than half of
-- the latencies are at most p50, more than 99 of 100 are at most p99, and p50 is at most p99.
pub run-Reports :
    (elapsed : ℕ) (os : List Outcome)
    → 1 ≤ elapsed
    → (r : Report) × (run 200 elapsed os ≡ ok r) × Reports os r
unfolding run report
run-Reports elapsed os h =
    let (total, timed) = count_all-adds os no_stats in
    let (p, made, summary) = percentiles_of-Summarises (count_all os no_stats).latencies in
    let all_counted : (count_all os no_stats).sent + (count_all os no_stats).failed ≡ length os =
      omega (arith, total) in
    let some_time : (elapsed == 0) ≡ false = ground arith in
    (
      record {
        sent = (count_all os no_stats).sent;
        failed = (count_all os no_stats).failed;
        throughput = ((count_all os no_stats).sent, elapsed);
        percentiles = p;
        nothing_sent = (count_all os no_stats).sent + (count_all os no_stats).failed == 0;
      },
      rw (some_time, made) refl,
      (all_counted, none_counted os _ all_counted, subst (λ l. Summarises l p) timed summary),
    )
