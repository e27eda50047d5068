-- ===== src/Witnesses/Samples/Stores.antt =====
-- A redis and a bucket that hold their data in functions. The redis can lose the reply of a trim.
use mycelium_consciousness.Prelude.{
  ℕ, suc, ◌<◌, Text, Bool, true, false, not, List, [], ◌∷◌, ◌++◌, Option, none, some, ◌≡◌, ◌≢◌,
  refl, sym, ap, ◌∙◌, arith, length, select, All, if◌then◌else◌, text_eq, text_eq_iff, text_eq_self,
  Bool-cases, inl, inr,
}
use mycelium_consciousness.Effects.{ok, err, redis_error, storage_error}
use mycelium_consciousness.Services.{Bytes, Item, Redis, Bucket}
use mycelium_consciousness.Services.Ids.{id_text, position-id_text, before}
use mycelium_consciousness.Flush.Progress.{Answers}
use mycelium_consciousness.Services.Laws.{
  RedisLaws, TrimFailsCleanly, AddFailsCleanly, BucketLaws, BucketSetupLaws, Increasing,
}

-- A stream keeps every item that was added, with whether it is still there.
abbrev pub Stored : Type 0
Stored = List (Bool × Item)

abbrev pub entries_from : ℕ → Stored → List (Text × Item)
entries_from n [] = []
entries_from n ((true, i) ∷ xs) = (id_text 1 n, i) ∷ entries_from (suc n) xs
entries_from n ((false, i) ∷ xs) = entries_from (suc n) xs

pub before-id_text : (m n : ℕ) → m < n → before (id_text 1 m) (id_text 1 n) ≡ true
unfolding before
before-id_text m n h = rw (position-id_text 1 m, position-id_text 1 n) (ground arith)

later_ids :
    (m n : ℕ) (xs : Stored) → m < n → All (λ d. before (id_text 1 m) d.0 ≡ true) (entries_from n xs)
later_ids m n [] h = tt
later_ids m n ((true, i) ∷ xs) h = (before-id_text m n h, later_ids m (suc n) xs (omega arith))
later_ids m n ((false, i) ∷ xs) h = later_ids m (suc n) xs (omega arith)

Increasing-entries_from : (n : ℕ) (xs : Stored) → Increasing (entries_from n xs)
Increasing-entries_from n [] = tt
Increasing-entries_from n ((true, i) ∷ xs) =
    ((1, n, refl), later_ids n (suc n) xs (omega arith), Increasing-entries_from (suc n) xs)
Increasing-entries_from n ((false, i) ∷ xs) = Increasing-entries_from (suc n) xs

unfoldable pub add : Item → Stored → Stored
add i [] = (true, i) ∷ []
add i (x ∷ xs) = x ∷ add i xs

unfoldable pub next : ℕ → Stored → ℕ
next n [] = n
next n (x ∷ xs) = next (suc n) xs

entries-add :
    (n : ℕ) (i : Item) (xs : Stored)
    → entries_from n (add i xs) ≡ entries_from n xs ++ (id_text 1 (next n xs), i) ∷ []
unfolding add next
entries-add n i [] = refl
entries-add n i ((true, y) ∷ xs) = ap (λ es. (id_text 1 n, y) ∷ es) (entries-add (suc n) i xs)
entries-add n i ((false, y) ∷ xs) = entries-add (suc n) i xs

-- Drops what lies before an id.
unfoldable pub trim : Text → ℕ → Stored → Stored
trim minid n [] = []
trim minid n ((b, i) ∷ xs) =
    (if before (id_text 1 n) minid then false else b, i) ∷ trim minid (suc n) xs

entries-trim :
    (minid : Text) (n : ℕ) (xs : Stored)
    → entries_from n (trim minid n xs) ≡ select (λ e. not (before e.0 minid)) (entries_from n xs)
unfolding trim
entries-trim minid n [] = refl
entries-trim minid n ((true, y) ∷ xs) = elim (Bool-cases (before (id_text 1 n) minid)) [
  | inl h ↦ rw h (entries-trim minid (suc n) xs)
  | inr h ↦ rw h (ap (λ es. (id_text 1 n, y) ∷ es) (entries-trim minid (suc n) xs))
]
entries-trim minid n ((false, y) ∷ xs) = elim (Bool-cases (before (id_text 1 n) minid)) [
  | inl h ↦ rw h (entries-trim minid (suc n) xs)
  | inr h ↦ rw h (entries-trim minid (suc n) xs)
]

-- A function with another value at one text.
unfoldable pub put {ℓ} : {A : Type ℓ} → Text → A → (Text → A) → Text → A
unfolding text_eq
put k a f j = if text_eq j k then a else f j

pub put_same {ℓ} : {A : Type ℓ} (k : Text) (a : A) (f : Text → A) → put k a f k ≡ a
unfolding put
put_same k a f = rw (text_eq_self k) refl

pub put_other {ℓ} : {A : Type ℓ} (k j : Text) (a : A) (f : Text → A) → j ≢ k → put k a f j ≡ f j
unfolding put
put_other k j a f ne = elim (Bool-cases (text_eq j k)) [
  | inl h ↦ elim (ne ((text_eq_iff j k).0 h)) [ ]
  | inr h ↦ rw h refl
]

-- `keys` are the keys that a scan finds; `lossy` is whether the reply of a trim is lost.
abbrev pub redis : (lossy : Bool) (keys : List Text) → Redis
redis lossy keys = record {
  State = Text → Stored;
  entries = λ s k. entries_from 1 (s k);
  xadd = λ k i s. (ok (id_text 1 (next 1 (s k))), put k (add i (s k)) s);
  xlen = λ k s. (ok (length (entries_from 1 (s k))), s);
  xrange = λ k s. (ok (entries_from 1 (s k)), s);
  xtrim = λ k minid s. (if lossy then err redis_error else ok tt, put k (trim minid 1 (s k)) s);
  scan_iter = λ prefix s. (ok keys, s);
}

pub ok-eq {ℓ} : {A : Type ℓ} {a b : A} → ok a ≡ ok b → b ≡ a
ok-eq e = cc

pub redis_laws : (lossy : Bool) (keys : List Text) → RedisLaws (redis lossy keys)
redis_laws lossy keys = record {
  increasing = λ s k. Increasing-entries_from 1 (s k);
  xrange_reads = λ k s. refl;
  xrange_ok = λ k s e. ok-eq e;
  xlen_reads = λ k s. refl;
  xlen_ok = λ k s e. ok-eq e;
  scan_reads = λ p s. refl;
  xadd_ok = λ k i s e.
      ap (entries_from 1) (put_same k (add i (s k)) s)
      ∙ entries-add 1 i (s k)
      ∙ ap (λ x. entries_from 1 (s k) ++ (x, i) ∷ []) (sym (ok-eq e));
  xadd_others = λ k j i s ne. ap (entries_from 1) (put_other k j (add i (s k)) s ne);
  xtrim_ok = λ k minid s e.
      ap (entries_from 1) (put_same k (trim minid 1 (s k)) s) ∙ entries-trim minid 1 (s k);
  xtrim_others = λ k j minid s ne. ap (entries_from 1) (put_other k j (trim minid 1 (s k)) s ne);
}

pub redis_clean : (keys : List Text) → TrimFailsCleanly (redis false keys)
redis_clean keys = record { unchanged = λ k minid s e. cc }

pub redis_adds : (lossy : Bool) (keys : List Text) → AddFailsCleanly (redis lossy keys)
redis_adds lossy keys = record { unchanged = λ k i s e. cc }

pub redis_answers : (keys : List Text) → Answers (redis false keys)
redis_answers keys = record {
  xrange = λ k s. (entries_from 1 (s k), refl);
  xtrim = λ k minid s. refl;
}

abbrev pub bucket : Bucket
bucket = record {
  State = Text → Option Bytes;
  object = λ s k. s k;
  put_object = λ k d s. (ok tt, put k (some d) s);
  get_object = λ k s. (elim (s k) [ none ↦ err storage_error | some d ↦ ok d ], s);
  delete_object = λ k s. (ok tt, put k none s);
  head_bucket = λ s. (ok tt, s);
  create_bucket = λ s. (ok tt, s);
  list_pages = λ prefix s. (ok [], s);
}

object_found :
    (o : Option Bytes) {d : Bytes}
    → elim o [ none ↦ err storage_error | some d ↦ ok d ] ≡ ok d
    → o ≡ some d
object_found none e = cc
object_found (some d) e = cc

pub bucket_laws : BucketLaws bucket
bucket_laws = record {
  put_ok = λ k d s e. put_same k (some d) s;
  put_others = λ k j d s ne. put_other k j (some d) s ne;
  get_reads = λ k s. refl;
  get_ok = λ k s e. object_found (s k) e;
  delete_ok = λ k s e. put_same k none s;
  delete_others = λ k j s ne. put_other k j none s ne;
}

pub bucket_setup : BucketSetupLaws bucket
bucket_setup = record {
  exists = λ s. true;
  head_ok = λ s h. refl;
  create_ok = λ s h. refl;
  create_owned = λ s h. refl;
  create_exists = λ s h. refl;
}
