-- ===== src/Streams/Trim.antt =====
-- A trim removes the entries that were read, and none that came after them.
use mycelium_consciousness.Prelude.{
  ℕ, ◌+◌, Text, true, false, not, List, [], ◌∷◌, ◌++◌, ◌≡◌, refl, ap, ◌∙◌, ◌⊎◌, inl, inr, arith,
  select, All, int_of-str_of,
}
use mycelium_consciousness.Effects.{ok}
use mycelium_consciousness.Services.{Item}
use mycelium_consciousness.Services.Ids.{id_text, split-id_text, IsId, position-id_text, before}
use mycelium_consciousness.Services.Laws.{Increasing}
use mycelium_consciousness.Streams.{next_id}

-- The next id of "ms-seq" is "ms-(seq+1)".
next_id-id_text : (ms seq : ℕ) → next_id (id_text ms seq) ≡ ok (id_text ms (seq + 1))
unfolding next_id
next_id-id_text ms seq = rw (split-id_text ms seq, int_of-str_of seq)

-- `entries[-1][0]`
abbrev pub last_id : Text × Item → List (Text × Item) → Text
last_id e [] = e.0
last_id e (f ∷ es) = last_id f es

-- An id up to the last one lies below the next id, and a later one does not.
below_next :
    (a l n : Text)
    → IsId a
    → IsId l
    → next_id l ≡ ok n
    → (before a l ≡ true) ⊎ (a ≡ l)
    → before a n ≡ true
unfolding before
below_next a l n (m, s, ea) (k, t, el) next h = ground (
  arith,
  next_id-id_text k t,
  position-id_text m s,
  position-id_text k t,
  position-id_text k (t + 1),
)

pub not_below_next :
    (a l n : Text) → IsId a → IsId l → next_id l ≡ ok n → before l a ≡ true → before a n ≡ false
unfolding before
not_below_next a l n (m, s, ea) (k, t, el) next h = ground (
  arith,
  next_id-id_text k t,
  position-id_text m s,
  position-id_text k t,
  position-id_text k (t + 1),
)

keep_later :
    (l n : Text) (later : List (Text × Item))
    → IsId l
    → next_id l ≡ ok n
    → All (λ d. before l d.0 ≡ true) later
    → Increasing later
    → select (λ e. not (before e.0 n)) later ≡ later
keep_later l n [] id next h inc = refl
keep_later l n (d ∷ ds) id next h inc =
    rw (not_below_next d.0 l n inc.0 id next h.0)
      (ap (λ r. d ∷ r) (keep_later l n ds id next h.1 inc.2))

-- The last of the entries that were read stands in the stream behind all the others.
before-last :
    (a : Text) (e : Text × Item) (es later : List (Text × Item))
    → All (λ d. before a d.0 ≡ true) (e ∷ es ++ later)
    → before a (last_id e es) ≡ true
before-last a e [] later h = h.0
before-last a e (f ∷ es) later h = before-last a f es later h.1

pub IsId-last :
    (e : Text × Item) (es later : List (Text × Item))
    → Increasing ((e ∷ es) ++ later)
    → IsId (last_id e es)
IsId-last e [] later inc = inc.0
IsId-last e (f ∷ es) later inc = IsId-last f es later inc.2

-- Of a stream that begins with the entries that were read, a trim up to the last of these leaves
-- exactly the rest, in its order.
pub select-trimmed :
    (e : Text × Item) (es later : List (Text × Item)) (n : Text)
    → Increasing ((e ∷ es) ++ later)
    → next_id (last_id e es) ≡ ok n
    → select (λ d. not (before d.0 n)) ((e ∷ es) ++ later) ≡ later
select-trimmed e [] later n inc next =
    rw (below_next e.0 e.0 n inc.0 inc.0 next (inr refl))
      (keep_later e.0 n later inc.0 next inc.1 inc.2)
select-trimmed e (f ∷ es) later n inc next =
    rw
      (below_next e.0 (last_id f es) n inc.0 (IsId-last f es later inc.2) next
        (inl (before-last e.0 f es later inc.1)))
      (select-trimmed f es later n inc.2 next)

-- Every id of a stream has a next one.
pub next_id-last :
    (e : Text × Item) (es later : List (Text × Item))
    → Increasing ((e ∷ es) ++ later)
    → (n : Text) × (next_id (last_id e es) ≡ ok n)
next_id-last e es later inc =
    let (ms, seq, h) = IsId-last e es later inc in
    (id_text ms (seq + 1), ap next_id h ∙ next_id-id_text ms seq)
