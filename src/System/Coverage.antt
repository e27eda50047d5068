-- ===== src/System/Coverage.antt =====
-- What a flush under way knows of the stream: up to the last entry that it has read, there is no
-- other.
use mycelium_consciousness.Prelude.{
  ℕ, Text, true, not, List, [], ◌∷◌, ◌++◌, ◌≡◌, ◌⊎◌, inl, inr, refl, ap, sym, subst, append-nil,
  select, All, All-append, All-parts, All-map, All-Memᴰ, Memᴰ-select,
}
use mathlib.Core.List.{Memᴰ}
use mathlib.Core.List.Memᴰ
use mycelium_consciousness.Effects.{ok}
use mycelium_consciousness.Services.{Services, Item}
use mycelium_consciousness.Services.Ids.{before, IsId}
use mycelium_consciousness.Services.Laws.{RedisLaws, IdLaws, AtMost, Increasing}
use mycelium_consciousness.Streams.Trim.{last_id, IsId-last, not_below_next}
use mycelium_consciousness.Streams.{stream_key, next_id}
use mycelium_consciousness.Streams.Calls.{stream}
use mycelium_consciousness.Database.{World}
use mycelium_consciousness.Flush.{new_items}
use mycelium_consciousness.Flush.Outcome.{buffered}
use mycelium_consciousness.System.Growth.{Grows, top, AtMost-before, AtMost-trans}
use mycelium_consciousness.System.Interleaved.{Task, has_read, has_saved}

pub items_of :
    {i : Item} (es : List (Text × Item))
    → Memᴰ i (new_items es)
    → (d : Text × Item) × Memᴰ d es × (i ≡ d.1)
items_of [] m = absurd (Memᴰ.not-nil m)
items_of (e ∷ es) (Memᴰ.head h) = (e, Memᴰ.head refl, h)
items_of (e ∷ es) (Memᴰ.tail m) = let (d, k, h) = items_of es m in (d, Memᴰ.tail k, h)

pub item_of : {d : Text × Item} {es : List (Text × Item)} → Memᴰ d es → Memᴰ d.1 (new_items es)
item_of (Memᴰ.head h) = Memᴰ.head (ap (λ x. x.1) h)
item_of (Memᴰ.tail m) = Memᴰ.tail (item_of m)

IsId-Memᴰ : {d : Text × Item} (es : List (Text × Item)) → Increasing es → Memᴰ d es → IsId d.0
IsId-Memᴰ [] inc m = absurd (Memᴰ.not-nil m)
IsId-Memᴰ (e ∷ es) inc (Memᴰ.head h) = subst (λ x. IsId x.0) (sym h) inc.0
IsId-Memᴰ (e ∷ es) inc (Memᴰ.tail m) = IsId-Memᴰ es inc.2 m

last-Memᴰ :
    (e : Text × Item) (es : List (Text × Item))
    → (d : Text × Item) × Memᴰ d (e ∷ es) × (d.0 ≡ last_id e es)
last-Memᴰ e [] = (e, Memᴰ.head refl, refl)
last-Memᴰ e (f ∷ es) = let (d, m, h) = last-Memᴰ f es in (d, Memᴰ.tail m, h)

-- An order on lists that forgets repetitions.
abbrev pub Within : List Item → List Item → Type 0
Within xs ys = (i : Item) → Memᴰ i xs → Memᴰ i ys

module _ {s : Services} (redis : RedisLaws s.redis) (ids : IdLaws s.redis) (j : ℕ) where
  -- The entries of the stream up to the last of these are among these.
  abbrev Covers : Text × Item → List (Text × Item) → World s → Type 0
  Covers e es w =
      IsId (last_id e es)
      × AtMost (last_id e es) (top redis ids j w)
      × ((d : Text × Item)
          → Memᴰ d (stream redis j w)
          → Memᴰ d (e ∷ es) ⊎ (before (last_id e es) d.0 ≡ true))

  pub Covers-read :
      (e : Text × Item) (es : List (Text × Item)) (w : World s)
      → e ∷ es ≡ stream redis j w
      → Covers e es w
  Covers-read e es w h =
      let inc = subst Increasing (sym h) (redis.increasing w.redis (stream_key j)) in
      let (d, m, same) = last-Memᴰ e es in
      (
        IsId-last e es [] (subst Increasing (sym (append-nil (e ∷ es))) inc),
        subst (λ t. AtMost t (top redis ids j w)) same
            (All-Memᴰ _ (ids.bounds w.redis (stream_key j)) (subst (Memᴰ d) h m)),
        λ d m. inl (subst (Memᴰ d) (sym h) m),
      )

  pub Covers-Grows :
      (e : Text × Item) (es : List (Text × Item)) (w w' : World s)
      → Covers e es w
      → Grows redis ids j w w'
      → Covers e es w'
  Covers-Grows e es w w' (i, a, c) (b, g) = (
    i,
    AtMost-trans _ _ _ a b,
    λ d m. elim (g d m) [ inl k ↦ c d k | inr k ↦ inr (AtMost-before _ _ d.0 a k) ],
  )

  -- What a trim removes is covered.
  pub Covers-trim :
      (e : Text × Item) (es : List (Text × Item)) (n : Text) (w : World s)
      → Covers e es w
      → next_id (last_id e es) ≡ ok n
      → (d : Text × Item) → Memᴰ d (stream redis j w)
      → Memᴰ d (e ∷ es) ⊎ Memᴰ d (select (λ x. not (before x.0 n)) (stream redis j w))
  Covers-trim e es n w (i, a, c) next d m = elim (c d m) [
    | inl k ↦ inl k
    | inr above ↦ inr (
        Memᴰ-select (λ x. not (before x.0 n)) (stream redis j w)
          (ap not (
            not_below_next d.0 (last_id e es) n
              (IsId-Memᴰ (stream redis j w) (redis.increasing w.redis (stream_key j)) m) i next
              above))
          m)
  ]

  -- A flush under way, where `kept` is what has been taken out or buffered.
  abbrev pub Sound : List Item → World s → Task → Type 0
  Sound kept w (has_read c []) = Unit
  Sound kept w (has_read c (e ∷ es)) = c ≡ j → Covers e es w
  Sound kept w (has_saved c e es old) = c ≡ j → Covers e es w × Within (new_items (e ∷ es)) kept

  Sound-later :
      (kept kept' : List Item) (w w' : World s)
      → Within kept kept'
      → Grows redis ids j w w'
      → (t : Task) → Sound kept w t
      → Sound kept' w' t
  Sound-later kept kept' w w' k g (has_read c []) h = tt
  Sound-later kept kept' w w' k g (has_read c (e ∷ es)) h =
      λ same. Covers-Grows e es w w' (h same) g
  Sound-later kept kept' w w' k g (has_saved c e es old) h = λ same.
      let (cover, saved) = h same in (Covers-Grows e es w w' cover g, λ i m. k i (saved i m))

  -- Everything is taken out, buffered or streamed, and the flushes under way are sound.
  abbrev pub Keeps : List Item → List Item → List Item → List Task → World s → Type 0
  Keeps all ys b ts w =
      (buffered s.codec j w.db ≡ ok b)
      × ((i : Item) → Memᴰ i all → Memᴰ i (ys ++ b) ⊎ Memᴰ i (new_items (stream redis j w)))
      × All (Sound (ys ++ b) w) ts

  pub advance :
      (all ys ys' b b' : List Item) (ts : List Task) (w w' : World s)
      → Keeps all ys b ts w
      → buffered s.codec j w'.db ≡ ok b'
      → Within (ys ++ b) (ys' ++ b')
      → ((i : Item)
          → Memᴰ i (new_items (stream redis j w))
          → Memᴰ i (ys' ++ b') ⊎ Memᴰ i (new_items (stream redis j w')))
      → Grows redis ids j w w'
      → Keeps all ys' b' ts w'
  advance all ys ys' b b' ts w w' (_, safe, tasks) has kept streams g = (
    has,
    λ i m. elim (safe i m) [ inl k ↦ inl (kept i k) | inr k ↦ streams i k ],
    All-map ts (Sound-later (ys ++ b) (ys' ++ b') w w' kept g) tasks,
  )

  module _ (all ys b : List Item) (ts us : List Task) (t : Task) (w : World s) where
    pub add_task :
        Keeps all ys b (ts ++ us) w → Sound (ys ++ b) w t → Keeps all ys b (ts ++ t ∷ us) w
    add_task (has, safe, tasks) h =
        let (before, after) = All-parts (Sound (ys ++ b) w) ts us tasks in
        (has, safe, All-append (Sound (ys ++ b) w) ts (t ∷ us) before (h, after))

    pub drop_task :
        Keeps all ys b (ts ++ t ∷ us) w → Keeps all ys b (ts ++ us) w × Sound (ys ++ b) w t
    drop_task (has, safe, tasks) =
        let (before, (h, after)) = All-parts (Sound (ys ++ b) w) ts (t ∷ us) tasks in
        ((has, safe, All-append (Sound (ys ++ b) w) ts us before after), h)
