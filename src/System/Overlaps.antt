-- ===== src/System/Overlaps.antt =====
-- Each segment of a flush keeps every memory taken out, buffered or streamed.
use mycelium_consciousness.Prelude.{
  ℕ, ◌≢◌, Text, not, List, [], ◌∷◌, ◌++◌, ◌≡◌, ◌⊎◌, inl, inr, ap, sym, ◌∙◌, subst, ◌==◌, select,
  Memᴰ_of_select, Bool-cases, ==→eq, other_than,
}
use mathlib.Core.List.{Memᴰ}
use mathlib.Core.List.Memᴰ
use mycelium_consciousness.Effects.{Result, ok, err}
use mycelium_consciousness.Services.{Services, Item}
use mycelium_consciousness.Services.Ids.{before}
use mycelium_consciousness.Services.Laws.{RedisLaws, IdLaws, CodecLaws}
use mycelium_consciousness.Streams.Trim.{last_id}
use mycelium_consciousness.Streams.{stream_key, next_id, read_all}
use mycelium_consciousness.Streams.Keys.{stream_key-injective}
use mycelium_consciousness.Streams.Calls.{stream, read_all-Reads, read_all-others}
use mycelium_consciousness.Database.{World}
use mycelium_consciousness.Flush.{new_items}
use mycelium_consciousness.Flush.Outcome.{buffered}
use mycelium_consciousness.System.Growth.{Grows, of_redis, read_all-Grows}
use mycelium_consciousness.System.Interleaved.{Task, has_read, has_saved, after_read, after_save}
use mycelium_consciousness.System.Coverage.{
  Covers-read, Covers-Grows, Covers-trim, Within, Sound, Keeps, advance, add_task, drop_task,
  items_of, item_of,
}
use mycelium_consciousness.System.Segments.{Saves}

module _ {s : Services} (redis : RedisLaws s.redis) (ids : IdLaws s.redis) (j : ℕ)
    (all ys b : List Item) where
  pub of_read :
      (ts : List Task) (c : ℕ) (w : World s) (r : Result (List (Text × Item)))
      → Keeps redis ids j all ys b ts w
      → (read_all c w).0 ≡ r
      → Keeps redis ids j all ys b (after_read c r ts) (read_all c w).1
  of_read ts c w r k e =
      let (reads, same, d, _, _) = read_all-Reads redis c w in
      let others = read_all-others redis c j w in
      let later =
        advance redis ids j all ys ys b b ts w (read_all c w).1 k (ap (buffered s.codec j) d ∙ k.0)
          (λ i m. m) (λ i m. inr (subst (λ l. Memᴰ i (new_items l)) (sym others) m))
          ((read_all-Grows redis ids j c).at w) in
      go r reads later e
    where
      go :
          (r : Result (List (Text × Item)))
          → ((es : List (Text × Item)) → (read_all c w).0 ≡ ok es → es ≡ stream redis c w)
          → Keeps redis ids j all ys b ts (read_all c w).1
          → (read_all c w).0 ≡ r
          → Keeps redis ids j all ys b (after_read c r ts) (read_all c w).1
      go (err x) reads later e = later
      go (ok []) reads later e =
          add_task redis ids j all ys b [] ts (has_read c []) (read_all c w).1 later tt
      go (ok (d ∷ es)) reads later e =
          add_task redis ids j all ys b [] ts (has_read c (d ∷ es)) (read_all c w).1 later (λ same.
            Covers-read redis ids j d es (read_all c w).1 (
              reads (d ∷ es) e
              ∙ ap (λ x. stream redis x w) same
              ∙ sym (read_all-others redis c j w)))

  pub of_save :
      (codec : CodecLaws s.codec) (ts us : List Task) (c : ℕ) (e : Text × Item)
      (es : List (Text × Item)) (w : World s) (p : Result (List Item) × World s)
      → Keeps redis ids j all ys b (ts ++ has_read c (e ∷ es) ∷ us) w
      → Saves codec j c e es b w p
      → (b' : List Item) × Keeps redis ids j all ys b' (ts ++ after_save c e es p.0 us) p.1
  of_save codec ts us c e es w (err x, w') k (r, has) =
      let (rest, _) = drop_task redis ids j all ys b ts us _ w k in
      (
        b,
        advance redis ids j all ys ys b b (ts ++ us) w w' rest has (λ i m. m)
            (λ i m.
              inr (subst (λ q. Memᴰ i (new_items (s.redis.entries q (stream_key j)))) (sym r) m))
            (of_redis redis ids j w w' r),
      )
  of_save codec ts us c e es w (ok old, w') k (r, (b', has, within, new)) =
      let (rest, sound) = drop_task redis ids j all ys b ts us _ w k in
      let more : Within (ys ++ b) (ys ++ b') = λ i m. elim (Memᴰ.append_cases ys m) [
        | inl l ↦ Memᴰ.append_left b' l
        | inr l ↦ Memᴰ.append_right ys (within i l)
      ] in
      let later =
        advance redis ids j all ys ys b b' (ts ++ us) w w' rest has more
          (λ i m.
            inr (subst (λ q. Memᴰ i (new_items (s.redis.entries q (stream_key j)))) (sym r) m))
          (of_redis redis ids j w w' r) in
      (
        b',
        add_task redis ids j all ys b' ts us (has_saved c e es old) w' later (λ same. (
          Covers-Grows redis ids j e es w w' (sound same) (of_redis redis ids j w w' r),
          λ i m. Memᴰ.append_right ys (new same i m),
        )),
      )

  module _ (c : ℕ) (e : Text × Item) (es : List (Text × Item)) (n : Text) (w : World s)
      (next : next_id (last_id e es) ≡ ok n)
      (done : (s.redis.xtrim (stream_key c) n w.redis).0 ≡ ok tt) where
    abbrev pub after : World s
    after = record w { redis = (s.redis.xtrim (stream_key c) n w.redis).1 }

    mine : c ≡ j → stream redis j after ≡ select (λ x. not (before x.0 n)) (stream redis j w)
    mine same =
        subst
          (λ x.
            s.redis.entries (s.redis.xtrim (stream_key c) n w.redis).1 (stream_key x)
            ≡ select (λ x. not (before x.0 n)) (s.redis.entries w.redis (stream_key x)))
          same (redis.xtrim_ok (stream_key c) n w.redis done)

    another : c ≢ j → stream redis j after ≡ stream redis j w
    another ne =
        redis.xtrim_others (stream_key c) (stream_key j) n w.redis
          (λ h. ne (sym (stream_key-injective j c h)))

    fewer : (d : Text × Item) → Memᴰ d (stream redis j after) → Memᴰ d (stream redis j w)
    fewer d m = elim (Bool-cases (c == j)) [
      | inl h ↦ Memᴰ_of_select _ (stream redis j w) (subst (Memᴰ d) (mine (==→eq c j h)) m)
      | inr h ↦ subst (Memᴰ d) (another (other_than c j h)) m
    ]

    trim-Grows : Grows redis ids j w after
    trim-Grows = (
      inr (ap (λ f. f (stream_key j)) (sym (ids.xtrim_keeps (stream_key c) n w.redis))),
      λ d m. inl (fewer d m),
    )

    pub of_trim :
        (ts us : List Task) (old : List Item)
        → Keeps redis ids j all ys b (ts ++ has_saved c e es old ∷ us) w
        → Keeps redis ids j all ys b (ts ++ us) after
    of_trim ts us old k =
        let (rest, sound) = drop_task redis ids j all ys b ts us _ w k in
        advance redis ids j all ys ys b b (ts ++ us) w after rest rest.0 (λ i m. m) (stays sound)
          trim-Grows
      where
        stays :
            Sound redis ids j (ys ++ b) w (has_saved c e es old)
            → (i : Item) → Memᴰ i (new_items (stream redis j w))
            → Memᴰ i (ys ++ b) ⊎ Memᴰ i (new_items (stream redis j after))
        stays sound i m =
            let (d, k, h) = items_of (stream redis j w) m in
            elim (Bool-cases (c == j)) [
              | inl t ↦
                  let same = ==→eq c j t in
                  let (cover, within) = sound same in
                  elim (Covers-trim redis ids j e es n w cover next d k) [
                    | inl l ↦
                        inl
                          (within i (subst (λ x. Memᴰ x (new_items (e ∷ es))) (sym h) (item_of l)))
                    | inr l ↦ inr (
                        subst (λ x. Memᴰ x (new_items (stream redis j after))) (sym h)
                          (item_of (subst (Memᴰ d) (sym (mine same)) l)))
                  ]
              | inr t ↦ inr (subst (λ l. Memᴰ i (new_items l)) (sym (another (other_than c j t))) m)
            ]
