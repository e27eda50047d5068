-- ===== src/Streams/Calls.antt =====
-- What the calls of the redis client do to the stream of a clone.
use mycelium_consciousness.Prelude.{
  ℕ, ◌≢◌, Text, List, ◌∷◌, ◌++◌, ◌≡◌, ◌∙◌, ap, refl, arith, not, select, subst, sym,
}
use mycelium_consciousness.Effects.{Result, ok, err, continue, lift}
use mycelium_consciousness.Services.{Services, Item}
use mycelium_consciousness.Services.Ids.{before}
use mycelium_consciousness.Services.Laws.{RedisLaws, TrimFailsCleanly, Increasing}
use mycelium_consciousness.Database.{World}
use mycelium_consciousness.Streams.{
  stream_key, stream_key_prefix, clone_ids, active_clone_ids, read_all, trim_up_to, next_id,
}
use mycelium_consciousness.Streams.Keys.{stream_key-injective}
use mycelium_consciousness.Streams.Trim.{last_id, select-trimmed, next_id-last}

module _ {s : Services} (laws : RedisLaws s.redis) (clone_id : ℕ) where
  abbrev pub stream : World s → List (Text × Item)
  stream w = s.redis.entries w.redis (stream_key clone_id)

  module _ (e : Text × Item) (es rest : List (Text × Item)) (w : World s)
      (here : stream w ≡ (e ∷ es) ++ rest) where
    -- What a trim up to the last entry read has done, by how it ended.
    abbrev Trims : Result (Unit {0}) × World s → Type 0
    Trims (ok _, w') =
        (stream w' ≡ rest) × (w'.db ≡ w.db) × (w'.outages ≡ w.outages) × (w'.bucket ≡ w.bucket)
    Trims (err _, w') = (w'.db ≡ w.db) × (w'.outages ≡ w.outages) × (w'.bucket ≡ w.bucket)

    increasing : Increasing ((e ∷ es) ++ rest)
    increasing = subst Increasing here (laws.increasing w.redis (stream_key clone_id))

    -- The same, where a trim that raises has removed nothing.
    abbrev pub TrimsCleanly : Result (Unit {0}) × World s → Type 0
    TrimsCleanly (ok u, w') = Trims (ok u, w')
    TrimsCleanly (err x, w') = (stream w' ≡ (e ∷ es) ++ rest) × Trims (err x, w')

    xtrim-TrimsCleanly :
        (n : Text)
        → TrimFailsCleanly s.redis
        → (reply : Result (Unit {0}) × s.redis.State)
        → s.redis.xtrim (stream_key clone_id) n w.redis ≡ reply
        → Trims (reply.0, record w { redis = reply.1 })
        → TrimsCleanly (reply.0, record w { redis = reply.1 })
    xtrim-TrimsCleanly n clean (ok u, st) h t = t
    xtrim-TrimsCleanly n clean (err x, st) h t = (
      ap (λ r. s.redis.entries r.1 (stream_key clone_id)) (sym h)
          ∙ ap (λ f. f (stream_key clone_id))
              (clean.unchanged (stream_key clone_id) n w.redis (ap (λ r. r.0) h))
          ∙ here,
      t,
    )

    xtrim-Trims :
        (n : Text)
        → next_id (last_id e es) ≡ ok n
        → (reply : Result (Unit {0}) × s.redis.State)
        → s.redis.xtrim (stream_key clone_id) n w.redis ≡ reply
        → Trims (reply.0, record w { redis = reply.1 })
    xtrim-Trims n next (ok tt, st) h = (
      ap (λ r. s.redis.entries r.1 (stream_key clone_id)) (sym h)
          ∙ laws.xtrim_ok (stream_key clone_id) n w.redis (ap (λ r. r.0) h)
          ∙ ap (select (λ d. not (before d.0 n))) here
          ∙ select-trimmed e es rest n increasing next,
      refl,
      refl,
      refl,
    )
    xtrim-Trims n next (err x, st) h = (refl, refl, refl)

    trim_up_to-Trims : Trims (trim_up_to clone_id (last_id e es) w)
    unfolding trim_up_to
    trim_up_to-Trims =
        let (n, next) = next_id-last e es rest increasing in rw next (xtrim-Trims n next _ refl)

    pub trim_up_to-TrimsCleanly :
        TrimFailsCleanly s.redis → TrimsCleanly (trim_up_to clone_id (last_id e es) w)
    unfolding trim_up_to
    trim_up_to-TrimsCleanly clean =
        let (n, next) = next_id-last e es rest increasing in
        rw next (xtrim-TrimsCleanly n clean _ refl (xtrim-Trims n next _ refl))

  -- What reading a stream has done.
  abbrev pub Reads : World s → Result (List (Text × Item)) × World s → Type 0
  Reads w (r, w') =
      ((es : List (Text × Item)) → r ≡ ok es → es ≡ stream w)
      × (stream w' ≡ stream w)
      × (w'.db ≡ w.db)
      × (w'.outages ≡ w.outages)
      × (w'.bucket ≡ w.bucket)

  pub read_all-Reads : (w : World s) → Reads w (read_all clone_id w)
  unfolding read_all
  read_all-Reads w = (
    λ es h. laws.xrange_ok (stream_key clone_id) w.redis h,
    ap (λ f. f (stream_key clone_id)) (laws.xrange_reads (stream_key clone_id) w.redis),
    refl,
    refl,
    refl,
  )

  -- The effect of a trim on the world is that on redis alone.
  pub trim_up_to-db :
      (id : Text) (w : World s)
      → let w' = (trim_up_to clone_id id w).1 in
        (w'.db ≡ w.db) × (w'.outages ≡ w.outages) × (w'.bucket ≡ w.bucket)
  unfolding trim_up_to
  trim_up_to-db id w = ground arith

pub trim_up_to-reply :
    {s : Services} (clone_id : ℕ) (id : Text) (w : World s) {n : Text} {r : Result (Unit {0})}
    {st : s.redis.State}
    → next_id id ≡ ok n
    → s.redis.xtrim (stream_key clone_id) n w.redis ≡ (r, st)
    → trim_up_to clone_id id w ≡ (r, record w { redis = st })
unfolding trim_up_to
trim_up_to-reply clone_id id w next h = rw (next, h)

module _ {s : Services} (laws : RedisLaws s.redis) (c j : ℕ) where
  -- Reading the stream of a clone changes no stream, and trimming it none of another clone.
  pub read_all-others : (w : World s) → stream laws j (read_all c w).1 ≡ stream laws j w
  unfolding read_all
  read_all-others w = ap (λ f. f (stream_key j)) (laws.xrange_reads (stream_key c) w.redis)

  pub trim_up_to-others :
      j ≢ c → (id : Text) (w : World s) → stream laws j (trim_up_to c id w).1 ≡ stream laws j w
  unfolding trim_up_to
  trim_up_to-others ne id w = trimmed (next_id id)
    where
      trimmed :
          (r : Result Text)
          → stream laws j
              (continue r
                (λ minid w.
                  let (r, st) = s.redis.xtrim (stream_key c) minid w.redis in
                  (r, record w { redis = st }))
                w).1
            ≡ stream laws j w
      trimmed (ok n) =
          laws.xtrim_others (stream_key c) (stream_key j) n w.redis
            (λ e. ne (stream_key-injective j c e))
      trimmed (err x) = refl

module _ {s : Services} (laws : RedisLaws s.redis) where
  -- Listing the clones changes nothing but what redis keeps of the scan.
  pub active_clone_ids-reads :
      (j : ℕ) (w : World s)
      → let w' = (active_clone_ids w).1 in
        (w'.db ≡ w.db) × (w'.outages ≡ w.outages) × (stream laws j w' ≡ stream laws j w)
  unfolding active_clone_ids
  active_clone_ids-reads j w = listed (s.redis.scan_iter stream_key_prefix w.redis).0
    where
      scanned : World s
      scanned = record w { redis = (s.redis.scan_iter stream_key_prefix w.redis).1 }

      same : stream laws j scanned ≡ stream laws j w
      same = ap (λ f. f (stream_key j)) (laws.scan_reads stream_key_prefix w.redis)

      listed :
          (r : Result (List Text))
          → let w' = (continue r (λ keys. lift (clone_ids keys)) scanned).1 in
            (w'.db ≡ w.db) × (w'.outages ≡ w.outages) × (stream laws j w' ≡ stream laws j w)
      listed (ok keys) = (refl, refl, same)
      listed (err x) = (refl, refl, same)
