-- ===== src/System/Growth.antt =====
-- How the stream of a clone grows: an entry that comes in has an id above all that were there.
use mycelium_consciousness.Prelude.{
  ℕ, Text, Bool, true, false, Option, some, none, ◌≡◌, ◌⊎◌, inl, inr, refl, ap, sym, subst, arith,
  ◌==◌, ==→eq, other_than, Bool-cases, if◌then◌else◌, leb,
}
use mathlib.Core.List.{Memᴰ}
use mathlib.Core.List.Memᴰ
use mycelium_consciousness.Effects.{Result, ok, err, pure}
use mycelium_consciousness.Effects.Stays.{IsOrder, Stays, Stays-pure, Stays-lift, Stays-bind}
use mycelium_consciousness.Services.{Services, Item}
use mycelium_consciousness.Services.Ids.{before, earlier, position}
use mycelium_consciousness.Services.Laws.{RedisLaws, IdLaws, AddFailsCleanly, BucketLaws, AtMost}
use mycelium_consciousness.Models.{CloneProfile}
use mycelium_consciousness.Database.{Db, World, commit}
use mycelium_consciousness.Database.Commit.{Commits, commit-Commits}
use mycelium_consciousness.Storage.{put_object, get_object}
use mycelium_consciousness.Storage.Calls.{put_object-tables, get_object-Gets}
use mycelium_consciousness.Streams.{stream_key, stream_length, append_memory, read_all}
use mycelium_consciousness.Streams.Keys.{stream_key-injective}
use mycelium_consciousness.Streams.Calls.{stream}
use mycelium_consciousness.Rollup.Pruning.{keyed, keyed-All, delete_objects-OnlyDeletes}
use mycelium_consciousness.Rollup.{delete_objects}
use mycelium_consciousness.Rollup.Frames as RollupFrames
use mycelium_consciousness.Api.Frames as ApiFrames
use mycelium_consciousness.Api.Confined.{handle-Stays, moves_memories, respond-world}
use mycelium_consciousness.Api.{
  Context, Request, for_clone, write_me, handle, handle_clone, Body, respond,
}
use mycelium_consciousness.Memories.{
  MemoryWriteRequest, valid_write, write_memory, record_memory, send_flush,
}
use mycelium_consciousness.Profiles.{read_own_profile}

earlier_trans :
    (a b c : Option (ℕ × ℕ)) → earlier a b ≡ true → earlier b c ≡ true → earlier a c ≡ true
earlier_trans none b c h k = cc
earlier_trans (some p) none c h k = cc
earlier_trans (some p) (some q) none h k = cc
earlier_trans (some (m, s)) (some (n, t)) (some (o, u)) h k = ground arith

before_trans : (a b c : Text) → before a b ≡ true → before b c ≡ true → before a c ≡ true
unfolding before
before_trans a b c h k = earlier_trans (position a) (position b) (position c) h k

pub AtMost-before : (a b c : Text) → AtMost a b → before b c ≡ true → before a c ≡ true
AtMost-before a b c (inl h) k = before_trans a b c h k
AtMost-before a b c (inr e) k = rw e k

pub AtMost-trans : (a b c : Text) → AtMost a b → AtMost b c → AtMost a c
AtMost-trans a b c h (inl k) = inl (AtMost-before a b c h k)
AtMost-trans a b c h (inr e) = subst (AtMost a) e h

module _ {s : Services} (redis : RedisLaws s.redis) (ids : IdLaws s.redis) (j : ℕ) where
  -- The id that the stream of the clone was given last.
  abbrev pub top : World s → Text
  top w = ids.last_generated w.redis (stream_key j)

  -- An entry of the stream was there before, or its id is above all that were.
  abbrev pub Grows : World s → World s → Type 0
  Grows w w' =
      AtMost (top w) (top w')
      × ((d : Text × Item)
          → Memᴰ d (stream redis j w')
          → Memᴰ d (stream redis j w) ⊎ (before (top w) d.0 ≡ true))

  pub order : IsOrder Grows
  order = record {
    same = λ w. (inr refl, λ d m. inl m);
    then_by = λ u v w (a, g) (b, h). (
      AtMost-trans (top u) (top v) (top w) a b,
      λ d m. elim (h d m) [ inl k ↦ g d k | inr k ↦ inr (AtMost-before (top u) (top v) d.0 a k) ],
    );
  }

  -- A call that keeps what redis holds.
  of_same :
      (w w' : World s)
      → s.redis.entries w'.redis ≡ s.redis.entries w.redis
      → ids.last_generated w'.redis ≡ ids.last_generated w.redis
      → Grows w w'
  of_same w w' e l = (
    inr (ap (λ f. f (stream_key j)) (sym l)),
    λ d m. inl (subst (λ f. Memᴰ d (f (stream_key j))) e m),
  )

  pub of_redis : (w w' : World s) → w'.redis ≡ w.redis → Grows w w'
  of_redis w w' r = of_same w w' (ap s.redis.entries r) (ap ids.last_generated r)

  committed :
      (f : Db → Result Db) (w : World s) (r : Result (Unit {0}) × World s)
      → Commits f w r
      → Grows w r.1
  committed f w (ok u, w') (_, _, _, q, _, _) = of_redis w w' q
  committed f w (err x, w') (_, _, q, _, _) = of_redis w w' q

  commit-Grows : (f : Db → Result Db) → Stays Grows (commit f)
  commit-Grows f = record { at = λ w. committed f w (commit f w) (commit-Commits f w) }

  pub read_all-Grows : (c : ℕ) → Stays Grows (read_all c)
  unfolding read_all
  read_all-Grows c = record {
    at = λ w.
        of_same w (read_all c w).1 (redis.xrange_reads (stream_key c) w.redis)
          (ids.xrange_keeps (stream_key c) w.redis);
  }

  length-Grows : (c : ℕ) → Stays Grows (stream_length c)
  unfolding stream_length
  length-Grows c = record {
    at = λ w.
        of_same w (stream_length c w).1 (redis.xlen_reads (stream_key c) w.redis)
          (ids.xlen_keeps (stream_key c) w.redis);
  }

  module _ (bucket : BucketLaws s.bucket) where
    request_frame : ApiFrames.IsFrame {s = s} Grows
    request_frame = record {
      order = order;
      profile_row = λ c f. commit-Grows _;
      user_row = λ c f. commit-Grows _;
      restored = λ id now. commit-Grows _;
      backup = λ row. commit-Grows _;
      account = λ user profile. commit-Grows _;
      put = λ k d. record {
        at = λ w. of_redis w (put_object k d w).1 (put_object-tables bucket k d w).1;
      };
      get =
          λ k. record { at = λ w. of_redis w (get_object k w).1 (get_object-Gets bucket k w).2.1 };
      length = length-Grows;
      uuids = λ w n. of_redis w (record w { uuid_calls = n }) refl;
    }

    pub handle-Grows :
        (c : Context s) (r : Request) (w : World s)
        → moves_memories r ≡ false
        → Grows w (handle c r w).1
    handle-Grows c r w h = handle-Stays request_frame c r w h

    pub rollup_frame : RollupFrames.IsFrame {s = s} Grows
    rollup_frame = record {
      order = order;
      archives = λ p b start now key. commit-Grows _;
      deletes = λ ids. commit-Grows _;
      put = λ k d. record {
        at = λ w. of_redis w (put_object k d w).1 (put_object-tables bucket k d w).1;
      };
      objects = λ bs. record {
        at = λ w.
            of_redis w (delete_objects bs w).1
              ((delete_objects-OnlyDeletes bucket (keyed bs) bs (keyed-All bs)).at w).1;
      };
      uuids = λ w n. of_redis w (record w { uuid_calls = n }) refl;
    }

  module _ (adds : AddFailsCleanly s.redis) where
    module _ (c : ℕ) (i : Item) (w : World s) where
      abbrev added : World s
      added = record w { redis = (s.redis.xadd (stream_key c) i w.redis).1 }

      came_in :
          (reply : Result Text)
          → (s.redis.xadd (stream_key c) i w.redis).0 ≡ reply
          → c ≡ j
          → (d : Text × Item) → Memᴰ d (stream redis j added)
          → Memᴰ d (stream redis j w) ⊎ (before (top w) d.0 ≡ true)
      came_in (err x) h e d m =
          inl (subst (λ f. Memᴰ d (f (stream_key j))) (adds.unchanged (stream_key c) i w.redis h) m)
      came_in (ok id) h e d m =
          let k = ap stream_key e in
          let at_end =
            subst (Memᴰ d) (redis.xadd_ok (stream_key c) i w.redis h)
              (subst (λ l. Memᴰ d (s.redis.entries added.redis l)) (sym k) m) in
          elim (Memᴰ.append_cases (s.redis.entries w.redis (stream_key c)) at_end) [
            | inl old ↦ inl (subst (λ l. Memᴰ d (s.redis.entries w.redis l)) k old)
            | inr new ↦ inr (
                subst (λ l. before (ids.last_generated w.redis l) d.0 ≡ true) k
                  (rw (ap (λ x. x.0) (Memᴰ.eq_of_singleton new))
                    (ids.xadd_above (stream_key c) i w.redis h)))
          ]

      xadd-Grows : Grows w added
      xadd-Grows = elim (Bool-cases (c == j)) [
        | inl b ↦
            (ids.xadd_grows (stream_key c) (stream_key j) i w.redis, came_in _ refl (==→eq c j b))
        | inr b ↦ (
          ids.xadd_grows (stream_key c) (stream_key j) i w.redis,
          λ d m. inl (
              subst (Memᴰ d)
                (redis.xadd_others (stream_key c) (stream_key j) i w.redis
                  (λ e. other_than c j b (sym (stream_key-injective j c e))))
                m),
        )
      ]

    append_memory-Grows : (c : ℕ) (i : Item) → Stays Grows (append_memory {s = s} c i)
    unfolding append_memory stream_length
    append_memory-Grows c i =
        Stays-bind order _ _ (record { at = xadd-Grows c i })
          (λ id. Stays-bind order _ _ (length-Grows c) (λ n. Stays-pure order (id, n)))

    sent-Grows : (c : ℕ) (b : Bool) → Stays Grows (if b then send_flush {s = s} c else pure tt)
    unfolding send_flush
    sent-Grows c true = record { at = λ w. of_redis w (send_flush c w).1 refl }
    sent-Grows c false = Stays-pure order tt

    record_memory-Grows :
        (maxlen now : ℕ) (p : CloneProfile) (r : MemoryWriteRequest)
        → Stays Grows (record_memory {s = s} maxlen now p r)
    unfolding record_memory
    record_memory-Grows maxlen now p r =
        Stays-bind order _ _ (append_memory-Grows p.id _) (λ x. sent-Grows p.id (leb maxlen x.1))

    handler-Grows :
        (c : Context s) (credentials : Option Text) (r : MemoryWriteRequest)
        → Stays Grows (handle_clone c credentials (write_me r))
    unfolding handle_clone write_memory read_own_profile
    handler-Grows c credentials r =
        Stays-bind order _ _
          (Stays-bind order (read_own_profile c.now credentials) _ (record { at = order.same })
            (λ p.
              Stays-bind order _ _ (Stays-lift order (valid_write r))
                (record_memory-Grows c.maxlen c.now p)))
          (λ _. Stays-pure order _)

    answered :
        (c : Context s) (v : World s) (q : Result (ℕ × Body) × World s)
        → Grows v q.1
        → Grows v (respond c q).1
    answered c v (r, w') g =
        order.then_by v w' (respond c (r, w')).1 g
          (of_redis w' (respond c (r, w')).1 (respond-world c r w').1)

    -- A write to any stream.
    pub write_me-Grows :
        (c : Context s) (credentials : Option Text) (r : MemoryWriteRequest) (w : World s)
        → Grows w (handle c (for_clone credentials (write_me r)) w).1
    unfolding handle
    write_me-Grows c credentials r w = answered c w _ ((handler-Grows c credentials r).at w)
