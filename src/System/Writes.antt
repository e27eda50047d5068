-- ===== src/System/Writes.antt =====
-- What a request to write a memory does to the streams of all clones.
use mycelium_consciousness.Prelude.{
  ℕ, Text, Bool, true, false, List, [], ◌∷◌, ◌++◌, Option, ◌≡◌, refl, ap, sym, ◌∙◌, append-nil,
  ◌==◌, leb, Bool-cases, ==→eq, other_than, inl, inr, if◌then◌else◌,
}
use mycelium_consciousness.Effects.{Result, ok, err, Exec, pure, continue}
use mycelium_consciousness.Effects.Stays.{IsOrder, Stays, Stays-pure, Stays-bind}
use mycelium_consciousness.Services.{Services, Item}
use mycelium_consciousness.Services.Laws.{RedisLaws, AddFailsCleanly}
use mycelium_consciousness.Models.{CloneProfile}
use mycelium_consciousness.Database.{World}
use mycelium_consciousness.Streams.{stream_key, append_memory}
use mycelium_consciousness.Streams.Keys.{stream_key-injective}
use mycelium_consciousness.Streams.Calls.{stream}
use mycelium_consciousness.Flush.{new_items}
use mycelium_consciousness.Memories.{MemoryWriteRequest, record_memory, send_flush, write_memory}
use mycelium_consciousness.Memories.Write.{recorded}
use mycelium_consciousness.Profiles.{read_own_profile}
use mycelium_consciousness.Api.{Context, for_clone, write_me, handle, handle_clone, respond, Body}
use mycelium_consciousness.Api.Confined.{respond-world}
use mycelium_consciousness.System.{entering, accepted, if_added}

new_items-snoc :
    (es : List (Text × Item)) (id : Text) (i : Item)
    → new_items (es ++ (id, i) ∷ []) ≡ new_items es ++ i ∷ []
new_items-snoc [] id i = refl
new_items-snoc (e ∷ es) id i = ap (λ l. e.1 ∷ l) (new_items-snoc es id i)

module _ {s : Services} (redis : RedisLaws s.redis) where
  -- Redis may differ, but not in an entry.
  abbrev Kept : World s → World s → Type 0
  Kept w w' =
      (w'.db ≡ w.db)
      × (s.redis.entries w'.redis ≡ s.redis.entries w.redis)
      × (w'.outages ≡ w.outages)

  order : IsOrder Kept
  order = record {
    same = λ w. (refl, refl, refl);
    then_by = λ u v w (d, e, o) (d', e', o'). (d' ∙ d, e' ∙ e, o' ∙ o);
  }

  xlen-Kept :
      (k : Text)
      → Stays Kept (λ w. let (r, st) = s.redis.xlen k w.redis in (r, record w { redis = st }))
  xlen-Kept k = record { at = λ w. (refl, redis.xlen_reads k w.redis, refl) }

  sent-Kept :
      (clone_id : ℕ) (b : Bool) → Stays Kept (if b then send_flush {s = s} clone_id else pure tt)
  unfolding send_flush
  sent-Kept clone_id true = record { at = λ w. (refl, refl, refl) }
  sent-Kept clone_id false = Stays-pure order tt

module _ {s : Services} (redis : RedisLaws s.redis) (adds : AddFailsCleanly s.redis) (j : ℕ) where
  -- The tables and the connection are as they were, and the items stand behind those of the stream.
  abbrev pub Enters : World s → List Item → World s → Type 0
  Enters w xs w' =
      (w'.db ≡ w.db)
      × (new_items (stream redis j w') ≡ new_items (stream redis j w) ++ xs)
      × (w'.outages ≡ w.outages)

  Enters-Kept :
      (w : World s) (xs : List Item) (u v : World s)
      → Enters w xs u
      → Kept redis u v
      → Enters w xs v
  Enters-Kept w xs u v (d, e, o) (d', e', o') =
      (d' ∙ d, ap (λ f. new_items (f (stream_key j))) e' ∙ e, o' ∙ o)

  module _ (maxlen now : ℕ) (p : CloneProfile) (r : MemoryWriteRequest) where
    -- What the write has put into the stream of `j`, by the reply to its XADD.
    added :
        (w : World s) (reply : Result Text × s.redis.State)
        → s.redis.xadd (stream_key p.id) (recorded s.iso now r) w.redis ≡ reply
        → new_items (s.redis.entries reply.1 (stream_key j))
          ≡ new_items (stream redis j w)
            ++ (if p.id == j then if_added reply.0 (recorded s.iso now r) else [])
    added w (err e, st) h =
        let kept : s.redis.entries st (stream_key j) ≡ stream redis j w =
          ap (λ q. s.redis.entries q.1 (stream_key j)) (sym h)
          ∙ ap (λ f. f (stream_key j))
              (adds.unchanged (stream_key p.id) (recorded s.iso now r) w.redis (ap (λ q. q.0) h)) in
        elim (Bool-cases (p.id == j)) [
          | inl b ↦ rw b (ap new_items kept ∙ sym (append-nil _))
          | inr b ↦ rw b (ap new_items kept ∙ sym (append-nil _))
        ]
    added w (ok id, st) h = elim (Bool-cases (p.id == j)) [
      | inl b ↦
          let k = ap stream_key (==→eq p.id j b) in
          rw b (
            ap (λ l. new_items (s.redis.entries st l)) (sym k)
            ∙ ap (λ q. new_items (s.redis.entries q.1 (stream_key p.id))) (sym h)
            ∙ ap new_items (laws_ok w id h)
            ∙ new_items-snoc _ id (recorded s.iso now r)
            ∙ ap (λ l. new_items (s.redis.entries w.redis l) ++ recorded s.iso now r ∷ []) k)
      | inr b ↦ rw b (
          ap (λ q. new_items (s.redis.entries q.1 (stream_key j))) (sym h)
          ∙ ap new_items (
              redis.xadd_others (stream_key p.id) (stream_key j) (recorded s.iso now r) w.redis
                (λ e. other_than p.id j b (sym (stream_key-injective j p.id e))))
          ∙ sym (append-nil _))
    ]
      where
        laws_ok :
            (w : World s) (id : Text) {st : s.redis.State}
            → s.redis.xadd (stream_key p.id) (recorded s.iso now r) w.redis ≡ (ok id, st)
            → s.redis.entries
                (s.redis.xadd (stream_key p.id) (recorded s.iso now r) w.redis).1
                (stream_key p.id)
              ≡ s.redis.entries w.redis (stream_key p.id) ++ (id, recorded s.iso now r) ∷ []
        laws_ok w id h =
            redis.xadd_ok (stream_key p.id) (recorded s.iso now r) w.redis (ap (λ q. q.0) h)

    -- The rest of `append_memory` and of `record_memory`.
    abbrev counted : Text → Exec (World s) (Text × ℕ)
    counted id w =
        let (n, st) = s.redis.xlen (stream_key p.id) w.redis in
        continue n (λ n. pure (id, n)) (record w { redis = st })

    abbrev answered : Text × ℕ → Exec (World s) (Unit {0})
    answered x = if leb maxlen x.1 then send_flush {s = s} p.id else pure tt

    abbrev rest_of : Text → World s → World s
    rest_of id w = (continue (counted id w).0 answered (counted id w).1).1

    counted-Kept : (id : Text) → Stays (Kept redis) (counted id)
    counted-Kept id =
        Stays-bind (order redis) _ (λ n. pure (id, n)) (xlen-Kept redis (stream_key p.id))
          (λ n. Stays-pure (order redis) (id, n))

    by_reply :
        (w : World s) (reply : Result Text × s.redis.State)
        → s.redis.xadd (stream_key p.id) (recorded s.iso now r) w.redis ≡ reply
        → let (q, w') = continue reply.0 counted (record w { redis = reply.1 }) in
          Enters w
            (if p.id == j then if_added reply.0 (recorded s.iso now r) else [])
            (continue q answered w').1
    by_reply w (err e, st) h = (refl, added w (err e, st) h, refl)
    by_reply w (ok id, st) h =
        Enters-Kept w _ (record w { redis = st }) (rest_of id (record w { redis = st }))
          (refl, added w (ok id, st) h, refl)
          ((Stays-bind (order redis) (counted id) answered (counted-Kept id)
              (λ x. sent-Kept redis p.id (leb maxlen x.1))).at
            (record w { redis = st }))

    record_memory-Enters :
        (w : World s) → Enters w (entering j now (ok p) (ok r) w) (record_memory maxlen now p r w).1
    unfolding record_memory append_memory
    record_memory-Enters w =
        by_reply w (s.redis.xadd (stream_key p.id) (recorded s.iso now r) w.redis) refl

  module _ (c : Context s) (credentials : Option Text) (r : MemoryWriteRequest) (w : World s) where
    unchanged : Enters w [] w
    unchanged = (refl, sym (append-nil _), refl)

    -- A request ends as its handler does.
    answers :
        (xs : List Item) (q : Result (ℕ × Body) × World s)
        → Enters w xs q.1
        → Enters w xs (respond c q).1
    answers xs (r, w') (d, e, o) =
        let (d', q', o', _) = respond-world c r w' in
        (d' ∙ d, ap (λ st. new_items (s.redis.entries st (stream_key j))) q' ∙ e, o' ∙ o)

    -- From the validated request on.
    after_record :
        (xs : List Item) (q : Result (Unit {0}) × World s)
        → Enters w xs q.1
        → Enters w xs (continue q.0 (λ _. pure {A = ℕ × Body} (202, Body.recorded)) q.1).1
    after_record xs (ok u, w') h = h
    after_record xs (err e, w') h = h

    by_profile :
        (p : Result CloneProfile) (q : Result MemoryWriteRequest)
        → Enters w
            (entering j c.now p q w)
            (continue p (λ p. continue q (record_memory c.maxlen c.now p)) w).1
    by_profile (err e) q = unchanged
    by_profile (ok p) (err e) = unchanged
    by_profile (ok p) (ok r') = record_memory-Enters c.maxlen c.now p r' w

    -- A request to write a memory changes no table and puts the entry that it is accepted with, if
    -- any, behind those of the stream of the caller's own profile.
    pub write_me-Enters :
        Enters w (accepted j c credentials r w) (handle c (for_clone credentials (write_me r)) w).1
    unfolding accepted handle handle_clone write_memory read_own_profile
    write_me-Enters = answers _ _ (after_record _ _ (by_profile _ _))
