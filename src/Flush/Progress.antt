-- ===== src/Flush/Progress.antt =====
-- A flush that the services answer gets through.
use mycelium_consciousness.Prelude.{
  ℕ, Text, Bool, true, false, not, List, [], ◌∷◌, ◌++◌, map, none, ◌≡◌, refl, ap, sym, ◌∙◌, arith,
  any, all, find, length, ◌==◌, Option-cases, inl, inr, subst, append-nil,
}
use mycelium_consciousness.Effects.{Result, ok, err, handle, pure, ◌>>◌}
use mycelium_consciousness.Services.{Services, Item, Redis, Codec}
use mycelium_consciousness.Services.Laws.{CodecLaws, RedisLaws, TrimFailsCleanly, Increasing}
use mycelium_consciousness.Codec.{encode_payload}
use mycelium_consciousness.Models.{MemoryBuffer}
use mycelium_consciousness.Database.{
  Db, World, get_buffer, intact, distinct, lost, later, insert_buffer, profile_ids, user_ids,
  owner_ids, refers,
}
use mycelium_consciousness.Database.Commit.{commit-eq-ok}
use mycelium_consciousness.Database.Buffers.{update_buffer-intact}
use mycelium_consciousness.Database.Unique.{intact-IsUnique}
use mycelium_consciousness.Streams.{stream_key, read_all, trim_up_to}
use mycelium_consciousness.Streams.Trim.{last_id, next_id-last}
use mycelium_consciousness.Streams.Calls.{stream}
use mycelium_consciousness.Flush.{
  new_items, answer, write_buffer, revert, save_and_trim, flush_entries, flush_one_stream,
}
use mycelium_consciousness.Flush.Outcome.{buffered}
use mycelium_consciousness.Flush.All.{IsConnected, lost-later}
use mycelium_consciousness.Flush.Moves.{streamed, Flushed-ok, flush_one_stream-Flushed}

-- Redis answers every read and every trim.
pub record Answers (r : Redis) : Type 0 where
  pub xrange : (k : Text) (s : r.State) → (es : List (Text × Item)) × ((r.xrange k s).0 ≡ ok es)
  pub xtrim : (k minid : Text) (s : r.State) → (r.xtrim k minid s).0 ≡ ok tt

first_kept : (bs : List Bool) → all not bs ≡ true → lost bs ≡ false
first_kept [] h = refl
first_kept (b ∷ bs) h = ground arith

module _ (x : MemoryBuffer) where
  any-snoc :
      (n : ℕ) (bs : List MemoryBuffer)
      → any (λ m. m == n) (map (λ b. b.clone_id) bs) ≡ false
      → x.clone_id == n ≡ false
      → any (λ m. m == n) (map (λ b. b.clone_id) (bs ++ x ∷ [])) ≡ false
  any-snoc n [] h e = ground arith
  any-snoc n (b ∷ bs) h e = ground (arith, any-snoc n bs)

  distinct-snoc :
      (bs : List MemoryBuffer)
      → distinct (map (λ b. b.clone_id) bs) ≡ true
      → find (λ b. b.clone_id == x.clone_id) bs ≡ none
      → distinct (map (λ b. b.clone_id) (bs ++ x ∷ [])) ≡ true
  unfolding distinct
  distinct-snoc [] d h = refl
  distinct-snoc (b ∷ bs) d h = ground (arith, distinct-snoc bs, any-snoc b.clone_id bs)

  refers-snoc :
      (keys : List ℕ) (bs : List MemoryBuffer)
      → refers (map (λ b. b.clone_id) bs) keys ≡ true
      → any (λ k. k == x.clone_id) keys ≡ true
      → refers (map (λ b. b.clone_id) (bs ++ x ∷ [])) keys ≡ true
  refers-snoc keys [] h k = ground arith
  refers-snoc keys (b ∷ bs) h k = ground (arith, refers-snoc keys bs)

  -- The INSERT of a buffer of a profile that has none breaks no constraint.
  insert_buffer-intact :
      (db : Db)
      → get_buffer x.clone_id db ≡ none
      → any (λ k. k == x.clone_id) (profile_ids db) ≡ true
      → intact db ≡ true
      → (db' : Db) × (insert_buffer x db ≡ ok db') × (intact db' ≡ true)
  unfolding insert_buffer intact user_ids profile_ids owner_ids
  insert_buffer-intact db none_yet known h =
      let listed : refers (map (λ b. b.clone_id) db.buffers) (profile_ids db) ≡ true =
        ground arith in
      let d = distinct-snoc db.buffers (intact-IsUnique db h).buffers none_yet in
      let r = refers-snoc (profile_ids db) db.buffers listed known in
      (record db { buffers = db.buffers ++ x ∷ [] }, refl, ground (arith, d, r))

module _ (codec : Codec) (c : ℕ) (items : List Item) where
  -- What a flush writes is accepted, if the clone has a profile.
  write_buffer-intact :
      (db : Db)
      → any (λ k. k == c) (profile_ids db) ≡ true
      → intact db ≡ true
      → (db' : Db) × (write_buffer codec c (get_buffer c db) items db ≡ ok db')
        × (intact db' ≡ true)
  unfolding write_buffer
  write_buffer-intact db known i = elim (Option-cases (get_buffer c db)) [
    | inl h ↦ rw h (insert_buffer-intact _ db h known i)
    | inr (b, h) ↦
        rw h (update_buffer-intact c (encode_payload codec items) (length items) db b h i)
  ]

module _ {s : Services} (redis : RedisLaws s.redis) (answers : Answers s.redis) (c : ℕ) where
  trims :
      (e : Text × Item) (es : List (Text × Item)) (w : World s)
      → stream redis c w ≡ e ∷ es
      → (trim_up_to c (last_id e es) w).0 ≡ ok tt
  unfolding trim_up_to
  trims e es w here =
      let (n, next) = next_id-last e es [] (
        subst Increasing (here ∙ sym (append-nil (e ∷ es)))
          (redis.increasing w.redis (stream_key c))) in
      rw next (answers.xtrim (stream_key c) n w.redis)

  attempted :
      (old : List Item) (e : Text × Item) (es : List (Text × Item)) (w : World s)
      (t : Result (Unit {0}) × World s)
      → t.0 ≡ ok tt
      → ((handle t.0 (revert c old) >> pure (answer c (e ∷ es))) t.1).0 ≡ ok (answer c (e ∷ es))
  attempted old e es w (ok u, w') h = refl
  attempted old e es w (err x, w') h = cc

  saves :
      (old : List Item) (e : Text × Item) (es : List (Text × Item)) (w : World s)
      → lost w.outages ≡ false
      → intact w.db ≡ true
      → any (λ k. k == c) (profile_ids w.db) ≡ true
      → stream redis c w ≡ e ∷ es
      → (save_and_trim c e es (get_buffer c w.db) old w).0 ≡ ok (answer c (e ∷ es))
  unfolding save_and_trim
  saves old e es w l i known here =
      let (db', wrote, i') =
        write_buffer-intact s.codec c (old ++ new_items (e ∷ es)) w.db known i in
      rw
        (commit-eq-ok (write_buffer s.codec c (get_buffer c w.db) (old ++ new_items (e ∷ es))) w l
          wrote i')
        (attempted old e es w _
          (trims e es (record w { db = db'; outages = later w.outages }) here))

  of_entries :
      (old : List Item) (es : List (Text × Item)) (w : World s)
      → lost w.outages ≡ false
      → intact w.db ≡ true
      → any (λ k. k == c) (profile_ids w.db) ≡ true
      → buffered s.codec c w.db ≡ ok old
      → stream redis c w ≡ es
      → (flush_entries c es w).0 ≡ ok (answer c es)
  unfolding flush_entries
  of_entries old [] w l i known has here = refl
  of_entries old (e ∷ es) w l i known has here = rw has (saves old e es w l i known here)

  of_read :
      (old : List Item) (w : World s) (es : List (Text × Item))
      → lost w.outages ≡ false
      → intact w.db ≡ true
      → any (λ k. k == c) (profile_ids w.db) ≡ true
      → buffered s.codec c w.db ≡ ok old
      → (s.redis.xrange (stream_key c) w.redis).0 ≡ ok es
      → (flush_one_stream c w).0 ≡ ok (answer c (stream redis c w))
  unfolding flush_one_stream read_all
  of_read old w es l i known has h =
      let read = redis.xrange_ok (stream_key c) w.redis h in
      let same = ap (λ f. f (stream_key c)) (redis.xrange_reads (stream_key c) w.redis) in
      rw h (
        of_entries old es (record w { redis = (s.redis.xrange (stream_key c) w.redis).1 }) l i known
          has (same ∙ sym read)
        ∙ ap (λ l. ok (answer c l)) read)

module _ {s : Services} (codec : CodecLaws s.codec) (redis : RedisLaws s.redis)
    (clean : TrimFailsCleanly s.redis) (answers : Answers s.redis) where
  -- With a connection to the database, where Redis answers: from tables that keep their
  -- constraints, a flush of a clone that has a profile and whose buffer reads back returns, with
  -- the number of memories that its stream held. Then its stream is empty, and they stand behind
  -- the ones that were buffered.
  pub flush_one_stream-returns :
      (c : ℕ) (old : List Item) (w : World s)
      → IsConnected w
      → intact w.db ≡ true
      → any (λ k. k == c) (profile_ids w.db) ≡ true
      → buffered s.codec c w.db ≡ ok old
      → ((flush_one_stream c w).0
          ≡ ok (record { clone_id = c; flushed = length (streamed codec redis clean c w) }))
        × (buffered s.codec c (flush_one_stream c w).1.db
            ≡ ok (old ++ streamed codec redis clean c w))
        × (streamed codec redis clean c (flush_one_stream c w).1 ≡ [])
  flush_one_stream-returns c old w k i known has =
      let (es, h) = answers.xrange (stream_key c) w.redis in
      let returned = of_read redis answers c old w es (first_kept w.outages k) i known has h in
      let (b, t) =
        Flushed-ok codec redis clean c old w _ returned
          (flush_one_stream-Flushed codec redis clean c old w has (lost-later w.outages k).0) in
      (returned, b, t)
