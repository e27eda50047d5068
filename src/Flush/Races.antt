-- ===== src/Flush/Races.antt =====
-- Where a flush meets another one, or a trim whose reply is lost. A flush reads its entries before
-- it locks the buffer row, so another flush of the clone can run between the two.
use mycelium_consciousness.Prelude.{
  ℕ, Text, true, false, List, [], ◌∷◌, ◌++◌, Option, length, ◌≡◌, refl, ap, sym, ◌∙◌,
}
use mycelium_consciousness.Effects.{
  Error, Result, ok, err, continue, handle, attempt, ◌>>◌, pure, raise,
}
use mycelium_consciousness.Services.{Services, Item}
use mycelium_consciousness.Services.Laws.{CodecLaws, RedisLaws, TrimFailsCleanly}
use mycelium_consciousness.Codec.{encode_payload}
use mycelium_consciousness.Models.{MemoryBuffer}
use mycelium_consciousness.Database.{Db, World, get_buffer, lost, later, intact}
use mycelium_consciousness.Database.Commit.{Commits, commit-Commits, commit-eq-ok}
use mycelium_consciousness.Database.Buffers.{update_buffer-intact}
use mycelium_consciousness.Streams.{stream_key, next_id, read_all, trim_up_to}
use mycelium_consciousness.Streams.Trim.{last_id}
use mycelium_consciousness.Streams.Calls.{stream, read_all-Reads, trim_up_to-db, trim_up_to-reply}
use mycelium_consciousness.Flush.{
  FlushResult, new_items, answer, write_buffer, revert_buffer, revert, save_and_trim, flush_entries,
  flush_one_stream,
}
use mycelium_consciousness.Flush.Outcome.{
  buffered, revert_buffer-buffered, write_buffer-row, buffered-row,
}
use mycelium_consciousness.Flush.Moves.{Flushed-ok, flush_one_stream-Flushed}

module _ {s : Services} (codec : CodecLaws s.codec) (redis : RedisLaws s.redis) (clone_id : ℕ) where
  module _ (old : List Item) (e : Text × Item) (es : List (Text × Item)) where
    raised_after :
        (x : Error) (c : Result (Unit {0}) × World s) {u : Unit {0}}
        → (continue c.0 (λ _. raise {A = Unit {0}} x) c.1).0 ≡ ok u
        → ⊥
    raised_after x (ok v, w) h = cc
    raised_after x (err y, w) h = cc

    pure-ok :
        (a : FlushResult) {r : FlushResult} (c : Result (Unit {0}) × World s)
        → (continue c.0 (λ _. pure a) c.1).0 ≡ ok r
        → c.0 ≡ ok tt
    pure-ok a (ok v, w) h = refl
    pure-ok a (err y, w) h = cc

    db-after_trim :
        {r : FlushResult} (w : World s) (t : Result (Unit {0}) × World s)
        → t.1.db ≡ w.db
        → ((handle t.0 (revert clone_id old) >> pure (answer clone_id (e ∷ es))) t.1).0 ≡ ok r
        → ((handle t.0 (revert clone_id old) >> pure (answer clone_id (e ∷ es))) t.1).1.db ≡ w.db
    unfolding revert
    db-after_trim w (ok u, w') d h = d
    db-after_trim w (err x, w') d h =
        absurd (raised_after x _ (pure-ok (answer clone_id (e ∷ es)) _ h))

    adds_after_commit :
        {r : FlushResult} (row : Option MemoryBuffer) (w : World s)
        → get_buffer clone_id w.db ≡ row
        → (c : Result (Unit {0}) × World s)
        → Commits (write_buffer s.codec clone_id row (old ++ new_items (e ∷ es))) w c
        → let rest =
            continue c.0
              (λ _.
                attempt (trim_up_to clone_id (last_id e es)) (revert clone_id old)
                >> pure (answer clone_id (e ∷ es)))
              c.1 in
          rest.0 ≡ ok r → buffered s.codec clone_id rest.1.db ≡ ok (old ++ new_items (e ∷ es))
    adds_after_commit row w k (err x, w') c h = cc
    adds_after_commit row w k (ok u, w') (wrote, _, _, _, _, _) h =
        let (b, row', items) =
          write_buffer-row s.codec codec clone_id (old ++ new_items (e ∷ es)) w.db row k wrote in
        ap (buffered s.codec clone_id) (
          db-after_trim w' (trim_up_to clone_id (last_id e es) w')
            (trim_up_to-db redis clone_id (last_id e es) w').0 h)
        ∙ buffered-row s.codec codec clone_id w'.db b row' items

    -- Whatever the stream holds meanwhile, a flush that returns has added what it had read.
    flush_entries-adds :
        (w : World s) {r : FlushResult}
        → buffered s.codec clone_id w.db ≡ ok old
        → (flush_entries clone_id (e ∷ es) w).0 ≡ ok r
        → buffered s.codec clone_id (flush_entries clone_id (e ∷ es) w).1.db
          ≡ ok (old ++ new_items (e ∷ es))
    unfolding flush_entries save_and_trim
    flush_entries-adds w has h =
        rw has
          (adds_after_commit (get_buffer clone_id w.db) w refl _ (commit-Commits _ w) (rw has at h))

  module _ (clean : TrimFailsCleanly s.redis) (old : List Item) (e : Text × Item)
      (es : List (Text × Item)) (w : World s) where
    -- The world after the first flush has read, and after the second has run.
    abbrev read_world : World s
    read_world = (read_all clone_id w).1

    abbrev pub flushed_world : World s
    flushed_world = (flush_one_stream clone_id read_world).1

    -- For a clone whose buffer reads back as `old`: a flush reads the entries of the stream;
    -- another flush of the clone runs and returns; the first goes on and returns. Then the buffer
    -- holds the entries twice.
    pub flush_race :
        {r r' : FlushResult}
        → buffered s.codec clone_id w.db ≡ ok old
        → lost (later w.outages) ≡ false
        → (read_all clone_id w).0 ≡ ok (e ∷ es)
        → (flush_one_stream clone_id read_world).0 ≡ ok r
        → (flush_entries clone_id (e ∷ es) flushed_world).0 ≡ ok r'
        → buffered s.codec clone_id (flush_entries clone_id (e ∷ es) flushed_world).1.db
          ≡ ok ((old ++ new_items (e ∷ es)) ++ new_items (e ∷ es))
    flush_race has l read first second =
        let (here, t, d, o, _) = read_all-Reads redis clone_id w in
        let moved = Flushed-ok codec redis clean clone_id old read_world _ first (
          flush_one_stream-Flushed codec redis clean clone_id old read_world
            (ap (buffered s.codec clone_id) d ∙ has) (ap (λ b. lost (later b)) o ∙ l)) in
        flush_entries-adds (old ++ new_items (e ∷ es)) e es flushed_world
          (moved.0 ∙ ap (λ k. ok (old ++ new_items k)) (t ∙ sym (here (e ∷ es) read))) second

  module _ (old : List Item) (e : Text × Item) (es : List (Text × Item)) (w : World s) where
    -- The commit of a flush's new contents.
    abbrev writes : Db → Result Db
    writes = write_buffer s.codec clone_id (get_buffer clone_id w.db) (old ++ new_items (e ∷ es))

    -- For a clone whose buffer reads back as `old`, with no lost connection to the database: where
    -- redis applies the trim and its reply is lost, the flush raises, the buffer is put back to
    -- `old` and the stream is empty. The entries are in neither.
    pub flush_loses :
        {db' : Db} {n : Text} {x : Error} {st : s.redis.State}
        → buffered s.codec clone_id w.db ≡ ok old
        → lost w.outages ≡ false
        → lost (later w.outages) ≡ false
        → writes w.db ≡ ok db'
        → intact db' ≡ true
        → next_id (last_id e es) ≡ ok n
        → s.redis.xtrim (stream_key clone_id) n w.redis ≡ (err x, st)
        → s.redis.entries st (stream_key clone_id) ≡ []
        → let (r, w') = flush_entries clone_id (e ∷ es) w in
          (r ≡ err x) × (buffered s.codec clone_id w'.db ≡ ok old) × (stream redis clone_id w' ≡ [])
    unfolding flush_entries save_and_trim revert revert_buffer
    flush_loses {db'} {x} {st} has l l' wrote i next trim gone =
        let (b, row', items) =
          write_buffer-row s.codec codec clone_id (old ++ new_items (e ∷ es)) w.db
            (get_buffer clone_id w.db) refl wrote in
        let (db'', wrote', i') =
          update_buffer-intact clone_id (encode_payload s.codec old) (length old) db' b row' i in
        rw
          (
            has,
            commit-eq-ok writes w l wrote i,
            trim_up_to-reply clone_id (last_id e es)
                (record w { db = db'; outages = later w.outages }) next trim,
            commit-eq-ok (revert_buffer s.codec clone_id old)
                (record w { db = db'; outages = later w.outages; redis = st }) l' wrote' i',
          )
          (refl, revert_buffer-buffered s.codec codec clone_id old db' b row' wrote', gone)
