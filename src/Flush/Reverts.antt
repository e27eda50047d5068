-- ===== src/Flush/Reverts.antt =====
-- Where a failed trim meets another flush. A flush gives up the lock on the buffer row before it
-- trims, and puts the row back to what it was before its own commit.
use mycelium_consciousness.Prelude.{
  ℕ, Text, true, false, List, [], ◌∷◌, ◌++◌, Option, none, some, length, ◌≡◌, refl, ap, sym, ◌∙◌,
}
use mycelium_consciousness.Effects.{Error, Result, ok, err, continue, pure}
use mycelium_consciousness.Effects.Binds.{lift-ends}
use mycelium_consciousness.Services.{Services, Item, Codec}
use mycelium_consciousness.Services.Laws.{CodecLaws, RedisLaws, TrimFailsCleanly}
use mycelium_consciousness.Codec.{encode_payload}
use mycelium_consciousness.Models.{MemoryBuffer}
use mycelium_consciousness.Database.{World, get_buffer, lost, later, intact}
use mycelium_consciousness.Database.Commit.{Commits, commit-Commits, commit-eq-ok}
use mycelium_consciousness.Database.Buffers.{update_buffer-intact}
use mycelium_consciousness.Streams.{stream_key, next_id}
use mycelium_consciousness.Streams.Trim.{last_id}
use mycelium_consciousness.Streams.Calls.{stream, trim_up_to-reply}
use mycelium_consciousness.Flush.{
  FlushResult, new_items, existing_items, write_buffer, revert_buffer, revert, flush_one_stream,
}
use mycelium_consciousness.Flush.Outcome.{
  buffered, revert_buffer-buffered, write_buffer-row, buffered-row,
}
use mycelium_consciousness.Flush.Segments.{save_entries, trim_or_revert}
use mycelium_consciousness.Flush.Moves.{streamed, Flushed-ok, flush_one_stream-Flushed}

some_row :
    (c : Codec) (xs new rest : List Item) (i : Item) (row : Option MemoryBuffer)
    → existing_items c row ≡ ok ((xs ++ i ∷ new) ++ rest)
    → (b : MemoryBuffer) × (row ≡ some b)
unfolding existing_items
some_row c [] new rest i none h = cc
some_row c (x ∷ xs) new rest i none h = cc
some_row c xs new rest i (some b) h = (b, refl)

no_entry : (es : List (Text × Item)) → new_items es ≡ [] → es ≡ []
no_entry [] h = refl
no_entry (e ∷ es) h = cc

module _ {s : Services} (codec : CodecLaws s.codec) (redis : RedisLaws s.redis)
    (clean : TrimFailsCleanly s.redis) (clone_id : ℕ) (old : List Item) (e : Text × Item)
    (es : List (Text × Item)) (w : World s) where
  -- The world after the first flush has committed, and after the second has run.
  abbrev saved_world : World s
  saved_world = (save_entries clone_id e es w).1

  abbrev pub next_world : World s
  next_world = (flush_one_stream clone_id saved_world).1

  abbrev Saved : Result (List Item) × World s → Type 0
  Saved (r, w') =
      r ≡ ok old
      → (buffered s.codec clone_id w'.db ≡ ok (old ++ new_items (e ∷ es)))
        × (w'.outages ≡ later w.outages)

  committed :
      (xs : List Item) (c : Result (Unit {0}) × World s)
      → Commits
          (write_buffer s.codec clone_id (get_buffer clone_id w.db) (xs ++ new_items (e ∷ es)))
          w
          c
      → Saved (continue c.0 (λ _. pure xs) c.1)
  committed xs (err x, w') c h = cc
  committed xs (ok u, w') (wrote, _, o, _, _, _) h =
      let (b, row, items) =
        write_buffer-row s.codec codec clone_id (xs ++ new_items (e ∷ es)) w.db _ refl wrote in
      (
        buffered-row s.codec codec clone_id w'.db b row items
            ∙ ap (λ r. (continue r (λ ys u. (ok (ys ++ new_items (e ∷ es)), u)) w').0) h,
        o,
      )

  saved : Saved (save_entries clone_id e es w)
  unfolding save_entries
  saved =
      lift-ends Saved _ (buffered s.codec clone_id w.db) w (λ x h k. cc)
        (λ xs h. committed xs _ (commit-Commits _ w))

  -- A flush commits what it has read behind `old`; another flush of the clone runs and returns; the
  -- trim of the first raises. Then the buffer, where the second flush has left the memories of both
  -- behind `old`, is put back to `old`, and the stream is empty: the memories of both are lost.
  pub revert_race :
      {r : FlushResult} {n : Text} {x : Error} {st : s.redis.State}
      → (save_entries clone_id e es w).0 ≡ ok old
      → lost (later (later w.outages)) ≡ false
      → (flush_one_stream clone_id saved_world).0 ≡ ok r
      → next_id (last_id e es) ≡ ok n
      → s.redis.xtrim (stream_key clone_id) n next_world.redis ≡ (err x, st)
      → lost next_world.outages ≡ false
      → intact next_world.db ≡ true
      → let (q, w') = trim_or_revert clone_id e es old next_world in
        (buffered s.codec clone_id next_world.db
          ≡ ok ((old ++ new_items (e ∷ es)) ++ streamed codec redis clean clone_id saved_world))
        × (q ≡ err x)
        × (buffered s.codec clone_id w'.db ≡ ok old)
        × (stream redis clone_id w' ≡ [])
  unfolding trim_or_revert revert revert_buffer
  revert_race {n = n} {x = x} {st = st} wrote l second next trim l' i =
      let (new, o) = saved wrote in
      let (whole, empty) =
        Flushed-ok codec redis clean clone_id (old ++ new_items (e ∷ es)) saved_world _ second (
          flush_one_stream-Flushed codec redis clean clone_id (old ++ new_items (e ∷ es))
            saved_world new (ap (λ q. lost (later q)) o ∙ l)) in
      let (b, row) = some_row s.codec old (new_items es) _ e.1 _ whole in
      let (db', written, i') =
        update_buffer-intact clone_id (encode_payload s.codec old) (length old) next_world.db b row
          i in
      let gone : s.redis.entries st (stream_key clone_id) ≡ [] =
        ap (λ q. s.redis.entries q.1 (stream_key clone_id)) (sym trim)
        ∙ ap (λ f. f (stream_key clone_id))
            (clean.unchanged (stream_key clone_id) n next_world.redis (ap (λ q. q.0) trim))
        ∙ no_entry (stream redis clone_id next_world) empty in
      rw
        (
          trim_up_to-reply clone_id (last_id e es) next_world next trim,
          commit-eq-ok (revert_buffer s.codec clone_id old) (record next_world { redis = st }) l'
              written i',
        )
        (
          whole,
          refl,
          revert_buffer-buffered s.codec codec clone_id old next_world.db b row written,
          gone,
        )
