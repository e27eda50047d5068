-- ===== src/Flush/Moves.antt =====
-- A flush moves a clone's memories from its stream to its buffer, or leaves both.
use mycelium_consciousness.Prelude.{
  ℕ, Text, true, false, List, [], ◌∷◌, ◌++◌, Option, some, length, ◌≡◌, refl, ap, sym, ◌∙◌,
  append-nil,
}
use mycelium_consciousness.Effects.{Result, ok, err, continue, handle, attempt, ◌>>◌, pure}
use mycelium_consciousness.Services.{Services, Item}
use mycelium_consciousness.Services.Laws.{CodecLaws, RedisLaws, TrimFailsCleanly}
use mycelium_consciousness.Codec.{encode_payload}
use mycelium_consciousness.Models.{MemoryBuffer}
use mycelium_consciousness.Database.{World, get_buffer, lost, later, intact}
use mycelium_consciousness.Database.Commit.{Commits, commit-Commits, commit-eq-ok}
use mycelium_consciousness.Database.Buffers.{update_buffer-intact}
use mycelium_consciousness.Streams.{stream_key, trim_up_to}
use mycelium_consciousness.Streams.Trim.{last_id}
use mycelium_consciousness.Streams.Calls.{
  stream, TrimsCleanly, trim_up_to-TrimsCleanly, Reads, read_all-Reads,
}
use mycelium_consciousness.Flush.{
  FlushResult, new_items, answer, write_buffer, revert_buffer, revert, save_and_trim, flush_entries,
  flush_one_stream,
}
use mycelium_consciousness.Flush.Outcome.{
  buffered, revert_buffer-buffered, write_buffer-row, buffered-row,
}

module _ {s : Services} (codec : CodecLaws s.codec) (redis : RedisLaws s.redis)
    (clean : TrimFailsCleanly s.redis) (clone_id : ℕ) where
  -- The memories of a clone that still stand in its stream.
  abbrev pub streamed : World s → List Item
  streamed w = new_items (stream redis clone_id w)

  module _ (old : List Item) (es rest : List (Text × Item)) where
    -- The first entries of the stream have moved behind the old ones, or nothing has changed.
    abbrev Moved : Result FlushResult × World s → Type 0
    Moved (ok r, w') =
        (buffered s.codec clone_id w'.db ≡ ok (old ++ new_items es))
        × (stream redis clone_id w' ≡ rest)
        × (r ≡ answer clone_id es)
    Moved (err _, w') =
        (buffered s.codec clone_id w'.db ≡ ok old) × (stream redis clone_id w' ≡ es ++ rest)

  module _ (old : List Item) (e : Text × Item) (es rest : List (Text × Item))
      (b : MemoryBuffer) where
    -- Once the new contents are committed, with a connection for one more commit.
    after_trim :
        (w : World s)
        → get_buffer clone_id w.db ≡ some b
        → buffered s.codec clone_id w.db ≡ ok (old ++ new_items (e ∷ es))
        → intact w.db ≡ true
        → lost w.outages ≡ false
        → (here : stream redis clone_id w ≡ (e ∷ es) ++ rest) → (trim : Result (Unit {0}) × World s)
        → TrimsCleanly redis clone_id e es rest w here trim
        → Moved old
            (e ∷ es)
            rest
            ((handle trim.0 (revert clone_id old) >> pure (answer clone_id (e ∷ es))) trim.1)
    unfolding revert revert_buffer
    after_trim w row new i l here (ok u, w') (t, d, o, k) =
        (ap (buffered s.codec clone_id) d ∙ new, t, refl)
    after_trim w row new i l here (err x, w') (t, (d, o, k)) =
        let row' = ap (get_buffer clone_id) d ∙ row in
        let (db', written, i') =
          update_buffer-intact clone_id (encode_payload s.codec old) (length old) w'.db b row'
            (ap intact d ∙ i) in
        rw (commit-eq-ok (revert_buffer s.codec clone_id old) w' (ap lost o ∙ l) written i')
          (revert_buffer-buffered s.codec codec clone_id old w'.db b row' written, t)

  module _ (old : List Item) (e : Text × Item) (es rest : List (Text × Item)) where
    after_commit :
        (row : Option MemoryBuffer) (w : World s)
        → get_buffer clone_id w.db ≡ row
        → buffered s.codec clone_id w.db ≡ ok old
        → lost (later w.outages) ≡ false
        → stream redis clone_id w ≡ (e ∷ es) ++ rest
        → (c : Result (Unit {0}) × World s)
        → Commits (write_buffer s.codec clone_id row (old ++ new_items (e ∷ es))) w c
        → Moved old (e ∷ es) rest (
            continue c.0
              (λ _.
                attempt (trim_up_to clone_id (last_id e es)) (revert clone_id old)
                >> pure (answer clone_id (e ∷ es)))
              c.1)
    after_commit row w k has l here (err x, w') (d, o, r, _, _) = (
      ap (buffered s.codec clone_id) d ∙ has,
      ap (λ st. s.redis.entries st (stream_key clone_id)) r ∙ here,
    )
    after_commit row w k has l here (ok u, w') (wrote, i, o, r, _, _) =
        let (b, row', items) =
          write_buffer-row s.codec codec clone_id (old ++ new_items (e ∷ es)) w.db row k wrote in
        let here' = ap (λ st. s.redis.entries st (stream_key clone_id)) r ∙ here in
        after_trim old e es rest b w' row' (buffered-row s.codec codec clone_id w'.db b row' items)
          i (ap lost o ∙ l) here' _
          (trim_up_to-TrimsCleanly redis clone_id e es rest w' here' clean)

    -- What was read moves behind what was buffered; entries that were written since stay.
    save_and_trim-Moved :
        (w : World s)
        → buffered s.codec clone_id w.db ≡ ok old
        → lost (later w.outages) ≡ false
        → stream redis clone_id w ≡ (e ∷ es) ++ rest
        → Moved old (e ∷ es) rest (save_and_trim clone_id e es (get_buffer clone_id w.db) old w)
    unfolding save_and_trim
    save_and_trim-Moved w has l here =
        after_commit (get_buffer clone_id w.db) w refl has l here _ (commit-Commits _ w)

  module _ (old : List Item) (w : World s) where
    -- All of the stream has moved behind the old memories, or nothing has changed.
    abbrev pub Flushed : Result FlushResult × World s → Type 0
    Flushed (ok r, w') =
        (buffered s.codec clone_id w'.db ≡ ok (old ++ streamed w))
        × (streamed w' ≡ [])
        × (r ≡ record { clone_id = clone_id; flushed = length (streamed w) })
    Flushed (err _, w') = (buffered s.codec clone_id w'.db ≡ ok old) × (streamed w' ≡ streamed w)

    pub Flushed-ok :
        (p : Result FlushResult × World s) {r : FlushResult}
        → p.0 ≡ ok r
        → Flushed p
        → (buffered s.codec clone_id p.1.db ≡ ok (old ++ streamed w)) × (streamed p.1 ≡ [])
    Flushed-ok (ok r, w') h (b, t, a) = (b, t)
    Flushed-ok (err x, w') h f = cc

    of_Moved :
        (es : List (Text × Item))
        → es ≡ stream redis clone_id w
        → (r : Result FlushResult × World s) → Moved old es [] r
        → Flushed r
    of_Moved es h (ok r, w') (b, t, a) =
        (b ∙ ap (λ l. ok (old ++ new_items l)) h, ap new_items t, a ∙ ap (answer clone_id) h)
    of_Moved es h (err x, w') (b, t) = (b, ap new_items (t ∙ append-nil es ∙ h))

    flush_entries-Moved :
        (es : List (Text × Item)) (w' : World s)
        → buffered s.codec clone_id w'.db ≡ ok old
        → lost (later w'.outages) ≡ false
        → stream redis clone_id w' ≡ es
        → Moved old es [] (flush_entries clone_id es w')
    unfolding flush_entries
    flush_entries-Moved [] w' has l here = (has ∙ ap ok (sym (append-nil old)), here, refl)
    flush_entries-Moved (e ∷ es) w' has l here =
        rw has (save_and_trim-Moved old e es [] w' has l (here ∙ sym (append-nil (e ∷ es))))

    after_read :
        (r : Result (List (Text × Item)) × World s)
        → buffered s.codec clone_id w.db ≡ ok old
        → lost (later w.outages) ≡ false
        → Reads redis clone_id w r
        → Flushed (continue r.0 (flush_entries clone_id) r.1)
    after_read (err x, w') has l (_, t, d, o, _) =
        (ap (buffered s.codec clone_id) d ∙ has, ap new_items t)
    after_read (ok es, w') has l (read, t, d, o, _) =
        let h = read es refl in
        of_Moved es h _ (
          flush_entries-Moved es w' (ap (buffered s.codec clone_id) d ∙ has)
            (ap (λ b. lost (later b)) o ∙ l) (t ∙ sym h))

    -- For a clone whose buffer reads back as `old`, where a trim that raises has removed nothing
    -- and the connection is not lost at a second commit: a flush that returns has put all the
    -- memories of the stream, in order, behind those of the buffer and emptied the stream, and
    -- returns their number; one that raises has left both as they were.
    pub flush_one_stream-Flushed :
        buffered s.codec clone_id w.db ≡ ok old
        → lost (later w.outages) ≡ false
        → Flushed (flush_one_stream clone_id w)
    unfolding flush_one_stream
    flush_one_stream-Flushed has l = after_read _ has l (read_all-Reads redis clone_id w)
