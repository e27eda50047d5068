-- ===== src/Flush/Batch.antt =====
-- What a flush of one clone leaves alone, and a flush of all clones.
use mycelium_consciousness.Prelude.{
  ℕ, Text, List, [], ◌∷◌, Option, none, some, ◌≡◌, ◌≢◌, refl, ap, ◌∙◌,
}
use mycelium_consciousness.Effects.{Error, Result, ok, err}
use mycelium_consciousness.Effects.Stays.{
  IsOrder, Stays, Stays-pure, Stays-raise, Stays-lift, Stays-gets, Stays-attempt, Stays-bind,
}
use mycelium_consciousness.Services.{Services, Codec, Item}
use mycelium_consciousness.Services.Laws.{RedisLaws}
use mycelium_consciousness.Models.{MemoryBuffer}
use mycelium_consciousness.Database.{Db, World, get_buffer, commit}
use mycelium_consciousness.Database.Commit.{Commits, commit-Commits}
use mycelium_consciousness.Database.Buffers.{get_buffer-insert_ne, get_buffer-update_ne}
use mycelium_consciousness.Streams.{stream_key, read_all, trim_up_to}
use mycelium_consciousness.Streams.Calls.{
  stream, read_all-others, read_all-Reads, trim_up_to-others, trim_up_to-db,
}
use mycelium_consciousness.Flush.{
  existing_items, write_buffer, revert_buffer, revert, save_and_trim, flush_entries,
  flush_one_stream,
}

module _ (codec : Codec) (c j : ℕ) (ne : j ≢ c) where
  pub write_buffer-frame :
      (row : Option MemoryBuffer) (xs : List Item) (db : Db) {db' : Db}
      → write_buffer codec c row xs db ≡ ok db'
      → get_buffer j db' ≡ get_buffer j db
  unfolding write_buffer
  write_buffer-frame none xs db h = get_buffer-insert_ne _ j db h ne
  write_buffer-frame (some b) xs db h = get_buffer-update_ne c _ _ j db h ne

  revert_buffer-frame :
      (xs : List Item) (db : Db) {db' : Db}
      → revert_buffer codec c xs db ≡ ok db'
      → get_buffer j db' ≡ get_buffer j db
  unfolding revert_buffer
  revert_buffer-frame xs db h = get_buffer-update_ne c _ _ j db h ne

module _ {s : Services} (redis : RedisLaws s.redis) (c j : ℕ) (ne : j ≢ c) where
  -- The buffer and the stream of clone `j` are as they were.
  abbrev SameClone : World s → World s → Type 0
  SameClone w w' = (get_buffer j w'.db ≡ get_buffer j w.db) × (stream redis j w' ≡ stream redis j w)

  SameClone-order : IsOrder SameClone
  SameClone-order = record {
    same = λ w. (refl, refl);
    then_by = λ u v w p q. (q.0 ∙ p.0, q.1 ∙ p.1);
  }

  commit-SameClone :
      (f : Db → Result Db)
      → ((db db' : Db) → f db ≡ ok db' → get_buffer j db' ≡ get_buffer j db)
      → Stays SameClone (commit f)
  commit-SameClone f k = record { at = λ w. of_commit w (commit f w) (commit-Commits f w) }
    where
      of_commit : (w : World s) (r : Result (Unit {0}) × World s) → Commits f w r → SameClone w r.1
      of_commit w (ok u, w') (e, _, _, q, _, _) =
          (k w.db w'.db e, ap (λ st. s.redis.entries st (stream_key j)) q)
      of_commit w (err x, w') (e, _, q, _, _) =
          (ap (get_buffer j) e, ap (λ st. s.redis.entries st (stream_key j)) q)

  read_all-SameClone : Stays SameClone (read_all c)
  read_all-SameClone = record {
    at = λ w.
        let (_, _, d, _, _) = read_all-Reads redis c w in
        (ap (get_buffer j) d, read_all-others redis c j w);
  }

  trim_up_to-SameClone : (id : Text) → Stays SameClone (trim_up_to c id)
  trim_up_to-SameClone id = record {
    at = λ w.
        (ap (get_buffer j) (trim_up_to-db redis c id w).0, trim_up_to-others redis c j ne id w);
  }

  revert-SameClone : (xs : List Item) (x : Error) → Stays SameClone (revert {s = s} c xs x)
  unfolding revert
  revert-SameClone xs x =
      Stays-bind SameClone-order _ _
        (commit-SameClone _ (λ db db' h. revert_buffer-frame s.codec c j ne xs db h))
        (λ _. Stays-raise SameClone-order x)

  save_and_trim-SameClone :
      (e : Text × Item) (es : List (Text × Item)) (row : Option MemoryBuffer) (old : List Item)
      → Stays SameClone (save_and_trim {s = s} c e es row old)
  unfolding save_and_trim
  save_and_trim-SameClone e es row old =
      Stays-bind SameClone-order _ _
        (commit-SameClone _ (λ db db' h. write_buffer-frame s.codec c j ne row _ db h))
        (λ _.
          Stays-bind SameClone-order _ _
            (Stays-attempt SameClone-order _ _ (trim_up_to-SameClone _) (revert-SameClone old))
            (λ _. Stays-pure SameClone-order _))

  flush_entries-SameClone : (es : List (Text × Item)) → Stays SameClone (flush_entries {s = s} c es)
  unfolding flush_entries
  flush_entries-SameClone [] = Stays-pure SameClone-order _
  flush_entries-SameClone (e ∷ es) =
      Stays-bind SameClone-order _ _ (Stays-gets SameClone-order (λ x. get_buffer c x.db)) (λ row.
        Stays-bind SameClone-order _ _ (Stays-lift SameClone-order (existing_items s.codec row))
          (save_and_trim-SameClone e es row))

  -- Whether it returns or raises, a flush of one clone changes neither the buffer nor the stream
  -- of another.
  pub flush_one_stream-SameClone : (w : World s) → SameClone w (flush_one_stream {s = s} c w).1
  unfolding flush_one_stream
  flush_one_stream-SameClone w =
      (Stays-bind SameClone-order _ _ read_all-SameClone flush_entries-SameClone).at w
