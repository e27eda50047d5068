-- ===== src/Flush/Segments.antt =====
-- A flush in three segments. Another task can run after the read, and after the commit, which gives
-- up the lock on the buffer row.
use mycelium_consciousness.Prelude.{ℕ, Text, List, ◌∷◌, ◌++◌, Option, ◌≡◌, refl}
use mycelium_consciousness.Effects.{
  Result, ok, err, pure, gets, lift, attempt, continue, ◌>>=◌, ◌>>◌,
}
use mycelium_consciousness.Services.{Services, Item}
use mycelium_consciousness.Models.{MemoryBuffer}
use mycelium_consciousness.Database.{World, Action, commit, get_buffer}
use mycelium_consciousness.Streams.{trim_up_to}
use mycelium_consciousness.Streams.Trim.{last_id}
use mycelium_consciousness.Flush.{
  FlushResult, existing_items, new_items, answer, write_buffer, revert, save_and_trim,
  flush_entries,
}

module _ {s : Services} (clone_id : ℕ) (e : Text × Item) (es : List (Text × Item)) where
  -- From the entries that were read to the commit, with the contents of the buffer before it.
  unfoldable pub save_entries : Action s (List Item)
  save_entries = do
    row ← gets (λ w. get_buffer clone_id w.db)
    existing ← lift (existing_items s.codec row)
    commit (write_buffer s.codec clone_id row (existing ++ new_items (e ∷ es)))
    pure existing

  -- From the commit on.
  unfoldable pub trim_or_revert : List Item → Action s FlushResult
  trim_or_revert existing = do
    attempt (trim_up_to clone_id (last_id e es)) (revert clone_id existing)
    pure (answer clone_id (e ∷ es))

  saved_then :
      (old : List Item) (c : Result (Unit {0}) × World s)
      → continue c.0 (λ _. trim_or_revert old) c.1
        ≡ continue
            (continue c.0 (λ _. pure old) c.1).0
            trim_or_revert
            (continue c.0 (λ _. pure old) c.1).1
  saved_then old (ok u, w) = refl
  saved_then old (err x, w) = refl

  loaded_then :
      (row : Option MemoryBuffer) (old : Result (List Item)) (w : World s)
      → continue old (save_and_trim clone_id e es row) w
        ≡ ((lift old >>= λ existing.
                commit (write_buffer s.codec clone_id row (existing ++ new_items (e ∷ es)))
                >> pure existing)
              >>= trim_or_revert)
            w
  unfolding save_and_trim trim_or_revert
  loaded_then row (ok old) w = saved_then old _
  loaded_then row (err x) w = refl

  -- A flush that nothing runs in between is its segments.
  flush_entries-segments :
      (w : World s) → flush_entries clone_id (e ∷ es) w ≡ (save_entries >>= trim_or_revert) w
  unfolding flush_entries save_entries
  flush_entries-segments w =
      loaded_then (get_buffer clone_id w.db) (existing_items s.codec (get_buffer clone_id w.db)) w
