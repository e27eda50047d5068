-- ===== src/Flush.antt =====
-- services/celery/src/celery_worker/flush.py. The buffer row is read and locked, and its new
-- contents are written, in one transaction.
pub mod Outcome
pub mod Moves
pub mod Races
pub mod Batch
pub mod Frames
pub mod All
pub mod Progress
pub mod Segments
pub mod Reverts
use mycelium_consciousness.Prelude.{
  ℕ, Text, Bool, true, false, List, [], ◌∷◌, ◌++◌, map, Option, none, some, length,
}
use mycelium_consciousness.Effects.{
  Error, Result, ok, err, Exec, pure, raise, gets, lift, continue, handle, attempt, ◌>>=◌, ◌>>◌,
}
use mycelium_consciousness.Services.{Services, Codec, Item}
use mycelium_consciousness.Codec.{encode_payload}
use mycelium_consciousness.Models.{MemoryBuffer, payload}
use mycelium_consciousness.Database.{
  Db, World, Action, commit, get_buffer, insert_buffer, update_buffer,
}
use mycelium_consciousness.Streams.{read_all, trim_up_to, active_clone_ids}
use mycelium_consciousness.Streams.Trim.{last_id}

pub record FlushResult : Type 0 where
  pub clone_id : ℕ
  pub flushed : ℕ

-- `buffer.payload if buffer is not None else []`
unfoldable pub existing_items : Codec → Option MemoryBuffer → Result (List Item)
existing_items c none = ok []
existing_items c (some b) = payload c b

abbrev pub new_items : List (Text × Item) → List Item
new_items = map (λ e. e.1)

abbrev pub answer : ℕ → List (Text × Item) → FlushResult
answer clone_id entries = record { clone_id = clone_id; flushed = length (new_items entries) }

-- What the session writes for the row that it has loaded: the INSERT of a new one, or an UPDATE.
unfoldable pub write_buffer : Codec → ℕ → Option MemoryBuffer → List Item → Db → Result Db
unfolding insert_buffer update_buffer
write_buffer c clone_id none combined = insert_buffer (record {
  clone_id = clone_id;
  payload_blob = encode_payload c combined;
  entry_count = length combined;
})
write_buffer c clone_id (some b) combined =
    update_buffer clone_id (encode_payload c combined) (length combined)

-- The row after a commit is in the database, so the revert is an UPDATE.
pub revert_buffer : Codec → ℕ → List Item → Db → Result Db
unfolding update_buffer
revert_buffer c clone_id existing =
    update_buffer clone_id (encode_payload c existing) (length existing)

abbrev add_result : Result FlushResult → List FlushResult → List FlushResult
add_result (ok r) rest = r ∷ rest
add_result (err e) rest = rest

abbrev pub collect : Result FlushResult → Result (List FlushResult) → Result (List FlushResult)
collect r (ok rest) = ok (add_result r rest)
collect r (err e) = err e

module _ {s : Services} where
  -- The `except` block around the trim.
  unfoldable pub revert : ℕ → List Item → Error → Action s (Unit {0})
  revert clone_id existing e = do commit (revert_buffer s.codec clone_id existing); raise e

  -- From the loaded row to the return.
  unfoldable pub save_and_trim :
      ℕ → Text × Item → List (Text × Item) → Option MemoryBuffer → List Item → Action s FlushResult
  save_and_trim clone_id e es row existing = do
    commit (write_buffer s.codec clone_id row (existing ++ new_items (e ∷ es)))
    attempt (trim_up_to clone_id (last_id e es)) (revert clone_id existing)
    pure (answer clone_id (e ∷ es))

  -- From the entries that were read on.
  unfoldable pub flush_entries : ℕ → List (Text × Item) → Action s FlushResult
  flush_entries clone_id [] = pure (record { clone_id = clone_id; flushed = 0 })
  flush_entries clone_id (e ∷ es) = do
    row ← gets (λ w. get_buffer clone_id w.db)
    existing ← lift (existing_items s.codec row)
    save_and_trim clone_id e es row existing

  unfoldable pub flush_one_stream : ℕ → Action s FlushResult
  flush_one_stream clone_id = do entries ← read_all clone_id; flush_entries clone_id entries

  -- The loop of `flush_all_streams`: a failed flush is skipped.
  pub flush_each : List ℕ → Action s (List FlushResult)
  flush_each [] w = (ok [], w)
  flush_each (c ∷ cs) w =
      let (r, w') = flush_one_stream c w in
      let (rest, w'') = flush_each cs w' in (collect r rest, w'')

  pub flush_all_streams : Action s (List FlushResult)
  flush_all_streams = do ids ← active_clone_ids; flush_each ids
