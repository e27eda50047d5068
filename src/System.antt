-- ===== src/System.antt =====
-- The API and the workers together, for the memories of one clone. Requests, tasks of the workers
-- and the beat's runs take turns; each runs to its end before the next begins.
pub mod Writes
pub mod History
pub mod Constraints
pub mod Growth
pub mod Interleaved
pub mod Coverage
pub mod Segments
pub mod Overlaps
pub mod AtLeastOnce
use mycelium_consciousness.Prelude.{
  ℕ, List, [], ◌∷◌, ◌++◌, Option, none, some, Text, false, ◌≡◌, ◌==◌, if◌then◌else◌,
}
use mycelium_consciousness.Effects.{Result, ok, err}
use mycelium_consciousness.Services.{Services, Item}
use mycelium_consciousness.Models.{CloneProfile, MemoryBuffer}
use mycelium_consciousness.Database.{Db, World, get_buffer}
use mycelium_consciousness.Deps.{own_profile}
use mycelium_consciousness.Streams.{stream_key}
use mycelium_consciousness.Memories.{MemoryWriteRequest, valid_write}
use mycelium_consciousness.Memories.Write.{recorded}
use mycelium_consciousness.Flush.{flush_one_stream, flush_all_streams, existing_items}
use mycelium_consciousness.Rollup.{rollup_clone, run_rollup}
use mycelium_consciousness.Api.{Context, Request, for_clone, write_me, handle}
use mycelium_consciousness.Api.Confined.{moves_memories}

abbrev pub if_added : Result Text → Item → List Item
if_added (ok id) i = i ∷ []
if_added (err e) i = []

abbrev or_nothing : Result (List Item) → List Item
or_nothing (ok xs) = xs
or_nothing (err e) = []

module _ {s : Services} (j : ℕ) where
  -- The entry that a write puts into the stream of clone `j`: that of the caller's profile, if the
  -- request is valid and redis accepts it.
  abbrev pub entering :
      (now : ℕ) → Result CloneProfile → Result MemoryWriteRequest → World s → List Item
  entering now (ok p) (ok r) w =
      if p.id == j
      then if_added (s.redis.xadd (stream_key p.id) (recorded s.iso now r) w.redis).0
          (recorded s.iso now r)
      else []
  entering now _ _ w = []

  pub accepted : Context s → Option Text → MemoryWriteRequest → World s → List Item
  accepted c credentials r w =
      entering c.now (own_profile s.jwt c.now credentials w.db) (valid_write r) w

  -- The entries of the buffer of clone `j` that is gone afterwards, if it is gone.
  abbrev pub gone_from : Option MemoryBuffer → World s → List Item
  gone_from none w = or_nothing (existing_items s.codec (get_buffer j w.db))
  gone_from (some b) w = []

  pub taken_out : World s → World s → List Item
  taken_out w w' = gone_from (get_buffer j w'.db) w

  -- `Reach w0 w xs ys`: the program can get from `w0` to `w`, and on the way `xs` was written to the
  -- stream of clone `j` and `ys` was taken out of its buffer by rollups, both oldest first.
  pub data Reach (w0 : World s) : World s → List Item → List Item → Type 1 where
    start : Reach w0 w0 [] []
    write :
        {w : World s} {xs ys : List Item} (c : Context s) (credentials : Option Text)
        (r : MemoryWriteRequest)
        → Reach w0 w xs ys
        → Reach w0
            (handle c (for_clone credentials (write_me r)) w).1
            (xs ++ accepted c credentials r w)
            ys
    request :
        {w : World s} {xs ys : List Item} (c : Context s) (r : Request)
        → moves_memories r ≡ false
        → Reach w0 w xs ys
        → Reach w0 (handle c r w).1 xs ys
    flush :
        {w : World s} {xs ys : List Item} (clone_id : ℕ)
        → Reach w0 w xs ys
        → Reach w0 (flush_one_stream clone_id w).1 xs ys
    flush_all :
        {w : World s} {xs ys : List Item}
        → Reach w0 w xs ys
        → Reach w0 (flush_all_streams w).1 xs ys
    force_rollup :
        {w : World s} {xs ys : List Item} (p : CloneProfile) (now : ℕ)
        → Reach w0 w xs ys
        → Reach w0 (rollup_clone p now w).1 xs (ys ++ taken_out w (rollup_clone p now w).1)
    rollup_due :
        {w : World s} {xs ys : List Item} (override : Option ℕ) (now : ℕ)
        → Reach w0 w xs ys
        → Reach w0
            (run_rollup override now w).1
            xs
            (ys ++ taken_out w (run_rollup override now w).1)
