-- ===== src/System/Constraints.antt =====
-- The tables keep their constraints, and the workers keep up.
use mycelium_consciousness.Prelude.{ℕ, List, [], ◌++◌, true, ◌≡◌, ap, ◌∙◌, any, ◌==◌, length}
use mycelium_consciousness.Effects.{ok}
use mycelium_consciousness.Services.{Services, Item}
use mycelium_consciousness.Services.Laws.{
  CodecLaws, RedisLaws, BucketLaws, TrimFailsCleanly, AddFailsCleanly,
}
use mycelium_consciousness.Database.{World, intact, profile_ids}
use mycelium_consciousness.Storage.Calls.{put_object-tables}
use mycelium_consciousness.Streams.Calls.{read_all-Reads, trim_up_to-db, active_clone_ids-reads}
use mycelium_consciousness.Flush.{flush_one_stream}
use mycelium_consciousness.Flush.Outcome.{buffered}
use mycelium_consciousness.Flush.Moves.{streamed}
use mycelium_consciousness.Flush.All.{IsConnected}
use mycelium_consciousness.Flush.Frames as FlushFrames
use mycelium_consciousness.Flush.Progress.{Answers, flush_one_stream-returns}
use mycelium_consciousness.Rollup.Frames as RollupFrames
use mycelium_consciousness.Rollup.Pruning.{keyed, keyed-All, delete_objects-OnlyDeletes}
use mycelium_consciousness.Api.Intact.{
  StillIntact, StillIntact-IsOrder, commit-StillIntact, handle-StillIntact,
}
use mycelium_consciousness.System.{
  Reach, start, write, request, flush, flush_all, force_rollup, rollup_due,
}
use mycelium_consciousness.System.Writes.{write_me-Enters}
use mycelium_consciousness.System.History.{Reach-Holds}

module _ {s : Services} (redis : RedisLaws s.redis) (bucket : BucketLaws s.bucket)
    (adds : AddFailsCleanly s.redis) where
  flush_frame : FlushFrames.IsFrame {s = s} StillIntact
  flush_frame = record {
    order = StillIntact-IsOrder;
    commits = commit-StillIntact;
    read = λ c. record { at = λ w h. ap intact (read_all-Reads redis c w).2 ∙ h };
    trim = λ c id. record { at = λ w h. ap intact (trim_up_to-db redis c id w).0 ∙ h };
    scan = record { at = λ w h. ap intact (active_clone_ids-reads redis 0 w).0 ∙ h };
  }

  rollup_frame : RollupFrames.IsFrame {s = s} StillIntact
  rollup_frame = record {
    order = StillIntact-IsOrder;
    archives = λ p b start now key. commit-StillIntact _;
    deletes = λ ids. commit-StillIntact _;
    put = λ k d. record { at = λ w h. ap intact (put_object-tables bucket k d w).0 ∙ h };
    objects = λ bs. record {
      at = λ w h.
          ap intact ((delete_objects-OnlyDeletes bucket (keyed bs) bs (keyed-All bs)).at w).0 ∙ h;
    };
    uuids = λ w n h. h;
  }

  module _ (j : ℕ) (w0 : World s) (i : intact w0.db ≡ true) where
    -- Whatever requests, flushes and rollups run, in any order and failing at any point, the tables
    -- keep their primary, unique and foreign keys.
    Reach-intact : (w : World s) (xs ys : List Item) → Reach j w0 w xs ys → intact w.db ≡ true
    Reach-intact w xs ys start = i
    Reach-intact w xs ys (write {w = v} {xs = us} c credentials r reach) =
        ap intact (write_me-Enters redis adds j c credentials r v).0 ∙ Reach-intact v us ys reach
    Reach-intact w xs ys (request {w = v} c r other reach) =
        handle-StillIntact bucket c r v other (Reach-intact v xs ys reach)
    Reach-intact w xs ys (flush {w = v} clone_id reach) =
        (FlushFrames.flush_one_stream-Stays flush_frame clone_id).at v (Reach-intact v xs ys reach)
    Reach-intact w xs ys (flush_all {w = v} reach) =
        (FlushFrames.flush_all_streams-Stays flush_frame).at v (Reach-intact v xs ys reach)
    Reach-intact w xs ys (force_rollup {w = v} {ys = us} p now reach) =
        (RollupFrames.rollup_clone-Stays rollup_frame p now).at v (Reach-intact v xs us reach)
    Reach-intact w xs ys (rollup_due {w = v} {ys = us} override now reach) =
        (RollupFrames.run_rollup-Stays rollup_frame override now).at v (Reach-intact v xs us reach)

module _ {s : Services} (codec : CodecLaws s.codec) (redis : RedisLaws s.redis)
    (bucket : BucketLaws s.bucket) (trims : TrimFailsCleanly s.redis)
    (adds : AddFailsCleanly s.redis) (answers : Answers s.redis) (j : ℕ) where
  -- All that was ever written has been taken out of the buffer or is in it.
  abbrev pub IsStored : List Item → List Item → World s → Type 0
  IsStored all ys w =
      (xs : List Item) × (buffered s.codec j w.db ≡ ok xs)
      × (ys ++ xs ≡ all)
      × (streamed codec redis trims j w ≡ [])

  -- In every state that the program reaches with a connection to the database, from tables that
  -- keep their constraints: where Redis answers, the next flush of a clone that has a profile
  -- returns, and then everything that was ever written for the clone has been taken out of its
  -- buffer by rollups or is in the buffer, each memory once and in order, and its stream is empty.
  pub Reach-flushes :
      (w0 : World s) (old : List Item)
      → IsConnected w0
      → intact w0.db ≡ true
      → buffered s.codec j w0.db ≡ ok old
      → (w : World s) (xs ys : List Item) → Reach j w0 w xs ys
      → any (λ k. k == j) (profile_ids w.db) ≡ true
      → ((flush_one_stream j w).0
          ≡ ok (record { clone_id = j; flushed = length (streamed codec redis trims j w) }))
        × IsStored ((old ++ streamed codec redis trims j w0) ++ xs) ys (flush_one_stream j w).1
  Reach-flushes w0 old c i has w xs ys reach known =
      let (k, (b, e, h)) = Reach-Holds codec redis bucket trims adds j w0 old c has w xs ys reach in
      let (returned, after, empty) =
        flush_one_stream-returns codec redis trims answers j b w k
          (Reach-intact redis bucket adds j w0 i w xs ys reach) known e in
      (returned, (b ++ streamed codec redis trims j w, after, h, empty))
