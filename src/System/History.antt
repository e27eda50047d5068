-- ===== src/System/History.antt =====
-- No memory is lost, stored twice or reordered, whatever the program does.
use mycelium_consciousness.Prelude.{
  ℕ, List, [], ◌++◌, Option, none, some, ◌≡◌, ◌⊎◌, refl, ap, sym, ◌∙◌, append-nil, append_assoc,
  inl, inr, find, ◌==◌,
}
use mycelium_consciousness.Effects.{ok}
use mycelium_consciousness.Services.{Services, Item}
use mycelium_consciousness.Services.Laws.{
  CodecLaws, RedisLaws, BucketLaws, TrimFailsCleanly, AddFailsCleanly,
}
use mycelium_consciousness.Models.{MemoryBuffer}
use mycelium_consciousness.Database.{World, get_buffer}
use mycelium_consciousness.Streams.{stream_key}
use mycelium_consciousness.Flush.{existing_items, new_items}
use mycelium_consciousness.Flush.Outcome.{buffered}
use mycelium_consciousness.Flush.Moves.{streamed}
use mycelium_consciousness.Flush.All.{
  IsConnected, Conserved, flush_one-Conserved, flush_one_stream-IsConnected,
  flush_all_streams-Conserved, flush_all_streams-IsConnected,
}
use mycelium_consciousness.Rollup.Empties.{Empties, rollup_clone-Empties, run_rollup-Empties}
use mycelium_consciousness.Api.Untouched.{handle-Untouched}
use mycelium_consciousness.System.{
  Reach, start, write, request, flush, flush_all, force_rollup, rollup_due, taken_out, accepted,
  gone_from,
}
use mycelium_consciousness.System.Writes.{Enters, write_me-Enters}

module _ {ℓ} {A : Type ℓ} where
  regroup_new : (ys xs es new : List A) → ys ++ (xs ++ (es ++ new)) ≡ (ys ++ (xs ++ es)) ++ new
  regroup_new ys xs es new = simp append_assoc

  regroup_gone : (ys gone x es : List A) → (ys ++ gone) ++ (x ++ es) ≡ ys ++ ((gone ++ x) ++ es)
  regroup_gone ys gone x es = simp append_assoc

module _ {s : Services} (j : ℕ) where
  -- A rollup has left the buffer or taken it out.
  pub removed :
      (xs : List Item) (w : World s) (row : Option MemoryBuffer)
      → buffered s.codec j w.db ≡ ok xs
      → (row ≡ get_buffer j w.db) ⊎ (row ≡ none)
      → (x : List Item) × (existing_items s.codec row ≡ ok x) × (gone_from j row w ++ x ≡ xs)
  unfolding existing_items
  removed xs w none has b = ([], refl, rw has (append-nil xs))
  removed xs w (some r) has (inl e) = (xs, ap (existing_items s.codec) e ∙ has, refl)
  removed xs w (some r) has (inr n) = cc

module _ {s : Services} (codec : CodecLaws s.codec) (redis : RedisLaws s.redis)
    (bucket : BucketLaws s.bucket) (trims : TrimFailsCleanly s.redis)
    (adds : AddFailsCleanly s.redis) (j : ℕ) where
  -- With a connection, the buffer reads back, and what was taken out, what is buffered and what is
  -- streamed make up the given memories, in this order.
  abbrev pub Holds : List Item → List Item → World s → Type 0
  Holds all ys w =
      IsConnected w
      × ((xs : List Item) × (buffered s.codec j w.db ≡ ok xs)
          × (ys ++ (xs ++ streamed codec redis trims j w) ≡ all))

  of_Conserved :
      (all ys xs : List Item) (w w' : World s)
      → ys ++ (xs ++ streamed codec redis trims j w) ≡ all
      → IsConnected w'
      → Conserved codec redis trims j xs w w'
      → Holds all ys w'
  of_Conserved all ys xs w w' h k (new, b, t) = (k, (new, b, ap (λ l. ys ++ l) t ∙ h))

  -- What a rollup removes from the buffer stands behind what was taken out.
  of_Empties :
      (all ys xs : List Item) (w w' : World s)
      → IsConnected w
      → buffered s.codec j w.db ≡ ok xs
      → ys ++ (xs ++ streamed codec redis trims j w) ≡ all
      → Empties bucket j w w'
      → Holds all (ys ++ taken_out j w w') w'
  unfolding taken_out
  of_Empties all ys xs w w' c has h (b, r, k) =
      let (x, reads, split) = removed j xs w (get_buffer j w'.db) has b in
      (
        k c,
        (
          x,
          reads,
          ap
                (λ st.
                  (ys ++ gone_from j (get_buffer j w'.db) w)
                  ++ (x ++ new_items (s.redis.entries st (stream_key j))))
                r
              ∙ regroup_gone ys (gone_from j (get_buffer j w'.db) w) x _
              ∙ ap (λ l. ys ++ (l ++ streamed codec redis trims j w)) split
              ∙ h,
        ),
      )

  of_Enters :
      (all ys xs new : List Item) (w w' : World s)
      → IsConnected w
      → buffered s.codec j w.db ≡ ok xs
      → ys ++ (xs ++ streamed codec redis trims j w) ≡ all
      → Enters redis adds j w new w'
      → Holds (all ++ new) ys w'
  of_Enters all ys xs new w w' c has h (d, e, o) = (
    rw o c,
    (
      xs,
      ap (buffered s.codec j) d ∙ has,
      ap (λ l. ys ++ (xs ++ l)) e ∙ regroup_new ys xs _ new ∙ ap (λ l. l ++ new) h,
    ),
  )

  module _ (w0 : World s) (old : List Item) (c : IsConnected w0)
      (has : buffered s.codec j w0.db ≡ ok old) where
    -- From any tables and streams on, with a connection to the database, where calls of redis that
    -- raise have changed nothing: after any number of requests, flushes and rollups in any order,
    -- each of which may fail at any point, the memories that rollups took out of a clone's buffer,
    -- then those in its buffer, then those in its stream, are exactly the ones that it had at first
    -- and then the ones that were written, in this order.
    pub Reach-Holds :
        (w : World s) (xs ys : List Item)
        → Reach j w0 w xs ys
        → Holds ((old ++ streamed codec redis trims j w0) ++ xs) ys w
    Reach-Holds w xs ys start = (c, (old, has, sym (append-nil _)))
    Reach-Holds w xs ys (write {w = v} {xs = us} d credentials r reach) =
        let (k, (b, e, h)) = Reach-Holds v us ys reach in
        let (k', (b', e', h')) =
          of_Enters _ ys b (accepted j d credentials r v) v w k e h
            (write_me-Enters redis adds j d credentials r v) in
        (k', (b', e', h' ∙ append_assoc (old ++ streamed codec redis trims j w0) us _))
    Reach-Holds w xs ys (request {w = v} d r other reach) =
        let (k, (b, e, h)) = Reach-Holds v xs ys reach in
        let (bs, es, k') = handle-Untouched redis bucket d r v other in
        (
          k' k,
          (
            b,
            ap (λ l. existing_items s.codec (find (λ x. x.clone_id == j) l)) bs ∙ e,
            ap (λ f. ys ++ (b ++ new_items (f (stream_key j)))) es ∙ h,
          ),
        )
    Reach-Holds w xs ys (flush {w = v} clone_id reach) =
        let (k, (b, e, h)) = Reach-Holds v xs ys reach in
        of_Conserved _ ys b v w h (flush_one_stream-IsConnected redis clone_id v k)
          (flush_one-Conserved codec redis trims j clone_id b v k e)
    Reach-Holds w xs ys (flush_all {w = v} reach) =
        let (k, (b, e, h)) = Reach-Holds v xs ys reach in
        of_Conserved _ ys b v w h (flush_all_streams-IsConnected redis v k)
          (flush_all_streams-Conserved codec redis trims j b v k e)
    Reach-Holds w xs ys (force_rollup {w = v} {ys = us} p now reach) =
        let (k, (b, e, h)) = Reach-Holds v xs us reach in
        of_Empties _ us b v w k e h ((rollup_clone-Empties bucket j p now).at v)
    Reach-Holds w xs ys (rollup_due {w = v} {ys = us} override now reach) =
        let (k, (b, e, h)) = Reach-Holds v xs us reach in
        of_Empties _ us b v w k e h ((run_rollup-Empties bucket j override now).at v)
