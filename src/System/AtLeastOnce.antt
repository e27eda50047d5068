-- ===== src/System/AtLeastOnce.antt =====
-- No memory is lost, however flushes overlap, as long as no trim raises.
use mycelium_consciousness.Prelude.{
  ℕ, List, ◌∷◌, ◌++◌, ◌≡◌, ◌⊎◌, inl, inr, refl, ap, sym, ◌∙◌, subst, append-nil, append_assoc, find,
  ◌==◌,
}
use mathlib.Core.List.{Memᴰ}
use mathlib.Core.List.Memᴰ
use mycelium_consciousness.Effects.{ok}
use mycelium_consciousness.Services.{Services, Item}
use mycelium_consciousness.Services.Laws.{RedisLaws, IdLaws, CodecLaws, BucketLaws, AddFailsCleanly}
use mycelium_consciousness.Streams.{stream_key, read_all}
use mycelium_consciousness.Streams.Calls.{stream}
use mycelium_consciousness.Database.{World, get_buffer}
use mycelium_consciousness.Flush.{new_items, existing_items}
use mycelium_consciousness.Flush.Outcome.{buffered}
use mycelium_consciousness.Rollup.Frames.{rollup_clone-Stays, run_rollup-Stays}
use mycelium_consciousness.Rollup.Empties.{Empties, rollup_clone-Empties, run_rollup-Empties}
use mycelium_consciousness.Api.Untouched.{handle-Untouched}
use mycelium_consciousness.System.{taken_out, accepted}
use mycelium_consciousness.System.Writes.{Enters, write_me-Enters}
use mycelium_consciousness.System.History.{removed}
use mycelium_consciousness.System.Growth.{Grows, handle-Grows, rollup_frame, write_me-Grows}
use mycelium_consciousness.System.Interleaved.{
  Task, has_read, has_saved, Runs, start, write, request, read, save, finish, stop, force_rollup,
  rollup_due,
}
use mycelium_consciousness.System.Coverage.{Keeps, advance, drop_task}
use mycelium_consciousness.System.Segments.{save_entries-Saves, trim_or_revert-trims}
use mycelium_consciousness.System.Overlaps.{of_read, of_save, of_trim}

module _ {s : Services} (codec : CodecLaws s.codec) (redis : RedisLaws s.redis)
    (ids : IdLaws s.redis) (bucket : BucketLaws s.bucket) (adds : AddFailsCleanly s.redis)
    (j : ℕ) where
  of_Enters :
      (all ys b new : List Item) (ts : List Task) (w w' : World s)
      → Keeps redis ids j all ys b ts w
      → Enters redis adds j w new w'
      → Grows redis ids j w w'
      → Keeps redis ids j (all ++ new) ys b ts w'
  of_Enters all ys b new ts w w' k (d, e, _) g =
      let streams : (i : Item)
          → Memᴰ i (new_items (stream redis j w))
          → Memᴰ i (new_items (stream redis j w')) =
        λ i m. subst (Memᴰ i) (sym e) (Memᴰ.append_left new m) in
      let (has, safe, tasks) =
        advance redis ids j all ys ys b b ts w w' k (ap (buffered s.codec j) d ∙ k.0) (λ i m. m)
          (λ i m. inr (streams i m)) g in
      (
        has,
        λ i m. elim (Memᴰ.append_cases all m) [
          | inl l ↦ safe i l
          | inr l ↦
              inr (subst (Memᴰ i) (sym e) (Memᴰ.append_right (new_items (stream redis j w)) l))
        ],
        tasks,
      )

  of_Empties :
      (all ys b : List Item) (ts : List Task) (w w' : World s)
      → Keeps redis ids j all ys b ts w
      → Empties bucket j w w'
      → Grows redis ids j w w'
      → (b' : List Item) × Keeps redis ids j all (ys ++ taken_out j w w') b' ts w'
  unfolding taken_out
  of_Empties all ys b ts w w' k (row, r, _) g =
      let (x, reads, split) = removed j b w (get_buffer j w'.db) k.0 row in
      let same : ys ++ b ≡ (ys ++ taken_out j w w') ++ x =
        ap (λ l. ys ++ l) (sym split) ∙ sym (append_assoc ys (taken_out j w w') x) in
      (
        x,
        advance redis ids j all ys (ys ++ taken_out j w w') b x ts w w' k reads
            (λ i m. subst (Memᴰ i) same m)
            (λ i m.
              inr (subst (λ q. Memᴰ i (new_items (s.redis.entries q (stream_key j)))) (sym r) m))
            g,
      )

  module _ (w0 : World s) (old : List Item) (has : buffered s.codec j w0.db ≡ ok old) where
    -- What the clone had at first.
    abbrev first : List Item
    first = old ++ new_items (stream redis j w0)

    abbrev written : List Item → List Item
    written xs = first ++ xs

    abbrev Kept : World s → List Task → List Item → List Item → Type 0
    Kept w ts xs ys = (b : List Item) × Keeps redis ids j (written xs) ys b ts w

    Runs-Kept :
        (w : World s) (ts : List Task) (xs ys : List Item) → Runs j w0 w ts xs ys → Kept w ts xs ys
    Runs-Kept w ts xs ys start =
        (old, (has, λ i m. Memᴰ.append_cases old (subst (Memᴰ i) (append-nil _) m), tt))
    Runs-Kept w ts xs ys (write {w = v} {xs = us} d credentials r runs) =
        let (b, k) = Runs-Kept v ts us ys runs in
        let (h, safe, tasks) =
          of_Enters (written us) ys b (accepted j d credentials r v) ts v w k
            (write_me-Enters redis adds j d credentials r v)
            (write_me-Grows redis ids j adds d credentials r v) in
        (
          b,
          (
            h,
            λ i m.
                safe i
                  (subst (Memᴰ i) (sym (append_assoc first us (accepted j d credentials r v))) m),
            tasks,
          ),
        )
    Runs-Kept w ts xs ys (request {w = v} d r other runs) =
        let (b, k) = Runs-Kept v ts xs ys runs in
        let (bs, es, _) = handle-Untouched redis bucket d r v other in
        (
          b,
          advance redis ids j (written xs) ys ys b b ts v w k
              (ap (λ l. existing_items s.codec (find (λ x. x.clone_id == j) l)) bs ∙ k.0) (λ i m. m)
              (λ i m. inr (subst (λ f. Memᴰ i (new_items (f (stream_key j)))) (sym es) m))
              (handle-Grows redis ids j bucket d r v other),
        )
    Runs-Kept w ts xs ys (read {w = v} {ts = us} c runs) =
        let (b, k) = Runs-Kept v us xs ys runs in
        (b, of_read redis ids j (written xs) ys b us c v (read_all c v).0 k refl)
    Runs-Kept w ts xs ys (save {w = v} us vs c e es runs) =
        let (b, k) = Runs-Kept v (us ++ has_read c (e ∷ es) ∷ vs) xs ys runs in
        of_save redis ids j (written xs) ys b codec us vs c e es v _ k
          (save_entries-Saves codec j c e es b v k.0)
    Runs-Kept w ts xs ys (finish {w = v} us vs c e es existing r returned runs) =
        let (b, k) = Runs-Kept v (us ++ has_saved c e es existing ∷ vs) xs ys runs in
        let (n, next, done, same) = trim_or_revert-trims c e es existing v returned in
        (
          b,
          subst (Keeps redis ids j (written xs) ys b (us ++ vs)) (sym same)
              (of_trim redis ids j (written xs) ys b c e es n v next done us vs existing k),
        )
    Runs-Kept w ts xs ys (stop us vs t runs) =
        let (b, k) = Runs-Kept w (us ++ t ∷ vs) xs ys runs in
        (b, (drop_task redis ids j (written xs) ys b us vs t w k).0)
    Runs-Kept w ts xs ys (force_rollup {w = v} {ys = us} p now runs) =
        let (b, k) = Runs-Kept v ts xs us runs in
        of_Empties (written xs) us b ts v w k ((rollup_clone-Empties bucket j p now).at v)
          ((rollup_clone-Stays (rollup_frame redis ids j bucket) p now).at v)
    Runs-Kept w ts xs ys (rollup_due {w = v} {ys = us} override now runs) =
        let (b, k) = Runs-Kept v ts xs us runs in
        of_Empties (written xs) us b ts v w k ((run_rollup-Empties bucket j override now).at v)
          ((run_rollup-Stays (rollup_frame redis ids j bucket) override now).at v)

    -- From any tables and streams on, where an add that raises has added nothing: while flushes
    -- overlap with one another in any way, with requests and with whole rollups, each step of which
    -- may fail, and while workers stop in the middle of a flush, as long as no trim raises, every
    -- memory that a clone had at first or that was written for it is among those that rollups took
    -- out of its buffer, in its buffer or in its stream.
    pub Runs-Keeps :
        (w : World s) (ts : List Task) (xs ys : List Item)
        → Runs j w0 w ts xs ys
        → (b : List Item) × (buffered s.codec j w.db ≡ ok b)
          × ((i : Item)
              → Memᴰ i ((old ++ new_items (stream redis j w0)) ++ xs)
              → Memᴰ i (ys ++ b) ⊎ Memᴰ i (new_items (stream redis j w)))
    Runs-Keeps w ts xs ys runs = let (b, (h, safe, _)) = Runs-Kept w ts xs ys runs in (b, h, safe)
