-- ===== src/Flush/All.antt =====
-- A flush of all clones: no memory of any clone is lost or stored twice.
use mycelium_consciousness.Prelude.{
  ℕ, true, false, Bool, List, [], ◌∷◌, ◌++◌, ◌≡◌, refl, ap, ◌∙◌, append-nil, arith, inl, inr, all,
  not, ◌==◌, Bool-cases, ==→eq, subst,
}
use mycelium_consciousness.Effects.{Result, ok, err, continue}
use mycelium_consciousness.Effects.Stays.{IsOrder, Stays}
use mycelium_consciousness.Services.{Services, Item}
use mycelium_consciousness.Services.Laws.{CodecLaws, RedisLaws, TrimFailsCleanly}
use mycelium_consciousness.Database.{Db, World, commit, lost, later}
use mycelium_consciousness.Database.Commit.{Commits, commit-Commits}
use mycelium_consciousness.Streams.{active_clone_ids}
use mycelium_consciousness.Streams.Calls.{read_all-Reads, trim_up_to-db, active_clone_ids-reads}
use mycelium_consciousness.Flush.{
  FlushResult, existing_items, new_items, flush_one_stream, flush_each, flush_all_streams,
}
use mycelium_consciousness.Flush.Frames.{IsFrame, flush_one_stream-Stays, flush_all_streams-Stays}
use mycelium_consciousness.Flush.Outcome.{buffered}
use mycelium_consciousness.Flush.Moves.{streamed, Flushed, flush_one_stream-Flushed}
use mycelium_consciousness.Flush.Batch.{flush_one_stream-SameClone}

-- The connection to the database is lost at no commit to come.
abbrev pub IsConnected : {s : Services} → World s → Type 0
IsConnected w = all not w.outages ≡ true

pub lost-later :
    (bs : List Bool) → all not bs ≡ true → (lost (later bs) ≡ false) × (all not (later bs) ≡ true)
lost-later [] h = (refl, refl)
lost-later (b ∷ []) h = (refl, refl)
lost-later (b ∷ c ∷ bs) h = ground arith

module _ {s : Services} (redis : RedisLaws s.redis) where
  abbrev StillConnected : World s → World s → Type 0
  StillConnected w w' = IsConnected w → IsConnected w'

  connected : IsOrder StillConnected
  connected = record { same = λ w h. h; then_by = λ u v w p q h. q (p h) }

  commit-connected : (f : Db → Result Db) → Stays StillConnected (commit f)
  commit-connected f = record { at = λ w. of_commit w (commit f w) (commit-Commits f w) }
    where
      of_commit :
          (w : World s) (r : Result (Unit {0}) × World s) → Commits f w r → StillConnected w r.1
      of_commit w (ok u, w') (_, _, o, _, _, _) h = rw o (lost-later w.outages h).1
      of_commit w (err x, w') (_, o, _, _, _) h = rw o (lost-later w.outages h).1

  connected-IsFrame : IsFrame {s = s} StillConnected
  connected-IsFrame = record {
    order = connected;
    commits = commit-connected;
    read = λ c. record { at = λ w h. rw (read_all-Reads redis c w).3 h };
    trim = λ c id. record { at = λ w h. rw (trim_up_to-db redis c id w).1 h };
    scan = record { at = λ w h. rw (active_clone_ids-reads redis 0 w).1 h };
  }

  pub flush_one_stream-IsConnected :
      (c : ℕ) (w : World s) → IsConnected w → IsConnected (flush_one_stream {s = s} c w).1
  flush_one_stream-IsConnected c = (flush_one_stream-Stays connected-IsFrame c).at

  pub flush_all_streams-IsConnected :
      (w : World s) → IsConnected w → IsConnected (flush_all_streams {s = s} w).1
  flush_all_streams-IsConnected = (flush_all_streams-Stays connected-IsFrame).at

module _ {s : Services} (codec : CodecLaws s.codec) (redis : RedisLaws s.redis)
    (clean : TrimFailsCleanly s.redis) (j : ℕ) where
  -- The memories of clone `j` in the buffer and, behind them, in the stream are the same ones.
  abbrev pub Conserved : List Item → World s → World s → Type 0
  Conserved old w w' =
      (new : List Item) × (buffered s.codec j w'.db ≡ ok new)
      × (new ++ streamed codec redis clean j w' ≡ old ++ streamed codec redis clean j w)

  of_Flushed :
      (old : List Item) (w : World s) (r : Result FlushResult × World s)
      → Flushed codec redis clean j old w r
      → Conserved old w r.1
  of_Flushed old w (ok r, w') (b, t, a) =
      (old ++ streamed codec redis clean j w, b, rw t (append-nil _))
  of_Flushed old w (err x, w') (b, t) = (old, b, ap (λ k. old ++ k) t)

  pub flush_one-Conserved :
      (c : ℕ) (old : List Item) (w : World s)
      → IsConnected w
      → buffered s.codec j w.db ≡ ok old
      → Conserved old w (flush_one_stream c w).1
  flush_one-Conserved c old w h has = elim (Bool-cases (j == c)) [
    | inl same ↦
        subst (λ k. Conserved old w (flush_one_stream k w).1) (==→eq j c same)
          (of_Flushed old w _
            (flush_one_stream-Flushed codec redis clean j old w has (lost-later w.outages h).0))
    | inr other ↦
        let (b, t) = flush_one_stream-SameClone redis c j (λ e. ne_self other e) w in
        (old, ap (existing_items s.codec) b ∙ has, ap (λ es. old ++ new_items es) t)
  ]
    where
      ne_self : j == c ≡ false → j ≡ c → ⊥
      ne_self f e = ground arith

  flush_each-Conserved :
      (cs : List ℕ) (old : List Item) (w : World s)
      → IsConnected w
      → buffered s.codec j w.db ≡ ok old
      → Conserved old w (flush_each cs w).1
  unfolding flush_each
  flush_each-Conserved [] old w h has = (old, has, refl)
  flush_each-Conserved (c ∷ cs) old w h has =
      let (new, b, t) = flush_one-Conserved c old w h has in
      let (new', b', t') =
        flush_each-Conserved cs new (flush_one_stream c w).1
          (flush_one_stream-IsConnected redis c w h) b in
      (new', b', t' ∙ t)

  -- With a connection to the database, where a trim that raises has removed nothing: whichever
  -- flushes of a scheduled run succeed, for each clone whose buffer read back, the buffer reads
  -- back, and its memories followed by those of the stream are the same ones in the same order.
  pub flush_all_streams-Conserved :
      (old : List Item) (w : World s)
      → IsConnected w
      → buffered s.codec j w.db ≡ ok old
      → Conserved old w (flush_all_streams w).1
  unfolding flush_all_streams
  flush_all_streams-Conserved old w h has =
      let (d, o, t) = active_clone_ids-reads redis j w in
      listed (active_clone_ids w).0 (active_clone_ids w).1 (ap (buffered s.codec j) d ∙ has)
        (rw o h) (ap new_items t)
    where
      listed :
          (r : Result (List ℕ)) (w' : World s)
          → buffered s.codec j w'.db ≡ ok old
          → IsConnected w'
          → streamed codec redis clean j w' ≡ streamed codec redis clean j w
          → Conserved old w (continue r flush_each w').1
      listed (ok cs) w' b k t =
          let (new, b', t') = flush_each-Conserved cs old w' k b in
          (new, b', t' ∙ ap (λ l. old ++ l) t)
      listed (err x) w' b k t = (old, b, ap (λ l. old ++ l) t)
