-- ===== src/Flush/Frames.antt =====
-- What every step of a flush keeps, flushes keep.
use mycelium_consciousness.Prelude.{ℕ, Text, List, [], ◌∷◌, Option}
use mycelium_consciousness.Effects.{Error, Result}
use mycelium_consciousness.Effects.Stays.{
  IsOrder, Stays, Stays-pure, Stays-raise, Stays-lift, Stays-gets, Stays-attempt, Stays-bind,
}
use mycelium_consciousness.Services.{Services, Item}
use mycelium_consciousness.Models.{MemoryBuffer}
use mycelium_consciousness.Database.{Db, World, get_buffer, commit}
use mycelium_consciousness.Streams.{read_all, trim_up_to, active_clone_ids}
use mycelium_consciousness.Flush.{
  existing_items, revert, save_and_trim, flush_entries, flush_one_stream, flush_each,
  flush_all_streams,
}

-- A relation between worlds that every step of a flush keeps.
pub record IsFrame {s : Services} (R : World s → World s → Type 0) : Type 0 where
  pub order : IsOrder R
  pub commits : (f : Db → Result Db) → Stays R (commit {s = s} f)
  pub read : (c : ℕ) → Stays R (read_all {s = s} c)
  pub trim : (c : ℕ) (id : Text) → Stays R (trim_up_to {s = s} c id)
  pub scan : Stays R (active_clone_ids {s = s})

module _ {s : Services} {R : World s → World s → Type 0} (frame : IsFrame R) where
  module _ (c : ℕ) where
    revert-Stays : (xs : List Item) (x : Error) → Stays R (revert {s = s} c xs x)
    unfolding revert
    revert-Stays xs x =
        Stays-bind frame.order _ _ (frame.commits _) (λ _. Stays-raise frame.order x)

    save_and_trim-Stays :
        (e : Text × Item) (es : List (Text × Item)) (row : Option MemoryBuffer) (old : List Item)
        → Stays R (save_and_trim {s = s} c e es row old)
    unfolding save_and_trim
    save_and_trim-Stays e es row old = Stays-bind frame.order _ _ (frame.commits _) (λ _.
        Stays-bind frame.order _ _
          (Stays-attempt frame.order _ _ (frame.trim c _) (revert-Stays old))
          (λ _. Stays-pure frame.order _))

    flush_entries-Stays : (es : List (Text × Item)) → Stays R (flush_entries {s = s} c es)
    unfolding flush_entries
    flush_entries-Stays [] = Stays-pure frame.order _
    flush_entries-Stays (e ∷ es) =
        Stays-bind frame.order _ _ (Stays-gets frame.order (λ x. get_buffer c x.db)) (λ row.
          Stays-bind frame.order _ _ (Stays-lift frame.order (existing_items s.codec row))
            (save_and_trim-Stays e es row))

    pub flush_one_stream-Stays : Stays R (flush_one_stream {s = s} c)
    unfolding flush_one_stream
    flush_one_stream-Stays =
        Stays-bind frame.order (read_all c) _ (frame.read c) flush_entries-Stays

  flush_each-Stays : (cs : List ℕ) → Stays R (flush_each {s = s} cs)
  unfolding flush_each
  flush_each-Stays [] = record { at = frame.order.same }
  flush_each-Stays (c ∷ cs) = record {
    at = λ w.
        frame.order.then_by w (flush_one_stream c w).1 (flush_each cs (flush_one_stream c w).1).1
          ((flush_one_stream-Stays c).at w) ((flush_each-Stays cs).at (flush_one_stream c w).1);
  }

  pub flush_all_streams-Stays : Stays R (flush_all_streams {s = s})
  unfolding flush_all_streams
  flush_all_streams-Stays = Stays-bind frame.order active_clone_ids _ frame.scan flush_each-Stays
