-- ===== src/System/Interleaved.antt =====
-- The API and the workers, where flushes overlap: their segments take turns with one another, with
-- requests and with rollups, and a worker may stop between two segments of a flush.
use mycelium_consciousness.Prelude.{ℕ, Text, List, [], ◌∷◌, ◌++◌, Option, false, ◌≡◌}
use mycelium_consciousness.Effects.{Result, ok, err}
use mycelium_consciousness.Services.{Services, Item}
use mycelium_consciousness.Models.{CloneProfile}
use mycelium_consciousness.Database.{World}
use mycelium_consciousness.Memories.{MemoryWriteRequest}
use mycelium_consciousness.Streams.{read_all}
use mycelium_consciousness.Flush.{FlushResult}
use mycelium_consciousness.Flush.Segments.{save_entries, trim_or_revert}
use mycelium_consciousness.Rollup.{rollup_clone, run_rollup}
use mycelium_consciousness.Api.{Context, Request, for_clone, write_me, handle}
use mycelium_consciousness.Api.Confined.{moves_memories}
use mycelium_consciousness.System.{accepted, taken_out}

-- A flush that is under way, with what it keeps in its variables.
pub data Task : Type 0 where
  has_read : (clone_id : ℕ) (entries : List (Text × Item)) → Task
  has_saved :
      (clone_id : ℕ) (e : Text × Item) (es : List (Text × Item)) (existing : List Item) → Task

-- The flush goes on if the segment has returned.
abbrev pub after_read : ℕ → Result (List (Text × Item)) → List Task → List Task
after_read c (ok es) ts = has_read c es ∷ ts
after_read c (err x) ts = ts

abbrev pub after_save :
    ℕ → Text × Item → List (Text × Item) → Result (List Item) → List Task → List Task
after_save c e es (ok old) ts = has_saved c e es old ∷ ts
after_save c e es (err x) ts = ts

module _ {s : Services} (j : ℕ) where
  -- `Runs w0 w ts xs ys`: the program can get from `w0` to `w`, where the flushes `ts` are under way,
  -- and on the way `xs` was written to the stream of clone `j` and `ys` was taken out of its buffer
  -- by rollups. No trim has raised on the way.
  pub data Runs (w0 : World s) : World s → List Task → List Item → List Item → Type 1 where
    start : Runs w0 w0 [] [] []
    write :
        {w : World s} {ts : List Task} {xs ys : List Item} (c : Context s)
        (credentials : Option Text) (r : MemoryWriteRequest)
        → Runs w0 w ts xs ys
        → Runs w0
            (handle c (for_clone credentials (write_me r)) w).1
            ts
            (xs ++ accepted j c credentials r w)
            ys
    request :
        {w : World s} {ts : List Task} {xs ys : List Item} (c : Context s) (r : Request)
        → moves_memories r ≡ false
        → Runs w0 w ts xs ys
        → Runs w0 (handle c r w).1 ts xs ys
    read :
        {w : World s} {ts : List Task} {xs ys : List Item} (clone_id : ℕ)
        → Runs w0 w ts xs ys
        → Runs w0 (read_all clone_id w).1 (after_read clone_id (read_all clone_id w).0 ts) xs ys
    save :
        {w : World s} {xs ys : List Item} (ts us : List Task) (clone_id : ℕ) (e : Text × Item)
        (es : List (Text × Item))
        → Runs w0 w (ts ++ has_read clone_id (e ∷ es) ∷ us) xs ys
        → Runs w0
            (save_entries clone_id e es w).1
            (ts ++ after_save clone_id e es (save_entries clone_id e es w).0 us)
            xs
            ys
    finish :
        {w : World s} {xs ys : List Item} (ts us : List Task) (clone_id : ℕ) (e : Text × Item)
        (es : List (Text × Item)) (existing : List Item) (r : FlushResult)
        → (trim_or_revert clone_id e es existing w).0 ≡ ok r
        → Runs w0 w (ts ++ has_saved clone_id e es existing ∷ us) xs ys
        → Runs w0 (trim_or_revert clone_id e es existing w).1 (ts ++ us) xs ys
    stop :
        {w : World s} {xs ys : List Item} (ts us : List Task) (t : Task)
        → Runs w0 w (ts ++ t ∷ us) xs ys
        → Runs w0 w (ts ++ us) xs ys
    force_rollup :
        {w : World s} {ts : List Task} {xs ys : List Item} (p : CloneProfile) (now : ℕ)
        → Runs w0 w ts xs ys
        → Runs w0 (rollup_clone p now w).1 ts xs (ys ++ taken_out j w (rollup_clone p now w).1)
    rollup_due :
        {w : World s} {ts : List Task} {xs ys : List Item} (override : Option ℕ) (now : ℕ)
        → Runs w0 w ts xs ys
        → Runs w0
            (run_rollup override now w).1
            ts
            xs
            (ys ++ taken_out j w (run_rollup override now w).1)
