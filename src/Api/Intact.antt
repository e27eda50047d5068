-- ===== src/Api/Intact.antt =====
-- No request breaks a constraint of the tables.
use mycelium_consciousness.Prelude.{true, false, ◌≡◌, ap, ◌∙◌}
use mycelium_consciousness.Effects.{Result, ok, err}
use mycelium_consciousness.Effects.Stays.{IsOrder, Stays}
use mycelium_consciousness.Services.{Services}
use mycelium_consciousness.Services.Laws.{BucketLaws}
use mycelium_consciousness.Database.{Db, World, commit, intact}
use mycelium_consciousness.Database.Commit.{Commits, commit-Commits}
use mycelium_consciousness.Storage.Calls.{put_object-tables, get_object-Gets}
use mycelium_consciousness.Streams.{stream_length}
use mycelium_consciousness.Api.{Context, Request, handle}
use mycelium_consciousness.Api.Frames.{IsFrame}
use mycelium_consciousness.Api.Confined.{moves_memories, handle-Stays}

module _ {s : Services} where
  abbrev pub StillIntact : World s → World s → Type 0
  StillIntact w w' = intact w.db ≡ true → intact w'.db ≡ true

  pub StillIntact-IsOrder : IsOrder StillIntact
  StillIntact-IsOrder = record { same = λ w h. h; then_by = λ u v w p q h. q (p h) }

  committed :
      (f : Db → Result Db) (w : World s) (r : Result (Unit {0}) × World s)
      → Commits f w r
      → StillIntact w r.1
  committed f w (ok u, w') (_, i, _, _, _, _) h = i
  committed f w (err e, w') (d, _, _, _, _) h = ap intact d ∙ h

  -- A commit checks the constraints.
  pub commit-StillIntact : (f : Db → Result Db) → Stays StillIntact (commit f)
  commit-StillIntact f = record { at = λ w. committed f w (commit f w) (commit-Commits f w) }

module _ {s : Services} (bucket : BucketLaws s.bucket) where
  StillIntact-IsFrame : IsFrame {s = s} StillIntact
  unfolding stream_length
  StillIntact-IsFrame = record {
    order = StillIntact-IsOrder;
    profile_row = λ c f. commit-StillIntact _;
    user_row = λ c f. commit-StillIntact _;
    restored = λ id now. commit-StillIntact _;
    backup = λ row. commit-StillIntact _;
    account = λ user profile. commit-StillIntact _;
    put = λ k d. record { at = λ w h. ap intact (put_object-tables bucket k d w).0 ∙ h };
    get = λ k. record { at = λ w h. ap intact (get_object-Gets bucket k w).2.0 ∙ h };
    length = λ c. record { at = λ w h. h };
    uuids = λ w n h. h;
  }

  pub handle-StillIntact :
      (c : Context s) (r : Request) (w : World s)
      → moves_memories r ≡ false
      → StillIntact w (handle c r w).1
  handle-StillIntact c r w h = handle-Stays StillIntact-IsFrame c r w h
