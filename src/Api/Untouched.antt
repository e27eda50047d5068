-- ===== src/Api/Untouched.antt =====
-- Which requests leave the buffers and the streams alone.
use mycelium_consciousness.Prelude.{ℕ, false, ◌≡◌, refl, ap, ◌∙◌, arith}
use mycelium_consciousness.Effects.{Result, ok, err}
use mycelium_consciousness.Effects.Stays.{IsOrder, Stays}
use mycelium_consciousness.Services.{Services}
use mycelium_consciousness.Services.Laws.{BucketLaws, RedisLaws}
use mycelium_consciousness.Models.{User, CloneProfile, MemoryBackup}
use mycelium_consciousness.Database.{Db, World, commit, insert_backup}
use mycelium_consciousness.Database.Commit.{Commits, commit-Commits}
use mycelium_consciousness.Storage.{put_object, get_object}
use mycelium_consciousness.Storage.Calls.{put_object-tables, get_object-Gets}
use mycelium_consciousness.Flush.All.{IsConnected, lost-later}
use mycelium_consciousness.Accounts.{insert_account}
use mycelium_consciousness.Streams.{stream_length, stream_key}
use mycelium_consciousness.Storage.Calls.{SameTables}
use mycelium_consciousness.Profiles.{update_profile_row}
use mycelium_consciousness.Memories.{set_restored}
use mycelium_consciousness.Admin.{update_user_row}
use mycelium_consciousness.Api.Frames.{IsFrame}
use mycelium_consciousness.Api.Confined.{moves_memories, handle-Stays}
use mycelium_consciousness.Api.{Context, Request, handle}

update_profile_row-buffers :
    (c : ℕ) (f : CloneProfile → CloneProfile) (db db' : Db)
    → update_profile_row c f db ≡ ok db'
    → db'.buffers ≡ db.buffers
unfolding update_profile_row
update_profile_row-buffers c f db db' h = ground arith

update_user_row-buffers :
    (c : ℕ) (f : User → User) (db db' : Db)
    → update_user_row c f db ≡ ok db'
    → db'.buffers ≡ db.buffers
unfolding update_user_row
update_user_row-buffers c f db db' h = ground arith

set_restored-buffers :
    (id now : ℕ) (db db' : Db) → set_restored id now db ≡ ok db' → db'.buffers ≡ db.buffers
unfolding set_restored
set_restored-buffers id now db db' h = ground arith

insert_backup-buffers :
    (row : ℕ → ℕ → MemoryBackup) (db db' : Db)
    → insert_backup row db ≡ ok db'
    → db'.buffers ≡ db.buffers
unfolding insert_backup
insert_backup-buffers row db db' h = ground arith

insert_account-buffers :
    (user : ℕ → ℕ → User) (profile : ℕ → ℕ → ℕ → CloneProfile) (db db' : Db)
    → insert_account user profile db ≡ ok db'
    → db'.buffers ≡ db.buffers
unfolding insert_account
insert_account-buffers user profile db db' h = ground arith

module _ {s : Services} where
  -- The buffers and the entries of every stream are as they were, and so is the connection.
  abbrev pub Untouched : World s → World s → Type 0
  Untouched w w' =
      (w'.db.buffers ≡ w.db.buffers)
      × (s.redis.entries w'.redis ≡ s.redis.entries w.redis)
      × (IsConnected w → IsConnected w')

  pub order : IsOrder Untouched
  order = record {
    same = λ w. (refl, refl, λ h. h);
    then_by = λ u v w (b, e, c) (b', e', c'). (b' ∙ b, e' ∙ e, λ h. c' (c h));
  }

  module _ (f : Db → Result Db) (k : (db db' : Db) → f db ≡ ok db' → db'.buffers ≡ db.buffers) where
    committed : (w : World s) (r : Result (Unit {0}) × World s) → Commits f w r → Untouched w r.1
    committed w (ok u, w') (e, _, o, q, _, _) =
        (k w.db w'.db e, ap s.redis.entries q, λ h. rw o (lost-later w.outages h).1)
    committed w (err x, w') (e, o, q, _, _) =
        (ap (λ db. db.buffers) e, ap s.redis.entries q, λ h. rw o (lost-later w.outages h).1)

    commits : Stays Untouched (commit f)
    commits = record { at = λ w. committed w (commit f w) (commit-Commits f w) }

module _ {s : Services} (redis : RedisLaws s.redis) (bucket : BucketLaws s.bucket) where
  same_db : (w w' : World s) → SameTables w w' → Untouched w w'
  same_db w w' (d, r, o) = (ap (λ db. db.buffers) d, ap s.redis.entries r, λ h. rw o h)

  Untouched-IsFrame : IsFrame {s = s} Untouched
  unfolding stream_length
  Untouched-IsFrame = record {
    order = order;
    profile_row = λ c f. commits _ (update_profile_row-buffers c f);
    user_row = λ c f. commits _ (update_user_row-buffers c f);
    restored = λ id now. commits _ (set_restored-buffers id now);
    backup = λ row. commits _ (insert_backup-buffers row);
    account = λ user profile. commits _ (insert_account-buffers user profile);
    put =
        λ k d. record { at = λ w. same_db w (put_object k d w).1 (put_object-tables bucket k d w) };
    get = λ k. record { at = λ w. same_db w (get_object k w).1 (get_object-Gets bucket k w).2 };
    length = λ c. record { at = λ w. (refl, redis.xlen_reads (stream_key c) w.redis, λ h. h) };
    uuids = λ w n. (refl, refl, λ h. h);
  }

  -- A request that neither writes a memory nor rolls a buffer up changes no buffer and no entry of
  -- any stream, however it is answered.
  pub handle-Untouched :
      (c : Context s) (r : Request) (w : World s)
      → moves_memories r ≡ false
      → Untouched w (handle c r w).1
  handle-Untouched c r w h = handle-Stays Untouched-IsFrame c r w h
