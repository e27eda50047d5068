-- ===== src/Worker.antt =====
-- services/celery/src/celery_worker/app.py and tasks/memory.py: a worker process with its event
-- loop. The connections of a pool serve only the loop on which they were made (asyncpg raises
-- "attached to a different loop" on another). `pool` is that loop, if the pool may hold any.
pub mod Lifecycle
use mycelium_consciousness.Prelude.{
  ℕ, suc, Text, codes, Bool, true, false, List, [], ◌∷◌, Option, none, some, ◌==◌, if◌then◌else◌,
}
use mycelium_consciousness.Effects.{Error, Result, ok, err, Exec, pure, runtime_error, ◌>>=◌, ◌>>◌}
use mycelium_consciousness.Services.{Services}
use mycelium_consciousness.Database.{World, Action}
use mycelium_consciousness.Storage.{ensure_bucket}
use mycelium_consciousness.Flush.{FlushResult, flush_one_stream, flush_all_streams}
use mycelium_consciousness.Rollup.{RollupResult, run_rollup}
use mycelium_consciousness.Admin.{force_rollup_clone}

-- asyncio's loop, by its number.
pub record Loop : Type 0 where
  pub id : ℕ
  pub is_closed : Bool

pub record Process (s : Services) : Type 0 where
  pub world : World s
  pub pool : Option ℕ
  -- `_loop`
  pub loop : Option Loop
  -- how many loops have been made
  pub loops : ℕ

-- What runs on a loop sees the world and the pool.
abbrev Coroutine : Services → Type 0 → Type 0
Coroutine s A = (loop : ℕ) → Exec (World s × Option ℕ) A

abbrev serves : Option ℕ → ℕ → Bool
serves none l = true
serves (some k) l = k == l

-- `run_async` makes a loop if there is none, or if it is closed.
abbrev open_loop : Option Loop → ℕ → Loop × ℕ
open_loop none n = (record { id = n; is_closed = false }, suc n)
open_loop (some l) n = if l.is_closed then (record { id = n; is_closed = false }, suc n) else (l, n)

-- The loop after `_close_db_pool`.
abbrev closed : Option Loop → Option Loop
closed none = none
closed (some l) = if l.is_closed then some l else none

module _ {s : Services} where
  -- `async with AsyncSessionLocal() as session`, which takes a connection of the pool.
  pub with_session : {A : Type 0} → Action s A → Coroutine s A
  with_session act l (w, pool) =
      if serves pool l
      then (let (r, w') = act w in (r, (w', some l)))
      else (err runtime_error, (w, pool))

  -- `dispose_engine` of shared/src/shared/db/db.py
  pub dispose_engine : Coroutine s (Unit {0})
  dispose_engine l (w, pool) = (ok tt, (w, none))

  abbrev without_session : {A : Type 0} → Action s A → Coroutine s A
  without_session act l (w, pool) = let (r, w') = act w in (r, (w', pool))

  pub run_async : {A : Type 0} → Coroutine s A → Exec (Process s) A
  run_async coro p =
      let (l, n) = open_loop p.loop p.loops in
      let (r, (w, pool)) = coro l.id (p.world, p.pool) in
      (r, record { world = w; pool = pool; loop = some l; loops = n })

  -- `worker_process_init`
  pub reset_db_pool : Exec (Process s) (Unit {0})
  reset_db_pool = do run_async dispose_engine; run_async (without_session ensure_bucket)

  -- `worker_process_shutdown`
  pub close_db_pool : Exec (Process s) (Unit {0})
  close_db_pool = do run_async dispose_engine; (λ p. (ok tt, record p { loop = closed p.loop }))

-- The tasks of tasks/memory.py, with the moment that `datetime.now` gives.
pub data Task : Type 0 where
  flush_due_streams : Task
  flush_clone_stream : (clone_id : ℕ) → Task
  rollup_due_clones : (now : ℕ) → Task
  force_rollup : (now clone_id : ℕ) → Task

pub data Answer : Type 0 where
  flushes : List FlushResult → Answer
  flush : FlushResult → Answer
  rollups : List RollupResult → Answer
  rollup : RollupResult → Answer

module _ {s : Services} (override : Option ℕ) where
  -- The coroutine `run` of each task.
  unfoldable pub body : Task → Action s Answer
  body flush_due_streams = do rs ← flush_all_streams; pure (flushes rs)
  body (flush_clone_stream clone_id) = do r ← flush_one_stream clone_id; pure (flush r)
  body (rollup_due_clones now) = do rs ← run_rollup override now; pure (rollups rs)
  body (force_rollup now clone_id) = do r ← force_rollup_clone now clone_id; pure (rollup r)

  pub perform : Task → Exec (Process s) Answer
  perform t = run_async (with_session (body t))

  -- One task after the other, whatever each of them raises: the prefork pool runs one at a time.
  pub serve : List Task → Process s → List (Result Answer) × Process s
  serve [] p = ([], p)
  serve (t ∷ ts) p = let (r, p') = perform t p in let (rs, p'') = serve ts p' in (r ∷ rs, p'')

  -- The same tasks on the world alone.
  pub serve_world : List Task → World s → List (Result Answer) × World s
  serve_world [] w = ([], w)
  serve_world (t ∷ ts) w =
      let (r, w') = body t w in let (rs, w'') = serve_world ts w' in (r ∷ rs, w'')

-- `app.conf.beat_schedule`: the tasks with their intervals, in seconds.
beat_schedule : (flush_interval check_interval : ℕ) → List (Text × ℕ)
beat_schedule flush_interval check_interval =
    (codes "memory.flush_due_streams", flush_interval)
    ∷ (codes "memory.rollup_due_clones", check_interval)
    ∷ []
