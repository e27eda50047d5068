-- ===== src/Worker/Lifecycle.antt =====
-- The life of a worker process.
use mycelium_consciousness.Prelude.{
  ℕ, false, List, [], ◌∷◌, Option, none, some, ◌≡◌, refl, ap, ◌∙◌, ◌⊎◌, inl, inr, ==_self,
  Bool-cases,
}
use mycelium_consciousness.Effects.{Result}
use mycelium_consciousness.Services.{Services}
use mycelium_consciousness.Worker.{
  Loop, Process, with_session, dispose_engine, run_async, reset_db_pool, close_db_pool, Task,
  Answer, body, perform, serve, serve_world, open_loop,
}

-- The process has one open loop, and the pool serves it.
record IsReady {s : Services} (l : ℕ) (p : Process s) : Type 0 where
  pub has_loop : p.loop ≡ some (record { id = l; is_closed = false })
  pub serves_loop : (p.pool ≡ none) ⊎ (p.pool ≡ some l)

open_loop-open : (o : Option Loop) (n : ℕ) → (open_loop o n).0.is_closed ≡ false
open_loop-open none n = refl
open_loop-open (some l) n = elim (Bool-cases l.is_closed) [ inl e ↦ rw e refl | inr e ↦ rw e refl ]

as_open : (k : Loop) → k.is_closed ≡ false → some k ≡ some (record { id = k.id; is_closed = false })
as_open k h = ap (λ b. some (record { id = k.id; is_closed = b })) h

module _ {s : Services} where
  -- Whatever loop and connections a process has inherited when it starts.
  reset_db_pool-IsReady :
      (p : Process s) → IsReady (open_loop p.loop p.loops).0.id (reset_db_pool p).1
  unfolding reset_db_pool run_async dispose_engine
  reset_db_pool-IsReady p =
      let h = open_loop-open p.loop p.loops in
      record { has_loop = rw h (as_open _ h); serves_loop = inl refl }

  module _ (override : Option ℕ) (l : ℕ) where
    -- A task of a ready process does what its coroutine does, makes no loop and leaves it ready.
    abbrev Performs : Task → Process s → Result Answer × Process s → Type 0
    Performs t p (r, p') =
        (r ≡ (body override t p.world).0)
        × (p'.world ≡ (body override t p.world).1)
        × (p'.loops ≡ p.loops)
        × IsReady l p'

    perform-Performs :
        (t : Task) (p : Process s) → IsReady l p → Performs t p (perform override t p)
    unfolding perform run_async with_session
    perform-Performs t p ready = elim ready.serves_loop [
      | inl e ↦
          rw (ready.has_loop, e)
            (refl, refl, refl, record { has_loop = refl; serves_loop = inr refl })
      | inr e ↦
          rw (ready.has_loop, e, ==_self l)
            (refl, refl, refl, record { has_loop = refl; serves_loop = inr refl })
    ]

    abbrev Serves : List Task → Process s → List (Result Answer) × Process s → Type 0
    Serves ts p (rs, p') =
        (rs ≡ (serve_world override ts p.world).0)
        × (p'.world ≡ (serve_world override ts p.world).1)
        × (p'.loops ≡ p.loops)
        × IsReady l p'

    serve-Serves :
        (ts : List Task) (p : Process s) → IsReady l p → Serves ts p (serve override ts p)
    unfolding serve serve_world
    serve-Serves [] p ready = (refl, refl, refl, ready)
    serve-Serves (t ∷ ts) p ready =
        let (r, w, n, ready') = perform-Performs t p ready in
        let (rs, w', n', ready'') = serve-Serves ts (perform override t p).1 ready' in
        let same = ap (serve_world override ts) w in
        (
          ap (λ x. x ∷ (serve override ts (perform override t p).1).0) r
              ∙ ap (λ xs. (body override t p.world).0 ∷ xs) (rs ∙ ap (λ q. q.0) same),
          w' ∙ ap (λ q. q.1) same,
          n' ∙ n,
          ready'',
        )

  close_db_pool-closes :
      (l : ℕ) (p : Process s)
      → IsReady l p
      → let p' = (close_db_pool p).1 in (p'.pool ≡ none) × (p'.loop ≡ none) × (p'.world ≡ p.world)
  unfolding close_db_pool run_async dispose_engine
  close_db_pool-closes l p ready = rw ready.has_loop (refl, refl, refl)

  -- Whatever loop and pooled connections a worker process has inherited: once it has been set up, a
  -- sequence of tasks returns and raises exactly what their coroutines do one after the other, and
  -- leaves the same world, so none of them meets a connection of another loop; no loop is made for
  -- them; and shutting down then leaves no loop and no connection, and the world as it was.
  pub serve_lifetime :
      (override : Option ℕ) (ts : List Task) (p : Process s)
      → let p1 = (reset_db_pool p).1 in
        let (rs, p2) = serve override ts p1 in
        let p3 = (close_db_pool p2).1 in
        (rs ≡ (serve_world override ts p1.world).0)
        × (p2.world ≡ (serve_world override ts p1.world).1)
        × (p2.loops ≡ p1.loops)
        × (p3.pool ≡ none)
        × (p3.loop ≡ none)
        × (p3.world ≡ p2.world)
  serve_lifetime override ts p =
      let l = (open_loop p.loop p.loops).0.id in
      let (rs, w, n, ready) =
        serve-Serves override l ts (reset_db_pool p).1 (reset_db_pool-IsReady p) in
      let (pool, loop, world) = close_db_pool-closes l _ ready in (rs, w, n, pool, loop, world)
