-- ===== src/Memories/Write.antt =====
-- Writing a memory: the stream, and the flush task.
use mycelium_consciousness.Prelude.{
  ℕ, ◌≤◌, Text, Bool, true, false, List, [], ◌∷◌, ◌++◌, Option, none, some, ◌≡◌, ◌≢◌, refl, sym, ap,
  ◌∙◌, arith, length, leb, Bool-cases, inl, inr, if◌then◌else◌,
}
use mycelium_consciousness.Effects.{Result, ok, err, pure, continue}
use mycelium_consciousness.Effects.Binds.{>>?-eq-ok}
use mycelium_consciousness.Services.{Services, Iso, Item, Datetime, naive, aware, aware_at}
use mycelium_consciousness.Services.Laws.{RedisLaws}
use mycelium_consciousness.Models.{CloneProfile}
use mycelium_consciousness.Database.{World, lost}
use mycelium_consciousness.Streams.{append_memory, stream_key}
use mycelium_consciousness.Streams.Calls.{stream}
use mycelium_consciousness.Memories.{
  MemoryWriteRequest, record_memory, send_flush, valid_write, valid_content, valid_captured_at,
  strip,
}

-- The entry of a write: its content, and its time or else the moment.
abbrev pub recorded : Iso → (now : ℕ) → MemoryWriteRequest → Item
recorded iso now r = record {
  content = r.content;
  captured_at = iso.isoformat (elim r.captured_at [ none ↦ aware now | some t ↦ t ]);
}

-- The flush tasks that a write leaves: one more, of the clone, if its stream is long enough.
abbrev tasks_after : (maxlen clone_id : ℕ) → (tasks : List ℕ) → (stream_length : ℕ) → List ℕ
tasks_after maxlen clone_id tasks n = if leb maxlen n then tasks ++ clone_id ∷ [] else tasks

module _ {s : Services} (laws : RedisLaws s.redis) (maxlen now : ℕ) (profile : CloneProfile)
    (r : MemoryWriteRequest) where
  -- One entry stands behind the others of the stream, and a task has been sent if need be; or no
  -- task has been sent.
  abbrev pub Records : World s → Result (Unit {0}) × World s → Type 0
  Records w (ok _, w') =
      (id : Text) × (stream laws profile.id w'
        ≡ stream laws profile.id w ++ (id, recorded s.iso now r) ∷ [])
      × (w'.flush_tasks
          ≡ tasks_after maxlen profile.id w.flush_tasks (length (stream laws profile.id w')))
      × (w'.db ≡ w.db)
  Records w (err _, w') = (w'.flush_tasks ≡ w.flush_tasks) × (w'.db ≡ w.db)

  sent :
      (w w1 : World s) (id : Text) (b : Bool) (n : ℕ)
      → leb maxlen n ≡ b
      → n ≡ length (stream laws profile.id w1)
      → stream laws profile.id w1 ≡ stream laws profile.id w ++ (id, recorded s.iso now r) ∷ []
      → (w1.flush_tasks ≡ w.flush_tasks) × (w1.db ≡ w.db)
      → Records w ((if b then send_flush {s = s} profile.id else pure tt) w1)
  unfolding send_flush
  sent w w1 id true n h e here (t, d) = elim (Bool-cases (lost w1.refusals)) [
    | inl refused ↦ rw refused (t, d)
    | inr taken ↦ rw taken (id, here, rw (sym e, h, t) refl, d)
  ]
  sent w w1 id false n h e here (t, d) = (id, here, rw (sym e, h, t) refl, d)

  -- What `record_memory` does with the id and the length.
  abbrev with_length : Result (Text × ℕ) × World s → Result (Unit {0}) × World s
  with_length p =
      continue p.0 (λ x. if leb maxlen x.1 then send_flush {s = s} profile.id else pure tt) p.1

  counted :
      (w w1 : World s) (id : Text) (reply : Result ℕ × s.redis.State)
      → s.redis.xlen (stream_key profile.id) w1.redis ≡ reply
      → stream laws profile.id w1 ≡ stream laws profile.id w ++ (id, recorded s.iso now r) ∷ []
      → (w1.flush_tasks ≡ w.flush_tasks) × (w1.db ≡ w.db)
      → Records w
          (with_length (continue reply.0 (λ n. pure (id, n)) (record w1 { redis = reply.1 })))
  counted w w1 id (err x, st) h here same = same
  counted w w1 id (ok n, st) h here same =
      let kept : s.redis.entries st ≡ s.redis.entries w1.redis =
        rw h at (laws.xlen_reads (stream_key profile.id) w1.redis) in
      let k = ap (λ f. f (stream_key profile.id)) kept in
      sent w (record w1 { redis = st }) id (leb maxlen n) n refl
        (laws.xlen_ok (stream_key profile.id) w1.redis (ap (λ p. p.0) h) ∙ ap length (sym k))
        (k ∙ here) same

  added :
      (w : World s) (reply : Result Text × s.redis.State)
      → s.redis.xadd (stream_key profile.id) (recorded s.iso now r) w.redis ≡ reply
      → Records w (
          with_length (
            continue reply.0
              (λ id w'.
                let (n, st) = s.redis.xlen (stream_key profile.id) w'.redis in
                continue n (λ n. pure (id, n)) (record w' { redis = st }))
              (record w { redis = reply.1 })))
  added w (err x, st) h = (refl, refl)
  added w (ok id, st) h =
      counted w (record w { redis = st }) id _ refl
        (rw h at
          (laws.xadd_ok (stream_key profile.id) (recorded s.iso now r) w.redis (ap (λ p. p.0) h)))
        (refl, refl)

  -- A write that succeeds has put one entry, with the content and the time, behind the others of
  -- the clone's stream, and has sent a flush task for the clone exactly if the stream then holds
  -- `maxlen` entries or more; one that raises has sent none.
  -- The tables stay as they are.
  pub record_memory-Records : (w : World s) → Records w (record_memory maxlen now profile r w)
  unfolding record_memory append_memory
  record_memory-Records w = added w _ refl

of_ok : {q q' : MemoryWriteRequest} → ok q ≡ ok q' → q ≡ q'
of_ok h = cc

valid_content-ok :
    (value : Text) {content : Text}
    → valid_content value ≡ ok content
    → (1 ≤ length value) × (length value ≤ 8192) × (content ≡ strip value) × (length content ≢ 0)
unfolding valid_content
valid_content-ok value h = (ground arith, ground arith, ground arith, λ e. ground arith)

valid_captured_at-ok :
    (t : Option Datetime) {u : Option Datetime}
    → valid_captured_at t ≡ ok u
    → (u ≡ t) × ((n : ℕ) → u ≢ some (naive n))
unfolding valid_captured_at
valid_captured_at-ok none h = (cc, λ n e. ground arith)
valid_captured_at-ok (some (naive n)) h = cc
valid_captured_at-ok (some (aware n)) h = (cc, λ m e. ground arith)
valid_captured_at-ok (some (aware_at n wall)) h = (cc, λ m e. ground arith)

-- A write request that is accepted has a content of 1 to 8192 characters, which is stored without
-- the white space around it and is not empty then, and its time, if it has one, is aware.
valid_write-ok :
    (r r' : MemoryWriteRequest)
    → valid_write r ≡ ok r'
    → (1 ≤ length r.content)
      × (length r.content ≤ 8192)
      × (r'.content ≡ strip r.content)
      × (length r'.content ≢ 0)
      × (r'.captured_at ≡ r.captured_at)
      × ((t : ℕ) → r'.captured_at ≢ some (naive t))
unfolding valid_write valid_content valid_captured_at
valid_write-ok r r' h =
    let (content, c, h1) = >>?-eq-ok (valid_content r.content) _ h in
    let (captured_at, t, h2) = >>?-eq-ok (valid_captured_at r.captured_at) _ h1 in
    let (low, high, trimmed, left) = valid_content-ok r.content c in
    let (kept, is_aware) = valid_captured_at-ok r.captured_at t in
    let same = sym (of_ok h2) in
    (
      low,
      high,
      ap (λ q. q.content) same ∙ trimmed,
      λ e. left (ap (λ q. length q.content) (sym same) ∙ e),
      ap (λ q. q.captured_at) same ∙ kept,
      λ n e. is_aware n (ap (λ q. q.captured_at) (sym same) ∙ e),
    )
