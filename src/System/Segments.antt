-- ===== src/System/Segments.antt =====
-- What the segments of a flush leave.
use mycelium_consciousness.Prelude.{
  ℕ, Text, List, ◌∷◌, ◌++◌, ◌≡◌, inl, inr, refl, ap, sym, ◌∙◌, subst, ◌==◌, Bool-cases, ==→eq,
  other_than,
}
use mathlib.Core.List.{Memᴰ}
use mathlib.Core.List.Memᴰ
use mycelium_consciousness.Effects.{Error, Result, ok, err, continue, handle, pure, raise, ◌>>◌}
use mycelium_consciousness.Effects.Binds.{lift-ends}
use mycelium_consciousness.Services.{Services, Item}
use mycelium_consciousness.Services.Laws.{CodecLaws}
use mycelium_consciousness.Streams.Trim.{last_id}
use mycelium_consciousness.Streams.{stream_key, next_id, trim_up_to}
use mycelium_consciousness.Database.{World, get_buffer, commit}
use mycelium_consciousness.Database.Commit.{Commits, commit-Commits}
use mycelium_consciousness.Flush.{
  new_items, existing_items, write_buffer, revert, answer, FlushResult,
}
use mycelium_consciousness.Flush.Batch.{write_buffer-frame}
use mycelium_consciousness.Flush.Outcome.{buffered, write_buffer-row, buffered-row}
use mycelium_consciousness.Flush.Segments.{save_entries, trim_or_revert}
use mycelium_consciousness.System.Coverage.{Within}

ok-eq : {xs ys : List Item} → ok xs ≡ ok ys → xs ≡ ys
ok-eq h = cc

module _ {s : Services} (codec : CodecLaws s.codec) (j c : ℕ) (e : Text × Item)
    (es : List (Text × Item)) (b : List Item) (w : World s) where
  -- The commit has put what was read behind what was buffered, for its clone and no other.
  abbrev pub Saves : Result (List Item) × World s → Type 0
  Saves (ok old, w') =
      (w'.redis ≡ w.redis)
      × ((b' : List Item) × (buffered s.codec j w'.db ≡ ok b')
          × Within b b'
          × (c ≡ j → Within (new_items (e ∷ es)) b'))
  Saves (err x, w') = (w'.redis ≡ w.redis) × (buffered s.codec j w'.db ≡ ok b)

  module _ (old : List Item) (mine : buffered s.codec c w.db ≡ ok old)
      (has : buffered s.codec j w.db ≡ ok b) where
    after_commit :
        (p : Result (Unit {0}) × World s)
        → Commits (write_buffer s.codec c (get_buffer c w.db) (old ++ new_items (e ∷ es))) w p
        → Saves (continue p.0 (λ _. pure old) p.1)
    after_commit (err x, w') (d, _, r, _, _) = (r, ap (buffered s.codec j) d ∙ has)
    after_commit (ok u, w') (wrote, _, _, r, _, _) = elim (Bool-cases (c == j)) [
      | inl same ↦
          let k = ==→eq c j same in
          let (row, found, items) =
            write_buffer-row s.codec codec c (old ++ new_items (e ∷ es)) w.db _ refl wrote in
          let was : old ≡ b = ok-eq (sym mine ∙ ap (λ x. buffered s.codec x w.db) k ∙ has) in
          (
            r,
            (
              old ++ new_items (e ∷ es),
              subst (λ x. buffered s.codec x w'.db ≡ ok (old ++ new_items (e ∷ es))) k
                  (buffered-row s.codec codec c w'.db row found items),
              λ i m. Memᴰ.append_left _ (subst (Memᴰ i) (sym was) m),
              λ _ i m. Memᴰ.append_right old m,
            ),
          )
      | inr other ↦
          let ne = other_than c j other in
          (
            r,
            (
              b,
              ap (existing_items s.codec) (
                    write_buffer-frame s.codec c j (λ h. ne (sym h)) (get_buffer c w.db) _ w.db
                      wrote)
                  ∙ has,
              λ i m. m,
              λ h. absurd (ne h),
            ),
          )
    ]

  pub save_entries-Saves : buffered s.codec j w.db ≡ ok b → Saves (save_entries c e es w)
  unfolding save_entries
  save_entries-Saves has =
      lift-ends Saves _ (buffered s.codec c w.db) w (λ x h. (refl, has))
        (λ old h. after_commit old h has _ (commit-Commits _ w))

module _ {s : Services} (c : ℕ) (e : Text × Item) (es : List (Text × Item)) (old : List Item)
    (w : World s) where
  -- Only a trim that returns lets the flush return.
  raised :
      (x : Error) (p : Result (Unit {0}) × World s) {r : FlushResult}
      → ((continue p.0 (λ _. raise {A = Unit {0}} x) >> pure (answer c (e ∷ es))) p.1).0 ≡ ok r
      → ⊥
  raised x (ok u, w') h = cc
  raised x (err y, w') h = cc

  after_trim :
      (t : Result (Unit {0}) × World s) {r : FlushResult}
      → ((handle t.0 (revert c old) >> pure (answer c (e ∷ es))) t.1).0 ≡ ok r
      → (t.0 ≡ ok tt) × (((handle t.0 (revert c old) >> pure (answer c (e ∷ es))) t.1).1 ≡ t.1)
  unfolding revert
  after_trim (ok tt, w') h = (refl, refl)
  after_trim (err x, w') h = absurd (raised x (commit _ w') h)

  -- The state of redis after the trim.
  abbrev trimmed : Text → s.redis.State
  trimmed n = (s.redis.xtrim (stream_key c) n w.redis).1

  abbrev Trimmed : Text → Result (Unit {0}) × World s → Type 0
  Trimmed id (r, w') =
      r ≡ ok tt
      → (n : Text) × (next_id id ≡ ok n)
        × ((s.redis.xtrim (stream_key c) n w.redis).0 ≡ ok tt)
        × (w' ≡ record w { redis = trimmed n })

  trim_up_to-Trimmed : (id : Text) → Trimmed id (trim_up_to {s = s} c id w)
  unfolding trim_up_to
  trim_up_to-Trimmed id =
      lift-ends (Trimmed id) _ (next_id id) w (λ x h k. cc) (λ n h k. (n, h, k, refl))

  pub trim_or_revert-trims :
      {r : FlushResult}
      → (trim_or_revert {s = s} c e es old w).0 ≡ ok r
      → (n : Text) × (next_id (last_id e es) ≡ ok n)
        × ((s.redis.xtrim (stream_key c) n w.redis).0 ≡ ok tt)
        × ((trim_or_revert {s = s} c e es old w).1 ≡ record w { redis = trimmed n })
  unfolding trim_or_revert
  trim_or_revert-trims h =
      let (t, k) = after_trim (trim_up_to c (last_id e es) w) h in
      let (n, next, x, l) = trim_up_to-Trimmed (last_id e es) t in (n, next, x, k ∙ l)
