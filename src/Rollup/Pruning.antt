-- ===== src/Rollup/Pruning.antt =====
-- The second transaction of a rollup.
use mycelium_consciousness.Prelude.{
  ℕ, Text, Bool, true, false, List, [], ◌∷◌, none, ◌≡◌, ◌≢◌, refl, ap, sym, ◌∙◌, arith, any, All,
  text_eq, text_eq_iff, text_eq_self, Bool-cases, inl, inr,
}
use mycelium_consciousness.Effects.{Result, ok, err, continue}
use mycelium_consciousness.Effects.Stays.{IsOrder, Stays, Stays-bind, Stays-pure}
use mycelium_consciousness.Services.{Services}
use mycelium_consciousness.Services.Laws.{BucketLaws}
use mycelium_consciousness.Models.{MemoryBackup}
use mycelium_consciousness.Database.{Db, World, commit, delete_backups}
use mycelium_consciousness.Database.Commit.{Commits, commit-Commits}
use mycelium_consciousness.Storage.{delete_object}
use mycelium_consciousness.Storage.Calls.{object_at, Deletes, delete_object-Deletes}
use mycelium_consciousness.Rollup.{stale_backups, delete_objects, prune_stale_backups}
use mycelium_consciousness.Rollup.Prune.{ids}
use mycelium_consciousness.Rollup.Retention.{pruned, delete_backups-pruned}

-- Whether a key is the storage key of one of the rows.
abbrev pub keyed : List MemoryBackup → Text → Bool
keyed bs k = any (λ b. text_eq b.storage_key k) bs

keyed-cons :
    (c : MemoryBackup) (cs bs : List MemoryBackup)
    → All (λ b. keyed cs b.storage_key ≡ true) bs
    → All (λ b. keyed (c ∷ cs) b.storage_key ≡ true) bs
keyed-cons c cs [] h = tt
keyed-cons c cs (b ∷ bs) (h, hs) = (ground arith, keyed-cons c cs bs hs)

pub keyed-All : (bs : List MemoryBackup) → All (λ b. keyed bs b.storage_key ≡ true) bs
keyed-All [] = tt
keyed-All (b ∷ bs) = (rw (text_eq_self b.storage_key) refl, keyed-cons b bs bs (keyed-All bs))

of_ok : {d e : Db} → ok d ≡ ok e → d ≡ e
of_ok h = cc

apart : (p : Text → Bool) (k j : Text) → p j ≡ true → p k ≡ false → k ≢ j
apart p k j a b e = let c : p j ≡ false = rw (← e) b in cc

module _ {s : Services} (laws : BucketLaws s.bucket) where
  module _ (p : Text → Bool) where
    -- Only objects at the keys of a test may have gone.
    abbrev OnlyDeletes : World s → World s → Type 0
    OnlyDeletes w w' =
        (w'.db ≡ w.db)
        × (w'.redis ≡ w.redis)
        × (w'.outages ≡ w.outages)
        × ((k : Text) → p k ≡ false → object_at laws k w' ≡ object_at laws k w)

    OnlyDeletes-order : IsOrder OnlyDeletes
    OnlyDeletes-order = record {
      same = λ w. (refl, refl, refl, λ k h. refl);
      then_by =
          λ u v w (d, r, o, f) (d', r', o', f'). (d' ∙ d, r' ∙ r, o' ∙ o, λ k h. f' k h ∙ f k h);
    }

    delete_object-OnlyDeletes : (j : Text) → p j ≡ true → Stays OnlyDeletes (delete_object j)
    delete_object-OnlyDeletes j h = record {
      at = λ w.
          let (_, others, (d, r, o)) = delete_object-Deletes laws j w in
          (d, r, o, λ k q. others k (apart p k j h q));
    }

    pub delete_objects-OnlyDeletes :
        (bs : List MemoryBackup)
        → All (λ b. p b.storage_key ≡ true) bs
        → Stays OnlyDeletes (delete_objects {s = s} bs)
    unfolding delete_objects
    delete_objects-OnlyDeletes [] h = Stays-pure OnlyDeletes-order tt
    delete_objects-OnlyDeletes (b ∷ bs) (h, hs) =
        Stays-bind OnlyDeletes-order _ _ (delete_object-OnlyDeletes b.storage_key h)
          (λ _. delete_objects-OnlyDeletes bs hs)

  -- A deletion of objects that succeeds has deleted each of them.
  deleted :
      (bs : List MemoryBackup) (w : World s) (k : Text)
      → (delete_objects bs w).0 ≡ ok tt
      → keyed bs k ≡ true
      → object_at laws k (delete_objects bs w).1 ≡ none
  unfolding delete_objects
  deleted [] w k h e = cc
  deleted (b ∷ bs) w k h e =
      first (λ w'. deleted bs w' k) (delete_object b.storage_key w)
        (delete_object-Deletes laws b.storage_key w) h
    where
      first :
          (rest : (w' : World s)
            → (delete_objects bs w').0 ≡ ok tt
            → keyed bs k ≡ true
            → object_at laws k (delete_objects bs w').1 ≡ none)
          (r : Result (Unit {0}) × World s)
          → Deletes laws b.storage_key w r
          → (continue r.0 (λ _. delete_objects bs) r.1).0 ≡ ok tt
          → object_at laws k (continue r.0 (λ _. delete_objects bs) r.1).1 ≡ none
      first rest (err x, w') d h = cc
      first rest (ok u, w') (gone, _, _) h = elim (Bool-cases (keyed bs k)) [
        | inl more ↦ rest w' h more
        | inr last ↦
            let (_, _, _, others) =
              (delete_objects-OnlyDeletes (keyed bs) bs (keyed-All bs)).at w' in
            let here : text_eq b.storage_key k ≡ true = ground (arith, e, last) in
            others k last
            ∙ ap (λ j. object_at laws j w') (sym ((text_eq_iff b.storage_key k).0 here))
            ∙ gone refl
      ]

  module _ (c : ℕ) (w : World s) where
    -- The stale rows and their objects are gone and all else is left; or the tables are unchanged,
    -- and at most objects of stale rows are gone.
    abbrev pub Prunes : Result (Unit {0}) × World s → Type 0
    Prunes (ok _, w') =
        (w'.db ≡ pruned c w.db)
        × (w'.redis ≡ w.redis)
        × ((k : Text) → keyed (stale_backups c w.db) k ≡ true → object_at laws k w' ≡ none)
        × ((k : Text)
            → keyed (stale_backups c w.db) k ≡ false
            → object_at laws k w' ≡ object_at laws k w)
    Prunes (err _, w') =
        (w'.db ≡ w.db)
        × (w'.redis ≡ w.redis)
        × ((k : Text)
            → keyed (stale_backups c w.db) k ≡ false
            → object_at laws k w' ≡ object_at laws k w)

    committed :
        (w1 : World s) (r : Result (Unit {0}) × World s)
        → OnlyDeletes (keyed (stale_backups c w.db)) w w1
        → ((k : Text) → keyed (stale_backups c w.db) k ≡ true → object_at laws k w1 ≡ none)
        → Commits (delete_backups (ids (stale_backups c w.db))) w1 r
        → Prunes r
    committed w1 (err e, w') (d, r, _, f) gone (d', _, r', b, _) =
        (d' ∙ d, r' ∙ r, λ k h. ap (λ st. s.bucket.object st k) b ∙ f k h)
    committed w1 (ok u, w') (d, r, _, f) gone (wrote, _, _, r', b, _) = (
      of_ok (
          sym wrote
          ∙ ap (delete_backups (ids (stale_backups c w.db))) d
          ∙ delete_backups-pruned c w.db),
      r' ∙ r,
      λ k h. ap (λ st. s.bucket.object st k) b ∙ gone k h,
      λ k h. ap (λ st. s.bucket.object st k) b ∙ f k h,
    )

    after_delete :
        (r : Result (Unit {0}) × World s)
        → OnlyDeletes (keyed (stale_backups c w.db)) w r.1
        → (r.0 ≡ ok tt
            → (k : Text) → keyed (stale_backups c w.db) k ≡ true
            → object_at laws k r.1 ≡ none)
        → Prunes (continue r.0 (λ _. commit (delete_backups (ids (stale_backups c w.db)))) r.1)
    after_delete (err e, w1) (d, r, _, f) gone = (d, r, f)
    after_delete (ok u, w1) only gone = committed w1 _ only (gone refl) (commit-Commits _ w1)

    -- Pruning that succeeds leaves the tables without the clone's stale rows, no object of any of
    -- these, and every other object; pruning that raises leaves the tables as they were and every
    -- object but those of stale rows. The streams are unchanged.
    pub prune_stale_backups-Prunes : Prunes (prune_stale_backups c w)
    unfolding prune_stale_backups
    prune_stale_backups-Prunes =
        let stale = stale_backups c w.db in
        after_delete (delete_objects stale w)
          ((delete_objects-OnlyDeletes (keyed stale) stale (keyed-All stale)).at w)
          (λ h k. deleted stale w k h)
