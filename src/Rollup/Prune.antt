-- ===== src/Rollup/Prune.antt =====
-- What the pruning of a clone's backups deletes, and what it keeps.
use mycelium_consciousness.Prelude.{
  ℕ, ◌+◌, ◌-◌, ◌≤◌, Bool, true, false, not, ◌&&◌, List, [], ◌∷◌, map, length, ◌≡◌, refl, arith,
  ◌==◌, ltb, select, any, All, ==_self, Bool-cases, inl, inr,
}
use mycelium_consciousness.Subscriptions.{SubscriptionTier, free, standard, premium, policy_for}
use mycelium_consciousness.Models.{MemoryBackup}
use mycelium_consciousness.Database.{distinct}
use mycelium_consciousness.Rollup.{insert_desc, latest_first, retain_count, stale_from}

abbrev pub same_tier : SubscriptionTier → SubscriptionTier → Bool
same_tier free free = true
same_tier standard standard = true
same_tier premium premium = true
same_tier _ _ = false

abbrev pub has_id : ℕ → MemoryBackup → Bool
has_id n b = b.id == n

abbrev pub ids : List MemoryBackup → List ℕ
ids = map (λ b. b.id)

-- Whether an id is in a list of ids, as `IN` tests it.
abbrev pub listed : List ℕ → MemoryBackup → Bool
listed ns b = any (λ i. i == b.id) ns

module _ (q : MemoryBackup → Bool) where
  count-insert_desc :
      (b : MemoryBackup) (bs : List MemoryBackup)
      → length (select q (insert_desc b bs)) ≡ length (select q (b ∷ bs))
  unfolding insert_desc
  count-insert_desc b [] = refl
  count-insert_desc b (x ∷ bs) = ground (arith, count-insert_desc b bs)

  -- Ordering loses no row and repeats none.
  pub count-latest_first :
      (bs : List MemoryBackup) → length (select q (latest_first bs)) ≡ length (select q bs)
  unfolding latest_first
  count-latest_first [] = refl
  count-latest_first (b ∷ bs) =
      ground (arith, count-insert_desc b (latest_first bs), count-latest_first bs)

  pub count-stale_from :
      (r : ℕ) (bs : List MemoryBackup) → length (select q (stale_from r bs)) ≤ length (select q bs)
  unfolding stale_from
  count-stale_from r [] = omega arith
  count-stale_from r (b ∷ bs) = ground (arith, count-stale_from (r + 1) bs)

same_tier-eq : (t u : SubscriptionTier) → same_tier t u ≡ true → t ≡ u
same_tier-eq free free h = refl
same_tier-eq standard standard h = refl
same_tier-eq premium premium h = refl
same_tier-eq free standard h = cc
same_tier-eq free premium h = cc
same_tier-eq standard free h = cc
same_tier-eq standard premium h = cc
same_tier-eq premium free h = cc
same_tier-eq premium standard h = cc

-- Of the rows that are ranked from `r` on, those of one tier that escape the deletion.
pub survivors-le :
    (t : SubscriptionTier) (ns : List ℕ) (r : ℕ) (bs : List MemoryBackup)
    → All (λ b. listed ns b ≡ true) (stale_from r bs)
    → length (select (λ b. same_tier t b.subscription_tier && not (listed ns b)) bs)
      ≤ (policy_for t).retain_count + 1 - r
unfolding stale_from retain_count
survivors-le t ns r [] h = omega arith
survivors-le t ns r (b ∷ bs) h = elim (Bool-cases (ltb (retain_count b) r)) [
  | inl stale ↦
      let h' = rw stale at h in
      let ih = survivors-le t ns (r + 1) bs h'.1 in ground (arith, h'.0, ih)
  | inr kept ↦
      let ih = survivors-le t ns (r + 1) bs (rw kept at h) in
      ground (arith, same_tier-eq t b.subscription_tier, ih)
]

listed-cons :
    (n : ℕ) (ns : List ℕ) (bs : List MemoryBackup)
    → All (λ b. listed ns b ≡ true) bs
    → All (λ b. listed (n ∷ ns) b ≡ true) bs
listed-cons n ns [] h = tt
listed-cons n ns (b ∷ bs) h = (ground arith, listed-cons n ns bs h.1)

pub listed-ids : (bs : List MemoryBackup) → All (λ b. listed (ids bs) b ≡ true) bs
listed-ids [] = tt
listed-ids (b ∷ bs) = (rw (==_self b.id), listed-cons b.id (ids bs) bs (listed-ids bs))

-- A test that `IN` passes finds a row with the id.
pub listed-count :
    (n : ℕ) (bs : List MemoryBackup)
    → any (λ i. i == n) (ids bs) ≡ true
    → 1 ≤ length (select (has_id n) bs)
listed-count n [] h = cc
listed-count n (b ∷ bs) h = ground (arith, listed-count n bs)

count-unlisted :
    (n : ℕ) (bs : List MemoryBackup)
    → any (λ i. i == n) (ids bs) ≡ false
    → length (select (has_id n) bs) ≡ 0
count-unlisted n [] h = refl
count-unlisted n (b ∷ bs) h = ground (arith, count-unlisted n bs)

-- A column without repetitions has each value at most once.
pub distinct-count :
    (n : ℕ) (bs : List MemoryBackup) → distinct (ids bs) ≡ true → length (select (has_id n) bs) ≤ 1
unfolding distinct
distinct-count n [] h = omega arith
distinct-count n (b ∷ bs) h = ground (arith, distinct-count n bs, count-unlisted b.id bs)
