-- ===== src/Rollup/Retention.antt =====
-- What a clone's backups, and the others', are after its stale rows have been deleted.
use mycelium_consciousness.Prelude.{
  ℕ, suc, ◌+◌, ◌≤◌, Bool, true, false, not, ◌&&◌, List, [], ◌∷◌, length, ◌≡◌, ◌≢◌, refl, ap, arith,
  ◌==◌, leb, select, any, find, All, ==_self, ==→eq, subst, Bool-cases, inl, inr,
}
use mycelium_consciousness.Effects.{ok}
use mycelium_consciousness.Subscriptions.{SubscriptionTier, policy_for}
use mycelium_consciousness.Models.{MemoryBackup}
use mycelium_consciousness.Database.{Db, distinct, delete_backups, get_backup}
use mycelium_consciousness.Rollup.{
  insert_desc, latest_first, retain_count, stale_from, backups_of, stale_backups,
}
use mycelium_consciousness.Rollup.Prune.{
  same_tier, ids, has_id, listed, listed-ids, listed-count, distinct-count, count-latest_first,
  count-stale_from, survivors-le,
}

-- The tables once the stale rows of a clone have been deleted.
abbrev pub pruned : ℕ → Db → Db
pruned c db = record db {
  backups = select (λ b. not (listed (ids (stale_backups c db)) b)) db.backups;
}

pub delete_backups-pruned :
    (c : ℕ) (db : Db) → delete_backups (ids (stale_backups c db)) db ≡ ok (pruned c db)
unfolding delete_backups
delete_backups-pruned c db = refl

-- Of each tier no more rows are left than it retains.
select-select-length :
    (p q r : MemoryBackup → Bool) (bs : List MemoryBackup)
    → length (select p (select q (select r bs))) ≡ length (select (λ b. p b && r b) (select q bs))
select-select-length p q r [] = refl
select-select-length p q r (b ∷ bs) = ground (arith, select-select-length p q r bs)

-- Once a clone's stale backups are deleted, each tier has at most as many backups of the clone as
-- its policy retains.
pub pruned-le-retain_count :
    (c : ℕ) (db : Db) (t : SubscriptionTier)
    → length (select (λ b. same_tier t b.subscription_tier) (backups_of c (pruned c db).backups))
      ≤ (policy_for t).retain_count
unfolding backups_of stale_backups
pruned-le-retain_count c db t =
    let mine = select (λ b. b.clone_id == c) db.backups in
    let stale = stale_from 1 (latest_first mine) in
    omega (
      arith,
      select-select-length (λ b. same_tier t b.subscription_tier) (λ b. b.clone_id == c)
          (λ b. not (listed (ids stale) b)) db.backups,
      count-latest_first (λ b. same_tier t b.subscription_tier && not (listed (ids stale) b)) mine,
      survivors-le t (ids stale) 1 (latest_first mine) (listed-ids stale),
    )

-- A clone's latest backup is never stale.
one-le-retain_count : (b : MemoryBackup) → 1 ≤ retain_count b
unfolding retain_count policy_for
one-le-retain_count b = ground arith

abbrev EndsBy : ℕ → MemoryBackup → Type 0
EndsBy t b = b.period_end ≤ t

insert_desc-EndsBy :
    (t : ℕ) (b : MemoryBackup) (bs : List MemoryBackup)
    → EndsBy t b
    → All (EndsBy t) bs
    → All (EndsBy t) (insert_desc b bs)
unfolding insert_desc
insert_desc-EndsBy t b [] h k = (h, tt)
insert_desc-EndsBy t b (x ∷ bs) h k = ground (arith, insert_desc-EndsBy t b bs h k.1)

All-EndsBy-mono : (t u : ℕ) (bs : List MemoryBackup) → t ≤ u → All (EndsBy t) bs → All (EndsBy u) bs
All-EndsBy-mono t u [] h k = tt
All-EndsBy-mono t u (b ∷ bs) h k = (omega arith, All-EndsBy-mono t u bs h k.1)

abbrev IsDescending : List MemoryBackup → Type 0
IsDescending [] = Unit
IsDescending (b ∷ bs) = All (EndsBy b.period_end) bs × IsDescending bs

insert_desc-IsDescending :
    (b : MemoryBackup) (bs : List MemoryBackup) → IsDescending bs → IsDescending (insert_desc b bs)
unfolding insert_desc
insert_desc-IsDescending b [] h = (tt, tt)
insert_desc-IsDescending b (x ∷ bs) h = elim (Bool-cases (leb x.period_end b.period_end)) [
  | inl first ↦
      rw first ((ground arith, All-EndsBy-mono x.period_end b.period_end bs (ground arith) h.0), h)
  | inr behind ↦
      rw behind
        (insert_desc-EndsBy x.period_end b bs (ground arith) h.0, insert_desc-IsDescending b bs h.1)
]

latest_first-IsDescending : (bs : List MemoryBackup) → IsDescending (latest_first bs)
unfolding latest_first
latest_first-IsDescending [] = tt
latest_first-IsDescending (b ∷ bs) =
    insert_desc-IsDescending b (latest_first bs) (latest_first-IsDescending bs)

find-select :
    (n : ℕ) (ns : List ℕ) (bs : List MemoryBackup)
    → any (λ i. i == n) ns ≡ false
    → find (has_id n) (select (λ b. not (listed ns b)) bs) ≡ find (has_id n) bs
find-select n ns [] h = refl
find-select n ns (b ∷ bs) h = elim (Bool-cases (b.id == n)) [
  | inl same ↦
      let unlisted : listed ns b ≡ false = rw (==→eq b.id n same) h in rw (unlisted, same) refl
  | inr other ↦ ground (arith, find-select n ns bs h)
]

count-backups_of :
    (q : MemoryBackup → Bool) (c : ℕ) (bs : List MemoryBackup)
    → length (select q (backups_of c bs)) ≤ length (select q bs)
unfolding backups_of
count-backups_of q c [] = omega arith
count-backups_of q c (b ∷ bs) = ground (arith, count-backups_of q c bs)

stale-tail :
    (b : MemoryBackup) (rest : List MemoryBackup) → stale_from 1 (b ∷ rest) ≡ stale_from 2 rest
unfolding stale_from
stale-tail b rest = ground (arith, one-le-retain_count b)

latest-unlisted :
    (c : ℕ) (db : Db) (b : MemoryBackup) (rest : List MemoryBackup)
    → distinct (ids db.backups) ≡ true
    → latest_first (backups_of c db.backups) ≡ b ∷ rest
    → any (λ i. i == b.id) (ids (stale_backups c db)) ≡ false
unfolding stale_backups
latest-unlisted c db b rest d h =
    elim (Bool-cases (any (λ i. i == b.id) (ids (stale_backups c db)))) [
      | inr unlisted ↦ unlisted
      | inl in_list ↦
          let twice : 1 ≤ length (select (has_id b.id) (stale_from 2 rest)) =
            listed-count b.id (stale_from 2 rest) (rw (h, stale-tail b rest) at in_list) in
          let counted : length (select (has_id b.id) (b ∷ rest))
              ≡ length (select (has_id b.id) (backups_of c db.backups)) =
            rw h at (count-latest_first (has_id b.id) (backups_of c db.backups)) in
          let one : length (select (has_id b.id) (b ∷ rest))
              ≡ suc (length (select (has_id b.id) rest)) =
            rw (==_self b.id) refl in
          absurd (
            omega (
              arith,
              twice,
              counted,
              one,
              count-stale_from (has_id b.id) 2 rest,
              count-backups_of (has_id b.id) c db.backups,
              distinct-count b.id db.backups d,
            ))
    ]

-- With distinct keys of backups: the latest backup of a clone ends no earlier than the others, and
-- the deletion of the stale ones leaves it in the table.
pub pruned_keeps_latest :
    (c : ℕ) (db : Db) (b : MemoryBackup) (rest : List MemoryBackup)
    → distinct (ids db.backups) ≡ true
    → latest_first (backups_of c db.backups) ≡ b ∷ rest
    → All (λ x. x.period_end ≤ b.period_end) rest
      × (get_backup b.id (pruned c db) ≡ get_backup b.id db)
pruned_keeps_latest c db b rest d h = (
  (subst IsDescending h (latest_first-IsDescending (backups_of c db.backups))).0,
  find-select b.id (ids (stale_backups c db)) db.backups (latest-unlisted c db b rest d h),
)

-- The backups of other clones.
counts-apart :
    (n c j : ℕ) (bs : List MemoryBackup)
    → j ≢ c
    → length (select (has_id n) (backups_of c bs)) + length (select (has_id n) (backups_of j bs))
      ≤ length (select (has_id n) bs)
unfolding backups_of
counts-apart n c j [] ne = omega arith
counts-apart n c j (b ∷ bs) ne = ground (arith, counts-apart n c j bs ne)

other-unlisted :
    (n c j : ℕ) (db : Db)
    → j ≢ c
    → distinct (ids db.backups) ≡ true
    → 1 ≤ length (select (has_id n) (backups_of j db.backups))
    → any (λ i. i == n) (ids (stale_backups c db)) ≡ false
unfolding stale_backups
other-unlisted n c j db ne d h = elim (Bool-cases (any (λ i. i == n) (ids (stale_backups c db)))) [
  | inr unlisted ↦ unlisted
  | inl in_list ↦ absurd (
      omega (
        arith,
        listed-count n (stale_backups c db) in_list,
        count-stale_from (has_id n) 1 (latest_first (backups_of c db.backups)),
        count-latest_first (has_id n) (backups_of c db.backups),
        counts-apart n c j db.backups ne,
        distinct-count n db.backups d,
      ))
]

backups_of-select :
    (j : ℕ) (ns : List ℕ) (bs : List MemoryBackup)
    → ((n : ℕ) → 1 ≤ length (select (has_id n) (backups_of j bs)) → any (λ i. i == n) ns ≡ false)
    → backups_of j (select (λ b. not (listed ns b)) bs) ≡ backups_of j bs
unfolding backups_of
backups_of-select j ns [] h = refl
backups_of-select j ns (b ∷ bs) h = elim (Bool-cases (b.clone_id == j)) [
  | inl mine ↦
      let kept : listed ns b ≡ false = h b.id (rw (mine, ==_self b.id) (omega arith)) in
      rw (kept, mine)
        (ap (λ l. b ∷ l) (backups_of-select j ns bs (λ n k. h n (rw mine (ground arith)))))
  | inr other ↦
      let rest = backups_of-select j ns bs (λ n k. h n (rw other k)) in ground (arith, rest)
]

-- With distinct keys of backups: pruning one clone's backups leaves those of any other as they are.
pruned-others :
    (c j : ℕ) (db : Db)
    → j ≢ c
    → distinct (ids db.backups) ≡ true
    → backups_of j (pruned c db).backups ≡ backups_of j db.backups
pruned-others c j db ne d =
    backups_of-select j (ids (stale_backups c db)) db.backups
      (λ n h. other-unlisted n c j db ne d h)
