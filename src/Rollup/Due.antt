-- ===== src/Rollup/Due.antt =====
-- Which clones are due, and when a clone that has been rolled up is due again.
use mycelium_consciousness.Prelude.{
  ℕ, ◌+◌, ◌*◌, ◌-◌, ◌≤◌, ◌<◌, Bool, true, false, not, ◌&&◌, ◌||◌, List, [], ◌∷◌, ◌++◌, Option, none,
  some, any, all, length, Bool-cases, inl, inr, ◌≡◌, refl, ap, arith, ◌==◌, ltb, leb, select,
  ==_self, if◌then◌else◌, select-append, le→leb,
}
use mycelium_consciousness.Effects.{Result, ok, err, ◌>>?◌}
use mycelium_consciousness.Subscriptions.{
  SubscriptionTier, free, standard, premium, interval, policy_for,
}
use mycelium_consciousness.Models.{CloneProfile, MemoryBackup}
use mycelium_consciousness.Database.{Db}
use mycelium_consciousness.Rollup.{
  Cutoffs, or_else, choose, cutoff, cutoff_by_tier, is_due, anchor, last_end, backups_of,
  find_due_clones,
}

abbrev at_tier : SubscriptionTier → Result Cutoffs → Result ℕ
at_tier t (ok cutoffs) = ok (cutoffs t)
at_tier t (err e) = err e

all_ok :
    (f s p : Result ℕ) (cutoffs : Cutoffs)
    → (f >>? λ f. s >>? λ s. p >>? λ p. ok (choose f s p)) ≡ ok cutoffs
    → (f ≡ ok (cutoffs free)) × (s ≡ ok (cutoffs standard)) × (p ≡ ok (cutoffs premium))
all_ok (ok f) (ok s) (ok p) cutoffs h =
    (ap (at_tier free) h, ap (at_tier standard) h, ap (at_tier premium) h)
all_ok (err e) s p cutoffs h = cc
all_ok (ok f) (err e) p cutoffs h = cc
all_ok (ok f) (ok s) (err e) cutoffs h = cc

-- How long a clone of a tier waits between two backups.
abbrev pause : (override : Option ℕ) → SubscriptionTier → ℕ
pause override tier = interval override (policy_for tier)

module _ (override : Option ℕ) (now : ℕ) where
  cutoff-le :
      (tier : SubscriptionTier) {k : ℕ}
      → cutoff override now tier ≡ ok k
      → (pause override tier ≤ now) × (k ≡ now - pause override tier)
  cutoff-le tier h = ground arith

  cutoffs-le :
      (tier : SubscriptionTier) (cutoffs : Cutoffs)
      → cutoff_by_tier override now ≡ ok cutoffs
      → (pause override tier ≤ now) × (cutoffs tier ≡ now - pause override tier)
  unfolding cutoff_by_tier
  cutoffs-le free cutoffs h = cutoff-le free (all_ok _ _ _ cutoffs h).0
  cutoffs-le standard cutoffs h = cutoff-le standard (all_ok _ _ _ cutoffs h).1
  cutoffs-le premium cutoffs h = cutoff-le premium (all_ok _ _ _ cutoffs h).2

  -- Whether a clone's anchor and its tier's interval lie behind.
  abbrev lies_behind : Db → CloneProfile → Bool
  lies_behind db p = leb (anchor db p + pause override p.subscription_tier) now

  is_due-lies_behind :
      (cutoffs : Cutoffs) (db : Db) (p : CloneProfile)
      → cutoff_by_tier override now ≡ ok cutoffs
      → is_due cutoffs db p ≡ lies_behind db p
  unfolding is_due
  is_due-lies_behind cutoffs db p h =
      let (le, eq) = cutoffs-le p.subscription_tier cutoffs h in ground (arith, le, eq)

  select-lies_behind :
      (cutoffs : Cutoffs) (db : Db) (ps : List CloneProfile)
      → cutoff_by_tier override now ≡ ok cutoffs
      → select (is_due cutoffs db) ps ≡ select (lies_behind db) ps
  select-lies_behind cutoffs db [] h = refl
  select-lies_behind cutoffs db (p ∷ ps) h =
      rw (is_due-lies_behind cutoffs db p h, select-lies_behind cutoffs db ps h)

  due_of_cutoffs :
      (r : Result Cutoffs) (db : Db) {due : List CloneProfile}
      → cutoff_by_tier override now ≡ r
      → (r >>? λ cutoffs. ok (select (is_due cutoffs db) db.profiles)) ≡ ok due
      → due ≡ select (lies_behind db) db.profiles
  due_of_cutoffs (ok cutoffs) db h k = rw (← select-lies_behind cutoffs db db.profiles h) (cc k)
  due_of_cutoffs (err e) db h k = cc

  -- The due clones are exactly those whose last backup, or creation, lies at least the interval of
  -- their tier behind, in table order.
  find_due_clones-lies_behind :
      (db : Db) {due : List CloneProfile}
      → find_due_clones override now db ≡ ok due
      → due ≡ select (lies_behind db) db.profiles
  unfolding find_due_clones
  find_due_clones-lies_behind db h = due_of_cutoffs (cutoff_by_tier override now) db refl h

  cutoffs_total :
      ((t : SubscriptionTier) → pause override t ≤ now)
      → (cutoffs : Cutoffs) × (cutoff_by_tier override now ≡ ok cutoffs)
  unfolding cutoff_by_tier
  cutoffs_total h = (
    choose (now - pause override free) (now - pause override standard)
        (now - pause override premium),
    rw
        (
          le→leb (pause override free) now (h free),
          le→leb (pause override standard) now (h standard),
          le→leb (pause override premium) now (h premium),
        )
        refl,
  )

  -- The query is made whenever the clock shows at least each tier's interval.
  find_due_clones_total :
      (db : Db)
      → ((t : SubscriptionTier) → pause override t ≤ now)
      → find_due_clones override now db ≡ ok (select (lies_behind db) db.profiles)
  unfolding find_due_clones
  find_due_clones_total db h =
      let (cutoffs, e) = cutoffs_total h in
      rw e (ap ok (select-lies_behind cutoffs db db.profiles e))

last_end-append :
    (bs : List MemoryBackup) (b : MemoryBackup)
    → (t : ℕ) × (last_end (bs ++ b ∷ []) ≡ some t) × (b.period_end ≤ t)
unfolding last_end
last_end-append [] b = (b.period_end, refl, omega arith)
last_end-append (x ∷ bs) b =
    let (t, e, h) = last_end-append bs b in
    (if ltb t x.period_end then x.period_end else t, rw e refl, ground arith)

-- Once a backup of a clone that ends at `now` has been added, the clone is not due at any time
-- before its interval from `now` on has passed.
archived_not_due :
    (override : Option ℕ) (now later : ℕ) (db db' : Db) (p : CloneProfile) (row : MemoryBackup)
    → db'.backups ≡ db.backups ++ row ∷ []
    → row.clone_id ≡ p.id
    → row.period_end ≡ now
    → later < now + pause override p.subscription_tier
    → lies_behind override later db' p ≡ false
unfolding anchor backups_of
archived_not_due override now later db db' p row e c n h =
    let (t, last, le) = last_end-append (backups_of p.id db.backups) row in
    let mine : backups_of p.id db'.backups ≡ backups_of p.id db.backups ++ row ∷ [] =
      rw (e, select-append (λ b. b.clone_id == p.id) db.backups (row ∷ []), c, ==_self p.id) refl in
    rw (mine, last) (ground arith)

-- The time between two backups of a tier, in microseconds: the override in seconds, or 30 days, 7
-- days or a day.
abbrev pub wait : (override : Option ℕ) → SubscriptionTier → ℕ
wait (some seconds) tier = seconds * 1000000
wait none free = 30 * 86400000000
wait none standard = 7 * 86400000000
wait none premium = 86400000000

pause_lem :
    (override : Option ℕ) (tier : SubscriptionTier) → pause override tier ≡ wait override tier
unfolding interval policy_for
pause_lem none free = refl
pause_lem none standard = refl
pause_lem none premium = refl
pause_lem (some seconds) free = refl
pause_lem (some seconds) standard = refl
pause_lem (some seconds) premium = refl

-- Whether all backups of a clone end at least `k` before `now`, or else its creation lies as far
-- behind.
abbrev pub all_before : (k now : ℕ) → Db → CloneProfile → Bool
all_before k now db p =
    if any (λ b. b.clone_id == p.id) db.backups
    then all (λ b. not (b.clone_id == p.id) || leb (b.period_end + k) now) db.backups
    else leb (p.created_at + k) now

abbrev pub has_waited : (override : Option ℕ) (now : ℕ) → Db → CloneProfile → Bool
has_waited override now db p = all_before (wait override p.subscription_tier) now db p

module _ (q : MemoryBackup → Bool) (k now : ℕ) where
  -- The latest of the backups that satisfy a test.
  abbrev IsLatest : List MemoryBackup → Option ℕ → Type 0
  IsLatest bs none =
      (any q bs ≡ false) × (all (λ b. not (q b) || leb (b.period_end + k) now) bs ≡ true)
  IsLatest bs (some t) =
      (any q bs ≡ true) × (leb (t + k) now ≡ all (λ b. not (q b) || leb (b.period_end + k) now) bs)

  IsLatest-skip :
      (b : MemoryBackup) (bs : List MemoryBackup) (o : Option ℕ)
      → q b ≡ false
      → IsLatest bs o
      → IsLatest (b ∷ bs) o
  IsLatest-skip b bs none h (a, e) = (rw h a, rw h e)
  IsLatest-skip b bs (some t) h (a, e) = (rw h a, rw h e)

  IsLatest-add :
      (b : MemoryBackup) (bs : List MemoryBackup) (o : Option ℕ)
      → q b ≡ true
      → IsLatest bs o
      → IsLatest (b ∷ bs) (elim o [
        | none ↦ some b.period_end
        | some t ↦ some (if ltb t b.period_end then b.period_end else t)
      ])
  IsLatest-add b bs none h (a, e) = (rw h refl, rw (h, e) (ground arith))
  IsLatest-add b bs (some t) h (a, e) = (rw h refl, rw (h, ← e) (ground arith))

  last_end-IsLatest : (bs : List MemoryBackup) → IsLatest bs (last_end (select q bs))
  unfolding last_end
  last_end-IsLatest [] = (refl, refl)
  last_end-IsLatest (b ∷ bs) = elim (Bool-cases (q b)) [
    | inl e ↦ rw e (IsLatest-add b bs (last_end (select q bs)) e (last_end-IsLatest bs))
    | inr e ↦ rw e (IsLatest-skip b bs (last_end (select q bs)) e (last_end-IsLatest bs))
  ]

module _ (override : Option ℕ) (now : ℕ) where
  of_latest :
      (db : Db) (p : CloneProfile) (o : Option ℕ)
      → IsLatest (λ b. b.clone_id == p.id) (wait override p.subscription_tier) now db.backups o
      → leb (or_else o p.created_at + wait override p.subscription_tier) now
        ≡ has_waited override now db p
  of_latest db p none (a, e) = rw a refl
  of_latest db p (some t) (a, e) = rw (a, e) refl

  lies_behind-has_waited :
      (db : Db) (p : CloneProfile) → lies_behind override now db p ≡ has_waited override now db p
  unfolding anchor backups_of
  lies_behind-has_waited db p = rw (pause_lem override p.subscription_tier) (
      of_latest db p (last_end (select (λ b. b.clone_id == p.id) db.backups)) (
        last_end-IsLatest (λ b. b.clone_id == p.id) (wait override p.subscription_tier) now
          db.backups))

  count-has_waited :
      (q : CloneProfile → Bool) (db : Db) (ps : List CloneProfile)
      → length (select q (select (lies_behind override now db) ps))
        ≡ length (select (λ p. q p && has_waited override now db p) ps)
  count-has_waited q db [] = refl
  count-has_waited q db (p ∷ ps) =
      rw (lies_behind-has_waited db p) (ground (arith, count-has_waited q db ps))

  -- The due clones are exactly those of which every backup, or without one the creation, lies at
  -- least the interval of their tier behind, whatever the order of the answer: each is there as
  -- often as in the table.
  pub find_due_clones-has_waited :
      (db : Db) {due : List CloneProfile} (q : CloneProfile → Bool)
      → find_due_clones override now db ≡ ok due
      → length (select q due)
        ≡ length (select (λ p. q p && has_waited override now db p) db.profiles)
  find_due_clones-has_waited db q h =
      rw (find_due_clones-lies_behind override now db h) (count-has_waited q db db.profiles)
