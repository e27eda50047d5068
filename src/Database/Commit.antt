-- ===== src/Database/Commit.antt =====
-- A commit takes effect whole or not at all.
use mycelium_consciousness.Prelude.{true, false, ◌≡◌, arith}
use mycelium_consciousness.Effects.{Result, ok, err, integrity_error}
use mycelium_consciousness.Services.{Services}
use mycelium_consciousness.Database.{Db, World, commit, intact, lost, later}

module _ {s : Services} (f : Db → Result Db) (w : World s) where
  -- What a commit has done, by how it ended.
  abbrev pub Commits : Result (Unit {0}) × World s → Type 0
  Commits (ok _, w') =
      (f w.db ≡ ok w'.db)
      × (intact w'.db ≡ true)
      × (w'.outages ≡ later w.outages)
      × (w'.redis ≡ w.redis)
      × (w'.bucket ≡ w.bucket)
      × (w'.uuid_calls ≡ w.uuid_calls)
  Commits (err _, w') =
      (w'.db ≡ w.db)
      × (w'.outages ≡ later w.outages)
      × (w'.redis ≡ w.redis)
      × (w'.bucket ≡ w.bucket)
      × (w'.uuid_calls ≡ w.uuid_calls)

  pub commit-Commits : Commits (commit f w)
  unfolding commit
  commit-Commits = ground arith

  -- A commit with a connection, of statements that succeed and break no constraint.
  pub commit-eq-ok :
      {db' : Db}
      → lost w.outages ≡ false
      → f w.db ≡ ok db'
      → intact db' ≡ true
      → commit f w ≡ (ok tt, record w { db = db'; outages = later w.outages })
  unfolding commit
  commit-eq-ok l h i = rw (l, h, i)

  -- A commit that would break a constraint raises an IntegrityError and changes nothing.
  pub commit-eq-integrity_error :
      {db' : Db}
      → lost w.outages ≡ false
      → f w.db ≡ ok db'
      → intact db' ≡ false
      → commit f w ≡ (err integrity_error, record w { outages = later w.outages })
  unfolding commit
  commit-eq-integrity_error l h i = rw (l, h, i)
