-- ===== src/Memories/Resurrect.antt =====
-- Which backup a resurrection copies.
use mycelium_consciousness.Prelude.{
  other_than, ℕ, List, [], ◌∷◌, some, ◌≡◌, ◌≢◌, ap, ◌∙◌, arith, ◌==◌, text_eq_iff, Bool-cases, inl,
  inr,
}
use mycelium_consciousness.Effects.{Error, ok, err}
use mycelium_consciousness.Effects.Binds.{>>?-eq-ok}
use mycelium_consciousness.Models.{CloneProfile, MemoryBackup, active_status}
use mycelium_consciousness.Database.{Db, get_profile}
use mycelium_consciousness.Deps.{or_error}
use mycelium_consciousness.Deps.Guards.{or_error-eq-ok}
use mycelium_consciousness.Rollup.{backups_of, latest_first}
use mycelium_consciousness.Memories.{resurrection_source, no_source, no_backup, first, if_inactive}

first-eq-some :
    (bs : List MemoryBackup) {b : MemoryBackup}
    → first bs ≡ some b
    → (rest : List MemoryBackup) × (bs ≡ b ∷ rest)
first-eq-some [] h = cc
first-eq-some (x ∷ bs) h = (bs, ground arith)

inactive-eq-ok :
    (p : CloneProfile) {q : CloneProfile}
    → if_inactive p ≡ ok q
    → (p ≡ q) × (p.status ≢ active_status)
inactive-eq-ok p h = (
  ground (arith, text_eq_iff p.status active_status),
  ground (arith, text_eq_iff p.status active_status),
)

ok_err : {e : Error} {b : MemoryBackup} → err e ≡ ok b → ⊥
ok_err h = cc

-- The backup that a resurrection copies is the latest of another clone than the caller's, which is
-- in the tables and not active.
pub resurrection_source-ok :
    (source_profile_id : ℕ) (profile : CloneProfile) (db : Db) {b : MemoryBackup}
    → resurrection_source source_profile_id profile db ≡ ok b
    → (source_profile_id ≢ profile.id)
      × ((source : CloneProfile) × (get_profile source_profile_id db ≡ some source)
          × (source.status ≢ active_status)
          × ((rest : List MemoryBackup) × (latest_first (backups_of source.id db.backups)
                ≡ b ∷ rest)))
unfolding resurrection_source
resurrection_source-ok source_profile_id profile db h =
    elim (Bool-cases (source_profile_id == profile.id)) [
      | inl e ↦ elim (ok_err (rw e at h)) [ ]
      | inr e ↦
          let (source, found, h1) =
            >>?-eq-ok (or_error no_source (get_profile source_profile_id db)) _ (rw e at h) in
          let (p, inactive, h2) = >>?-eq-ok (if_inactive source) _ h1 in
          let (same, off) = inactive-eq-ok source inactive in
          let (rest, latest) =
            first-eq-some (latest_first (backups_of p.id db.backups))
              (or_error-eq-ok no_backup _ h2) in
          (
            other_than source_profile_id profile.id e,
            (
              source,
              or_error-eq-ok no_source _ found,
              off,
              (rest, ap (λ q. latest_first (backups_of q.id db.backups)) same ∙ latest),
            ),
          )
    ]
