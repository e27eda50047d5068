-- ===== src/Storage/Calls.antt =====
-- What the calls of the bucket change.
use mycelium_consciousness.Prelude.{ℕ, suc, Text, ◌≡◌, ◌≢◌, refl, ap, sym, ◌∙◌, Option, none, some}
use mycelium_consciousness.Effects.{Result, ok, err}
use mycelium_consciousness.Services.{Services, Bytes, Datetime}
use mycelium_consciousness.Services.Laws.{BucketLaws}
use mycelium_consciousness.Database.{World}
use mycelium_consciousness.Storage.{put_object, get_object, delete_object, backup_key, key_text}

-- Two worlds that differ in the bucket alone, or in the uuids drawn.
abbrev pub SameTables : {s : Services} → World s → World s → Type 0
SameTables w w' = (w'.db ≡ w.db) × (w'.redis ≡ w.redis) × (w'.outages ≡ w.outages)

module _ {s : Services} (laws : BucketLaws s.bucket) where
  -- The object at a key of the bucket.
  abbrev pub object_at : Text → World s → Option Bytes
  object_at k w = s.bucket.object w.bucket k

  abbrev pub Puts : Text → Bytes → World s → Result (Unit {0}) × World s → Type 0
  Puts k d w (ok _, w') = (object_at k w' ≡ some d) × SameTables w w'
  Puts k d w (err _, w') = SameTables w w'

  put_reply :
      (k : Text) (d : Bytes) (w : World s) (r : Result (Unit {0}) × s.bucket.State)
      → s.bucket.put_object k d w.bucket ≡ r
      → Puts k d w (r.0, record w { bucket = r.1 })
  put_reply k d w (ok u, st) h = (
    ap (λ r. s.bucket.object r.1 k) (sym h) ∙ laws.put_ok k d w.bucket (ap (λ r. r.0) h),
    (refl, refl, refl),
  )
  put_reply k d w (err x, st) h = (refl, refl, refl)

  pub put_object-Puts : (k : Text) (d : Bytes) (w : World s) → Puts k d w (put_object k d w)
  unfolding put_object
  put_object-Puts k d w = put_reply k d w _ refl

  pub put_object-tables : (k : Text) (d : Bytes) (w : World s) → SameTables w (put_object k d w).1
  unfolding put_object
  put_object-tables k d w = (refl, refl, refl)

  abbrev pub Gets : Text → World s → Result Bytes × World s → Type 0
  Gets k w (r, w') =
      ((d : Bytes) → r ≡ ok d → object_at k w ≡ some d)
      × ((j : Text) → object_at j w' ≡ object_at j w)
      × SameTables w w'

  pub get_object-Gets : (k : Text) (w : World s) → Gets k w (get_object k w)
  unfolding get_object
  get_object-Gets k w = (
    λ d h. laws.get_ok k w.bucket h,
    λ j. ap (λ f. f j) (laws.get_reads k w.bucket),
    (refl, refl, refl),
  )

  abbrev pub Deletes : Text → World s → Result (Unit {0}) × World s → Type 0
  Deletes k w (r, w') =
      (r ≡ ok tt → object_at k w' ≡ none)
      × ((j : Text) → j ≢ k → object_at j w' ≡ object_at j w)
      × SameTables w w'

  pub delete_object-Deletes : (k : Text) (w : World s) → Deletes k w (delete_object k w)
  unfolding delete_object
  delete_object-Deletes k w = (
    λ h. laws.delete_ok k w.bucket h,
    λ j ne. laws.delete_others k j w.bucket ne,
    (refl, refl, refl),
  )

pub backup_key_lem :
    {s : Services} (c : ℕ) (start end : Datetime) (w : World s)
    → backup_key c start end w ≡ (
      ok (key_text c (s.iso.stamp start) (s.iso.stamp end) (s.uuid_hex8 w.uuid_calls)),
      record w { uuid_calls = suc w.uuid_calls },
    )
unfolding backup_key
backup_key_lem c start end w = refl
