-- ===== src/Storage/Setup.antt =====
-- Making sure that the bucket is there.
use mycelium_consciousness.Prelude.{
  Text, codes, true, false, ◌≡◌, ◌⊎◌, inl, inr, refl, ap, ◌∙◌, any, text_eq, text_eq_iff,
  Bool-cases,
}
use mycelium_consciousness.Effects.{client_error, Result, ok, err, handle}
use mycelium_consciousness.Services.{Services}
use mycelium_consciousness.Services.Laws.{BucketSetupLaws}
use mycelium_consciousness.Database.{World}
use mycelium_consciousness.Storage.{
  bucket_already_exists, unless_exists, create_if_missing, ensure_bucket,
}
use mycelium_consciousness.Storage.Calls.{SameTables}

taken :
    (code : Text)
    → any (text_eq code) bucket_already_exists ≡ true
    → (code ≡ codes "BucketAlreadyOwnedByYou") ⊎ (code ≡ codes "BucketAlreadyExists")
taken code h = elim (Bool-cases (text_eq code (codes "BucketAlreadyOwnedByYou"))) [
  | inl e ↦ inl ((text_eq_iff code (codes "BucketAlreadyOwnedByYou")).0 e)
  | inr e ↦ elim (Bool-cases (text_eq code (codes "BucketAlreadyExists"))) [
    | inl f ↦ inr ((text_eq_iff code (codes "BucketAlreadyExists")).0 f)
    | inr f ↦ let bad : false ≡ true = rw (e, f) at h in cc
  ]
]

module _ {s : Services} (laws : BucketSetupLaws s.bucket) where
  -- The bucket is there, or an exception has been raised; nothing else has changed.
  abbrev pub Ensures : World s → Result (Unit {0}) × World s → Type 0
  Ensures w (ok _, w') = (laws.exists w'.bucket ≡ true) × SameTables w w'
  Ensures w (err _, w') = SameTables w w'

  module _ (w v : World s) (same : SameTables w v) where
    abbrev created : World s
    created = record v { bucket = (s.bucket.create_bucket v.bucket).1 }

    after_create :
        (q : Result (Unit {0}))
        → (s.bucket.create_bucket v.bucket).0 ≡ q
        → Ensures w (handle q unless_exists created)
    after_create (ok tt) h = (laws.create_ok v.bucket h, same)
    after_create (err (client_error code)) h =
        elim (Bool-cases (any (text_eq code) bucket_already_exists)) [
          | inl e ↦ rw e (there (taken code e), same)
          | inr e ↦ rw e same
        ]
      where
        there :
            (code ≡ codes "BucketAlreadyOwnedByYou") ⊎ (code ≡ codes "BucketAlreadyExists")
            → laws.exists created.bucket ≡ true
        there (inl e) = laws.create_owned v.bucket (h ∙ ap (λ c. err (client_error c)) e)
        there (inr e) = laws.create_exists v.bucket (h ∙ ap (λ c. err (client_error c)) e)
    after_create (err x) h = same

  module _ (w : World s) where
    abbrev seen : World s
    seen = record w { bucket = (s.bucket.head_bucket w.bucket).1 }

    after_head :
        (q : Result (Unit {0}))
        → (s.bucket.head_bucket w.bucket).0 ≡ q
        → Ensures w (handle q create_if_missing seen)
    after_head (ok tt) h = (laws.head_ok w.bucket h, (refl, refl, refl))
    after_head (err (client_error code)) h = after_create w seen (refl, refl, refl) _ refl
    after_head (err x) h = (refl, refl, refl)

    pub ensure_bucket-Ensures : Ensures w (ensure_bucket w)
    unfolding ensure_bucket
    ensure_bucket-Ensures = after_head _ refl
