-- ===== src/Storage.antt =====
-- shared/src/shared/object_storage.py
pub mod Keys
pub mod Calls
pub mod Setup
use mycelium_consciousness.Prelude.{
  ℕ, suc, Text, codes, Bool, List, [], ◌∷◌, ◌++◌, Option, none, some, any, text_eq, str_of,
  if◌then◌else◌,
}
use mycelium_consciousness.Effects.{
  Error, client_error, Result, ok, err, Exec, pure, raise, attempt, ◌>>=◌,
}
use mycelium_consciousness.Services.{Services, Bytes, Datetime}
use mycelium_consciousness.Database.{World, Action}

abbrev pub bucket_already_exists : List Text
bucket_already_exists = codes "BucketAlreadyOwnedByYou" ∷ codes "BucketAlreadyExists" ∷ []

-- `obj["Key"] for obj in page.get("Contents", [])`, over all pages
unfoldable page_keys : List (Option (List Text)) → List Text
page_keys [] = []
page_keys (none ∷ pages) = page_keys pages
page_keys (some keys ∷ pages) = keys ++ page_keys pages

-- The f-string of `backup_key`.
unfoldable pub key_text : ℕ → (start end hex : Text) → Text
key_text clone_id start end hex =
    codes "clone-"
    ++ (str_of clone_id
        ++ (codes "/" ++ (start ++ (codes "_" ++ (end ++ (codes "-" ++ (hex ++ codes ".mp.gz")))))))

module _ {s : Services} where
  -- A call of the S3 client, in a thread.
  abbrev bucket : {A : Type 0} → (s.bucket.State → Result A × s.bucket.State) → Action s A
  bucket f w = let (r, st) = f w.bucket in (r, record w { bucket = st })

  -- The inner `except ClientError`.
  abbrev pub unless_exists : Error → Action s (Unit {0})
  unless_exists (client_error code) =
      if any (text_eq code) bucket_already_exists then pure tt else raise (client_error code)
  unless_exists e = raise e

  -- The outer `except ClientError`.
  abbrev pub create_if_missing : Error → Action s (Unit {0})
  create_if_missing (client_error code) = attempt (bucket s.bucket.create_bucket) unless_exists
  create_if_missing e = raise e

  pub ensure_bucket : Action s (Unit {0})
  unfolding text_eq
  ensure_bucket = attempt (bucket s.bucket.head_bucket) create_if_missing

  unfoldable pub put_object : Text → Bytes → Action s (Unit {0})
  put_object key d = bucket (s.bucket.put_object key d)

  unfoldable pub get_object : Text → Action s Bytes
  get_object key = bucket (s.bucket.get_object key)

  pub delete_object : Text → Action s (Unit {0})
  delete_object key = bucket (s.bucket.delete_object key)

  list_keys : Text → Action s (List Text)
  list_keys prefix = do pages ← bucket (s.bucket.list_pages prefix); pure (page_keys pages)

  -- Each call draws a new uuid.
  unfoldable pub backup_key : ℕ → Datetime → Datetime → Action s Text
  backup_key clone_id start end w = (
    ok (key_text clone_id (s.iso.stamp start) (s.iso.stamp end) (s.uuid_hex8 w.uuid_calls)),
    record w { uuid_calls = suc w.uuid_calls },
  )
