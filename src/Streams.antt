-- ===== src/Streams.antt =====
-- shared/src/shared/streams.py
pub mod Trim
pub mod Keys
pub mod Calls
use mycelium_consciousness.Prelude.{
  ℕ, ◌+◌, Text, codes, Bool, List, [], ◌∷◌, ◌++◌, Option, none, some, split, strip_prefix, str_of,
  int_of,
}
use mycelium_consciousness.Effects.{Result, ok, err, Exec, pure, lift, ◌>>=◌, ◌>>◌, value_error}
use mycelium_consciousness.Services.{Services, Item}
use mycelium_consciousness.Database.{World, Action}

abbrev pub stream_key_prefix : Text
stream_key_prefix = codes "clone-stream:"

unfoldable pub stream_key : ℕ → Text
stream_key clone_id = stream_key_prefix ++ str_of clone_id

abbrev or_value_error {ℓ} : {A : Type ℓ} → Option A → Result A
or_value_error none = err value_error
or_value_error (some a) = ok a

abbrev bump : Text → Option ℕ → Result Text
bump ms none = err value_error
bump ms (some seq) = ok (ms ++ (codes "-" ++ str_of (seq + 1)))

abbrev bump_parts : List Text → Result Text
bump_parts (ms ∷ seq ∷ []) = bump ms (int_of seq)
bump_parts _ = err value_error

-- The first two lines of `trim_up_to`: the least id above an entry's.
unfoldable pub next_id : Text → Result Text
next_id last_entry_id = bump_parts (split b'-' last_entry_id)

abbrev or_whole : Text → Option Text → Text
or_whole key none = key
or_whole key (some rest) = rest

-- `key.removeprefix(prefix)`
unfoldable pub remove_prefix : Text → Text → Text
unfolding strip_prefix
remove_prefix prefix key = or_whole key (strip_prefix prefix key)

module _ {s : Services} where
  -- A call of the redis client.
  abbrev redis : {A : Type 0} → (s.redis.State → Result A × s.redis.State) → Action s A
  redis f w = let (r, st) = f w.redis in (r, record w { redis = st })

  unfoldable pub append_memory : ℕ → Item → Action s (Text × ℕ)
  append_memory clone_id fields = do
    entry_id ← redis (s.redis.xadd (stream_key clone_id) fields)
    length ← redis (s.redis.xlen (stream_key clone_id))
    pure (entry_id, length)

  unfoldable pub read_all : ℕ → Action s (List (Text × Item))
  read_all clone_id = redis (s.redis.xrange (stream_key clone_id))

  unfoldable pub trim_up_to : ℕ → Text → Action s (Unit {0})
  trim_up_to clone_id last_entry_id = do
    minid ← lift (next_id last_entry_id)
    redis (s.redis.xtrim (stream_key clone_id) minid)

  unfoldable pub stream_length : ℕ → Action s ℕ
  stream_length clone_id = redis (s.redis.xlen (stream_key clone_id))

-- `int(key.removeprefix(STREAM_KEY_PREFIX))` of each key
abbrev then_ids : ℕ → Result (List ℕ) → Result (List ℕ)
then_ids n (ok ns) = ok (n ∷ ns)
then_ids n (err e) = err e

abbrev with_id : Option ℕ → Result (List ℕ) → Result (List ℕ)
with_id none rest = err value_error
with_id (some n) rest = then_ids n rest

pub clone_ids : List Text → Result (List ℕ)
clone_ids [] = ok []
clone_ids (key ∷ keys) = with_id (int_of (remove_prefix stream_key_prefix key)) (clone_ids keys)

module _ {s : Services} where
  pub active_clone_ids : Action s (List ℕ)
  active_clone_ids = do keys ← redis (s.redis.scan_iter stream_key_prefix); lift (clone_ids keys)
