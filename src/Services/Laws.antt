-- ===== src/Services/Laws.antt =====
-- What the code relies on in the services, as hypotheses of the theorems that need it.
use mycelium_consciousness.Prelude.{
  ℕ, ◌<◌, ◌≤◌, Text, codes, Bool, List, [], ◌∷◌, ◌++◌, none, some, ◌≡◌, ◌≢◌, ◌⊎◌, length, take, All,
  select, not, true,
}
use mycelium_consciousness.Effects.{Error, client_error, ok, err}
use mycelium_consciousness.Services.{
  Bytes, Item, aware, Redis, Bucket, Codec, Iso, Hasher, Claims, Jwt,
}
use mycelium_consciousness.Services.Ids.{IsId, before}

-- The first two bytes of every gzip member (RFC 1952).
abbrev pub gzip_magic : Bytes
gzip_magic = 0x1f ∷ 0x8b ∷ []

-- A msgpack array begins with another byte than 0x1f, which is a small integer.
pub record CodecLaws (c : Codec) : Type 0 where
  pub unpackb-packb : (xs : List Item) → c.unpackb (c.packb xs) ≡ some xs
  pub decompress-compress : (b : Bytes) → c.decompress (c.compress b) ≡ some b
  pub take-compress : (b : Bytes) → take 2 (c.compress b) ≡ gzip_magic
  pub take-packb : (xs : List Item) → take 2 (c.packb xs) ≢ gzip_magic

pub record IsoLaws (i : Iso) : Type 0 where
  pub fromisoformat-isoformat : (t : ℕ) → i.fromisoformat (i.isoformat (aware t)) ≡ some (aware t)

-- The entries of a stream have ids, and each id is greater than those before it.
abbrev pub Increasing : List (Text × Item) → Type 0
Increasing [] = Unit
Increasing (e ∷ es) = IsId e.0 × All (λ d. before e.0 d.0 ≡ true) es × Increasing es

-- A successful call has the documented effect on its stream and none on another; a read changes
-- nothing, whether it succeeds or not; a failed call touches no other stream.
pub record RedisLaws (r : Redis) : Type 0 where
  pub increasing : (s : r.State) (k : Text) → Increasing (r.entries s k)
  pub xrange_reads : (k : Text) (s : r.State) → r.entries (r.xrange k s).1 ≡ r.entries s
  pub xrange_ok :
      (k : Text) (s : r.State) {es : List (Text × Item)}
      → (r.xrange k s).0 ≡ ok es
      → es ≡ r.entries s k
  pub xlen_reads : (k : Text) (s : r.State) → r.entries (r.xlen k s).1 ≡ r.entries s
  pub xlen_ok :
      (k : Text) (s : r.State) {n : ℕ} → (r.xlen k s).0 ≡ ok n → n ≡ length (r.entries s k)
  pub scan_reads : (p : Text) (s : r.State) → r.entries (r.scan_iter p s).1 ≡ r.entries s
  pub xadd_ok :
      (k : Text) (i : Item) (s : r.State) {id : Text}
      → (r.xadd k i s).0 ≡ ok id
      → r.entries (r.xadd k i s).1 k ≡ r.entries s k ++ (id, i) ∷ []
  pub xadd_others :
      (k j : Text) (i : Item) (s : r.State) → j ≢ k → r.entries (r.xadd k i s).1 j ≡ r.entries s j
  pub xtrim_ok :
      (k minid : Text) (s : r.State)
      → (r.xtrim k minid s).0 ≡ ok tt
      → r.entries (r.xtrim k minid s).1 k ≡ select (λ e. not (before e.0 minid)) (r.entries s k)
  pub xtrim_others :
      (k j minid : Text) (s : r.State) → j ≢ k → r.entries (r.xtrim k minid s).1 j ≡ r.entries s j

-- A trim that raises has removed nothing. Redis promises this of an error reply, and not of a
-- reply that was lost.
pub record TrimFailsCleanly (r : Redis) : Type 0 where
  pub unchanged :
      (k minid : Text) (s : r.State) {e : Error}
      → (r.xtrim k minid s).0 ≡ err e
      → r.entries (r.xtrim k minid s).1 ≡ r.entries s

-- An add that raises has added nothing, in the same sense.
pub record AddFailsCleanly (r : Redis) : Type 0 where
  pub unchanged :
      (k : Text) (i : Item) (s : r.State) {e : Error}
      → (r.xadd k i s).0 ≡ err e
      → r.entries (r.xadd k i s).1 ≡ r.entries s

-- `a` is `b`, or an id before it.
abbrev pub AtMost : Text → Text → Type 0
AtMost a b = (before a b ≡ true) ⊎ (a ≡ b)

-- Redis keeps the id that it has last given at a key, also when the entry is gone, and an XADD gives
-- a greater one. No other call changes it.
pub record IdLaws (r : Redis) : Type 0 where
  pub last_generated : r.State → Text → Text
  pub bounds : (s : r.State) (k : Text) → All (λ e. AtMost e.0 (last_generated s k)) (r.entries s k)
  pub xadd_above :
      (k : Text) (i : Item) (s : r.State) {id : Text}
      → (r.xadd k i s).0 ≡ ok id
      → before (last_generated s k) id ≡ true
  pub xadd_grows :
      (k j : Text) (i : Item) (s : r.State)
      → AtMost (last_generated s j) (last_generated (r.xadd k i s).1 j)
  pub xrange_keeps : (k : Text) (s : r.State) → last_generated (r.xrange k s).1 ≡ last_generated s
  pub xlen_keeps : (k : Text) (s : r.State) → last_generated (r.xlen k s).1 ≡ last_generated s
  pub xtrim_keeps :
      (k minid : Text) (s : r.State) → last_generated (r.xtrim k minid s).1 ≡ last_generated s

-- A successful call has the documented effect on its object, a failed `put_object` or
-- `delete_object` may have had it, and no call touches another object.
pub record BucketLaws (b : Bucket) : Type 0 where
  pub put_ok :
      (k : Text) (d : Bytes) (s : b.State)
      → (b.put_object k d s).0 ≡ ok tt
      → b.object (b.put_object k d s).1 k ≡ some d
  pub put_others :
      (k j : Text) (d : Bytes) (s : b.State)
      → j ≢ k
      → b.object (b.put_object k d s).1 j ≡ b.object s j
  pub get_reads : (k : Text) (s : b.State) → b.object (b.get_object k s).1 ≡ b.object s
  pub get_ok :
      (k : Text) (s : b.State) {d : Bytes} → (b.get_object k s).0 ≡ ok d → b.object s k ≡ some d
  pub delete_ok :
      (k : Text) (s : b.State)
      → (b.delete_object k s).0 ≡ ok tt
      → b.object (b.delete_object k s).1 k ≡ none
  pub delete_others :
      (k j : Text) (s : b.State) → j ≢ k → b.object (b.delete_object k s).1 j ≡ b.object s j

-- What a successful call says of the bucket itself, and a refusal to create one that is there.
pub record BucketSetupLaws (b : Bucket) : Type 0 where
  pub exists : b.State → Bool
  pub head_ok : (s : b.State) → (b.head_bucket s).0 ≡ ok tt → exists (b.head_bucket s).1 ≡ true
  pub create_ok :
      (s : b.State) → (b.create_bucket s).0 ≡ ok tt → exists (b.create_bucket s).1 ≡ true
  pub create_owned :
      (s : b.State)
      → (b.create_bucket s).0 ≡ err (client_error (codes "BucketAlreadyOwnedByYou"))
      → exists (b.create_bucket s).1 ≡ true
  pub create_exists :
      (s : b.State)
      → (b.create_bucket s).0 ≡ err (client_error (codes "BucketAlreadyExists"))
      → exists (b.create_bucket s).1 ≡ true

-- A hash verifies its password, and no other one.
pub record HasherLaws (h : Hasher) : Type 0 where
  pub verify-hash : (salt : ℕ) (p : Text) → h.verify (h.hash salt p) p ≡ some true
  pub verify-hash_ne : (salt : ℕ) (p q : Text) → p ≢ q → h.verify (h.hash salt p) q ≢ some true

-- A token decodes to its claims from the time it was issued until it expires, and not after.
pub record JwtLaws (j : Jwt) : Type 0 where
  pub decode-encode :
      (now : ℕ) (c : Claims) → c.iat ≤ now → now < c.exp → j.decode now (j.encode c) ≡ some c
  pub decode_expired : (now : ℕ) (c : Claims) → c.exp ≤ now → j.decode now (j.encode c) ≡ none
