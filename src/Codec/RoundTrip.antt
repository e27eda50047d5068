-- ===== src/Codec/RoundTrip.antt =====
-- Decoding what was encoded, and the size of what is stored.
use mycelium_consciousness.Prelude.{◌≡◌, ◌≤◌, List, some, take, length, text_eq_iff, arith}
use mycelium_consciousness.Services.{Item, Codec}
use mycelium_consciousness.Services.Laws.{gzip_magic, CodecLaws}
use mycelium_consciousness.Codec.{encode_payload, decode_payload}

module _ (c : Codec) (laws : CodecLaws c) where
  -- Whatever is encoded, compressed or not, decodes to the entries that were encoded.
  pub decode_payload-encode_payload :
      (xs : List Item) → decode_payload c (encode_payload c xs) ≡ some xs
  unfolding encode_payload decode_payload
  decode_payload-encode_payload xs = ground (
    arith,
    laws.unpackb-packb xs,
    laws.decompress-compress (c.packb xs),
    laws.take-compress (c.packb xs),
    laws.take-packb xs,
    text_eq_iff (take 2 (c.packb xs)) gzip_magic,
    text_eq_iff (take 2 (c.compress (c.packb xs))) gzip_magic,
  )

-- The stored bytes are never longer than the packed entries.
length-encode_payload-le :
    (c : Codec) (xs : List Item) → length (encode_payload c xs) ≤ length (c.packb xs)
unfolding encode_payload
length-encode_payload-le c xs = ground arith
