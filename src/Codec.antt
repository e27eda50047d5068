-- ===== src/Codec.antt =====
-- shared/src/shared/backup_codec.py
pub mod RoundTrip
use mycelium_consciousness.Prelude.{
  List, Option, none, some, take, length, ltb, text_eq, if◌then◌else◌,
}
use mycelium_consciousness.Services.{Bytes, Item, Codec}
use mycelium_consciousness.Services.Laws.{gzip_magic}

module _ (c : Codec) where
  unfoldable pub encode_payload : List Item → Bytes
  encode_payload entries =
      let packed = c.packb entries in
      let compressed = c.compress packed in
      if ltb (length compressed) (length packed) then compressed else packed

  abbrev and_unpack : Option Bytes → Option (List Item)
  and_unpack none = none
  and_unpack (some b) = c.unpackb b

  -- `none` is an exception of gzip or msgpack.
  unfoldable pub decode_payload : Bytes → Option (List Item)
  unfolding text_eq
  decode_payload b =
      if text_eq (take 2 b) gzip_magic then and_unpack (c.decompress b) else c.unpackb b
