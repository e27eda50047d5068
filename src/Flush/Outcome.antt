-- ===== src/Flush/Outcome.antt =====
-- What one flush does to a clone's memories, by how it ended.
use mycelium_consciousness.Prelude.{ℕ, List, [], ◌∷◌, Option, none, some, length, ◌≡◌, refl, arith}
use mycelium_consciousness.Effects.{Result, ok}
use mycelium_consciousness.Services.{Item, Codec}
use mycelium_consciousness.Services.Laws.{CodecLaws}
use mycelium_consciousness.Codec.{encode_payload}
use mycelium_consciousness.Codec.RoundTrip.{decode_payload-encode_payload}
use mycelium_consciousness.Models.{MemoryBuffer, payload}
use mycelium_consciousness.Database.{Db, get_buffer}
use mycelium_consciousness.Database.Buffers.{get_buffer-insert, get_buffer-update}
use mycelium_consciousness.Flush.{existing_items, write_buffer, revert_buffer}

-- The memories of a clone that the database buffers.
abbrev pub buffered : Codec → ℕ → Db → Result (List Item)
buffered c clone_id db = existing_items c (get_buffer clone_id db)

module _ (c : Codec) (laws : CodecLaws c) where
  -- A row that holds the encoding of some entries, with their number, reads back as these.
  payload-encoded :
      (b : MemoryBuffer) (xs : List Item)
      → b.payload_blob ≡ encode_payload c xs
      → b.entry_count ≡ length xs
      → payload c b ≡ ok xs
  unfolding payload
  payload-encoded b [] e n = ground arith
  payload-encoded b (x ∷ xs) e n = ground (arith, decode_payload-encode_payload c laws (x ∷ xs))

  module _ (clone_id : ℕ) (xs : List Item) (db : Db) {db' : Db} where
    pub revert_buffer-buffered :
        (b : MemoryBuffer)
        → get_buffer clone_id db ≡ some b
        → revert_buffer c clone_id xs db ≡ ok db'
        → buffered c clone_id db' ≡ ok xs
    unfolding revert_buffer existing_items
    revert_buffer-buffered b k h =
        rw (get_buffer-update clone_id (encode_payload c xs) (length xs) db b h k)
          (payload-encoded _ xs refl refl)

    pub write_buffer-row :
        (row : Option MemoryBuffer)
        → get_buffer clone_id db ≡ row
        → write_buffer c clone_id row xs db ≡ ok db'
        → (b : MemoryBuffer) × (get_buffer clone_id db' ≡ some b) × (payload c b ≡ ok xs)
    unfolding write_buffer
    write_buffer-row none k h = (
      record { clone_id = clone_id; payload_blob = encode_payload c xs; entry_count = length xs },
      get_buffer-insert _ db h k,
      payload-encoded _ xs refl refl,
    )
    write_buffer-row (some b) k h = (
      record b { payload_blob = encode_payload c xs; entry_count = length xs },
      get_buffer-update clone_id (encode_payload c xs) (length xs) db b h k,
      payload-encoded _ xs refl refl,
    )

  pub buffered-row :
      (clone_id : ℕ) (db : Db) (b : MemoryBuffer) {xs : List Item}
      → get_buffer clone_id db ≡ some b
      → payload c b ≡ ok xs
      → buffered c clone_id db ≡ ok xs
  unfolding existing_items
  buffered-row clone_id db b k p = rw k p
