-- ===== src/Witnesses/Flushes.antt =====
-- The theorems on streams, payloads and flushes, applied.
use mycelium_consciousness.Prelude.{
  text_eq, Text, true, false, List, [], ◌∷◌, some, ◌≡◌, refl, int_of, split, str_of,
}
use mycelium_consciousness.Effects.{ok, err, redis_error}
use mycelium_consciousness.Services.{Item}
use mycelium_consciousness.Services.Ids.{id_text, before, position}
use mycelium_consciousness.Codec.{encode_payload, decode_payload}
use mycelium_consciousness.Codec.RoundTrip.{decode_payload-encode_payload}
use mycelium_consciousness.Streams.{stream_key, next_id, read_all, trim_up_to}
use mycelium_consciousness.Streams.Calls.{stream}
use mycelium_consciousness.Database.{intact, commit, distinct, distinct_texts}
use mycelium_consciousness.Models.{payload}
use mycelium_consciousness.Flush.{
  existing_items, write_buffer, save_and_trim, revert, flush_one_stream, flush_entries,
}
use mycelium_consciousness.Flush.Outcome.{buffered}
use mycelium_consciousness.Flush.Moves.{Flushed, flush_one_stream-Flushed}
use mycelium_consciousness.Flush.Races.{flush_race, flushed_world, flush_loses}
use mycelium_consciousness.Witnesses.Samples.Formats.{unpack, codec, codec_laws, iso_text}
use mycelium_consciousness.Witnesses.Samples.Stores.{put, add, next, trim}
use mycelium_consciousness.Witnesses.Samples.Tables.{memory, world, laws, clean, streams}

abbrev two : List Item
two = memory 2 ∷ memory 3 ∷ []

decode_payload-encode_payload_example : decode_payload codec (encode_payload codec two) ≡ some two
decode_payload-encode_payload_example = decode_payload-encode_payload codec codec_laws two

flush_one_stream-Flushed_example :
    Flushed codec_laws
      (laws false)
      clean
      7
      (memory 1 ∷ [])
      (world false)
      (flush_one_stream 7 (world false))
unfolding existing_items payload decode_payload unpack iso_text str_of
flush_one_stream-Flushed_example =
    flush_one_stream-Flushed codec_laws (laws false) clean 7 (memory 1 ∷ []) (world false) refl refl

abbrev rest : List (Text × Item)
rest = (id_text 1 2, memory 3) ∷ []

flush_race_example :
    buffered codec 7
      (flush_entries 7 ((id_text 1 1, memory 2) ∷ rest) (
        flushed_world codec_laws
          (laws false)
          7
          clean
          (memory 1 ∷ [])
          (id_text 1 1, memory 2)
          rest
          (world false))).1.db
    ≡ ok (memory 1 ∷ memory 2 ∷ memory 3 ∷ memory 2 ∷ memory 3 ∷ [])
unfolding existing_items payload decode_payload unpack read_all flush_one_stream flush_entries
    commit save_and_trim trim_up_to next_id intact write_buffer text_eq put stream_key revert
    iso_text str_of streams distinct distinct_texts split int_of encode_payload
flush_race_example =
    flush_race codec_laws (laws false) 7 clean (memory 1 ∷ []) (id_text 1 1, memory 2) rest
      (world false) refl refl refl refl refl

flush_loses_example :
    let (r, w') = flush_entries 7 ((id_text 1 1, memory 2) ∷ rest) (world true) in
    (r ≡ err redis_error)
    × (buffered codec 7 w'.db ≡ ok (memory 1 ∷ []))
    × (stream (laws true) 7 w' ≡ [])
unfolding existing_items payload decode_payload unpack commit next_id intact write_buffer text_eq
    put stream_key add next trim before iso_text str_of distinct distinct_texts split int_of streams
    position
flush_loses_example =
    flush_loses codec_laws (laws true) 7 (memory 1 ∷ []) (id_text 1 1, memory 2) rest (world true)
      refl refl refl refl refl refl refl refl
