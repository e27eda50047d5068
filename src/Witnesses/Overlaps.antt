-- ===== src/Witnesses/Overlaps.antt =====
-- The theorems on flushes that overlap, applied.
use mycelium_consciousness.Prelude.Integers.{natural_of}
use mycelium_consciousness.Auth.{decode_access_token}
use mycelium_consciousness.Deps.{own_profile}
use mycelium_consciousness.Profiles.{read_own_profile}
use mycelium_consciousness.Memories.{record_memory, send_flush, valid_write, write_memory}
use mycelium_consciousness.Prelude.{
  Text, false, List, [], ◌∷◌, ◌++◌, some, ◌≡◌, ◌⊎◌, refl, text_eq, int_of, split, str_of,
}
use mathlib.Core.List.{Memᴰ}
use mycelium_consciousness.Effects.{ok, err, redis_error}
use mycelium_consciousness.Flush.Reverts.{next_world, revert_race}
use mycelium_consciousness.Witnesses.Samples.Strict.{
  strict_services, strict_world, strict_laws, strict_clean,
}
use mycelium_consciousness.Services.{Item}
use mycelium_consciousness.Services.Ids.{id_text, before, position}
use mycelium_consciousness.Codec.{decode_payload, encode_payload}
use mycelium_consciousness.Models.{payload}
use mycelium_consciousness.Database.{World, intact, commit, distinct, distinct_texts}
use mycelium_consciousness.Streams.{stream_key, next_id, read_all, trim_up_to, append_memory}
use mycelium_consciousness.Streams.Calls.{stream}
use mycelium_consciousness.Flush.{
  existing_items, new_items, write_buffer, flush_entries, flush_one_stream, save_and_trim,
}
use mycelium_consciousness.Flush.Outcome.{buffered}
use mycelium_consciousness.Flush.Segments.{save_entries, trim_or_revert}
use mycelium_consciousness.System.Interleaved.{
  Runs, Task, has_read, has_saved, start, write, read, save, finish,
}
use mycelium_consciousness.System.AtLeastOnce.{Runs-Keeps}
use mycelium_consciousness.System.{accepted}
use mycelium_consciousness.Api.{handle, for_clone, write_me, handle_clone, respond}
use mycelium_consciousness.Witnesses.Samples.Formats.{
  codec, codec_laws, unpack, iso_text, read_claims,
}
use mycelium_consciousness.Witnesses.Samples.Stores.{put, bucket_laws, redis_adds, add, trim}
use mycelium_consciousness.Witnesses.Samples.Generated.{redis_ids}
use mycelium_consciousness.Witnesses.Samples.Tables.{services, world, laws, memory, streams}
use mycelium_consciousness.Witnesses.Systems.{context, alice_token, note}

abbrev first_entry : Text × Item
first_entry = (id_text 1 1, memory 2)

abbrev other_entries : List (Text × Item)
other_entries = (id_text 1 2, memory 3) ∷ []

-- Two flushes of the clone have read; Alice writes; the first flush saves, then the second, which
-- trims.
abbrev both_read : World (services false)
both_read = (read_all 7 (read_all 7 (world false)).1).1

abbrev noted : World (services false)
noted = (handle context (for_clone (some alice_token) (write_me note)) both_read).1

abbrev both_saved : World (services false)
both_saved =
    (save_entries 7 first_entry other_entries (save_entries 7 first_entry other_entries noted).1).1

abbrev trimmed : World (services false)
trimmed =
    (trim_or_revert 7 first_entry other_entries (memory 1 ∷ memory 2 ∷ memory 3 ∷ []) both_saved).1

abbrev once_saved : Task
once_saved = has_saved 7 first_entry other_entries (memory 1 ∷ [])

overlap :
    Runs 7
      (world false)
      trimmed
      (once_saved ∷ [])
      (accepted 7 context (some alice_token) note both_read)
      []
unfolding read_all streams text_eq stream_key str_of commit existing_items payload save_entries
    decode_payload unpack write_buffer intact distinct distinct_texts trim_up_to next_id split
    int_of put trim_or_revert handle respond handle_clone write_memory read_own_profile own_profile
    decode_access_token read_claims valid_write record_memory append_memory add send_flush iso_text
    encode_payload natural_of
overlap =
    finish (once_saved ∷ []) [] 7 first_entry other_entries (memory 1 ∷ memory 2 ∷ memory 3 ∷ [])
      (record { clone_id = 7; flushed = 2 }) refl
      (save (once_saved ∷ []) [] 7 first_entry other_entries (
        save [] (has_read 7 (first_entry ∷ other_entries) ∷ []) 7 first_entry other_entries
          (write context (some alice_token) note (read 7 (read 7 start)))))

Runs-Keeps_example :
    (b : List Item) × (buffered codec 7 trimmed.db ≡ ok b)
    × ((i : Item)
        → Memᴰ i (
            (memory 1 ∷ new_items (stream (laws false) 7 (world false)))
            ++ accepted 7 context (some alice_token) note both_read)
        → Memᴰ i b ⊎ Memᴰ i (new_items (stream (laws false) 7 trimmed)))
unfolding existing_items payload decode_payload unpack iso_text str_of
Runs-Keeps_example =
    Runs-Keeps codec_laws (laws false) (redis_ids false (stream_key 7 ∷ [])) bucket_laws
      (redis_adds false (stream_key 7 ∷ [])) 7 (world false) (memory 1 ∷ []) refl trimmed
      (once_saved ∷ []) (accepted 7 context (some alice_token) note both_read) [] overlap

-- A flush saves, another one runs, and the first finds nothing to trim.
abbrev overtaken : World strict_services
overtaken =
    next_world codec_laws strict_laws strict_clean 7 (memory 1 ∷ []) first_entry other_entries
      strict_world

revert_race_example :
    let (q, w') = trim_or_revert 7 first_entry other_entries (memory 1 ∷ []) overtaken in
    (buffered codec 7 overtaken.db ≡ ok (memory 1 ∷ memory 2 ∷ memory 3 ∷ memory 2 ∷ memory 3 ∷ []))
    × (q ≡ err redis_error)
    × (buffered codec 7 w'.db ≡ ok (memory 1 ∷ []))
    × (stream strict_laws 7 w' ≡ [])
unfolding read_all streams text_eq stream_key str_of commit existing_items payload save_entries
    decode_payload unpack write_buffer intact distinct distinct_texts trim_up_to next_id split
    int_of put trim_or_revert iso_text flush_one_stream flush_entries encode_payload save_and_trim
    before position trim
revert_race_example =
    revert_race codec_laws strict_laws strict_clean 7 (memory 1 ∷ []) first_entry other_entries
      strict_world refl refl refl refl refl refl refl
