-- ===== src/Witnesses/Systems.antt =====
-- The theorems on the whole program, applied.
use mycelium_consciousness.Prelude.Integers.{natural_of}
use mycelium_consciousness.Auth.{decode_access_token}
use mycelium_consciousness.Codec.{decode_payload}
use mycelium_consciousness.Models.{payload}
use mycelium_consciousness.Prelude.{
  Text, codes, false, [], ◌∷◌, ◌++◌, none, some, ◌≡◌, true, refl, ap, ◌∙◌, any, ◌==◌, length,
  text_eq, int_of, str_of,
}
use mycelium_consciousness.Effects.{ok}
use mycelium_consciousness.Database.{World, intact, profile_ids, distinct, distinct_texts}
use mycelium_consciousness.System.Writes.{write_me-Enters}
use mycelium_consciousness.System.Constraints.{IsStored, Reach-flushes}
use mycelium_consciousness.Deps.{unauthorized, get_current_user}
use mycelium_consciousness.Subscriptions.{admin}
use mycelium_consciousness.Memories.{MemoryWriteRequest}
use mycelium_consciousness.Admin.{force_rollup_clone}
use mycelium_consciousness.Rollup.{rollup_clone, prune_stale_backups}
use mycelium_consciousness.Rollup.Pruning.{Prunes, prune_stale_backups-Prunes}
use mycelium_consciousness.Rollup.Whole.{Rolls, rollup_clone-Rolls}
use mycelium_consciousness.Flush.{flush_one_stream, existing_items}
use mycelium_consciousness.Flush.Moves.{streamed}
use mycelium_consciousness.Api.{
  Context, for_clone, for_admin, write_me, status_me, deactivate, handle,
}
use mycelium_consciousness.Api.Guards.{
  not_authenticated, insufficient, handle-NotAuthenticated, handle-Insufficient, caller,
}
use mycelium_consciousness.Api.Untouched.{Untouched, handle-Untouched}
use mycelium_consciousness.Api.Confined.{moves_memories}
use mycelium_consciousness.System.{Reach, start, write, flush, force_rollup, accepted, taken_out}
use mycelium_consciousness.System.History.{Holds, Reach-Holds}
use mycelium_consciousness.Witnesses.Samples.Formats.{
  codec_laws, jwt, iso_text, read_claims, unpack,
}
use mycelium_consciousness.Witnesses.Samples.Stores.{bucket_laws, redis_adds, redis_answers}
use mycelium_consciousness.Witnesses.Samples.Tables.{
  services, world, laws, clean, profile, memory, alice,
}
use mycelium_consciousness.Streams.{stream_key}

abbrev pub context : Context (services false)
context = record {
  debug = false;
  ttl_minutes = 60;
  maxlen = 3;
  now = 5;
  salt = 3;
  normalize = λ e. some e;
  answered = λ id. force_rollup_clone 2000000 id;
}

abbrev pub alice_token : Text
alice_token = jwt.encode (record { sub = some (codes "1"); role = []; iat = 0; exp = 3600 })

abbrev pub note : MemoryWriteRequest
note = record { content = codes " a walk "; captured_at = none }

-- Alice writes a memory, her stream is flushed, and her buffer is rolled up.
abbrev written : World (services false)
written = (handle context (for_clone (some alice_token) (write_me note)) (world false)).1

abbrev flushed : World (services false)
flushed = (flush_one_stream 7 written).1

abbrev rolled_up : World (services false)
rolled_up = (rollup_clone profile 2000000 flushed).1

abbrev history :
    Reach 7
      (world false)
      rolled_up
      (accepted 7 context (some alice_token) note (world false))
      (taken_out 7 flushed rolled_up)
history = force_rollup profile 2000000 (flush 7 (write context (some alice_token) note start))

Reach-Holds_example :
    Holds codec_laws
      (laws false)
      bucket_laws
      clean
      (redis_adds false (stream_key 7 ∷ []))
      7
      ((memory 1 ∷ streamed codec_laws (laws false) clean 7 (world false))
        ++ accepted 7 context (some alice_token) note (world false))
      (taken_out 7 flushed rolled_up)
      rolled_up
unfolding existing_items payload decode_payload unpack iso_text str_of
Reach-Holds_example =
    Reach-Holds codec_laws (laws false) bucket_laws clean (redis_adds false (stream_key 7 ∷ [])) 7
      (world false) (memory 1 ∷ []) refl refl rolled_up
      (accepted 7 context (some alice_token) note (world false)) (taken_out 7 flushed rolled_up)
      history

handle-NotAuthenticated_example :
    handle context (for_clone none status_me) (world false) ≡ (not_authenticated, world false)
unfolding caller get_current_user
handle-NotAuthenticated_example =
    handle-NotAuthenticated context (world false) (for_clone none status_me) unauthorized refl

handle-Insufficient_example :
    handle context (for_admin (some alice_token) (deactivate 2)) (world false)
    ≡ (insufficient, world false)
unfolding caller get_current_user decode_access_token read_claims int_of natural_of
handle-Insufficient_example =
    handle-Insufficient context (world false) (for_admin (some alice_token) (deactivate 2)) alice
      admin refl refl refl

handle-Untouched_example :
    Untouched
      (world false)
      (handle context (for_clone (some alice_token) status_me) (world false)).1
unfolding moves_memories
handle-Untouched_example =
    handle-Untouched (laws false) bucket_laws context (for_clone (some alice_token) status_me)
      (world false) refl

prune_stale_backups-Prunes_example :
    Prunes bucket_laws 7 (world false) (prune_stale_backups 7 (world false))
prune_stale_backups-Prunes_example = prune_stale_backups-Prunes bucket_laws 7 (world false)

rollup_clone-Rolls_example :
    Rolls bucket_laws profile 2000000 (world false) (rollup_clone profile 2000000 (world false))
rollup_clone-Rolls_example = rollup_clone-Rolls bucket_laws profile 2000000 (world false)

-- Alice's profile is still there when she has written.
written-known : any (λ k. k == 7) (profile_ids written.db) ≡ true
unfolding profile_ids
written-known =
    ap (λ db. any (λ k. k == 7) (profile_ids db))
      (write_me-Enters (laws false) (redis_adds false (stream_key 7 ∷ [])) 7 context
        (some alice_token) note (world false)).0
    ∙ refl

Reach-flushes_example :
    ((flush_one_stream 7 written).0
      ≡ ok (record {
        clone_id = 7;
        flushed = length (streamed codec_laws (laws false) clean 7 written);
      }))
    × IsStored codec_laws
        (laws false)
        bucket_laws
        clean
        (redis_adds false (stream_key 7 ∷ []))
        (redis_answers (stream_key 7 ∷ []))
        7
        ((memory 1 ∷ streamed codec_laws (laws false) clean 7 (world false))
          ++ accepted 7 context (some alice_token) note (world false))
        []
        (flush_one_stream 7 written).1
unfolding intact distinct distinct_texts text_eq existing_items payload decode_payload unpack
    iso_text str_of
Reach-flushes_example =
    Reach-flushes codec_laws (laws false) bucket_laws clean (redis_adds false (stream_key 7 ∷ []))
      (redis_answers (stream_key 7 ∷ [])) 7 (world false) (memory 1 ∷ []) refl refl refl written
      (accepted 7 context (some alice_token) note (world false)) []
      (write context (some alice_token) note start) written-known
