-- ===== src/Streams/Keys.antt =====
-- The keys of the clones' streams, and the clones that are read back from them.
use mycelium_consciousness.Prelude.{
  ℕ, List, [], ◌∷◌, map, ◌≡◌, refl, ap, ◌∙◌, sym, str_of, int_of-str_of, str_of-injective,
}
use mycelium_consciousness.Effects.{ok}
use mycelium_consciousness.Streams.{stream_key, stream_key_prefix, remove_prefix, clone_ids}

remove_prefix-stream_key : (c : ℕ) → remove_prefix stream_key_prefix (stream_key c) ≡ str_of c
unfolding remove_prefix stream_key
remove_prefix-stream_key c = refl

-- Different clones have different streams.
pub stream_key-injective : (a b : ℕ) → stream_key a ≡ stream_key b → a ≡ b
stream_key-injective a b e = str_of-injective a b (
    sym (remove_prefix-stream_key a)
    ∙ ap (remove_prefix stream_key_prefix) e
    ∙ remove_prefix-stream_key b)

-- From the keys of any clones' streams, `active_clone_ids` reads back those clones.
clone_ids-stream_key : (cs : List ℕ) → clone_ids (map stream_key cs) ≡ ok cs
unfolding clone_ids
clone_ids-stream_key [] = refl
clone_ids-stream_key (c ∷ cs) =
    rw (remove_prefix-stream_key c, int_of-str_of c, clone_ids-stream_key cs)
