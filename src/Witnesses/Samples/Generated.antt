-- ===== src/Witnesses/Samples/Generated.antt =====
-- The ids that the sample redis gives.
use mycelium_consciousness.Prelude.{
  ℕ, suc, ◌≤◌, ◌<◌, Text, Bool, true, false, List, [], ◌∷◌, ◌≡◌, ◌⊎◌, inl, inr, refl, sym, ap, ◌∙◌,
  subst, arith, All, text_eq, text_eq_iff, Bool-cases,
}
use mathlib.Core.Path.{fun_ext}
use mycelium_consciousness.Services.{Item}
use mycelium_consciousness.Services.Ids.{id_text}
use mycelium_consciousness.Services.Laws.{AtMost, IdLaws}
use mycelium_consciousness.Witnesses.Samples.Stores.{
  Stored, entries_from, before-id_text, add, next, trim, put, put_same, put_other, redis, ok-eq,
}

le-cases : (m n : ℕ) → m ≤ n → (m < n) ⊎ (m ≡ n)
le-cases m n h = ground arith

AtMost-id_text : (m n : ℕ) → m ≤ n → AtMost (id_text 1 m) (id_text 1 n)
AtMost-id_text m n h = elim (le-cases m n h) [
  | inl l ↦ inl (before-id_text m n l)
  | inr e ↦ inr (ap (id_text 1) e)
]

le-next : (n : ℕ) (xs : Stored) → n ≤ next n xs
unfolding next
le-next n [] = omega arith
le-next n (x ∷ xs) = omega (arith, le-next (suc n) xs)

next-suc : (n : ℕ) (xs : Stored) → next (suc n) xs ≡ suc (next n xs)
unfolding next
next-suc n [] = refl
next-suc n (x ∷ xs) = next-suc (suc n) xs

next-add : (n : ℕ) (i : Item) (xs : Stored) → next n (add i xs) ≡ suc (next n xs)
unfolding next add
next-add n i [] = refl
next-add n i (x ∷ xs) = next-add (suc n) i xs

next-trim : (minid : Text) (m n : ℕ) (xs : Stored) → next n (trim minid m xs) ≡ next n xs
unfolding next trim
next-trim minid m n [] = refl
next-trim minid m n ((b, i) ∷ xs) = next-trim minid (suc m) (suc n) xs

bounded :
    (n : ℕ) (xs : Stored) → All (λ d. AtMost d.0 (id_text 1 (next n xs))) (entries_from (suc n) xs)
unfolding next
bounded n [] = tt
bounded n ((true, i) ∷ xs) = (AtMost-id_text (suc n) _ (le-next (suc n) xs), bounded (suc n) xs)
bounded n ((false, i) ∷ xs) = bounded (suc n) xs

abbrev last : (Text → Stored) → Text → Text
last s k = id_text 1 (next 0 (s k))

put-cases : (k j : Text) → (j ≡ k) ⊎ ((a : Stored) (f : Text → Stored) → put k a f j ≡ f j)
put-cases k j = elim (Bool-cases (text_eq j k)) [
  | inl h ↦ inl ((text_eq_iff j k).0 h)
  | inr h ↦ inr (λ a f. put_other k j a f (λ e. differs (text_eq_iff j k).1 h e))
]
  where
    differs : {b : Bool} → (j ≡ k → b ≡ true) → b ≡ false → j ≡ k → ⊥
    differs f h e = let t = f e in cc

grows :
    (k j : Text) (i : Item) (s : Text → Stored) → AtMost (last s j) (last (put k (add i (s k)) s) j)
grows k j i s = elim (put-cases k j) [
  | inl e ↦
      subst (λ l. AtMost (last s l) (last (put k (add i (s k)) s) l)) (sym e)
        (subst (λ xs. AtMost (last s k) (id_text 1 (next 0 xs))) (sym (put_same k (add i (s k)) s))
          (AtMost-id_text (next 0 (s k)) (next 0 (add i (s k)))
            (rw (next-add 0 i (s k)) (omega arith))))
  | inr h ↦ inr (ap (λ xs. id_text 1 (next 0 xs)) (sym (h (add i (s k)) s)))
]

kept :
    (k minid : Text) (s : Text → Stored) (j : Text)
    → last (put k (trim minid 1 (s k)) s) j ≡ last s j
kept k minid s j = elim (put-cases k j) [
  | inl e ↦
      ap (λ xs. id_text 1 (next 0 xs))
        (ap (put k (trim minid 1 (s k)) s) e ∙ put_same k (trim minid 1 (s k)) s)
      ∙ ap (id_text 1) (next-trim minid 1 0 (s k))
      ∙ ap (last s) (sym e)
  | inr h ↦ ap (λ xs. id_text 1 (next 0 xs)) (h (trim minid 1 (s k)) s)
]

pub redis_ids : (lossy : Bool) (keys : List Text) → IdLaws (redis lossy keys)
redis_ids lossy keys = record {
  last_generated = last;
  bounds = λ s k. bounded 0 (s k);
  xadd_above = λ k i s h.
      rw (ok-eq h, next-suc 0 (s k))
        (before-id_text (next 0 (s k)) (suc (next 0 (s k))) (omega arith));
  xadd_grows = grows;
  xrange_keeps = λ k s. refl;
  xlen_keeps = λ k s. refl;
  xtrim_keeps = λ k minid s. fun_ext (kept k minid s);
}
