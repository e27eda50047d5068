-- ===== src/Storage/Keys.antt =====
-- The keys of backups name their clones, and what the calls of the bucket change.
use mycelium_consciousness.Prelude.{
  ℕ, Text, [], ◌∷◌, ◌++◌, ◌≡◌, refl, ap, sym, ◌∙◌, arith, str_of, str_of-all, str_of-injective, all,
  is_digit, true, if◌then◌else◌,
}
use mycelium_consciousness.Storage.{key_text}

-- The digits that a text begins with.
leading : Text → Text
leading [] = []
leading (c ∷ s) = let rest = leading s in if is_digit c then c ∷ rest else []

leading-append : (s t : Text) → all is_digit s ≡ true → leading (s ++ b'/' ∷ t) ≡ s
unfolding leading
leading-append [] t h = refl
leading-append (c ∷ s) t h = ground (arith, leading-append s t)

after_prefix : Text → Text
after_prefix (_ ∷ _ ∷ _ ∷ _ ∷ _ ∷ _ ∷ s) = s
after_prefix s = s

clone_of-key_text :
    (c : ℕ) (start end hex : Text) → leading (after_prefix (key_text c start end hex)) ≡ str_of c
unfolding after_prefix key_text
clone_of-key_text c start end hex = leading-append (str_of c) _ (str_of-all c)

-- Backups of different clones never share an object, whatever their periods and uuids.
key_text-clone : (a b : ℕ) (s e h s' e' h' : Text) → key_text a s e h ≡ key_text b s' e' h' → a ≡ b
key_text-clone a b s e h s' e' h' p = str_of-injective a b (
    sym (clone_of-key_text a s e h)
    ∙ ap (λ k. leading (after_prefix k)) p
    ∙ clone_of-key_text b s' e' h')
