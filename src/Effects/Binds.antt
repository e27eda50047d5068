-- ===== src/Effects/Binds.antt =====
-- How a bind ends.
use mycelium_consciousness.Prelude.{◌≡◌, refl}
use mycelium_consciousness.Effects.{Error, Result, ok, err, Exec, continue, ◌>>=◌, ◌>>?◌}

module _ {ℓ} {W A B : Type 0} (P : Result B × W → Type ℓ) (f : A → Exec W B) where
  continue-ends :
      (q p : Result A × W)
      → q ≡ p
      → ((e : Error) (w' : W) → q ≡ (err e, w') → P (err e, w'))
      → ((a : A) (w' : W) → q ≡ (ok a, w') → P (f a w'))
      → P (continue p.0 f p.1)
  continue-ends q (ok a, w') h raised returned = returned a w' h
  continue-ends q (err e, w') h raised returned = raised e w' h

  -- A bind raises what its first part raises, or ends as the rest does.
  bind-ends :
      (m : Exec W A) (w : W)
      → ((e : Error) (w' : W) → m w ≡ (err e, w') → P (err e, w'))
      → ((a : A) (w' : W) → m w ≡ (ok a, w') → P (f a w'))
      → P ((m >>= f) w)
  bind-ends m w = continue-ends (m w) (m w) refl

  -- The same, where the first part is a pure computation.
  pub lift-ends :
      (r : Result A) (w : W)
      → ((e : Error) → r ≡ err e → P (err e, w))
      → ((a : A) → r ≡ ok a → P (f a w))
      → P (continue r f w)
  lift-ends (ok a) w raised returned = returned a refl
  lift-ends (err e) w raised returned = raised e refl

-- A pure chain that ends well has ended well at each step.
pub >>?-eq-ok :
    {A B : Type 0} (m : Result A) (f : A → Result B) {b : B}
    → (m >>? f) ≡ ok b
    → (a : A) × (m ≡ ok a) × (f a ≡ ok b)
>>?-eq-ok (ok a) f h = (a, refl, h)
>>?-eq-ok (err e) f h = cc
