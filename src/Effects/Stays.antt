-- ===== src/Effects/Stays.antt =====
-- Relations between the world before and after an action, whether it returns or raises, with one
-- rule for each way to build an action.
use mycelium_consciousness.Effects.{
  Error, Result, ok, err, Exec, pure, raise, gets, lift, continue, ◌>>=◌, handle, attempt,
}

pub record IsOrder {W : Type 0} (R : W → W → Type 0) : Type 0 where
  pub same : (w : W) → R w w
  pub then_by : (u v w : W) → R u v → R v w → R u w

-- `m` relates the world that it starts in to the one that it leaves.
pub record Stays {W A : Type 0} (R : W → W → Type 0) (m : Exec W A) : Type 0 where
  pub at : (w : W) → R w (m w).1

module _ {W : Type 0} {R : W → W → Type 0} (order : IsOrder R) where
  module _ {A : Type 0} where
    pub Stays-pure : (a : A) → Stays R (pure a)
    Stays-pure a = record { at = λ w. order.same w }

    pub Stays-raise : (e : Error) → Stays R (raise {A = A} e)
    Stays-raise e = record { at = λ w. order.same w }

    pub Stays-lift : (r : Result A) → Stays R (lift r)
    Stays-lift r = record { at = λ w. order.same w }

    pub Stays-gets : (f : W → A) → Stays R (gets f)
    Stays-gets f = record { at = λ w. order.same w }

    Stays-handle :
        (r : Result A) (h : Error → Exec W A) → ((e : Error) → Stays R (h e)) → Stays R (handle r h)
    Stays-handle (ok a) h k = Stays-pure a
    Stays-handle (err e) h k = k e

    pub Stays-attempt :
        (m : Exec W A) (h : Error → Exec W A)
        → Stays R m
        → ((e : Error) → Stays R (h e))
        → Stays R (attempt m h)
    Stays-attempt m h km kh = record {
      at = λ w. order.then_by w (m w).1 _ (km.at w) ((Stays-handle (m w).0 h kh).at (m w).1);
    }

  module _ {A B : Type 0} where
    Stays-continue :
        (r : Result A) (f : A → Exec W B) → ((a : A) → Stays R (f a)) → Stays R (continue r f)
    Stays-continue (ok a) f k = k a
    Stays-continue (err e) f k = record { at = λ w. order.same w }

    pub Stays-bind :
        (m : Exec W A) (f : A → Exec W B)
        → Stays R m
        → ((a : A) → Stays R (f a))
        → Stays R (m >>= f)
    Stays-bind m f km kf = record {
      at = λ w. order.then_by w (m w).1 _ (km.at w) ((Stays-continue (m w).0 f kf).at (m w).1);
    }
