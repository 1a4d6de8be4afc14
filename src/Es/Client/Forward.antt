-- ===== src/Es/Client/Forward.antt =====
-- Steps of a service that move the world only forward, by an order on the worlds: one rule for each way
-- to build a step.
use tasques.Prelude.{Outcome, ok, err, Bool, true, false, if◌then◌else◌}
use tasques.Es.Common.{ServiceError}
use tasques.Es.Client.{Io, ◌>>=◌, continue, lift, run}

pub record Preorder (W : Type 0) : Type 1 where
  pub Later : W → W → Type 0
  pub stays : (w : W) → Later w w
  pub chain : {u v w : W} → Later u v → Later v w → Later u w

pub record Forward {W E A : Type 0} (o : Preorder W) (m : Io W E A) : Type 0 where
  pub at : (w : W) → o.Later w (m w).1

module _ {W E : Type 0} (o : Preorder W) where
  pub Forward-lift : {A : Type 0} (r : Outcome (ServiceError E) A) → Forward o (lift {W = W} r)
  Forward-lift r = record { at = λ w. o.stays w }

  pub Forward-run :
      {A : Type 0} (m : W → A × W) → ((w : W) → o.Later w (m w).1) → Forward o (run {E = E} m)
  Forward-run m h = record { at = h }

  continue-Later :
      {A B : Type 0} (r : Outcome (ServiceError E) A × W) (f : A → Io W E B) (w : W)
      → o.Later w r.1
      → ((a : A) → Forward o (f a))
      → o.Later w (continue r f).1
  continue-Later (ok a, v) f w h k = o.chain h ((k a).at v)
  continue-Later (err e, v) f w h k = h

  pub Forward-bind :
      {A B : Type 0} (m : Io W E A) (f : A → Io W E B)
      → Forward o m
      → ((a : A) → Forward o (f a))
      → Forward o (m >>= f)
  Forward-bind m f h k = record { at = λ w. continue-Later (m w) f w (h.at w) k }

  pub Forward-if :
      {A : Type 0} (b : Bool) (m n : Io W E A)
      → Forward o m
      → Forward o n
      → Forward o (if b then m else n)
  Forward-if true m n h k = h
  Forward-if false m n h k = k
