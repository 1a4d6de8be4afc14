-- ===== src/Es/Client/Moves.antt =====
-- Steps that move the world only forward, whatever they return: one rule for each way to build a step.
use tasques.Prelude.{Outcome, ok, err, Bool-cases, inl, inr}
use tasques.Es.Common.{ServiceError}
use tasques.Es.Client.{Client, Io, ◌>>=◌, continue, lift, run, marshal}
use tasques.Es.Client.Laws.{Store, ClientLaws}

pub record Moves {W D E A : Type 0} (s : Store W D) (m : Io W E A) : Type 0 where
  pub at : (w : W) → s.Later w (m w).1

module _ {W D Q E : Type 0} (c : Client W D Q) (s : Store W D) (laws : ClientLaws c s) where
  pub Moves-lift : {A : Type 0} (r : Outcome (ServiceError E) A) → Moves s (lift {W = W} r)
  Moves-lift r = record { at = λ w. laws.later_refl w }

  pub Moves-run :
      {A : Type 0} (m : W → A × W) → ((w : W) → s.Later w (m w).1) → Moves s (run {E = E} m)
  Moves-run m h = record { at = h }

  pub Moves-marshal : (doc : D) → Moves s (marshal {E = E} c doc)
  unfolding marshal
  Moves-marshal doc = record {
    at = λ w. elim (Bool-cases (c.marshals doc)) [
      | inl b ↦ rw b (laws.later_refl w)
      | inr b ↦ rw b (laws.later_refl w)
    ];
  }

  continue-Later :
      {A B : Type 0} (r : Outcome (ServiceError E) A × W) (f : A → Io W E B) (w : W)
      → s.Later w r.1
      → ((a : A) → Moves s (f a))
      → s.Later w (continue r f).1
  continue-Later (ok a, v) f w h k = laws.later_trans h ((k a).at v)
  continue-Later (err e, v) f w h k = h

  pub Moves-bind :
      {A B : Type 0} (m : Io W E A) (f : A → Io W E B)
      → Moves s m
      → ((a : A) → Moves s (f a))
      → Moves s (m >>= f)
  Moves-bind m f h k = record { at = λ w. continue-Later (m w) f w (h.at w) k }
