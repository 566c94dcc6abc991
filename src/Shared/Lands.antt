-- ===== src/Shared/Lands.antt =====
-- What holds of the state that a call leaves: rules for sequences of calls.
use Prim.Native.String.{String}
use go_cook.Shared.Errors.{wrap, Result, ok, err, Action, ◌>>=◌, wrapping}

-- One predicate for the state after a result, one for that after an error.
abbrev pub Lands : {A S : Type 0} → (S → Type 0) → (S → Type 0) → Result A × S → Type 0
Lands P Q (ok _, s) = P s
Lands P Q (err _, s) = Q s

module _ {S A B : Type 0} (P P' Q : S → Type 0) where
  then_Lands :
      (y : Result A × S) (k : A → Action S B)
      → Lands P Q y
      → ((a : A) (s : S) → P s → Lands P' Q (k a s))
      → Lands {A = B} P' Q (elim y.0 [ ok a ↦ k a y.1 | err e ↦ (err e, y.1) ])
  then_Lands (ok a, s) k h next = next a s h
  then_Lands (err e, s) k h next = h

  -- A sequence of two calls.
  pub Lands-bind :
      (m : Action S A) (k : A → Action S B) (r : S)
      → Lands P Q (m r)
      → ((a : A) (s : S) → P s → Lands P' Q (k a s))
      → Lands P' Q ((m >>= k) r)
  Lands-bind m k r h next = then_Lands (m r) k h next

-- Weaker predicates.
pub Lands-weaken :
    {A S : Type 0} (P P' Q Q' : S → Type 0) (y : Result A × S)
    → Lands P Q y
    → ((s : S) → P s → P' s)
    → ((s : S) → Q s → Q' s)
    → Lands P' Q' y
Lands-weaken P P' Q Q' (ok a, s) h f g = f s h
Lands-weaken P P' Q Q' (err e, s) h f g = g s h

wrapped_Lands :
    {A S : Type 0} (P Q : S → Type 0) (text : String) (y : Result A × S)
    → Lands P Q y
    → Lands {A = A} P Q (elim y.0 [ ok a ↦ (ok a, y.1) | err e ↦ (err (wrap text e), y.1) ])
wrapped_Lands P Q text (ok a, s) h = h
wrapped_Lands P Q text (err e, s) h = h

-- An error that gets a text in front.
pub Lands-wrapping :
    {A S : Type 0} (P Q : S → Type 0) (text : String) (m : Action S A) (r : S)
    → Lands P Q (m r)
    → Lands P Q (wrapping text m r)
Lands-wrapping P Q text m r h = wrapped_Lands P Q text (m r) h
