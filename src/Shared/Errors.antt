-- ===== src/Shared/Errors.antt =====
-- Go's `error` values, results, and a monad of state and errors for methods on shared objects.
use Prim.Native.String.{String}
use mathlib.Core.Path.{◌≡◌, refl}
use mathlib.Core.Logic.{◌⊎◌, inl, inr}
use mathlib.Core.Bool.{Bool, true, false}
use mathlib.Core.Option.{Option, none, some}
use go_cook.Shared.Text.{◌==◌, ◌<>◌}

-- `sentinel` is a package-level error variable, known by its name; `new` is `errors.New` or
-- `fmt.Errorf` without `%w`; `wrap text e` is `fmt.Errorf` with `%w` at its end.
pub data Error : Type 0 where
  sentinel : String → Error
  new : String → Error
  wrap : String → Error → Error

-- `err.Error()`
unfoldable pub message : Error → String
message (sentinel name) = name
message (new text) = text
message (wrap text e) = text <> message e

-- `errors.Is(err, target)` for a sentinel target
unfoldable pub is_error : Error → String → Bool
is_error (sentinel name) target = name == target
is_error (new text) target = false
is_error (wrap text e) target = is_error e target

pub data Result {ℓ} (A : Type ℓ) : Type ℓ where
  ok : A → Result A
  err : Error → Result A

pub Result-cases : (x : Result (Unit {0})) → (x ≡ ok tt) ⊎ ((e : Error) × (x ≡ err e))
Result-cases (ok _) = inl refl
Result-cases (err e) = inr (e, refl)

pub Result-split {ℓ} :
    {A : Type ℓ} (x : Result A) → ((a : A) × (x ≡ ok a)) ⊎ ((e : Error) × (x ≡ err e))
Result-split (ok a) = inl (a, refl)
Result-split (err e) = inr (e, refl)

-- The `error` result of a call that returns nothing else; `none` is `nil`.
abbrev pub to_result : Option Error → Result (Unit {0})
to_result none = ok tt
to_result (some e) = err e

abbrev pub Action : Type 0 → Type 0 → Type 0
Action S A = S → Result A × S

abbrev pub pure : {S A : Type 0} → A → Action S A
pure a s = (ok a, s)

abbrev pub fail : {S A : Type 0} → Error → Action S A
fail e s = (err e, s)

infixl 5 ◌>>=◌ ◌>>◌
abbrev pub ◌>>=◌ : {S A B : Type 0} → Action S A → (A → Action S B) → Action S B
◌>>=◌ m f s = let (r, t) = m s in elim r [ ok a ↦ f a t | err e ↦ (err e, t) ]

abbrev pub ◌>>◌ : {S A B : Type 0} → Action S A → Action S B → Action S B
m >> k = m >>= λ _. k

abbrev pub gets : {S A : Type 0} → (S → A) → Action S A
gets f s = (ok (f s), s)

abbrev pub modify : {S : Type 0} → (S → S) → Action S (Unit {0})
modify f s = (ok tt, f s)

-- `if b { m } else { k }`
abbrev pub branch : {S A : Type 0} → Bool → Action S A → Action S A → Action S A
branch true m k s = m s
branch false m k s = k s

-- A call whose error the code drops.
abbrev pub ignore : {S A : Type 0} → Action S A → Action S (Unit {0})
ignore m s = (ok tt, (m s).1)

-- `if err := m; err != nil { return fmt.Errorf(text + "%w", err) }`
abbrev pub wrapping : {S A : Type 0} → String → Action S A → Action S A
wrapping text m s = let (r, t) = m s in elim r [ ok a ↦ (ok a, t) | err e ↦ (err (wrap text e), t) ]

abbrev pub from_result : {S A : Type 0} → Result A → Action S A
from_result r s = (r, s)

-- A call that may panic.
pub data Call (A : Type 0) : Type 0 where
  panics : Call A
  returns : A → Call A
