-- ===== src/Shared/Text.antt =====
-- Go's `==` on strings, and `strings.Contains`.
use Prim.Native.String.{String, ◌++◌ as append}
use mathlib.Core.Logic.{ite, dite}
use mathlib.Core.Bool.{Bool, true, false, Bool-discrete}
use text.Mathlib.Text
use text.Mathlib.TextEquality.{eq_iff}
use go_cook.Shared.Tests.{is_some}

-- Shut in proofs, where a split on `s == t` yields the equation or its negation.
unfoldable pub String-discrete : Discrete String
String-discrete s t =
    dite (Bool-discrete (Text.◌==◌ s t) true) (λ same. yes ((eq_iff s t).0 same))
      (λ differ. no (λ p. differ ((eq_iff s t).1 p)))

infix 50 ◌==◌ ◌!=◌
abbrev pub ◌==◌ : String → String → Bool
s == t = ite (String-discrete s t) true false

abbrev pub ◌!=◌ : String → String → Bool
s != t = ite (String-discrete s t) false true

infixr 65 ◌<>◌
abbrev pub ◌<>◌ : String → String → String
s <> t = append s t

-- `strings.Contains(s, sub)`
unfoldable pub contains : String → String → Bool
contains s sub = is_some (Text.find? s sub)
