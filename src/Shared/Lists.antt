-- ===== src/Shared/Lists.antt =====
-- Lists measured by native numbers, membership as a test, and a predicate on all items.
use Prim.Native.Nat.{ℕ, suc}
use Prim.Native.String.{String}
use mathlib.Core.Bool.{Bool, false, ◌||◌}
use mathlib.Core.List.{List, [], ◌∷◌}
use mathlib.Core.Path.{◌≡◌, subst}
use mathlib.Core.Bool.{true}
use native.Mathlib.Omega.{arith}
use go_cook.Shared.Text.{◌==◌, String-discrete}

module _ {ℓ} {A : Type ℓ} where
  abbrev pub length : List A → ℕ
  length [] = 0
  length (x ∷ xs) = suc (length xs)

abbrev pub All {ℓ κ} : {A : Type ℓ} → (A → Type κ) → List A → Type κ
All P [] = Unit
All P (x ∷ xs) = P x × All P xs

-- What follows from a predicate on all items.
pub All-weaken {ℓ κ} :
    {A : Type ℓ} (P Q : A → Type κ) → ((x : A) → P x → Q x) → (xs : List A) → All P xs → All Q xs
All-weaken P Q f [] h = tt
All-weaken P Q f (x ∷ xs) h = (f x h.0, All-weaken P Q f xs h.1)

abbrev pub member : String → List String → Bool
member k [] = false
member k (x ∷ xs) = x == k || member k xs

-- What holds of all names holds of each that is among them.
pub member-All :
    (P : String → Type 0) (key : String) (names : List String)
    → member key names ≡ true
    → All P names
    → P key
member-All P key [] h all = absurd (cc)
member-All P key (name ∷ names) h all = elim (String-discrete name key) [
  | yes e ↦ subst P e all.0
  | no n ↦ member-All P key names (ground arith) all.1
]
