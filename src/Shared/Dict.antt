-- ===== src/Shared/Dict.antt =====
-- A Go map with string keys, as an association list without repeated keys. Its order stands for
-- one order in which `range` may visit the map.
use mathlib.Core.Path.{◌≡◌, refl, subst}
use mathlib.Core.Bool.{Bool}
use mathlib.Core.Option.{Option, none, some, some-injective}
use mathlib.Core.Logic.{if_pos, if_neg}
use mathlib.Core.List.{List, [], ◌∷◌}
use native.Mathlib.Omega.{arith}
use Prim.Native.String.{String}
use go_cook.Shared.Text.{◌==◌, String-discrete}
use go_cook.Shared.Tests.{if◌then◌else◌, is_some}

abbrev pub Dict {ℓ} : Type ℓ → Type ℓ
Dict V = List (String × V)

module _ {ℓ} {V : Type ℓ} where
  unfoldable pub lookup : String → Dict V → Option V
  lookup k [] = none
  lookup k ((j, v) ∷ d) = if j == k then some v else lookup k d

  unfoldable pub insert : String → V → Dict V → Dict V
  insert k v [] = (k, v) ∷ []
  insert k v ((j, w) ∷ d) = if j == k then (k, v) ∷ d else (j, w) ∷ insert k v d

  -- `_, exists := m[k]`
  abbrev pub has : String → Dict V → Bool
  has k d = is_some (lookup k d)

  pub lookup-insert :
      (k j : String) (v : V) (d : Dict V)
      → lookup j (insert k v d) ≡ (if k == j then some v else lookup j d)
  unfolding lookup insert
  lookup-insert k j v [] = refl
  lookup-insert k j v ((i, w) ∷ d) = ground (arith, lookup-insert k j v d)

  -- The next lemmas are about a predicate on all values.
  abbrev pub AllValues {κ} : (V → Type κ) → Dict V → Type κ
  AllValues P [] = Unit
  AllValues P ((_, v) ∷ d) = P v × AllValues P d

  pub insert-AllValues {κ} :
      (P : V → Type κ) (k : String) (v : V) (d : Dict V)
      → AllValues P d
      → P v
      → AllValues P (insert k v d)
  unfolding insert
  insert-AllValues P k v [] h pv = (pv, tt)
  insert-AllValues P k v ((j, w) ∷ d) h pv = elim (String-discrete j k) [
    | yes e ↦ rw (if_pos _ e) (pv, h.1)
    | no e ↦ rw (if_neg _ e) (h.0, insert-AllValues P k v d h.1 pv)
  ]

  pub lookup-AllValues {κ} :
      (P : V → Type κ) (k : String) (v : V) (d : Dict V) → AllValues P d → lookup k d ≡ some v → P v
  unfolding lookup
  lookup-AllValues P k v [] h e = absurd (cc)
  lookup-AllValues P k v ((j, w) ∷ d) h e = elim (String-discrete j k) [
    | yes q ↦ subst P (some-injective w v (rw (if_pos _ q) at e)) h.0
    | no q ↦ lookup-AllValues P k v d h.1 (rw (if_neg _ q) at e)
  ]

  -- What a predicate says of each name and the value that it leads to.
  abbrev pub AllAt {κ} : (String → V → Type κ) → Dict V → Type (ℓ ⊔ κ)
  AllAt P d = (k : String) (v : V) → lookup k d ≡ some v → P k v

  pub insert-AllAt {κ} :
      (P : String → V → Type κ) (k : String) (v : V) (d : Dict V)
      → P k v
      → AllAt P d
      → AllAt P (insert k v d)
  insert-AllAt P k v d own all j w at = elim (String-discrete k j) [
    | yes same ↦
        let found : some v ≡ some w = ground (arith, lookup-insert k j v d) in
        subst (λ i. P i w) same (subst (P k) (some-injective v w found) own)
    | no differ ↦ all j w (ground (arith, lookup-insert k j v d))
  ]
