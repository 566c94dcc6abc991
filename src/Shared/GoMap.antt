-- ===== src/Shared/GoMap.antt =====
-- A Go map as what a dictionary is up to the order in which `range` visits it.
use mathlib.Core.Path.{◌≡◌, refl, ◌∙◌}
use mathlib.Core.Bool.{false}
use mathlib.Core.List.{[], ◌∷◌, Permᴰ}
use mathlib.Core.Quot.{Quot}
use native.Mathlib.Omega.{arith}
use Prim.Native.String.{String}
use go_cook.Shared.Dict.{Dict, lookup, has}

module _ {V : Type 0} where
  abbrev pub SameEntries : Dict V → Dict V → Type 0
  SameEntries d d' = (k : String) → lookup k d ≡ lookup k d'

  -- The keys are not repeated.
  abbrev pub Distinct : Dict V → Type 0
  Distinct [] = Unit {0}
  Distinct ((k, _) ∷ d) = (has k d ≡ false) × Distinct d

  has-perm : (k : String) {d d' : Dict V} → Permᴰ d d' → has k d ≡ has k d'
  unfolding lookup
  has-perm k Permᴰ.nil = refl
  has-perm k (Permᴰ.cons e p) = ground (arith, has-perm k p, e)
  has-perm k (Permᴰ.swap e f) = ground (arith, e, f)
  has-perm k (Permᴰ.trans p q) = has-perm k p ∙ has-perm k q

  pub Distinct-perm : {d d' : Dict V} → Permᴰ d d' → Distinct d → Distinct d'
  unfolding lookup
  Distinct-perm Permᴰ.nil h = tt
  Distinct-perm (Permᴰ.cons {b = b} e p) h =
      (ground (arith, has-perm b.0 p, h.0, e), Distinct-perm p h.1)
  Distinct-perm (Permᴰ.swap e f) h =
      (ground (arith, h.0, h.1.0, e, f), (ground (arith, h.0, h.1.0, e, f), h.1.1))
  Distinct-perm (Permᴰ.trans p q) h = Distinct-perm q (Distinct-perm p h)

  -- Every order of a map has the same entries.
  pub perm-SameEntries : {d d' : Dict V} → Permᴰ d d' → Distinct d → SameEntries d d'
  unfolding lookup
  perm-SameEntries Permᴰ.nil h k = refl
  perm-SameEntries (Permᴰ.cons e p) h k = ground (arith, perm-SameEntries p h.1 k, e)
  perm-SameEntries (Permᴰ.swap e f) h k = ground (arith, h.0, e, f)
  perm-SameEntries (Permᴰ.trans p q) h k =
      perm-SameEntries p h k ∙ perm-SameEntries q (Distinct-perm p h) k

-- The map that a dictionary stands for.
abbrev pub GoMap : Type 0 → Type 0
GoMap V = Quot (SameEntries {V = V})
