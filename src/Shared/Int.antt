-- ===== src/Shared/Int.antt =====
-- Go's signed integers over the native numbers: `int`, `int32` and `int64` are ranges of ℤ.
use Prim.Native.Nat.{ℕ, ◌+◌, ◌-◌, ◌*◌, ◌/◌, ◌%◌, ◌^◌, ◌<◌}
use mathlib.Core.Path.{◌≡◌, subst}
use mathlib.Core.Logic.{◌≢◌, ◌⊎◌, inl, inr}
use mathlib.Core.Bool.{Bool, false}
use native.Mathlib.Omega.{arith}
use Prim.Native.String.{String}
use go_cook.Shared.Text.{◌<>◌}
use go_cook.Shared.Format.{print}
use go_cook.Shared.Tests.{ltb, leb, if◌then◌else◌, Bool-cases}

-- `negsuc n` is -(n + 1).
pub data ℤ : Type 0 where
  pos : ℕ → ℤ
  negsuc : ℕ → ℤ

abbrev pub pos_part : ℤ → ℕ
pos_part (pos n) = n
pos_part (negsuc n) = 0

-- `0 < z`
abbrev pub is_positive : ℤ → Bool
is_positive (pos n) = ltb 0 n
is_positive (negsuc n) = false

-- `z == 0`
abbrev pub is_zero : ℤ → Bool
is_zero (pos n) = leb n 0
is_zero (negsuc n) = false

-- `z * k` for a positive constant `k`
abbrev pub scale : ℤ → ℕ → ℤ
scale (pos n) k = pos (n * k)
scale (negsuc n) k = negsuc ((n + 1) * k - 1)

abbrev pub two_63 : ℕ
two_63 = 2 ^ 63

abbrev pub two_64 : ℕ
two_64 = 2 ^ 64

-- The residue modulo 2^64, as a bit pattern.
abbrev pub bits64 : ℤ → ℕ
bits64 (pos n) = n % two_64
bits64 (negsuc n) = two_64 - 1 - n % two_64

-- The `int64` with a given bit pattern.
abbrev pub of_bits64 : ℕ → ℤ
of_bits64 b = if ltb b two_63 then pos b else negsuc (two_64 - 1 - b)

-- The wrap-around of `int64` arithmetic.
unfoldable pub wrap64 : ℤ → ℤ
wrap64 z = of_bits64 (bits64 z)

-- The values of `int64`.
abbrev pub InInt64 : ℤ → Type 0
InInt64 (pos n) = n < two_63
InInt64 (negsuc n) = n < two_63

pub wrap64_exact : (z : ℤ) → InInt64 z → wrap64 z ≡ z
unfolding wrap64
wrap64_exact (pos n) h = ground arith
wrap64_exact (negsuc n) h = ground arith

pub wrap64-InInt64 : (z : ℤ) → InInt64 (wrap64 z)
unfolding wrap64
wrap64-InInt64 (pos n) = ground arith
wrap64-InInt64 (negsuc n) = ground arith

-- `z + n`
abbrev pub plus : ℤ → ℕ → ℤ
plus (pos m) n = pos (m + n)
plus (negsuc m) n = if ltb m n then pos (n - m - 1) else negsuc (m - n)

-- Two numbers that differ by a multiple of 2^64.
abbrev pub SameMod64 : ℤ → ℤ → Type 0
SameMod64 a b = (k : ℕ) × ((plus a (k * two_64) ≡ b) ⊎ (plus b (k * two_64) ≡ a))

pub wrap64-SameMod64 : (z : ℤ) → SameMod64 (wrap64 z) z
unfolding wrap64
wrap64-SameMod64 (pos n) = elim (Bool-cases (ltb (n % two_64) two_63)) [
  | inl h ↦ (n / two_64, inl ground arith)
  | inr h ↦ (n / two_64 + 1, inl ground arith)
]
wrap64-SameMod64 (negsuc n) = elim (Bool-cases (ltb (two_64 - 1 - n % two_64) two_63)) [
  | inl h ↦ (n / two_64 + 1, inr ground arith)
  | inr h ↦ (n / two_64, inr ground arith)
]

-- `time.Duration(n) * unit`, both `int64` (a `Duration` counts nanoseconds)
unfoldable pub duration : ℤ → ℕ → ℤ
unfolding wrap64
duration n unit = wrap64 (scale n unit)

-- Whether a number fits 64 bits.
InInt64-cases : (z : ℤ) → (InInt64 z) ⊎ (¬ InInt64 z)
InInt64-cases (pos n) = elim (Bool-cases (ltb n two_63)) [
  | inl h ↦ inl (ground arith)
  | inr h ↦ inr (λ k. ground arith)
]
InInt64-cases (negsuc n) = elim (Bool-cases (ltb n two_63)) [
  | inl h ↦ inl (ground arith)
  | inr h ↦ inr (λ k. ground arith)
]

-- A `Duration` for `z` units: it fits 64 bits, differs from the count of nanoseconds by a multiple of
-- 2^64, and is that count exactly if the count fits.
abbrev pub Counts : ℤ → ℤ → ℕ → Type 0
Counts d z unit =
    InInt64 d
    × SameMod64 d (scale z unit)
    × ((InInt64 (scale z unit) × (d ≡ scale z unit))
        ⊎ ((¬ InInt64 (scale z unit)) × (d ≢ scale z unit)))

pub duration-Counts : (z : ℤ) (unit : ℕ) → Counts (duration z unit) z unit
unfolding duration
duration-Counts z unit =
    let n = scale z unit in
    let fits = wrap64-InInt64 n in
    (
      fits,
      wrap64-SameMod64 n,
      elim (InInt64-cases n) [
        | inl h ↦ inl (h, wrap64_exact n h)
        | inr h ↦ inr (h, λ q. h (subst InInt64 q fits))
      ],
    )

abbrev pub millisecond : ℕ
millisecond = 1_000_000

abbrev pub second : ℕ
second = 1_000_000_000

abbrev pub minute : ℕ
minute = 60_000_000_000

-- The verb `%d` on a signed number.
abbrev pub show_int : ℤ → String
show_int (pos n) = print n
show_int (negsuc n) = "-" <> print (n + 1)
