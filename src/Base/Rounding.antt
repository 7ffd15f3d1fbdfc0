-- ===== src/Base/Rounding.antt =====
-- The rounding macros of source/include/lib/utility.h on 64-bit values.
use Prim.Native.Nat.{ℕ, ◌+◌, ◌*◌, ◌/◌, ◌%◌, ◌^◌, ◌≤◌, ◌<◌}
use mathlib.Core.Path.{◌≡◌}
use mathlib.Core.Logic.{◌≢◌}
use native.Mathlib.Decide.{dec_lt}
use native.Mathlib.Omega.{arith}
use native.Mathlib.Nat.{
  div-add-mod, mul-mod_right, mod-lt, add-mod_right, mul_comm, le-div_iff_mul-le,
}
use kboot.Base.Tests.{◌==◌, if◌then◌else◌, add64, sub64}

-- `round_up` and `round_down`: the remainder is taken off first, then the boundary is added.
unfoldable pub round_up : ℕ → ℕ → ℕ
round_up val nearest = if val % nearest == 0 then val else add64 (sub64 val (val % nearest)) nearest

unfoldable pub round_down : ℕ → ℕ → ℕ
round_down val nearest = if val % nearest == 0 then val else sub64 val (val % nearest)

-- The greatest multiple that is not above.
floor-le : (x m : ℕ) → m * (x / m) ≤ x
floor-le x m = omega (arith, div-add-mod x m)

multiple : (s m : ℕ) → s % m ≡ 0 → s ≡ m * (s / m)
multiple s m h = omega (arith, div-add-mod s m)

quotient_mono : (m a b : ℕ) → a ≤ b → m * a ≤ m * b
quotient_mono m a b h = grind arith

floor_greatest : (x m s : ℕ) → 0 < m → s % m ≡ 0 → s ≤ x → s ≤ m * (x / m)
floor_greatest x m s pos h le =
    let q : s / m ≤ x / m =
      (le-div_iff_mul-le pos).1 (omega (arith, multiple s m h, mul_comm m (s / m))) in
    omega (arith, multiple s m h, quotient_mono m (s / m) (x / m) q)

pub round_down_lem :
    (x m : ℕ)
    → 0 < m
    → x < 2 ^ 64
    → (round_down x m % m ≡ 0) × (round_down x m ≤ x) × (x < round_down x m + m)
unfolding round_down
round_down_lem x m pos fits =
    ground (arith, div-add-mod x m, mul-mod_right m (x / m), mod-lt x pos, rounded)
  where
    rounded : sub64 x (x % m) ≡ m * (x / m)
    rounded = omega (arith, div-add-mod x m)

pub round_down_greatest : (x m s : ℕ) → 0 < m → x < 2 ^ 64 → s % m ≡ 0 → s ≤ x → s ≤ round_down x m
unfolding round_down
round_down_greatest x m s pos fits h le = ground (arith, rounded, floor_greatest x m s pos h le)
  where
    rounded : sub64 x (x % m) ≡ m * (x / m)
    rounded = omega (arith, div-add-mod x m)

-- Where a boundary lies between `x` and the end of the address space.
pub round_up_lem :
    (x m : ℕ)
    → 0 < m
    → x + m ≤ 2 ^ 64
    → (round_up x m % m ≡ 0) × (x ≤ round_up x m) × (round_up x m < x + m)
unfolding round_up
round_up_lem x m pos fits = ground (
  arith,
  mod-lt x pos,
  div-add-mod x m,
  rounded,
  add-mod_right (m * (x / m)) m,
  mul-mod_right m (x / m),
)
  where
    rounded : x % m ≢ 0 → add64 (sub64 x (x % m)) m ≡ m * (x / m) + m
    rounded ne = omega (arith, div-add-mod x m)

next_multiple : (x m s : ℕ) → s % m ≡ 0 → m * (x / m) < s → m * (x / m) + m ≤ s
next_multiple x m s h lt = elim (dec_lt (x / m) (s / m)) [
  | yes p ↦ omega (arith, multiple s m h, quotient_mono m (x / m + 1) (s / m) (omega arith))
  | no p ↦ absurd (omega (arith, multiple s m h, quotient_mono m (s / m) (x / m) (omega arith)))
]

pub round_up_least : (x m s : ℕ) → 0 < m → x + m ≤ 2 ^ 64 → s % m ≡ 0 → x ≤ s → round_up x m ≤ s
unfolding round_up
round_up_least x m s pos fits h le =
    ground (arith, mod-lt x pos, div-add-mod x m, next_multiple x m s h)
