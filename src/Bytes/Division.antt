-- ===== src/Bytes/Division.antt =====
-- The rounding division.
use elusiv.Base.{◌==◌, ok, ℕ, ◌+◌, ◌-◌, ◌*◌, ◌/◌, ◌%◌, ◌≤◌, ◌<◌, ◌≡◌, false, arith}
use native.Mathlib.Nat.{mod-eq_of_lt, mod-eq-sub-mod, div-add-mod, mod-lt}
use elusiv.Bytes.{div_ceiling}

wrap_back : (m n : ℕ) → 0 < n → n < m → (n + m - 1) % m ≡ n - 1
wrap_back m n pos h = omega (
  arith,
  mod-eq-sub-mod {n = n + m - 1} {m = m} (omega arith),
  mod-eq_of_lt {n = n + m - 1 - m} {m = m} (omega arith),
)

-- Where `divident + divisor` is in range, `div_ceiling` is the least number whose product with the
-- divisor reaches the divident.
pub div_ceiling_lem :
    (m a d : ℕ)
    → 0 < d
    → a + d < m
    → (q : ℕ) × (div_ceiling m a d ≡ ok q) × (a ≤ q * d) × (q * d < a + d)
unfolding div_ceiling
div_ceiling_lem m a d h fits =
    let e : (d == 0) ≡ false = ground arith in
    let sum : (a + d + m - 1) % m ≡ a + d - 1 = wrap_back m (a + d) (omega arith) fits in
    (
      (a + d - 1) / d,
      rw (e, sum),
      grind (arith, div-add-mod (a + d - 1) d, mod-lt (a + d - 1) h),
      grind (arith, div-add-mod (a + d - 1) d, mod-lt (a + d - 1) h),
    )
