-- ===== src/Budget/Money.antt =====
-- `_q_money` of app/services/budgets.py: rounding of a decimal to hundredths.
use client_dash_up.Base.{ℕ, ◌+◌, ◌-◌, ◌*◌, ◌/◌, ◌^◌, leb, ◌==◌, if◌then◌else◌}
use client_dash_up.Base.Int.{ℤ, pos, negsuc}

-- A finite `Decimal`: value * 10 ^ (- places). A positive exponent is written out in `value`.
pub record Decimal : Type 0 where
  pub value : ℤ
  pub places : ℕ

-- n / d rounded to the nearest integer, a half upwards: ROUND_HALF_UP on a magnitude.
unfoldable pub half_up : ℕ → ℕ → ℕ
half_up n d = (2 * n + d) / (2 * d)

-- The magnitude of a decimal in hundredths.
unfoldable pub cents_of : ℕ → ℕ → ℕ
unfolding half_up
cents_of n places = if leb places 2 then n * 10 ^ (2 - places) else half_up n (10 ^ (places - 2))

abbrev pub negate : ℕ → ℤ
negate n = if n == 0 then pos 0 else negsuc (n - 1)

-- An integer with the sign of the first argument: ROUND_HALF_UP rounds a half away from zero.
abbrev pub with_sign_of : ℤ → (ℕ → ℕ) → ℤ
with_sign_of (pos n) f = pos (f n)
with_sign_of (negsuc n) f = negate (f (n + 1))

-- `value.quantize(Decimal("0.01"), rounding=ROUND_HALF_UP)`, as a number of hundredths.
unfoldable pub q_money : Decimal → ℤ
unfolding cents_of
q_money d = with_sign_of d.value (λ n. cents_of n d.places)
