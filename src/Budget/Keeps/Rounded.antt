-- ===== src/Budget/Keeps/Rounded.antt =====
-- What `_q_money` (app/services/budgets.py) rounds to.
use client_dash_up.Base.{
  ℕ, zero, suc, ◌+◌, ◌-◌, ◌*◌, ◌/◌, ◌^◌, ◌≤◌, ◌<◌, ◌≡◌, refl, false, subst, sym, arith, leb,
}
use client_dash_up.Base.Int.{ℤ, pos, negsuc}
use native.Mathlib.Nat.{mul-div-le, lt-mul-div-succ, one-le-pow, pow-suc}
use client_dash_up.Budget.Money.{Decimal, half_up, cents_of, with_sign_of, q_money}

abbrev pub magnitude : ℤ → ℕ
magnitude (pos n) = n
magnitude (negsuc n) = n + 1

-- `c` hundredths are nearest to `n / p`, and the greater ones where two are: c is the floor of
-- 100 n / p + 1 / 2.
abbrev pub IsNearest : ℕ → ℕ → ℕ → Type 0
IsNearest n p c = (2 * (c * p) ≤ 200 * n + p) × (200 * n + p < 2 * (c * p) + 2 * p)

IsNearest-of_bounds :
    (n d c : ℕ) → 2 * d * c ≤ 2 * n + d → 2 * n + d < 2 * d * (c + 1) → IsNearest n (100 * d) c
IsNearest-of_bounds n d c below above = (grind arith, grind arith)

half_up-IsNearest : (n d : ℕ) → 1 ≤ d → IsNearest n (100 * d) (half_up n d)
unfolding half_up
half_up-IsNearest n d h =
    let c = (2 * n + d) / (2 * d) in
    let below : 2 * d * c ≤ 2 * n + d = mul-div-le (2 * n + d) (2 * d) in
    let above : 2 * n + d < 2 * d * (c + 1) =
      lt-mul-div-succ (2 * n + d) {b = 2 * d} (omega arith) in
    IsNearest-of_bounds n d c below above

pow_split : (k : ℕ) → 10 ^ suc (suc (suc k)) ≡ 100 * 10 ^ suc k
pow_split k = let outer = pow-suc 10 (suc (suc k)) in let inner = pow-suc 10 (suc k) in omega arith

at_least_three : (k : ℕ) → leb (suc (suc (suc k))) 2 ≡ false
at_least_three k = ground arith

cents_of-half_up : (n k : ℕ) → cents_of n (suc (suc (suc k))) ≡ half_up n (10 ^ suc k)
unfolding cents_of
cents_of-half_up n k =
    let down : suc (suc (suc k)) - 2 ≡ suc k = omega arith in rw (at_least_three k, down)

cents_of-IsNearest : (n places : ℕ) → IsNearest n (10 ^ places) (cents_of n places)
unfolding cents_of
cents_of-IsNearest n zero = (omega arith, omega arith)
cents_of-IsNearest n (suc zero) = (omega arith, omega arith)
cents_of-IsNearest n (suc (suc zero)) = (omega arith, omega arith)
cents_of-IsNearest n (suc (suc (suc k))) =
    subst (λ c. IsNearest n (10 ^ suc (suc (suc k))) c) (sym (cents_of-half_up n k))
      (subst (λ p. IsNearest n p (half_up n (10 ^ suc k))) (sym (pow_split k))
        (half_up-IsNearest n (10 ^ suc k) (one-le-pow (suc k) 10 (omega arith))))

-- The integer `z` is a nearest magnitude with the sign of the decimal.
abbrev pub RoundsTo : Decimal → ℤ → Type 0
RoundsTo d z =
    (c : ℕ) × IsNearest (magnitude d.value) (10 ^ d.places) c × (z ≡ with_sign_of d.value (λ _. c))

q_money_of :
    (z : ℤ) (places : ℕ)
    → RoundsTo
        (record { value = z; places = places })
        (q_money (record { value = z; places = places }))
unfolding q_money
q_money_of (pos n) places = (cents_of n places, cents_of-IsNearest n places, refl)
q_money_of (negsuc n) places = (cents_of (n + 1) places, cents_of-IsNearest (n + 1) places, refl)

-- `_q_money` rounds to the nearest hundredth, and a half away from zero: the magnitude of its result
-- in hundredths is the floor of the exact one and a half, and its sign is the one of the argument.
pub q_money-RoundsTo : (d : Decimal) → RoundsTo d (q_money d)
q_money-RoundsTo d = q_money_of d.value d.places
