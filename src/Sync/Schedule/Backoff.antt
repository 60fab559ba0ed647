-- ===== src/Sync/Schedule/Backoff.antt =====
-- The backoff after an error and the range of dates (app/services/ad_account_sync.py).
use native.Mathlib.Nat.{one-le-pow, pow-suc}
use client_dash_up.Base.{
  zero, ℕ, suc, ◌+◌, ◌-◌, ◌*◌, ◌^◌, ◌≤◌, ◌≡◌, refl, arith, Option, none, some, min,
}
use client_dash_up.Sync.Types.{Account}
use client_dash_up.Sync.Schedule.{next_retry_at, newest_data_date, Windows, resolve_date_range}

pow_doubles : (attempt : ℕ) → 1 ≤ attempt → 2 ^ (attempt + 1 - 1) ≡ 2 * 2 ^ (attempt - 1)
pow_doubles zero h = absurd (omega arith)
pow_doubles (suc k) h =
    let up : suc k + 1 - 1 ≡ suc k = omega arith in
    let down : suc k - 1 ≡ k = omega arith in rw (up, down) (omega (arith, pow-suc 2 k))

-- The next retry of the first failed attempt is exactly one minute ahead, and each further attempt
-- doubles the delay of the one before it up to an hour; so it is always one minute to one hour ahead.
pub next_retry_at_doubles :
    (now attempt : ℕ)
    → 1 ≤ attempt
    → (next_retry_at now 1 ≡ now + 60)
      × (now + 60 ≤ next_retry_at now attempt)
      × (next_retry_at now attempt ≤ now + 3600)
      × (next_retry_at now (attempt + 1) ≡ now + min 3600 (2 * (next_retry_at now attempt - now)))
unfolding next_retry_at
next_retry_at_doubles now attempt h =
    let doubles = pow_doubles attempt h in
    let some_delay = one-le-pow (attempt - 1) 2 (omega arith) in
    (refl, omega arith, omega arith, omega arith)

-- The range of dates ends at the date asked for and does not begin after it. Without a first date, an
-- account whose history was loaded is asked again for its newest date and the days before it that
-- overlap; one whose history was not, for the whole window.
pub resolve_date_range_covers :
    (w : Windows) (a : Account) (explicit_from : Option ℕ) (explicit_to : ℕ)
    → ((resolve_date_range w a explicit_from explicit_to).1 ≡ explicit_to)
      × ((resolve_date_range w a explicit_from explicit_to).0 ≤ explicit_to)
      × ((done newest : ℕ)
          → a.metadata.history_backfill_completed_at ≡ some done
          → newest_data_date a ≡ some newest
          → explicit_from ≡ none
          → (resolve_date_range w a explicit_from explicit_to).0
            ≡ min explicit_to (newest - (w.incremental_overlap_days - 1)))
      × (a.metadata.history_backfill_completed_at ≡ none
          → explicit_from ≡ none
          → (resolve_date_range w a explicit_from explicit_to).0
            ≡ explicit_to - (w.initial_lookback_days - 1))
unfolding resolve_date_range
resolve_date_range_covers w a explicit_from explicit_to = (
  refl,
  omega arith,
  (λ done newest loaded latest open_start. ground arith),
  (λ missing open_start. ground arith),
)
