-- ===== src/RateLimit.antt =====
-- The limiter of requests, `InMemoryRateLimiter` (app/services/rate_limit.py). An instant is a number
-- of microseconds. The lock makes a call one step.
pub mod Windows
pub mod Refines
pub mod Bounded
mod Examples
use Prim.Native.String.{String}
use client_dash_up.Base.{
  ℕ, ◌+◌, ◌-◌, ◌*◌, ◌/◌, Bool, true, false, List, [], ◌∷◌, ◌++◌, leb, max, length, if◌then◌else◌,
}
use client_dash_up.Base.Text.{str_eq}

-- `RateLimitDecision`
pub record Decision : Type 0 where
  pub allowed : Bool
  pub retry_after_seconds : ℕ

-- `_buckets`; a key that is missing has an empty bucket.
abbrev pub Buckets : Type 0
Buckets = String → List ℕ

abbrev pub no_buckets : Buckets
no_buckets key = []

abbrev pub ticks : ℕ → ℕ
ticks seconds = 1000000 * seconds

-- The loop that drops what is older than the window.
unfoldable pub drop_expired : ℕ → ℕ → List ℕ → List ℕ
drop_expired now window_seconds [] = []
drop_expired now window_seconds (t ∷ bucket) =
    let rest = drop_expired now window_seconds bucket in
    if leb (t + ticks window_seconds) now then rest else t ∷ bucket

unfoldable pub set_bucket : String → List ℕ → Buckets → Buckets
set_bucket key bucket buckets k = if str_eq k key then bucket else buckets k

-- `retry_after` of a call that is refused.
unfoldable pub retry_after : ℕ → ℕ → List ℕ → ℕ
retry_after now window_seconds [] = window_seconds
retry_after now window_seconds (t ∷ bucket) = max 1 ((t + ticks window_seconds - now) / 1000000)

-- The rest of `allow`, from the bucket without what has expired.
unfoldable pub decide : ℕ → ℕ → ℕ → List ℕ → Decision × List ℕ
decide now max_requests window_seconds bucket =
    if leb max_requests (length bucket)
    then (
      record { allowed = false; retry_after_seconds = retry_after now window_seconds bucket },
      bucket,
    )
    else (record { allowed = true; retry_after_seconds = 0 }, bucket ++ now ∷ [])

unfoldable pub allow : String → ℕ → ℕ → ℕ → Buckets → Decision × Buckets
allow key now max_requests window_seconds buckets =
    let r =
      decide now max_requests window_seconds (drop_expired now window_seconds (buckets key)) in
    (r.0, set_bucket key r.1 buckets)

-- A call of `allow` at an instant.
pub record Call : Type 0 where
  pub key : String
  pub now : ℕ
  pub max_requests : ℕ

-- The decisions of a sequence of calls with one window.
unfoldable pub decisions : ℕ → List Call → Buckets → List Decision
decisions window_seconds [] buckets = []
decisions window_seconds (c ∷ calls) buckets =
    let r = allow c.key c.now c.max_requests window_seconds buckets in
    r.0 ∷ decisions window_seconds calls r.1

unfoldable pub clear : Buckets → Buckets
clear buckets = no_buckets
