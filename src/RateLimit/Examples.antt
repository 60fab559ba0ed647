-- ===== src/RateLimit/Examples.antt =====
-- Runs of the limiter (app/services/rate_limit.py), and the theorems at them.
use Prim.Native.String.{String}
use client_dash_up.Base.{ℕ, ◌≤◌, ◌≡◌, refl, arith, true, false, List, [], ◌∷◌, length}
use client_dash_up.RateLimit.{
  Decision, no_buckets, ticks, Call, drop_expired, set_bucket, retry_after, decide, allow,
  decisions,
}
use client_dash_up.RateLimit.Windows.{decisions_by_log, InOrder}
use client_dash_up.RateLimit.Refines.{decisions-log}
use client_dash_up.RateLimit.Bounded.{granted_at, within, IsLimited, decisions_bounded}

abbrev call : String → ℕ → Call
call key now = record { key = key; now = ticks now; max_requests = 2 }

-- Two requests a minute: the third one waits until the first one has left the window.
abbrev calls : List Call
calls =
    call "auth:1" 100
    ∷ call "auth:1" 110
    ∷ call "auth:1" 120
    ∷ call "auth:2" 120
    ∷ call "auth:1" 160
    ∷ []

abbrev in_order : InOrder 0 calls
in_order = (omega arith, (omega arith, (omega arith, (omega arith, (omega arith, tt)))))

abbrev given : List Decision
given =
    record { allowed = true; retry_after_seconds = 0 }
    ∷ record { allowed = true; retry_after_seconds = 0 }
    ∷ record { allowed = false; retry_after_seconds = 40 }
    ∷ record { allowed = true; retry_after_seconds = 0 }
    ∷ record { allowed = true; retry_after_seconds = 0 }
    ∷ []

decisions_run : decisions 60 calls no_buckets ≡ given
unfolding decisions allow decide drop_expired set_bucket retry_after
decisions_run = refl

decisions-log_example : decisions 60 calls no_buckets ≡ decisions_by_log 60 calls no_buckets
decisions-log_example = decisions-log 60 calls in_order

limited : IsLimited "auth:1" 2 calls
limited = (
  (λ _. omega arith),
  ((λ _. omega arith), ((λ _. omega arith), ((λ _. omega arith), ((λ _. omega arith), tt)))),
)

decisions_bounded_example :
    length (within 60 130000000 (granted_at "auth:1" calls (decisions 60 calls no_buckets))) ≤ 2
decisions_bounded_example = decisions_bounded 60 "auth:1" 130000000 2 calls in_order limited
