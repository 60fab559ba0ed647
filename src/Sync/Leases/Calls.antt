-- ===== src/Sync/Leases/Calls.antt =====
-- The calls of the lease methods and their answers (app/services/ad_account_sync.py). An instant is
-- a number of seconds, a token that `uuid4` draws is a number.
use Prim.Native.String.{String}
use client_dash_up.Base.{ℕ, ◌+◌, Bool, Option, List, [], ◌∷◌, max}

-- A lease: its token and the instant up to which it lasts.
pub record Lease : Type 0 where
  pub token : ℕ
  pub until : ℕ

-- `now + timedelta(seconds=max(30, int(ttl_seconds)))`
abbrev pub lasts_until : ℕ → ℕ → ℕ
lasts_until now ttl_seconds = now + max 30 ttl_seconds

-- A call of a method, with its instant where it takes one.
pub data Call : Type 0 where
  acquires : (key : String) (token now ttl_seconds : ℕ) → Call
  releases : (key : String) (token : ℕ) → Call
  renews : (key : String) (token now ttl_seconds : ℕ) → Call

-- The token of `acquire_lease`, nothing of `release_lease`, and the answer of `renew_lease`.
pub data Answer : Type 0 where
  acquired : Option ℕ → Answer
  released : Answer
  renewed : Bool → Answer

-- The answers to a sequence of calls, and the state after it.
module _ {S : Type 0} (step : Call → S → Answer × S) where
  abbrev pub answers : List Call → S → List Answer
  answers [] s = []
  answers (c ∷ cs) s = (step c s).0 ∷ answers cs (step c s).1

  abbrev pub after : List Call → S → S
  after [] s = s
  after (c ∷ cs) s = after cs (step c s).1
