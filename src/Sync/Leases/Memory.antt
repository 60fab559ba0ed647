-- ===== src/Sync/Leases/Memory.antt =====
-- The leases of `InMemoryAdAccountSyncJobStore` (app/services/ad_account_sync.py). A lock makes a
-- method one step.
use Prim.Native.String.{String}
use client_dash_up.Base.{ℕ, Bool, true, false, Option, none, some, ◌==◌, ltb, if◌then◌else◌}
use client_dash_up.Base.Text.{str_eq}
use client_dash_up.Sync.Leases.Calls.{
  Lease, lasts_until, Call, acquires, releases, renews, Answer, acquired, released, renewed,
}

-- The dictionary `leases` of the store in memory.
abbrev pub Leases : Type 0
Leases = String → Option Lease

unfoldable pub put : String → Option Lease → Leases → Leases
put key lease m k = if str_eq k key then lease else m k

abbrev pub is_live : Option Lease → ℕ → Bool
is_live none now = false
is_live (some lease) now = ltb now lease.until

abbrev pub is_held_by : Option Lease → ℕ → Bool
is_held_by none token = false
is_held_by (some lease) token = lease.token == token

unfoldable pub acquire_lease : String → ℕ → ℕ → ℕ → Leases → Option ℕ × Leases
acquire_lease key token now ttl_seconds m = if is_live (m key) now then (none, m) else (
  some token,
  put key (some (record { token = token; until = lasts_until now ttl_seconds })) m,
)

unfoldable pub release_lease : String → ℕ → Leases → Leases
release_lease key token m = if is_held_by (m key) token then put key none m else m

unfoldable pub renew_lease : String → ℕ → ℕ → ℕ → Leases → Bool × Leases
renew_lease key token now ttl_seconds m =
    if is_held_by (m key) token
    then (true, put key (some (record { token = token; until = lasts_until now ttl_seconds })) m)
    else (false, m)

unfoldable pub step : Call → Leases → Answer × Leases
step (acquires key token now ttl_seconds) m =
    let r = acquire_lease key token now ttl_seconds m in (acquired r.0, r.1)
step (releases key token) m = (released, release_lease key token m)
step (renews key token now ttl_seconds) m =
    let r = renew_lease key token now ttl_seconds m in (renewed r.0, r.1)
