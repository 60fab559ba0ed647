-- ===== src/Sync/Leases/Sqlite.antt =====
-- The leases of `SqliteAdAccountSyncJobStore` (app/services/ad_account_sync.py): the rows of
-- `ad_account_sync_leases`. `BEGIN IMMEDIATE`, or a single statement, makes a method one step.
use Prim.Native.String.{String}
use client_dash_up.Base.{
  ℕ, Bool, false, not, ◌&&◌, Option, none, some, List, [], ◌∷◌, ◌==◌, ltb, first, select,
  if◌then◌else◌, length,
}
use client_dash_up.Base.Text.{str_eq}
use client_dash_up.Sync.Leases.Calls.{
  lasts_until, Call, acquires, releases, renews, Answer, acquired, released, renewed,
}

-- A row of the table `ad_account_sync_leases`, whose primary key is `lease_key`.
pub record Row : Type 0 where
  pub lease_key : String
  pub lease_token : ℕ
  pub lease_until : ℕ
  pub updated_at : ℕ

-- `WHERE lease_key=?`
abbrev pub has_key : String → Row → Bool
has_key key row = str_eq row.lease_key key

-- `WHERE lease_key=? AND lease_token=?`
abbrev pub is_lease : String → ℕ → Row → Bool
is_lease key token row = str_eq row.lease_key key && row.lease_token == token

-- `INSERT ... ON CONFLICT(lease_key) DO UPDATE SET ...`
unfoldable pub upsert : Row → List Row → List Row
upsert row [] = row ∷ []
upsert row (r ∷ rows) =
    let rest = upsert row rows in if str_eq r.lease_key row.lease_key then row ∷ rows else r ∷ rest

-- `UPDATE ... SET lease_until=?, updated_at=? WHERE lease_key=? AND lease_token=?`
unfoldable pub extend : String → ℕ → ℕ → ℕ → List Row → List Row
extend key token until now [] = []
extend key token until now (r ∷ rows) =
    let rest = extend key token until now rows in
    if is_lease key token r
    then record r { lease_until = until; updated_at = now } ∷ rest
    else r ∷ rest

abbrev pub is_current : Option Row → ℕ → Bool
is_current none now = false
is_current (some row) now = ltb now row.lease_until

unfoldable pub acquire_lease : String → ℕ → ℕ → ℕ → List Row → Option ℕ × List Row
acquire_lease key token now ttl_seconds rows =
    if is_current (first (has_key key) rows) now then (none, rows) else (
      some token,
      upsert
          (record {
            lease_key = key;
            lease_token = token;
            lease_until = lasts_until now ttl_seconds;
            updated_at = now;
          })
          rows,
    )

-- `DELETE FROM ad_account_sync_leases WHERE ...`
unfoldable pub release_lease : String → ℕ → List Row → List Row
release_lease key token rows = select (λ r. not (is_lease key token r)) rows

unfoldable pub renew_lease : String → ℕ → ℕ → ℕ → List Row → Bool × List Row
renew_lease key token now ttl_seconds rows = (
  length (select (is_lease key token) rows) == 1,
  extend key token (lasts_until now ttl_seconds) now rows,
)

unfoldable pub step : Call → List Row → Answer × List Row
step (acquires key token now ttl_seconds) rows =
    let r = acquire_lease key token now ttl_seconds rows in (acquired r.0, r.1)
step (releases key token) rows = (released, release_lease key token rows)
step (renews key token now ttl_seconds) rows =
    let r = renew_lease key token now ttl_seconds rows in (renewed r.0, r.1)
