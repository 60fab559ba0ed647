-- ===== src/Sync/Leases/Rows.antt =====
-- What the statements on `ad_account_sync_leases` do to the lease of a key
-- (app/services/ad_account_sync.py).
use Prim.Native.String.{String}
use text.Mathlib.TextEquality.{eq_iff}
use client_dash_up.Base.{
  ℕ, ◌≡◌, refl, arith, true, not, Option, none, some, List, [], ◌∷◌, first, select, if◌then◌else◌,
  length,
}
use client_dash_up.Base.Text.{str_eq}
use client_dash_up.Sync.Leases.Calls.{Lease}
use client_dash_up.Sync.Leases.Memory.{Leases, put, is_held_by}
use client_dash_up.Sync.Leases.Sqlite.{Row, has_key, is_lease, upsert, extend}

abbrev pub lease_of : Row → Lease
lease_of row = record { token = row.lease_token; until = row.lease_until }

abbrev pub lease_of? : Option Row → Option Lease
lease_of? none = none
lease_of? (some row) = some (lease_of row)

-- The lease of a key in the table.
abbrev pub find : List Row → Leases
find rows key = lease_of? (first (has_key key) rows)

-- The primary key: no other row has the key of a row.
abbrev pub HasUniqueKeys : List Row → Type 0
HasUniqueKeys [] = Unit
HasUniqueKeys (r ∷ rows) = (find rows r.lease_key ≡ none) × HasUniqueKeys rows

pub find-upsert :
    (k : String) (row : Row) (rows : List Row)
    → find (upsert row rows) k ≡ put row.lease_key (some (lease_of row)) (find rows) k
unfolding upsert put
find-upsert k row [] = ground (arith, eq_iff row.lease_key k, eq_iff k row.lease_key)
find-upsert k row (r ∷ rows) = ground (
  arith,
  eq_iff row.lease_key k,
  eq_iff k row.lease_key,
  eq_iff r.lease_key k,
  eq_iff r.lease_key row.lease_key,
  find-upsert k row rows,
)

pub find-extend :
    (k key : String) (token until now : ℕ) (rows : List Row)
    → find (extend key token until now rows) k ≡ (
        if is_held_by (find rows key) token
        then put key (some (record { token = token; until = until })) (find rows) k
        else find rows k)
unfolding extend put
find-extend k key token until now [] = refl
find-extend k key token until now (r ∷ rows) = ground (
  arith,
  eq_iff r.lease_key k,
  eq_iff k key,
  eq_iff r.lease_key key,
  find-extend k key token until now rows,
)

find_unique :
    (k : String) (r : Row) (rows : List Row)
    → find rows r.lease_key ≡ none
    → str_eq r.lease_key k ≡ true
    → find rows k ≡ none
find_unique k r rows h e = rw (← (eq_iff r.lease_key k).0 e) h

pub find-select :
    (k key : String) (token : ℕ) (rows : List Row)
    → HasUniqueKeys rows
    → find (select (λ r. not (is_lease key token r)) rows) k
      ≡ (if is_held_by (find rows key) token then put key none (find rows) k else find rows k)
unfolding put
find-select k key token [] h = refl
find-select k key token (r ∷ rows) (absent, unique) = ground (
  arith,
  eq_iff r.lease_key k,
  eq_iff k key,
  eq_iff r.lease_key key,
  find_unique k r rows absent,
  find_unique key r rows absent,
  find-select k key token rows unique,
)

pub length-select :
    (key : String) (token : ℕ) (rows : List Row)
    → HasUniqueKeys rows
    → length (select (is_lease key token) rows)
      ≡ (if is_held_by (find rows key) token then 1 else 0)
length-select key token [] h = refl
length-select key token (r ∷ rows) (absent, unique) =
    ground (arith, find_unique key r rows absent, length-select key token rows unique)

pub upsert-HasUniqueKeys :
    (row : Row) (rows : List Row) → HasUniqueKeys rows → HasUniqueKeys (upsert row rows)
unfolding upsert put
upsert-HasUniqueKeys row [] h = (refl, tt)
upsert-HasUniqueKeys row (r ∷ rows) (absent, unique) = ground (
  arith,
  eq_iff r.lease_key row.lease_key,
  find-upsert r.lease_key row rows,
  find_unique row.lease_key r rows absent,
  upsert-HasUniqueKeys row rows unique,
)

pub extend-HasUniqueKeys :
    (key : String) (token until now : ℕ) (rows : List Row)
    → HasUniqueKeys rows
    → HasUniqueKeys (extend key token until now rows)
unfolding extend put
extend-HasUniqueKeys key token until now [] h = tt
extend-HasUniqueKeys key token until now (r ∷ rows) (absent, unique) = ground (
  arith,
  eq_iff r.lease_key key,
  find-extend r.lease_key key token until now rows,
  extend-HasUniqueKeys key token until now rows unique,
)

pub select-HasUniqueKeys :
    (key : String) (token : ℕ) (rows : List Row)
    → HasUniqueKeys rows
    → HasUniqueKeys (select (λ r. not (is_lease key token r)) rows)
unfolding put
select-HasUniqueKeys key token [] h = tt
select-HasUniqueKeys key token (r ∷ rows) (absent, unique) = ground (
  arith,
  eq_iff r.lease_key key,
  find-select r.lease_key key token rows unique,
  select-HasUniqueKeys key token rows unique,
)
