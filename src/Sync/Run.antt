-- ===== src/Sync/Run.antt =====
-- `run_sync` (app/services/ad_account_sync.py) over the accounts that are eligible: for each one the
-- retry guard, the choice of the credentials, the fetch, the validation and the ingest, its job and
-- its metadata. The resolver of credentials, the fetchers of the providers (with the check of a Meta
-- credential), the store of the metrics and the clock are parameters.
pub mod Dated
use Prim.Native.String.{String}
use client_dash_up.Base.{
  ℕ, ◌+◌, Bool, true, false, not, ◌&&◌, ◌||◌, Option, none, some, List, [], ◌∷◌, ◌++◌, ◌==◌, leb,
  ltb, max, select, is_some, if◌then◌else◌, length, opt_eq,
}
use client_dash_up.Base.Text.{str_eq}
use client_dash_up.Base.Outcome.{Outcome, ok, err, ◌>>=◌, raise_if}
use client_dash_up.Command.Snapshots.{lower}
use client_dash_up.Command.Store.{strip}
use client_dash_up.Sync.Types.{SyncStatus, success, error, SyncMetadata, Account, SyncJob}
use client_dash_up.Sync.Schedule.{latest_job, next_retry_at, Windows, resolve_date_range}
use client_dash_up.Sync.Failures.{
  SyncFailure, credentials_missing, reconnect_required, classify_error,
}
use client_dash_up.Sync.ProviderRows.{ProviderRow, MetricRow, validated_rows}

-- A credential, by its `__credential_id`; the rest of it is not looked at here.
pub record Candidate : Type 0 where
  pub credential_id : Option ℕ
  pub secret : ℕ

-- What the service is built with, over the state of the providers and the metrics.
pub record Services (S : Type 0) : Type 0 where
  pub has_fetcher : String → Bool
  pub requires_metrics : String → Bool
  pub resolve : String → ℕ → Option ℕ → S → Outcome SyncFailure (List (Option Candidate)) × S
  pub fetch :
      String → String → ℕ → ℕ → Option Candidate → S → Outcome SyncFailure (List ProviderRow) × S
  pub ingest : ℕ → String → List MetricRow → S → Outcome SyncFailure ℕ × S

-- The arguments of `run_sync` that the loop uses.
pub record RunArgs : Type 0 where
  pub date_from : Option ℕ
  pub sync_to : ℕ
  pub created_by : Option ℕ
  pub user_id : Option ℕ
  pub force : Bool

-- `provider = str(account.platform or "").lower().strip()`
unfoldable pub provider_of : Account → String
provider_of a = strip (lower a.platform)

abbrev pub is_failed_retryable : SyncJob → Bool
is_failed_retryable job = elim job.status [ error ↦ job.retryable | success ↦ false ]

abbrev pub is_before : ℕ → Option ℕ → Bool
is_before now none = false
is_before now (some at) = ltb now at

-- The guard of an account whose retry is not due yet.
unfoldable pub is_backing_off : Bool → Option SyncJob → ℕ → Bool
is_backing_off force none now = false
is_backing_off force (some job) now =
    not force && is_failed_retryable job && is_before now job.next_retry_at

unfoldable pub attempt_of : Option SyncJob → ℕ
attempt_of none = 1
attempt_of (some job) = if is_failed_retryable job then max 1 job.attempt + 1 else 1

abbrev pub is_credential : ℕ → Option Candidate → Bool
is_credential id none = false
is_credential id (some c) = opt_eq c.credential_id (some id)

-- The credentials that are tried, in their order.
unfoldable pub choose_candidates :
    Bool → Option ℕ → List (Option Candidate) → Outcome SyncFailure (List (Option Candidate))
choose_candidates is_meta none candidates =
    if is_meta && ltb 1 (length candidates)
    then err (reconnect_required "meta_credential_selection_required")
    else ok candidates
choose_candidates is_meta (some preferred) candidates =
    let exact = select (is_credential preferred) candidates in
    let others = select (λ c. not (is_credential preferred c)) candidates in
    if is_meta
    then elim exact [
      | [] ↦ err (reconnect_required "meta_bound_credential_missing")
      | c ∷ _ ↦ ok (c ∷ [])
    ]
    else ok (exact ++ others)

-- The credentials that a run may use: the caller's own, or the platform's for a run without a user.
unfoldable pub scoped_candidates :
    Option ℕ → List (Option Candidate) → Outcome SyncFailure (List (Option Candidate))
scoped_candidates none [] = ok (none ∷ [])
scoped_candidates none (c ∷ cs) = ok (c ∷ cs)
scoped_candidates (some user) candidates = elim (select is_some candidates) [
  | [] ↦ err credentials_missing
  | c ∷ cs ↦ ok (c ∷ cs)
]

abbrev pub used_id : Option Candidate → Option ℕ
used_id none = none
used_id (some c) = c.credential_id

-- What the `try` of an account leaves: the rows that were received, and its result: the records that
-- were ingested, the newest date and the credential.
pub record Ingested : Type 0 where
  pub records : ℕ
  pub latest_data_date : Option ℕ
  pub credential_id : Option ℕ

pub record Tried : Type 0 where
  pub rows_received : ℕ
  pub result : Outcome SyncFailure Ingested

abbrev pub latest_day : List MetricRow → Option ℕ
latest_day [] = none
latest_day (r ∷ rs) = elim (latest_day rs) [ none ↦ some r.day | some d ↦ some (max r.day d) ]

abbrev pub ingested :
    List MetricRow → Option ℕ → Outcome SyncFailure ℕ → Outcome SyncFailure Ingested
ingested rows credential_id (err x) = err x
ingested rows credential_id (ok n) =
    ok (record { records = n; latest_data_date = latest_day rows; credential_id = credential_id })

module _ {S : Type 0} (services : Services S) (args : RunArgs) where
  -- The loop over the credentials: the first fetch that returns, or the last error.
  unfoldable pub fetch_first :
      String
      → String
      → ℕ
      → ℕ
      → Outcome SyncFailure (List ProviderRow × Option ℕ)
      → List (Option Candidate)
      → S
      → Outcome SyncFailure (List ProviderRow × Option ℕ) × S
  fetch_first provider external_id from to last [] s = (last, s)
  fetch_first provider external_id from to last (c ∷ cs) s =
      let r = services.fetch provider external_id from to c s in
      elim r.0 [
        | ok rows ↦ (ok (rows, used_id c), r.1)
        | err x ↦ fetch_first provider external_id from to (err x) cs r.1
      ]

  -- `_ingest_provider_rows`
  unfoldable pub ingest_rows : ℕ → String → List MetricRow → S → Outcome SyncFailure ℕ × S
  ingest_rows account_id provider [] s = (ok 0, s)
  ingest_rows account_id provider (r ∷ rs) s = services.ingest account_id provider (r ∷ rs) s

  -- The ingest of the rows, once they are validated.
  unfoldable pub take_valid :
      ℕ → String → ℕ → Option ℕ → Outcome SyncFailure (List MetricRow) → S → Tried × S
  take_valid account_id provider received credential_id (err x) s =
      (record { rows_received = received; result = err x }, s)
  take_valid account_id provider received credential_id (ok valid) s =
      let r = ingest_rows account_id provider valid s in
      (record { rows_received = received; result = ingested valid credential_id r.0 }, r.1)

  -- The validation and the ingest of what was fetched.
  unfoldable pub take_rows :
      ℕ → String → ℕ → ℕ → Outcome SyncFailure (List ProviderRow × Option ℕ) → S → Tried × S
  take_rows account_id provider from to (err x) s =
      (record { rows_received = 0; result = err x }, s)
  take_rows account_id provider from to (ok (rows, credential_id)) s =
      take_valid account_id provider (length rows) credential_id
        (validated_rows (services.requires_metrics provider) from to rows) s

  -- From the chosen credentials on.
  unfoldable pub try_chosen :
      Account → String → ℕ → ℕ → Outcome SyncFailure (List (Option Candidate)) → S → Tried × S
  try_chosen a provider from to (err x) s = (record { rows_received = 0; result = err x }, s)
  try_chosen a provider from to (ok chosen) s =
      let r = fetch_first provider a.external_account_id from to (ok ([], none)) chosen s in
      take_rows a.id provider from to r.0 r.1

  -- The choice among the resolved credentials.
  unfoldable pub chosen_of :
      Account
      → String
      → Outcome SyncFailure (List (Option Candidate))
      → Outcome SyncFailure (List (Option Candidate))
  chosen_of a provider resolved = do
    candidates ← resolved
    scoped ← scoped_candidates args.user_id candidates
    choose_candidates (str_eq provider "meta") a.metadata.integration_credential_id scoped

  -- The `try` of an account.
  unfoldable pub try_account : Account → String → ℕ → ℕ → S → Tried × S
  try_account a provider from to s =
      if str_eq provider "meta" && a.metadata.meta_rediscovery_required
      then (
        record { rows_received = 0; result = err (reconnect_required "meta_rediscovery_required") },
        s,
      )
      else let r = services.resolve provider a.client_id args.user_id s in
        try_chosen a provider from to (chosen_of a provider r.0) r.1
