-- ===== src/Sync/Loop.antt =====
-- The loop of `run_sync` (app/services/ad_account_sync.py): the job and the metadata of each account,
-- and the counters. A reading of the clock and an id that `uuid4` draws are known by their number.
pub mod Ends
pub mod Shows
pub mod Runs
use Prim.Native.String.{String}
use client_dash_up.Base.{
  ℕ, ◌+◌, Bool, true, false, not, ◌&&◌, Option, none, some, List, [], ◌∷◌, ◌++◌, ltb, is_some,
  if◌then◌else◌, length,
}
use client_dash_up.Base.Outcome.{Outcome, ok, err}
use client_dash_up.Sync.Types.{SyncStatus, success, error, SyncMetadata, Account, SyncJob}
use client_dash_up.Sync.Schedule.{latest_job, next_retry_at, Windows, resolve_date_range, or_first}
use client_dash_up.Sync.Failures.{SyncFailure, classify_error}
use client_dash_up.Sync.Run.{
  Services, RunArgs, provider_of, is_backing_off, attempt_of, Ingested, Tried, try_account,
}

-- How an account ended.
pub record Settled : Type 0 where
  pub status : SyncStatus
  pub records : ℕ
  pub error_code : Option String
  pub error_category : Option String
  pub retryable : Bool
  pub attempt : ℕ
  pub next_retry_at : Option ℕ
  pub rows_received : ℕ
  pub latest_data_date : Option ℕ
  pub credential_id : Option ℕ

unfoldable pub failed_with : ℕ → ℕ → ℕ → SyncFailure → Settled
failed_with started_at attempt rows_received x =
    let c = classify_error x in
    record {
      status = error;
      records = 0;
      error_code = some c.error_code;
      error_category = some c.category;
      retryable = c.retryable;
      attempt = attempt;
      next_retry_at = if c.retryable then some (next_retry_at started_at attempt) else none;
      rows_received = rows_received;
      latest_data_date = none;
      credential_id = none;
    }

unfoldable pub succeeded : ℕ → Ingested → Settled
succeeded rows_received i = record {
  status = success;
  records = i.records;
  error_code = none;
  error_category = none;
  retryable = false;
  attempt = 1;
  next_retry_at = none;
  rows_received = rows_received;
  latest_data_date = i.latest_data_date;
  credential_id = i.credential_id;
}

-- The error of a platform without a fetcher.
unfoldable pub unsupported : ℕ → Settled
unsupported attempt = record {
  status = error;
  records = 0;
  error_code = some "provider_not_supported";
  error_category = some "configuration";
  retryable = false;
  attempt = attempt;
  next_retry_at = none;
  rows_received = 0;
  latest_data_date = none;
  credential_id = none;
}

abbrev pub settle : ℕ → ℕ → ℕ → Outcome SyncFailure Ingested → Settled
settle started_at attempt rows_received (err x) = failed_with started_at attempt rows_received x
settle started_at attempt rows_received (ok i) = succeeded rows_received i

abbrev pub is_success : SyncStatus → Bool
is_success success = true
is_success error = false

unfoldable pub job_of : Account → String → ℕ × ℕ → Option ℕ → ℕ → ℕ → ℕ → Settled → SyncJob
job_of a provider range created_by id started_at finished_at r = record {
  id = id;
  ad_account_id = a.id;
  provider = provider;
  status = r.status;
  started_at = started_at;
  finished_at = some finished_at;
  records_synced = r.records;
  error_code = r.error_code;
  error_category = r.error_category;
  retryable = r.retryable;
  attempt = r.attempt;
  next_retry_at = r.next_retry_at;
  date_from = range.0;
  date_to = range.1;
  provider_rows_received = r.rows_received;
  latest_data_date = r.latest_data_date;
  created_by = created_by;
  created_at = finished_at;
}

abbrev pub data_status : SyncStatus → ℕ → String
data_status success rows = if ltb 0 rows then "received" else "empty"
data_status error rows = "error"

-- `next_meta`: the keys of every run.
unfoldable pub attempted_metadata : SyncMetadata → ℕ → ℕ → Settled → SyncMetadata
attempted_metadata m job_id started_at r = record m {
  last_sync_attempt_at = some started_at;
  sync_status = some r.status;
  sync_error_code = r.error_code;
  sync_error_category = r.error_category;
  sync_retryable = r.retryable;
  sync_next_retry_at = r.next_retry_at;
  sync_attempt = r.attempt;
  last_sync_job_id = some job_id;
  sync_data_status = some (data_status r.status r.rows_received);
}

-- The keys that a success sets; only one that received rows moves the dates of the data.
unfoldable pub success_metadata : Windows → Bool → Bool → ℕ → Settled → SyncMetadata → SyncMetadata
success_metadata w is_initial_backfill has_rows finished_at r m = record m {
  last_sync_success_at = some finished_at;
  last_sync_at = if has_rows then some finished_at else m.last_sync_at;
  last_data_at = if has_rows then r.latest_data_date else m.last_data_at;
  latest_data_date = if has_rows then r.latest_data_date else m.latest_data_date;
  integration_credential_id = or_first r.credential_id m.integration_credential_id;
  history_backfill_completed_at =
      if has_rows && is_initial_backfill && not (is_some m.history_backfill_completed_at)
      then some finished_at
      else m.history_backfill_completed_at;
  history_backfill_window_days =
      if has_rows && is_initial_backfill && not (is_some m.history_backfill_completed_at)
      then some w.initial_lookback_days
      else m.history_backfill_window_days;
}

unfoldable pub next_metadata : Windows → RunArgs → Account → ℕ → ℕ → ℕ → Settled → SyncMetadata
next_metadata w args a job_id started_at finished_at r =
    let m = attempted_metadata a.metadata job_id started_at r in
    let is_initial_backfill =
      not (is_some args.date_from) && not (is_some a.metadata.history_backfill_completed_at) in
    if is_success r.status
    then success_metadata w is_initial_backfill (ltb 0 r.rows_received) finished_at r m
    else m

-- The state of the loop; `jobs` and `patches` are what it has written to the stores.
pub record RunState (S : Type 0) : Type 0 where
  pub outside : S
  pub readings : ℕ
  pub jobs : List SyncJob
  pub patches : List (ℕ × SyncMetadata)
  pub success_count : ℕ
  pub failed_count : ℕ
  pub skipped_count : ℕ
  pub retry_scheduled : ℕ

module _ {S : Type 0} (services : Services S) (args : RunArgs) (w : Windows)
    (old_jobs : List SyncJob) where
  -- From the retry guard on: what the account ended with, and the state outside.
  unfoldable pub settle_account : Account → ℕ → S → Settled × S
  settle_account a started_at s =
      let provider = provider_of a in
      let range = resolve_date_range w a args.date_from args.sync_to in
      let attempt = attempt_of (latest_job a.id old_jobs) in
      if services.has_fetcher provider
      then (let r = try_account services args a provider range.0 range.1 s in
          (settle started_at attempt r.0.rows_received r.0.result, r.1))
      else (unsupported attempt, s)

abbrev pub no_run : {S : Type 0} → S → RunState S
no_run s = record {
  outside = s;
  readings = 0;
  jobs = [];
  patches = [];
  success_count = 0;
  failed_count = 0;
  skipped_count = 0;
  retry_scheduled = 0;
}

module _ {S : Type 0} (services : Services S) (args : RunArgs) (w : Windows)
    (old_jobs : List SyncJob) (clock new_id : ℕ → ℕ) where
  -- The job, the metadata and the counters of an account that ended with `r`.
  unfoldable pub record_account : Account → ℕ → Settled × S → RunState S → RunState S
  record_account a started_at (r, s) st =
      let finished_at = clock (st.readings + 1) in
      let id = new_id (length st.jobs) in
      let range = resolve_date_range w a args.date_from args.sync_to in
      record {
        outside = s;
        readings = st.readings + 2;
        jobs =
            st.jobs
            ++ job_of a (provider_of a) range args.created_by id started_at finished_at r ∷ [];
        patches = st.patches ++ (a.id, next_metadata w args a id started_at finished_at r) ∷ [];
        success_count = if is_success r.status then st.success_count + 1 else st.success_count;
        failed_count = if is_success r.status then st.failed_count else st.failed_count + 1;
        skipped_count = st.skipped_count;
        retry_scheduled =
            if not (is_success r.status) && r.retryable && is_some r.next_retry_at
            then st.retry_scheduled + 1
            else st.retry_scheduled;
      }

  unfoldable pub run_account : Account → RunState S → RunState S
  run_account a st =
      let started_at = clock st.readings in
      if is_backing_off args.force (latest_job a.id old_jobs) started_at
      then record st { readings = st.readings + 1; skipped_count = st.skipped_count + 1 }
      else record_account a started_at
          (settle_account services args w old_jobs a started_at st.outside) st

  unfoldable pub run_accounts : List Account → RunState S → RunState S
  run_accounts [] st = st
  run_accounts (a ∷ accounts) st = run_accounts accounts (run_account a st)

  unfoldable pub run_sync : List Account → S → RunState S
  run_sync accounts s = run_accounts accounts (no_run s)
