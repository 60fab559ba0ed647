-- ===== src/Sync/Examples.antt =====
-- Runs of the synchronisation (app/services/ad_account_sync.py), and the theorems at them.
use Prim.Native.String.{String}
use client_dash_up.Base.{
  ℕ, ◌+◌, ◌*◌, ◌-◌, ◌≤◌, ◌≡◌, ◌↔◌, refl, arith, true, false, Option, none, some, List, [], ◌∷◌, map,
  min, length,
}
use client_dash_up.Base.Outcome.{ok, err, ◌>>=◌ as outcome_bind, raise_if}
use client_dash_up.Base.Text.{str_eq}
use client_dash_up.Command.Snapshots.{lower_char}
use client_dash_up.Command.Store.{is_space}
use client_dash_up.Sync.Types.{SyncStatus, success, error, SyncMetadata, Account, SyncJob}
use client_dash_up.Sync.Leases.Calls.{
  Call, acquires, releases, renews, Answer, acquired, released, renewed, answers, after,
}
use client_dash_up.Sync.Leases.Memory
use client_dash_up.Sync.Leases.Sqlite
use client_dash_up.Sync.Leases.Refines.{Represents, sqlite-refines_memory}
use client_dash_up.Sync.Leases.Excludes.{RefusesAll, acquire-excludes}
use client_dash_up.Sync.Schedule.{
  latest_job, next_retry_at, Windows, resolve_date_range, due_of, all_due, select_due,
}
use client_dash_up.Sync.Schedule.Selects.{SelectsDue, select_due-SelectsDue}
use client_dash_up.Sync.Schedule.Backoff.{next_retry_at_doubles}
use client_dash_up.Sync.Failures.{SyncFailure, http, classify_error, classify_status}
use client_dash_up.Sync.Failures.Retries.{IsRetried, IsTransient, classify_error-IsTransient_iff}
use client_dash_up.Sync.ProviderRows.{
  absent, on_day, missing, parsed, ProviderRow, MetricRow, validated_rows, validated_row,
  parsed_dates, row_date, required_metric, optional_metric,
}
use client_dash_up.Sync.ProviderRows.Accepts.{AreTaken, validated_rows-AreTaken}
use client_dash_up.Sync.Run.{
  Services, RunArgs, provider_of, is_backing_off, attempt_of, choose_candidates, scoped_candidates,
  fetch_first, ingest_rows, take_rows, take_valid, try_chosen, chosen_of, try_account,
}
use client_dash_up.Sync.Loop.{
  failed_with, succeeded, unsupported, job_of, RunState, settle_account, record_account,
  run_account, run_accounts, run_sync,
}

-- A worker holds the lease of the runs and renews it, and another one asks for it in vain.
abbrev calls : List Call
calls =
    acquires "run_due" 2 10 60
    ∷ renews "run_due" 1 20 60
    ∷ acquires "other" 3 30 60
    ∷ releases "run_due" 2
    ∷ acquires "run_due" 4 59 60
    ∷ []

abbrev from_the_start : List Call
from_the_start = acquires "run_due" 1 0 60 ∷ calls

abbrev given : List Answer
given =
    acquired (some 1)
    ∷ acquired none
    ∷ renewed true
    ∷ acquired (some 3)
    ∷ released
    ∷ acquired none
    ∷ []

answers_run : answers Sqlite.step from_the_start [] ≡ given
unfolding Sqlite.step Sqlite.acquire_lease Sqlite.release_lease Sqlite.renew_lease Sqlite.upsert
    Sqlite.extend
answers_run = refl

sqlite-refines_memory_example :
    (answers Sqlite.step from_the_start [] ≡ answers Memory.step from_the_start (λ _. none))
    × Represents
        (after Sqlite.step from_the_start [])
        (after Memory.step from_the_start (λ _. none))
sqlite-refines_memory_example = sqlite-refines_memory from_the_start

first_lease : (Sqlite.acquire_lease "run_due" 1 0 60 []).0 ≡ some 1
unfolding Sqlite.acquire_lease
first_lease = refl

acquire-excludes_example :
    RefusesAll "run_due" calls
      (answers Sqlite.step calls (Sqlite.acquire_lease "run_due" 1 0 60 []).1)
acquire-excludes_example = acquire-excludes "run_due" 1 0 60 [] calls tt first_lease (
  (omega arith, refl),
  ((λ _. omega arith), ((omega arith, refl), (refl, ((omega arith, refl), tt)))),
)

next_retry_at_doubles_example :
    (next_retry_at 1000 1 ≡ 1000 + 60)
    × (1000 + 60 ≤ next_retry_at 1000 3)
    × (next_retry_at 1000 3 ≤ 1000 + 3600)
    × (next_retry_at 1000 (3 + 1) ≡ 1000 + min 3600 (2 * (next_retry_at 1000 3 - 1000)))
next_retry_at_doubles_example = next_retry_at_doubles 1000 3 (omega arith)

-- The eighth attempt waits the hour.
eighth_attempt : next_retry_at 1000 8 ≡ 4600
unfolding next_retry_at
eighth_attempt = refl

abbrev gateway_error : SyncFailure
gateway_error = http 502 "Bad gateway"

classify_error-IsTransient_iff_example :
    (((classify_error gateway_error).retryable ≡ true) ↔ IsRetried gateway_error)
    × (((classify_error gateway_error).retryable ≡ true)
        ↔ IsTransient (classify_error gateway_error))
classify_error-IsTransient_iff_example = classify_error-IsTransient_iff gateway_error

gateway_is_retried : (classify_error gateway_error).retryable ≡ true
unfolding classify_error classify_status
gateway_is_retried = refl

abbrev provider_rows : List ProviderRow
provider_rows =
    record {
      date_fields = absent ∷ on_day 105 ∷ on_day 105 ∷ absent ∷ [];
      impressions = parsed 90;
      clicks = parsed 4;
      spend = parsed 1250;
      conversions = missing;
    }
    ∷ []

abbrev metric_rows : List MetricRow
metric_rows =
    record { day = 105; impressions = 90; clicks = 4; spend = 1250; conversions = none } ∷ []

validated_run : validated_rows true 100 110 provider_rows ≡ ok metric_rows
unfolding validated_rows validated_row parsed_dates row_date required_metric optional_metric
    outcome_bind raise_if
validated_run = refl

validated_rows-AreTaken_example : AreTaken true 100 110 provider_rows metric_rows
validated_rows-AreTaken_example =
    (validated_rows-AreTaken true 100 110 provider_rows).at metric_rows validated_run

-- An account that was never synchronised.
abbrev no_metadata : SyncMetadata
no_metadata = record {
  history_backfill_completed_at = none;
  history_backfill_window_days = none;
  latest_data_date = none;
  last_data_at = none;
  last_sync_at = none;
  integration_credential_id = none;
  meta_rediscovery_required = false;
  last_sync_attempt_at = none;
  last_sync_success_at = none;
  sync_status = none;
  sync_error_code = none;
  sync_error_category = none;
  sync_retryable = false;
  sync_next_retry_at = none;
  sync_attempt = 0;
  last_sync_job_id = none;
  sync_data_status = none;
}

abbrev account : ℕ → String → Account
account id platform = record {
  id = id;
  client_id = 50;
  platform = platform;
  external_account_id = "ext";
  metadata = no_metadata;
  last_sync_at = none;
}

-- A rate limit at the instant 1000 on account 1, which is tried again at 1120.
abbrev rate_limited_job : SyncJob
rate_limited_job = record {
  id = 900;
  ad_account_id = 1;
  provider = "google";
  status = error;
  started_at = 1000;
  finished_at = some 1001;
  records_synced = 0;
  error_code = some "rate_limited";
  error_category = some "rate_limit";
  retryable = true;
  attempt = 2;
  next_retry_at = some 1120;
  date_from = 100;
  date_to = 110;
  provider_rows_received = 0;
  latest_data_date = none;
  created_by = none;
  created_at = 1001;
}

abbrev old_jobs : List SyncJob
old_jobs = rate_limited_job ∷ []

-- Account 1 waits, 2 can be read, the provider of 3 is not known, and that of 4 is down.
abbrev accounts : List Account
accounts = account 1 "google" ∷ account 2 "Google " ∷ account 3 "bing" ∷ account 4 "meta" ∷ []

select_due-SelectsDue_example :
    SelectsDue 2 24 1100 old_jobs accounts (select_due 2 24 1100 old_jobs accounts)
select_due-SelectsDue_example = select_due-SelectsDue 2 24 1100 old_jobs accounts

selected_at_1100 : map (λ d. d.account_id) (select_due 2 24 1100 old_jobs accounts) ≡ 2 ∷ 3 ∷ []
unfolding select_due all_due due_of latest_job
selected_at_1100 = refl

-- The retry goes first once it is due.
selected_at_1120 : map (λ d. d.account_id) (select_due 2 24 1120 old_jobs accounts) ≡ 1 ∷ 2 ∷ []
unfolding select_due all_due due_of latest_job
selected_at_1120 = refl

-- Providers that answer for "google" only; the state counts the records.
abbrev services : Services ℕ
services = record {
  has_fetcher = λ provider. elim (str_eq provider "bing") [ true ↦ false | false ↦ true ];
  requires_metrics = λ _. true;
  resolve =
      λ provider client user s. (ok (some (record { credential_id = some 7; secret = 1 }) ∷ []), s);
  fetch = λ provider external from to c s. elim (str_eq provider "google") [
    | true ↦ (ok provider_rows, s)
    | false ↦ (err gateway_error, s)
  ];
  ingest = λ id provider rows s. (ok (length rows), s + length rows);
}

abbrev run_args : RunArgs
run_args = record {
  date_from = none;
  sync_to = 110;
  created_by = none;
  user_id = some 3;
  force = false;
}

abbrev windows : Windows
windows = record { initial_lookback_days = 30; incremental_overlap_days = 3 }

abbrev outcome : RunState ℕ
outcome = run_sync services run_args windows old_jobs (λ n. 1100 + n) (λ n. 901 + n) accounts 0

abbrev job_results : List (SyncStatus × ℕ × Option ℕ × Option ℕ)
job_results =
    (success, 1, none, some 105) ∷ (error, 1, none, none) ∷ (error, 1, some 1165, none) ∷ []

abbrev result_of : SyncJob → SyncStatus × ℕ × Option ℕ × Option ℕ
result_of j = (j.status, j.attempt, j.next_retry_at, j.latest_data_date)

run_results : map result_of outcome.jobs ≡ job_results
unfolding run_sync run_accounts run_account record_account settle_account is_backing_off latest_job
    provider_of is_space lower_char attempt_of try_account chosen_of scoped_candidates
    choose_candidates outcome_bind try_chosen fetch_first take_rows take_valid ingest_rows
    validated_rows validated_row parsed_dates row_date required_metric optional_metric raise_if
    failed_with succeeded unsupported classify_error classify_status next_retry_at job_of
    resolve_date_range
run_results = refl
