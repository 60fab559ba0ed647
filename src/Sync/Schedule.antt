-- ===== src/Sync/Schedule.antt =====
-- When an account is synchronised: the jobs of an account, the backoff after an error, the range of
-- dates, and the accounts that are due (app/services/ad_account_sync.py).
pub mod Selects
pub mod Backoff
use client_dash_up.Base.{
  ℕ, ◌+◌, ◌-◌, ◌*◌, ◌^◌, Bool, true, false, ◌&&◌, ◌||◌, Option, none, some, List, [], ◌∷◌, ◌==◌,
  leb, ltb, min, max, first, take, if◌then◌else◌, get_or,
}
use client_dash_up.Base.Sorting.{order_by}
use client_dash_up.Sync.Types.{SyncStatus, success, error, SyncMetadata, Account, SyncJob, day_of?}

-- `latest_by_account_ids`: the job of an account that started last.
unfoldable pub latest_job : ℕ → List SyncJob → Option SyncJob
latest_job account_id jobs =
    first (λ j. j.ad_account_id == account_id)
      (order_by (λ a b. leb b.started_at a.started_at) jobs)

-- `_next_retry_at`: 1, 2, 4, 8, ... minutes, 60 at most.
unfoldable pub next_retry_at : ℕ → ℕ → ℕ
next_retry_at now attempt = now + 60 * min 60 (max 1 (2 ^ (attempt - 1)))

abbrev pub or_first : {A : Type 0} → Option A → Option A → Option A
or_first none o = o
or_first (some a) o = some a

-- The newest date of an account's metrics, by the key that is written now and the older ones.
unfoldable pub newest_data_date : Account → Option ℕ
newest_data_date a = or_first a.metadata.latest_data_date (
    or_first a.metadata.last_data_at
      (or_first (day_of? a.last_sync_at) (day_of? a.metadata.last_sync_at)))

-- `initial_lookback_days` and `incremental_overlap_days`.
pub record Windows : Type 0 where
  pub initial_lookback_days : ℕ
  pub incremental_overlap_days : ℕ

abbrev pub first_date : Windows → Account → ℕ → ℕ
first_date w a to = elim a.metadata.history_backfill_completed_at [
  | none ↦ to - (w.initial_lookback_days - 1)
  | some _ ↦ elim (newest_data_date a) [
    | none ↦ to - (w.initial_lookback_days - 1)
    | some latest ↦ latest - (w.incremental_overlap_days - 1)
  ]
]

-- `_resolve_date_range_for_account`; days are counted from so long ago that no window reaches day 0.
unfoldable pub resolve_date_range : Windows → Account → Option ℕ → ℕ → ℕ × ℕ
resolve_date_range w a explicit_from explicit_to =
    (min explicit_to (get_or explicit_from (first_date w a explicit_to)), explicit_to)

abbrev pub has_passed : Option ℕ → ℕ → Bool
has_passed none now = true
has_passed (some at) now = leb at now

-- A place in the queue: the rank and the instant by which it is ordered.
pub record Due : Type 0 where
  pub rank : ℕ
  pub since : ℕ
  pub account_id : ℕ

-- Whether an account is due, by its latest job: a retry first, then an account without a job, then a
-- success that is stale.
unfoldable pub due_of : ℕ → ℕ → ℕ → Option SyncJob → Option Due
due_of started_at stale_after_hours account_id none =
    some (record { rank = 1; since = 0; account_id = account_id })
due_of started_at stale_after_hours account_id (some job) = elim job.status [
  | error ↦
      if job.retryable && has_passed job.next_retry_at started_at
      then some (record {
        rank = 0;
        since = get_or job.next_retry_at job.started_at;
        account_id = account_id;
      })
      else none
  | success ↦
      if leb (get_or job.finished_at job.started_at + 3600 * max 1 stale_after_hours) started_at
      then some (record {
        rank = 2;
        since = get_or job.finished_at job.started_at;
        account_id = account_id;
      })
      else none
]

unfoldable pub all_due : ℕ → ℕ → List SyncJob → List Account → List Due
all_due started_at stale_after_hours jobs [] = []
all_due started_at stale_after_hours jobs (a ∷ accounts) =
    let rest = all_due started_at stale_after_hours jobs accounts in
    elim (due_of started_at stale_after_hours a.id (latest_job a.id jobs)) [
      | none ↦ rest
      | some due ↦ due ∷ rest
    ]

-- `due.sort(key=...)`
abbrev pub goes_before : Due → Due → Bool
goes_before a b =
    ltb a.rank b.rank
    || a.rank == b.rank
      && (ltb a.since b.since || a.since == b.since && leb a.account_id b.account_id)

abbrev pub batch_limit : ℕ → ℕ
batch_limit batch_size = max 1 (min batch_size 100)

-- The accounts that `run_due_sync` selects.
unfoldable pub select_due : ℕ → ℕ → ℕ → List SyncJob → List Account → List Due
select_due batch_size stale_after_hours started_at jobs accounts =
    take (batch_limit batch_size)
      (order_by goes_before (all_due started_at stale_after_hours jobs accounts))
