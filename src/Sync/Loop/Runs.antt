-- ===== src/Sync/Loop/Runs.antt =====
-- `run_sync` as a whole (app/services/ad_account_sync.py).
use client_dash_up.Base.{
  ℕ, suc, ◌+◌, ◌≤◌, ◌≡◌, ◌⊎◌, refl, arith, Bool, true, false, not, ◌&&◌, some, List, [], ◌∷◌, ◌++◌,
  is_some, length, select,
}
use client_dash_up.Sync.Types.{SyncMetadata, Account, SyncJob}
use client_dash_up.Sync.Schedule.{latest_job, Windows, resolve_date_range}
use client_dash_up.Sync.Run.{Services, RunArgs, provider_of}
use client_dash_up.Sync.Loop.{job_of, is_success, next_metadata, RunState, settle_account}
use client_dash_up.Sync.Loop.Ends.{IsWaiting, Ends, EndsAs}
use client_dash_up.Sync.Loop.Shows.{Shows}

-- The job and the metadata of one account whose turn comes at reading `n` of the clock; `before` and
-- `after` are the state of the providers and the metrics.
pub record Synced {S : Type 0} (services : Services S) (args : RunArgs) (old_jobs : List SyncJob)
    (clock : ℕ → ℕ) (n : ℕ) (a : Account) (before after : S) (job : SyncJob)
    (metadata : SyncMetadata) : Type 0 where
  pub of_account : job.ad_account_id ≡ a.id
  pub times : (job.started_at ≡ clock n) × (job.finished_at ≡ some (clock (n + 1)))
  pub may_run : (args.force ≡ true) ⊎ ¬ IsWaiting (latest_job a.id old_jobs) (clock n)
  pub ends_as : EndsAs services args a before job after
  pub ends : Ends (latest_job a.id old_jobs) job
  pub range : (job.date_to ≡ args.sync_to) × (job.date_from ≤ args.sync_to)
  pub shows : Shows job a.metadata metadata

-- Account by account, in their order, from reading `n` of the clock and a state outside: one whose
-- retry is not due at that reading is skipped, and each other one gets one job and one patch of its
-- metadata, by two readings.
pub data Runs {S : Type 0} (services : Services S) (args : RunArgs) (old_jobs : List SyncJob)
    (clock : ℕ → ℕ)
    : ℕ → S → List Account → List SyncJob → List (ℕ × SyncMetadata) → ℕ → S → Type 0 where
  no_account : {n : ℕ} {s : S} → Runs services args old_jobs clock n s [] [] [] 0 s
  skips :
      {n : ℕ} {s t : S} {a : Account} {accounts : List Account} {jobs : List SyncJob}
      {patches : List (ℕ × SyncMetadata)} {skipped : ℕ}
      → args.force ≡ false
      → IsWaiting (latest_job a.id old_jobs) (clock n)
      → Runs services args old_jobs clock (n + 1) s accounts jobs patches skipped t
      → Runs services args old_jobs clock n s (a ∷ accounts) jobs patches (suc skipped) t
  syncs :
      {n : ℕ} {s after t : S} {a : Account} {accounts : List Account} {job : SyncJob}
      {jobs : List SyncJob} {metadata : SyncMetadata} {patches : List (ℕ × SyncMetadata)}
      {skipped : ℕ}
      → Synced services args old_jobs clock n a s after job metadata
      → Runs services args old_jobs clock (n + 2) after accounts jobs patches skipped t
      → Runs services args old_jobs clock n s
          (a ∷ accounts)
          (job ∷ jobs)
          ((a.id, metadata) ∷ patches)
          skipped
          t

-- The tests that the counters count by.
abbrev pub has_succeeded : SyncJob → Bool
has_succeeded job = is_success job.status

abbrev pub will_retry : SyncJob → Bool
will_retry job = not (is_success job.status) && job.retryable && is_some job.next_retry_at

abbrev pub count : (SyncJob → Bool) → List SyncJob → ℕ
count p jobs = length (select p jobs)

-- What the loop adds to its state.
record Adds {S : Type 0} (services : Services S) (args : RunArgs) (old_jobs : List SyncJob)
    (clock : ℕ → ℕ) (accounts : List Account) (st st' : RunState S) : Type 0 where
  new_jobs : List SyncJob
  new_patches : List (ℕ × SyncMetadata)
  skipped : ℕ
  runs :
      Runs services args old_jobs clock st.readings st.outside accounts new_jobs new_patches skipped
        st'.outside
  jobs : st'.jobs ≡ st.jobs ++ new_jobs
  patches : st'.patches ≡ st.patches ++ new_patches
  skipped_count : st'.skipped_count ≡ st.skipped_count + skipped
  success_count : st'.success_count ≡ st.success_count + count has_succeeded new_jobs
  failed_count : st'.failed_count ≡ st.failed_count + count (λ j. not (has_succeeded j)) new_jobs
  retry_scheduled : st'.retry_scheduled ≡ st.retry_scheduled + count will_retry new_jobs

-- A whole run from a state outside, with its counters.
pub record RunsSync {S : Type 0} (services : Services S) (args : RunArgs) (old_jobs : List SyncJob)
    (clock : ℕ → ℕ) (accounts : List Account) (s : S) (st : RunState S) : Type 0 where
  pub runs :
      Runs services args old_jobs clock 0 s accounts st.jobs st.patches st.skipped_count st.outside
  pub one_for_each : length st.jobs + st.skipped_count ≡ length accounts
  pub successes : st.success_count ≡ count has_succeeded st.jobs
  pub both : st.success_count + st.failed_count ≡ length st.jobs
  pub retries : st.retry_scheduled ≡ count will_retry st.jobs
  pub retries_failed : st.retry_scheduled ≤ st.failed_count

pub Runs-length :
    {S : Type 0} {services : Services S} {args : RunArgs} {old_jobs : List SyncJob} {clock : ℕ → ℕ}
    {n : ℕ} {s t : S} {accounts : List Account} {jobs : List SyncJob}
    {patches : List (ℕ × SyncMetadata)} {skipped : ℕ}
    → Runs services args old_jobs clock n s accounts jobs patches skipped t
    → length jobs + skipped ≡ length accounts
Runs-length no_account = refl
Runs-length (skips e h rest) = omega (arith, Runs-length rest)
Runs-length (syncs h rest) = omega (arith, Runs-length rest)

module _ {S : Type 0} (services : Services S) (args : RunArgs) (w : Windows)
    (old_jobs : List SyncJob) (clock new_id : ℕ → ℕ) where
  abbrev job_in : Account → RunState S → SyncJob
  job_in a st =
      job_of a (provider_of a) (resolve_date_range w a args.date_from args.sync_to) args.created_by
        (new_id (length st.jobs)) (clock st.readings) (clock (st.readings + 1))
        (settle_account services args w old_jobs a (clock st.readings) st.outside).0

  abbrev metadata_in : Account → RunState S → SyncMetadata
  metadata_in a st =
      next_metadata w args a (new_id (length st.jobs)) (clock st.readings) (clock (st.readings + 1))
        (settle_account services args w old_jobs a (clock st.readings) st.outside).0
