-- ===== src/Sync/Loop/Ends.antt =====
-- How `run_sync` leaves one account (app/services/ad_account_sync.py).
use Prim.Native.String.{String}
use client_dash_up.Base.{
  ℕ, ◌+◌, ◌<◌, ◌≡◌, ◌⊎◌, refl, sym, subst, arith, Bool, true, false, Option, none, some, List, inl,
  inr, max, Bool-cases,
}
use client_dash_up.Base.Outcome.{Outcome, ok, err, Ensures}
use client_dash_up.Sync.Types.{success, error, SyncStatus-cases, Account, SyncJob}
use client_dash_up.Sync.Schedule.{latest_job, next_retry_at, Windows, resolve_date_range}
use client_dash_up.Sync.Failures.{SyncFailure, classify_error}
use client_dash_up.Sync.Run.Dated.{IsDated, try_account-IsDatedTry}
use client_dash_up.Sync.Run.{
  Services, RunArgs, provider_of, is_backing_off, is_failed_retryable, is_before, attempt_of,
  Ingested, try_account,
}
use client_dash_up.Sync.Loop.{failed_with, succeeded, unsupported, settle, job_of, settle_account}

-- The latest job of an account failed, and its retry is not due yet.
pub record IsWaiting (latest : Option SyncJob) (now : ℕ) : Type 0 where
  pub job : SyncJob
  pub is_latest : latest ≡ some job
  pub failed : job.status ≡ error
  pub retryable : job.retryable ≡ true
  pub retry_at : ℕ
  pub has_retry : job.next_retry_at ≡ some retry_at
  pub not_due : now < retry_at

-- The number of an attempt: one more than that of a failure that is retried, else the first.
pub data IsAttempt : Option SyncJob → ℕ → Type 0 where
  no_job : IsAttempt none 1
  again :
      (job : SyncJob)
      → job.status ≡ error
      → job.retryable ≡ true
      → IsAttempt (some job) (max 1 job.attempt + 1)
  anew : (job : SyncJob) → (job.status ≡ success) ⊎ (job.retryable ≡ false) → IsAttempt (some job) 1

pub record HasSucceeded (job : SyncJob) : Type 0 where
  pub status : job.status ≡ success
  pub no_error : (job.error_code ≡ none) × (job.error_category ≡ none)
  pub no_retry : (job.retryable ≡ false) × (job.next_retry_at ≡ none)
  pub first_attempt : job.attempt ≡ 1
  pub dated : IsDated job.date_from job.date_to job.provider_rows_received job.latest_data_date

pub record HasFailed (latest : Option SyncJob) (job : SyncJob) : Type 0 where
  pub status : job.status ≡ error
  pub no_records : (job.records_synced ≡ 0) × (job.latest_data_date ≡ none)
  pub coded :
      (code : String) × (category : String) × (job.error_code ≡ some code)
      × (job.error_category ≡ some category)
  pub attempt : IsAttempt latest job.attempt
  pub scheduled :
      (job.retryable ≡ true) × (job.next_retry_at ≡ some (next_retry_at job.started_at job.attempt))
      ⊎ (job.retryable ≡ false) × (job.next_retry_at ≡ none)

is_before-lt :
    (now : ℕ) (o : Option ℕ) → is_before now o ≡ true → (at : ℕ) × (o ≡ some at) × (now < at)
is_before-lt now none h = absurd (cc (h))
is_before-lt now (some at) h = (at, refl, ground arith)

is_failed_retryable-holds :
    (job : SyncJob) → is_failed_retryable job ≡ true → (job.status ≡ error) × (job.retryable ≡ true)
is_failed_retryable-holds job h = ground arith

pub is_backing_off-IsWaiting :
    (force : Bool) (latest : Option SyncJob) (now : ℕ)
    → is_backing_off force latest now ≡ true
    → (force ≡ false) × IsWaiting latest now
unfolding is_backing_off
is_backing_off-IsWaiting force none now h = absurd (cc (h))
is_backing_off-IsWaiting force (some job) now h =
    let (failed, retryable) = is_failed_retryable-holds job (ground arith) in
    let (at, has_retry, not_due) = is_before-lt now job.next_retry_at (ground arith) in
    (
      ground arith,
      record {
        job = job;
        is_latest = refl;
        failed = failed;
        retryable = retryable;
        retry_at = at;
        has_retry = has_retry;
        not_due = not_due;
      },
    )

pub IsWaiting-is_backing_off :
    (force : Bool) (latest : Option SyncJob) (now : ℕ)
    → force ≡ false
    → IsWaiting latest now
    → is_backing_off force latest now ≡ true
unfolding is_backing_off
IsWaiting-is_backing_off force latest now e w =
    let is_latest = w.is_latest in
    let failed = w.failed in
    let retryable = w.retryable in
    let has_retry = w.has_retry in let not_due = w.not_due in ground arith

attempt_again :
    (job : SyncJob)
    → job.status ≡ error
    → job.retryable ≡ true
    → attempt_of (some job) ≡ max 1 job.attempt + 1
unfolding attempt_of
attempt_again job failed may = ground arith

attempt_anew :
    (job : SyncJob) → (job.status ≡ success) ⊎ (job.retryable ≡ false) → attempt_of (some job) ≡ 1
unfolding attempt_of
attempt_anew job (inl done) = ground arith
attempt_anew job (inr never) = elim (SyncStatus-cases job.status) [
  | inl failed ↦ ground arith
  | inr done ↦ ground arith
]

attempt_of-IsAttempt : (latest : Option SyncJob) → IsAttempt latest (attempt_of latest)
unfolding attempt_of
attempt_of-IsAttempt none = no_job
attempt_of-IsAttempt (some job) =
    let fresh = λ (h : (job.status ≡ success) ⊎ (job.retryable ≡ false)).
      subst (IsAttempt (some job)) (sym (attempt_anew job h)) (anew job h) in
    elim (SyncStatus-cases job.status) [
      | inl failed ↦ elim (Bool-cases job.retryable) [
        | inl may ↦
            subst (IsAttempt (some job)) (sym (attempt_again job failed may)) (again job failed may)
        | inr never ↦ fresh (inr never)
      ]
      | inr done ↦ fresh (inl done)
    ]

-- A job ended in one of the two ways.
abbrev pub Ends : Option SyncJob → SyncJob → Type 0
Ends latest job = HasSucceeded job ⊎ HasFailed latest job

-- How a job that asked for its dates tells the outcome of its account: that the platform has no
-- fetcher, what the `try` returned, or what it raised.
pub data EndsAs {S : Type 0} (services : Services S) (args : RunArgs) (a : Account) (before : S)
    (job : SyncJob) (after : S) : Type 0 where
  not_supported :
      services.has_fetcher (provider_of a) ≡ false
      → after ≡ before
      → job.status ≡ error
      → job.error_code ≡ some "provider_not_supported"
      → job.retryable ≡ false
      → job.provider_rows_received ≡ 0
      → EndsAs services args a before job after
  returned :
      (rows : ℕ) (i : Ingested)
      → services.has_fetcher (provider_of a) ≡ true
      → try_account services args a (provider_of a) job.date_from job.date_to before
        ≡ (record { rows_received = rows; result = ok i }, after)
      → job.status ≡ success
      → job.records_synced ≡ i.records
      → job.latest_data_date ≡ i.latest_data_date
      → job.provider_rows_received ≡ rows
      → EndsAs services args a before job after
  raised :
      (rows : ℕ) (x : SyncFailure)
      → services.has_fetcher (provider_of a) ≡ true
      → try_account services args a (provider_of a) job.date_from job.date_to before
        ≡ (record { rows_received = rows; result = err x }, after)
      → job.status ≡ error
      → job.error_code ≡ some (classify_error x).error_code
      → job.error_category ≡ some (classify_error x).category
      → job.retryable ≡ (classify_error x).retryable
      → job.provider_rows_received ≡ rows
      → EndsAs services args a before job after

module _ (a : Account) (provider : String) (range : ℕ × ℕ) (created_by : Option ℕ)
    (id started_at finished_at : ℕ) (latest : Option SyncJob) where
  failed_with-Ends :
      (rows : ℕ) (x : SyncFailure)
      → HasFailed latest (
          job_of a provider range created_by id started_at finished_at
            (failed_with started_at (attempt_of latest) rows x))
  unfolding failed_with job_of
  failed_with-Ends rows x = record {
    status = refl;
    no_records = (refl, refl);
    coded = ((classify_error x).error_code, (classify_error x).category, refl, refl);
    attempt = attempt_of-IsAttempt latest;
    scheduled = elim (Bool-cases (classify_error x).retryable) [
      | inl may ↦ inl (may, rw may refl)
      | inr never ↦ inr (never, rw never refl)
    ];
  }

  unsupported-Ends : HasFailed latest (
      job_of a provider range created_by id started_at finished_at
        (unsupported (attempt_of latest)))
  unfolding unsupported job_of
  unsupported-Ends = record {
    status = refl;
    no_records = (refl, refl);
    coded = ("provider_not_supported", "configuration", refl, refl);
    attempt = attempt_of-IsAttempt latest;
    scheduled = inr (refl, refl);
  }

  settle-Ends :
      (rows : ℕ) (o : Outcome SyncFailure Ingested)
      → Ensures (λ i. IsDated range.0 range.1 rows i.latest_data_date) o
      → Ends latest (
          job_of a provider range created_by id started_at finished_at
            (settle started_at (attempt_of latest) rows o))
  unfolding succeeded job_of
  settle-Ends rows (err x) h = inr (failed_with-Ends rows x)
  settle-Ends rows (ok i) h = inl (record {
    status = refl;
    no_error = (refl, refl);
    no_retry = (refl, refl);
    first_attempt = refl;
    dated = h.at i refl;
  })

module _ {S : Type 0} (services : Services S) (args : RunArgs) (w : Windows)
    (old_jobs : List SyncJob) (a : Account) (started_at finished_at id : ℕ) (s : S) where
  -- The job that `run_sync` writes for the account.
  abbrev pub job_after : SyncJob
  job_after =
      job_of a (provider_of a) (resolve_date_range w a args.date_from args.sync_to) args.created_by
        id started_at finished_at (settle_account services args w old_jobs a started_at s).0

  pub settle_account-Ends : Ends (latest_job a.id old_jobs) job_after
  unfolding settle_account
  settle_account-Ends =
      let range = resolve_date_range w a args.date_from args.sync_to in
      elim (Bool-cases (services.has_fetcher (provider_of a))) [
        | inl has ↦ rw has (
            settle-Ends a (provider_of a) range args.created_by id started_at finished_at _ _ _
              (try_account-IsDatedTry services args a (provider_of a) range.0 range.1 s))
        | inr lacks ↦ rw lacks (
            inr (
              unsupported-Ends a (provider_of a) range args.created_by id started_at finished_at _))
      ]

  settled-EndsAs :
      (rows : ℕ) (o : Outcome SyncFailure Ingested) (after : S)
      → services.has_fetcher (provider_of a) ≡ true
      → (let range = resolve_date_range w a args.date_from args.sync_to in
          try_account services args a (provider_of a) range.0 range.1 s)
        ≡ (record { rows_received = rows; result = o }, after)
      → EndsAs services args a s
          (job_of a
            (provider_of a)
            (resolve_date_range w a args.date_from args.sync_to)
            args.created_by
            id
            started_at
            finished_at
            (settle started_at (attempt_of (latest_job a.id old_jobs)) rows o))
          after
  unfolding job_of failed_with succeeded
  settled-EndsAs rows (err x) after has e = raised rows x has e refl refl refl refl refl
  settled-EndsAs rows (ok i) after has e = returned rows i has e refl refl refl refl

  pub settle_account-EndsAs :
      EndsAs services args a s job_after (settle_account services args w old_jobs a started_at s).1
  unfolding settle_account job_of unsupported
  settle_account-EndsAs = elim (Bool-cases (services.has_fetcher (provider_of a))) [
    | inl has ↦ rw has (settled-EndsAs _ _ _ has refl)
    | inr lacks ↦ rw lacks (not_supported lacks refl refl refl refl refl)
  ]
