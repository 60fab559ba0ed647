-- ===== src/Sync/Loop/Shows.antt =====
-- What the metadata of an account tells after its job (app/services/ad_account_sync.py).
use Prim.Native.String.{String}
use client_dash_up.Base.{
  ℕ, ◌≤◌, ◌≡◌, refl, arith, Bool, true, false, not, ◌&&◌, Option, none, some, inl, inr, ltb,
  is_some, if◌then◌else◌, Bool-cases,
}
use client_dash_up.Sync.Types.{success, error, SyncStatus-cases, SyncMetadata, Account, SyncJob}
use client_dash_up.Sync.Schedule.{Windows}
use client_dash_up.Sync.Run.{RunArgs}
use client_dash_up.Sync.Loop.{Settled, job_of, attempted_metadata, success_metadata, next_metadata}

-- The dates of the data and the mark of the loaded history are as they were.
pub record KeepsData (before after : SyncMetadata) : Type 0 where
  pub latest_data_date : after.latest_data_date ≡ before.latest_data_date
  pub last_data_at : after.last_data_at ≡ before.last_data_at
  pub last_sync_at : after.last_sync_at ≡ before.last_sync_at
  pub history : after.history_backfill_completed_at ≡ before.history_backfill_completed_at

-- They are those of the job; a history that was loaded stays so.
pub record TakesData (job : SyncJob) (before after : SyncMetadata) : Type 0 where
  pub latest_data_date : after.latest_data_date ≡ job.latest_data_date
  pub last_data_at : after.last_data_at ≡ job.latest_data_date
  pub last_sync_at : after.last_sync_at ≡ job.finished_at
  pub history_stays :
      (t : ℕ)
      → before.history_backfill_completed_at ≡ some t
      → after.history_backfill_completed_at ≡ some t

pub record Shows (job : SyncJob) (before after : SyncMetadata) : Type 0 where
  pub job_id : after.last_sync_job_id ≡ some job.id
  pub status : after.sync_status ≡ some job.status
  pub code : after.sync_error_code ≡ job.error_code
  pub retry :
      (after.sync_retryable ≡ job.retryable) × (after.sync_next_retry_at ≡ job.next_retry_at)
  pub attempt :
      (after.sync_attempt ≡ job.attempt) × (after.last_sync_attempt_at ≡ some job.started_at)
  pub on_error :
      job.status ≡ error
      → KeepsData before after × (after.last_sync_success_at ≡ before.last_sync_success_at)
  pub on_success : job.status ≡ success → after.last_sync_success_at ≡ job.finished_at
  pub on_no_rows : job.status ≡ success → job.provider_rows_received ≡ 0 → KeepsData before after
  pub on_rows : job.status ≡ success → 1 ≤ job.provider_rows_received → TakesData job before after

history_kept :
    (has_rows initial : Bool) (mark : Option ℕ) (now t : ℕ)
    → mark ≡ some t
    → (if has_rows && initial && not (is_some mark) then some now else mark) ≡ some t
history_kept has_rows initial none now t h = absurd (cc (h))
history_kept has_rows initial (some k) now t h = elim (Bool-cases (has_rows && initial && false)) [
  | inl on ↦ absurd (ground arith)
  | inr off ↦ rw off h
]

module _ (w : Windows) (args : RunArgs) (a : Account) (provider : String) (range : ℕ × ℕ)
    (id started_at finished_at : ℕ) where
  abbrev job_for : Settled → SyncJob
  job_for r = job_of a provider range args.created_by id started_at finished_at r

  abbrev metadata_for : Settled → SyncMetadata
  metadata_for r = next_metadata w args a id started_at finished_at r

  on_error-Shows : (r : Settled) → r.status ≡ error → Shows (job_for r) a.metadata (metadata_for r)
  unfolding next_metadata attempted_metadata job_of
  on_error-Shows r e = rw e (record {
    job_id = refl;
    status = refl;
    code = refl;
    retry = (refl, refl);
    attempt = (refl, refl);
    on_error = λ _. (
      record { latest_data_date = refl; last_data_at = refl; last_sync_at = refl; history = refl },
      refl,
    );
    on_success = λ h. absurd (cc (h));
    on_no_rows = λ h. absurd (cc (h));
    on_rows = λ h. absurd (cc (h));
  })

  on_success-Shows :
      (r : Settled) → r.status ≡ success → Shows (job_for r) a.metadata (metadata_for r)
  unfolding next_metadata attempted_metadata success_metadata job_of
  on_success-Shows r e = rw e (record {
    job_id = refl;
    status = refl;
    code = refl;
    retry = (refl, refl);
    attempt = (refl, refl);
    on_error = λ h. absurd (cc (h));
    on_success = λ _. refl;
    on_no_rows = λ _ none_came. record {
      latest_data_date = rw none_came refl;
      last_data_at = rw none_came refl;
      last_sync_at = rw none_came refl;
      history = rw none_came refl;
    };
    on_rows = λ _ came.
        let has_rows : ltb 0 r.rows_received ≡ true = ground arith in
        record {
          latest_data_date = rw has_rows refl;
          last_data_at = rw has_rows refl;
          last_sync_at = rw has_rows refl;
          history_stays = λ t h. history_kept (ltb 0 r.rows_received) _ _ finished_at t h;
        };
  })

  pub next_metadata-Shows : (r : Settled) → Shows (job_for r) a.metadata (metadata_for r)
  next_metadata-Shows r = elim (SyncStatus-cases r.status) [
    | inl failed ↦ on_error-Shows r failed
    | inr done ↦ on_success-Shows r done
  ]
