-- ===== src/Sync/Types.antt =====
-- The data of app/services/ad_account_sync.py: accounts with the metadata that the synchronisation
-- reads and writes, and its jobs (`AdAccountOut` and `AdAccountSyncJobOut` of app/schemas.py). An
-- instant is a number of seconds, a date the number of its day; message texts are left out.
use Prim.Native.String.{String}
use client_dash_up.Base.{◌≡◌, ◌⊎◌, inl, inr, refl, ℕ, ◌/◌, Bool, Option, none, some}

pub data SyncStatus : Type 0 where
  success error : SyncStatus

pub SyncStatus-cases : (s : SyncStatus) → (s ≡ error) ⊎ (s ≡ success)
SyncStatus-cases error = inl refl
SyncStatus-cases success = inr refl

-- The keys of `account.metadata`; a key that is missing is `none`, and the dates can be read.
pub record SyncMetadata : Type 0 where
  pub history_backfill_completed_at : Option ℕ
  pub history_backfill_window_days : Option ℕ
  pub latest_data_date : Option ℕ
  pub last_data_at : Option ℕ
  pub last_sync_at : Option ℕ
  pub integration_credential_id : Option ℕ
  pub meta_rediscovery_required : Bool
  pub last_sync_attempt_at : Option ℕ
  pub last_sync_success_at : Option ℕ
  pub sync_status : Option SyncStatus
  pub sync_error_code : Option String
  pub sync_error_category : Option String
  pub sync_retryable : Bool
  pub sync_next_retry_at : Option ℕ
  pub sync_attempt : ℕ
  pub last_sync_job_id : Option ℕ
  pub sync_data_status : Option String

pub record Account : Type 0 where
  pub id : ℕ
  pub client_id : ℕ
  pub platform : String
  pub external_account_id : String
  pub metadata : SyncMetadata
  pub last_sync_at : Option ℕ

pub record SyncJob : Type 0 where
  pub id : ℕ
  pub ad_account_id : ℕ
  pub provider : String
  pub status : SyncStatus
  pub started_at : ℕ
  pub finished_at : Option ℕ
  pub records_synced : ℕ
  pub error_code : Option String
  pub error_category : Option String
  pub retryable : Bool
  pub attempt : ℕ
  pub next_retry_at : Option ℕ
  pub date_from : ℕ
  pub date_to : ℕ
  pub provider_rows_received : ℕ
  pub latest_data_date : Option ℕ
  pub created_by : Option ℕ
  pub created_at : ℕ

-- `.date()` of an instant.
abbrev pub day_of : ℕ → ℕ
day_of instant = instant / 86400

abbrev pub day_of? : Option ℕ → Option ℕ
day_of? none = none
day_of? (some instant) = some (day_of instant)
