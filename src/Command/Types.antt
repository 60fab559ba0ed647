-- ===== src/Command/Types.antt =====
-- The data of app/services/provider_budget_commands.py: requests, contexts, snapshots, commands
-- and the exceptions. A UUID is a number that is only compared, an instant is a number of microseconds,
-- an amount is an integer of minor units. Message texts are left out.
use Prim.Native.String.{String}
use client_dash_up.Base.{ℕ, Bool, false, Option, none, List}
use client_dash_up.Base.Outcome.{Outcome}

pub data BudgetTargetType : Type 0 where
  campaign ad_set account : BudgetTargetType

pub data BudgetField : Type 0 where
  daily_budget lifetime_budget spend_cap : BudgetField

pub data BudgetCommandStatus : Type 0 where
  previewed queued in_progress applied conflict failed unknown : BudgetCommandStatus

pub data ActorRole : Type 0 where
  admin agency client solo_client : ActorRole

pub data CredentialScope : Type 0 where
  global agency client : CredentialScope

pub data AgencyMemberRole : Type 0 where
  owner manager member : AgencyMemberRole

pub record SanitizedProviderError : Type 0 where
  pub code : String
  pub subcode : Option String
  pub trace_id : Option String
  pub retryable : Bool

-- The exceptions by class, with their codes; the last constructor is any other `Exception`.
pub data Failure : Type 0 where
  validation_error : String → Failure
  policy_error : String → Failure
  preview_token_error : String → Failure
  preview_expired_error : String → Failure
  idempotency_conflict_error : String → Failure
  conflict_error : String → Failure
  not_executable_error : String → Failure
  provider_error : SanitizedProviderError → Failure
  write_outcome_unknown : SanitizedProviderError → Failure
  other_exception : Failure

abbrev pub Fallible : Type 0 → Type 0
Fallible A = Outcome Failure A

-- `SanitizedProviderError(code=...)` with its defaults.
abbrev pub plain_error : String → Option String → SanitizedProviderError
plain_error code trace_id = record {
  code = code;
  subcode = none;
  trace_id = trace_id;
  retryable = false;
}

pub record BudgetChangeRequest : Type 0 where
  pub client_id : ℕ
  pub ad_account_id : ℕ
  pub provider_account_id : String
  pub credential_id : ℕ
  pub target_type : BudgetTargetType
  pub provider_target_id : String
  pub field : BudgetField
  pub amount_minor : ℕ
  pub currency : String
  pub reason : String
  pub expected_current_minor : Option ℕ
  pub agency_id : Option ℕ
  pub source_action_id : Option ℕ

pub record BudgetSnapshot : Type 0 where
  pub target_type : BudgetTargetType
  pub provider_target_id : String
  pub provider_account_id : String
  pub field : BudgetField
  pub amount_minor : ℕ
  pub currency : String
  pub observed_at : ℕ
  pub provider_trace_id : Option String

pub record ProviderWriteReceipt : Type 0 where
  pub accepted : Bool
  pub provider_trace_id : Option String

-- The sets of client ids are lists that are only searched.
pub record BudgetActorContext : Type 0 where
  pub user_id : ℕ
  pub role : ActorRole
  pub accessible_client_ids : List ℕ
  pub selected_agency_id : Option ℕ
  pub agency_active : Bool
  pub agency_member_role : Option AgencyMemberRole
  pub agency_bound_client_ids : List ℕ
  pub solo_owner_client_id : Option ℕ
  pub can_admin_provider_write : Bool
  pub can_manage_spend_cap : Bool

pub record BudgetTenantContext : Type 0 where
  pub client_id : ℕ
  pub ad_account_id : ℕ
  pub account_client_id : ℕ
  pub client_active : Bool
  pub account_active : Bool
  pub account_platform : String

pub record BudgetCredentialContext : Type 0 where
  pub id : ℕ
  pub provider : String
  pub status : String
  pub scope_type : CredentialScope
  pub scope_id : Option ℕ
  pub created_by : Option ℕ
  pub has_ads_management : Bool
  pub revision : ℕ
  pub meta_app_id : String
  pub meta_business_config_id : String
  pub meta_user_id : String
  pub granted_permissions : List String
  pub validation_version : ℕ
  pub validated_at : ℕ
  pub expired : Bool

pub record BudgetExecutionAuthorization : Type 0 where
  pub actor : BudgetActorContext
  pub tenant : BudgetTenantContext
  pub credential : BudgetCredentialContext
  pub provider_account_id : String
  pub feature_enabled : Bool
  pub client_rollout_allowed : Bool
  pub binding_verified : Bool
  pub spend_cap_enabled : Bool

pub record BudgetAuthorizationSnapshot : Type 0 where
  pub actor_role : Option ActorRole
  pub selected_agency_id : Option ℕ
  pub agency_member_role : Option AgencyMemberRole
  pub agency_active : Bool
  pub can_admin_provider_write : Bool
  pub can_manage_spend_cap : Bool
  pub has_client_access : Bool
  pub agency_client_bound : Bool
  pub solo_client_owned : Bool
  pub client_active : Option Bool
  pub account_active : Option Bool
  pub feature_enabled : Option Bool
  pub client_rollout_allowed : Option Bool
  pub binding_verified : Option Bool
  pub provider_account_id : Option String
  pub spend_cap_enabled : Option Bool
  pub final_gate_verified : Option Bool
  pub final_gate_failure_code : Option String
  pub snapshot_version : ℕ
  pub legacy_unverified : Bool

pub record BudgetCredentialAuditSnapshot : Type 0 where
  pub revision : ℕ
  pub meta_app_id : String
  pub meta_business_config_id : String
  pub meta_user_id : String
  pub granted_permissions : List String
  pub validation_version : ℕ
  pub validated_at : Option ℕ
  pub final_gate_verified : Option Bool
  pub final_gate_failure_code : Option String
  pub snapshot_version : ℕ
  pub legacy_unverified : Bool

pub record BudgetCommandAttempt : Type 0 where
  pub attempt_no : ℕ
  pub started_at : ℕ
  pub finished_at : ℕ
  pub outcome : BudgetCommandStatus
  pub observed_before_minor : Option ℕ
  pub confirmed_after_minor : Option ℕ
  pub provider_trace_id : Option String
  pub error : Option SanitizedProviderError
  pub reconciliation : Bool
  pub actor_user_id : Option ℕ
  pub credential_id : Option ℕ
  pub authorization_snapshot : Option BudgetAuthorizationSnapshot
  pub credential_snapshot : Option BudgetCredentialAuditSnapshot

pub record ProviderBudgetCommand : Type 0 where
  pub id : ℕ
  pub request : BudgetChangeRequest
  pub actor_user_id : ℕ
  pub authorization_snapshot : BudgetAuthorizationSnapshot
  pub credential_snapshot : BudgetCredentialAuditSnapshot
  pub status : BudgetCommandStatus
  pub idempotency_key : String
  pub request_hash : String
  pub preview_hash : String
  pub observed_before_minor : ℕ
  pub confirmed_after_minor : Option ℕ
  pub provider_trace_id : Option String
  pub error : Option SanitizedProviderError
  pub attempt_count : ℕ
  pub attempts : List BudgetCommandAttempt
  pub created_at : ℕ
  pub updated_at : ℕ
  pub completed_at : Option ℕ

pub record CommandSubmission : Type 0 where
  pub command : ProviderBudgetCommand
  pub replayed : Bool
