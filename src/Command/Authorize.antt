-- ===== src/Command/Authorize.antt =====
-- `authorize_budget_write`, `authorize_budget_reconciliation` and the two snapshots of what they
-- saw (app/services/provider_budget_commands.py).
use client_dash_up.Base.{
  ℕ, Bool, true, false, not, ◌&&◌, ◌||◌, Option, none, some, List, ◌==◌, opt_eq, is_some, any,
}
use client_dash_up.Base.Text.{str_eq}
use client_dash_up.Base.Outcome.{err, ◌>>◌, raise_if, branch}
use client_dash_up.Command.Types.{
  BudgetTargetType, BudgetField, ActorRole, CredentialScope, AgencyMemberRole, Fallible,
  policy_error, BudgetChangeRequest, BudgetActorContext, BudgetTenantContext,
  BudgetCredentialContext, BudgetAuthorizationSnapshot, BudgetCredentialAuditSnapshot,
}

abbrev pub target_type_eq : BudgetTargetType → BudgetTargetType → Bool
target_type_eq BudgetTargetType.campaign BudgetTargetType.campaign = true
target_type_eq BudgetTargetType.ad_set BudgetTargetType.ad_set = true
target_type_eq BudgetTargetType.account BudgetTargetType.account = true
target_type_eq _ _ = false

abbrev pub field_eq : BudgetField → BudgetField → Bool
field_eq BudgetField.daily_budget BudgetField.daily_budget = true
field_eq BudgetField.lifetime_budget BudgetField.lifetime_budget = true
field_eq BudgetField.spend_cap BudgetField.spend_cap = true
field_eq _ _ = false

abbrev pub is_spend_cap : BudgetField → Bool
is_spend_cap BudgetField.spend_cap = true
is_spend_cap _ = false

abbrev pub is_admin : ActorRole → Bool
is_admin ActorRole.admin = true
is_admin _ = false

abbrev pub is_agency : ActorRole → Bool
is_agency ActorRole.agency = true
is_agency _ = false

abbrev pub is_global_scope : CredentialScope → Bool
is_global_scope CredentialScope.global = true
is_global_scope _ = false

abbrev pub is_agency_scope : CredentialScope → Bool
is_agency_scope CredentialScope.agency = true
is_agency_scope _ = false

abbrev pub is_client_scope : CredentialScope → Bool
is_client_scope CredentialScope.client = true
is_client_scope _ = false

-- `actor.agency_member_role in {OWNER, MANAGER}`
abbrev pub may_manage : Option AgencyMemberRole → Bool
may_manage (some AgencyMemberRole.owner) = true
may_manage (some AgencyMemberRole.manager) = true
may_manage _ = false

-- `id in ids`
abbrev pub has_id : ℕ → List ℕ → Bool
has_id id = any (λ x. x == id)

unfoldable pub authorize_solo :
    BudgetChangeRequest → BudgetActorContext → BudgetCredentialContext → Fallible Unit
authorize_solo request actor credential = do
  raise_if (not (opt_eq actor.solo_owner_client_id (some request.client_id)))
      (policy_error "solo_scope_mismatch")
  raise_if (is_some request.agency_id) (policy_error "solo_agency_conflict")
  raise_if
      (not (is_client_scope credential.scope_type)
        || not (opt_eq credential.scope_id (some request.client_id))
        || not (opt_eq credential.created_by (some actor.user_id)))
      (policy_error "solo_credential_mismatch")
  raise_if (is_spend_cap request.field) (policy_error "spend_cap_forbidden")

unfoldable pub authorize_agency :
    BudgetChangeRequest → BudgetActorContext → BudgetCredentialContext → Fallible Unit
authorize_agency request actor credential = do
  raise_if
      (not (is_some request.agency_id) || not (opt_eq actor.selected_agency_id request.agency_id))
      (policy_error "agency_selection_required")
  raise_if (not actor.agency_active || not (has_id request.client_id actor.agency_bound_client_ids))
      (policy_error "agency_client_access_denied")
  raise_if (not (may_manage actor.agency_member_role)) (policy_error "agency_manage_forbidden")
  raise_if
      (not (is_agency_scope credential.scope_type)
        || not (opt_eq credential.scope_id request.agency_id))
      (policy_error "agency_credential_mismatch")
  raise_if (is_spend_cap request.field && not actor.can_manage_spend_cap)
      (policy_error "spend_cap_forbidden")

unfoldable pub authorize_admin :
    BudgetChangeRequest → BudgetActorContext → BudgetCredentialContext → Fallible Unit
authorize_admin request actor credential = do
  raise_if (not actor.can_admin_provider_write) (policy_error "admin_write_not_delegated")
  raise_if (not (is_global_scope credential.scope_type) || is_some credential.scope_id)
      (policy_error "admin_credential_mismatch")
  raise_if (is_spend_cap request.field && not actor.can_manage_spend_cap)
      (policy_error "spend_cap_forbidden")

-- The branches on `actor.role`.
unfoldable pub authorize_role :
    ActorRole → BudgetChangeRequest → BudgetActorContext → BudgetCredentialContext → Fallible Unit
authorize_role ActorRole.client request actor credential = err (policy_error "client_read_only")
authorize_role ActorRole.solo_client request actor credential =
    authorize_solo request actor credential
authorize_role ActorRole.agency request actor credential = authorize_agency request actor credential
authorize_role ActorRole.admin request actor credential = authorize_admin request actor credential

unfoldable pub authorize_budget_write :
    BudgetChangeRequest
    → BudgetActorContext
    → BudgetTenantContext
    → BudgetCredentialContext
    → Fallible Unit
authorize_budget_write request actor tenant credential = do
  raise_if
      (not (tenant.client_id == request.client_id)
        || not (tenant.account_client_id == request.client_id))
      (policy_error "tenant_mismatch")
  raise_if (not (tenant.ad_account_id == request.ad_account_id)) (policy_error "account_mismatch")
  raise_if (not tenant.client_active || not tenant.account_active) (policy_error "inactive_scope")
  raise_if (not (str_eq tenant.account_platform "meta")) (policy_error "provider_mismatch")
  raise_if (not (credential.id == request.credential_id)) (policy_error "credential_mismatch")
  raise_if (not (str_eq credential.provider "meta") || not (str_eq credential.status "active"))
      (policy_error "credential_unavailable")
  raise_if (credential.expired || not credential.has_ads_management)
      (policy_error "credential_permission_missing")
  raise_if (not (is_admin actor.role) && not (has_id request.client_id actor.accessible_client_ids))
      (policy_error "tenant_access_denied")
  authorize_role actor.role request actor credential

-- `valid_scope` of a recovery by an admin.
unfoldable pub valid_scope : BudgetChangeRequest → BudgetCredentialContext → Bool
valid_scope request credential =
    is_global_scope credential.scope_type && not (is_some credential.scope_id)
    || is_client_scope credential.scope_type && opt_eq credential.scope_id (some request.client_id)
    || is_agency_scope credential.scope_type
      && is_some request.agency_id
      && opt_eq credential.scope_id request.agency_id

-- `recovery_actor`: an agency may recover a spend cap after its switch was turned off.
unfoldable pub recovery_actor : BudgetChangeRequest → BudgetActorContext → BudgetActorContext
recovery_actor request actor = record actor {
  can_manage_spend_cap =
      actor.can_manage_spend_cap || is_spend_cap request.field && is_agency actor.role;
}

unfoldable pub authorize_admin_recovery :
    BudgetChangeRequest
    → BudgetActorContext
    → BudgetTenantContext
    → BudgetCredentialContext
    → Fallible Unit
authorize_admin_recovery request actor tenant credential = do
  raise_if (not actor.can_admin_provider_write) (policy_error "admin_write_not_delegated")
  raise_if
      (not (tenant.client_id == request.client_id)
        || not (tenant.account_client_id == request.client_id))
      (policy_error "tenant_mismatch")
  raise_if (not (tenant.ad_account_id == request.ad_account_id)) (policy_error "account_mismatch")
  raise_if
      (not tenant.client_active
        || not tenant.account_active
        || not (str_eq tenant.account_platform "meta"))
      (policy_error "inactive_scope")
  raise_if (not (str_eq credential.provider "meta") || not (str_eq credential.status "active"))
      (policy_error "credential_unavailable")
  raise_if (credential.expired || not credential.has_ads_management)
      (policy_error "credential_permission_missing")
  raise_if (not (valid_scope request credential))
      (policy_error "admin_recovery_credential_mismatch")

unfoldable pub authorize_budget_reconciliation :
    BudgetChangeRequest
    → BudgetActorContext
    → BudgetTenantContext
    → BudgetCredentialContext
    → Fallible Unit
authorize_budget_reconciliation request actor tenant credential =
    branch (is_admin actor.role) (authorize_admin_recovery request actor tenant credential) (
      authorize_budget_write (record request { credential_id = credential.id })
        (recovery_actor request actor) tenant credential)

unfoldable pub budget_authorization_snapshot :
    BudgetActorContext → BudgetChangeRequest → BudgetAuthorizationSnapshot
budget_authorization_snapshot actor request = record {
  actor_role = some actor.role;
  selected_agency_id = actor.selected_agency_id;
  agency_member_role = actor.agency_member_role;
  agency_active = actor.agency_active;
  can_admin_provider_write = actor.can_admin_provider_write;
  can_manage_spend_cap = actor.can_manage_spend_cap;
  has_client_access = is_admin actor.role || has_id request.client_id actor.accessible_client_ids;
  agency_client_bound = has_id request.client_id actor.agency_bound_client_ids;
  solo_client_owned = opt_eq actor.solo_owner_client_id (some request.client_id);
  client_active = none;
  account_active = none;
  feature_enabled = none;
  client_rollout_allowed = none;
  binding_verified = none;
  provider_account_id = none;
  spend_cap_enabled = none;
  final_gate_verified = none;
  final_gate_failure_code = none;
  snapshot_version = 1;
  legacy_unverified = false;
}

unfoldable pub budget_credential_audit_snapshot :
    BudgetCredentialContext → BudgetCredentialAuditSnapshot
budget_credential_audit_snapshot credential = record {
  revision = credential.revision;
  meta_app_id = credential.meta_app_id;
  meta_business_config_id = credential.meta_business_config_id;
  meta_user_id = credential.meta_user_id;
  granted_permissions = credential.granted_permissions;
  validation_version = credential.validation_version;
  validated_at = some credential.validated_at;
  final_gate_verified = none;
  final_gate_failure_code = none;
  snapshot_version = 1;
  legacy_unverified = false;
}
