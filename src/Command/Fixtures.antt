-- ===== src/Command/Fixtures.antt =====
-- A budget change, its contexts and a provider that keeps one amount, for the runs of
-- app/services/provider_budget_commands.py.
use Prim.Native.Char.{Char}
use Prim.Native.String.{String}
use client_dash_up.Base.{ℕ, true, false, none, some, [], ◌∷◌}
use client_dash_up.Base.Outcome.{ok}
use client_dash_up.Command.Types.{
  BudgetTargetType, BudgetField, ActorRole, CredentialScope, AgencyMemberRole, BudgetChangeRequest,
  BudgetSnapshot, BudgetActorContext, BudgetTenantContext, BudgetCredentialContext,
  BudgetExecutionAuthorization,
}
use client_dash_up.Command.Snapshots.{Json, Payload}
use client_dash_up.Command.Provider.{Adapter, Env, no_locals}

abbrev pub request : BudgetChangeRequest
request = record {
  client_id = 7;
  ad_account_id = 21;
  provider_account_id = "1001";
  credential_id = 5;
  target_type = BudgetTargetType.campaign;
  provider_target_id = "2002";
  field = BudgetField.daily_budget;
  amount_minor = 5000;
  currency = "USD";
  reason = "pacing";
  expected_current_minor = none;
  agency_id = some 3;
  source_action_id = none;
}

abbrev pub actor : BudgetActorContext
actor = record {
  user_id = 9;
  role = ActorRole.agency;
  accessible_client_ids = 7 ∷ [];
  selected_agency_id = some 3;
  agency_active = true;
  agency_member_role = some AgencyMemberRole.manager;
  agency_bound_client_ids = 7 ∷ [];
  solo_owner_client_id = none;
  can_admin_provider_write = false;
  can_manage_spend_cap = false;
}

abbrev pub tenant : BudgetTenantContext
tenant = record {
  client_id = 7;
  ad_account_id = 21;
  account_client_id = 7;
  client_active = true;
  account_active = true;
  account_platform = "meta";
}

abbrev pub credential : BudgetCredentialContext
credential = record {
  id = 5;
  provider = "meta";
  status = "active";
  scope_type = CredentialScope.agency;
  scope_id = some 3;
  created_by = none;
  has_ads_management = true;
  revision = 1;
  meta_app_id = "app";
  meta_business_config_id = "config";
  meta_user_id = "user";
  granted_permissions = "ads_management" ∷ [];
  validation_version = 1;
  validated_at = 1;
  expired = false;
}

-- A hash for the runs: the kinds of the values.
abbrev pub mark : Json → Char
mark Json.null = "n"
mark (Json.bool true) = "t"
mark (Json.bool false) = "f"
mark _ = "x"

abbrev pub digest : Payload → String
digest [] = ""
digest (p ∷ ps) = String.◌∷◌ (mark p.1) (digest ps)

-- A provider that keeps one amount.
abbrev pub shown : BudgetChangeRequest → ℕ → BudgetSnapshot
shown q amount = record {
  target_type = q.target_type;
  provider_target_id = q.provider_target_id;
  provider_account_id = q.provider_account_id;
  field = q.field;
  amount_minor = amount;
  currency = q.currency;
  observed_at = 1;
  provider_trace_id = some "trace";
}

abbrev pub live : BudgetExecutionAuthorization
live = record {
  actor = actor;
  tenant = tenant;
  credential = credential;
  provider_account_id = "1001";
  feature_enabled = true;
  client_rollout_allowed = true;
  binding_verified = true;
  spend_cap_enabled = false;
}

abbrev pub adapter : Adapter ℕ
adapter = record {
  read_budget = λ q amount. (ok (shown q amount), amount);
  write_budget =
      λ q amount. (ok (record { accepted = true; provider_trace_id = none }), q.amount_minor);
  before_provider_write = none;
  reauthorize_before_write = some (λ command amount. (ok live, amount));
}

abbrev pub start : Env ℕ
start = record { provider = 4000; writes = []; locals = no_locals }
