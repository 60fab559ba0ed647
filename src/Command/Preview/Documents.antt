-- ===== src/Command/Preview/Documents.antt =====
-- The documents of a preview (app/services/provider_budget_commands.py) tell the contexts apart: two
-- contexts with the same document are the same.
use client_dash_up.Base.{zero, suc, ℕ, ◌≡◌, ap, ◌∷◌, []}
use client_dash_up.Command.Types.{
  BudgetChangeRequest, BudgetAuthorizationSnapshot, BudgetCredentialAuditSnapshot,
}
use client_dash_up.Command.Snapshots.{
  Json, Payload, authorization_payload, credential_payload, actor_role_value,
  agency_member_role_value,
}
use client_dash_up.Command.Preview.Payloads.{request_payload, Context, context_document}
use client_dash_up.Command.Preview.Values.{
  actor_role-Tells, agency_member_role-Tells, bool-Tells, field_value-injective, instant-Tells,
  nullable-injective, number-Tells, or_null-injective, target_type_value-injective, text-Tells,
  texts-Tells, uuid-Tells,
}

-- The value at a place of a dictionary.
abbrev value_at : ℕ → Payload → Json
value_at n [] = Json.null
value_at zero ((k, v) ∷ p) = v
value_at (suc n) (e ∷ p) = value_at n p

pub authorization_payload-injective :
    (a b : BudgetAuthorizationSnapshot) → authorization_payload a ≡ authorization_payload b → a ≡ b
unfolding authorization_payload
authorization_payload-injective a b h =
    let actor_role_eq : a.actor_role ≡ b.actor_role =
      or_null-injective (λ r. Json.text (actor_role_value r)) actor_role-Tells a.actor_role
        b.actor_role (ap (value_at 0) h) in
    let selected_agency_id_eq : a.selected_agency_id ≡ b.selected_agency_id =
      or_null-injective Json.uuid uuid-Tells a.selected_agency_id b.selected_agency_id
        (ap (value_at 1) h) in
    let agency_member_role_eq : a.agency_member_role ≡ b.agency_member_role =
      or_null-injective (λ r. Json.text (agency_member_role_value r)) agency_member_role-Tells
        a.agency_member_role b.agency_member_role (ap (value_at 2) h) in
    let agency_active_eq : a.agency_active ≡ b.agency_active =
      bool-Tells.apart _ _ (ap (value_at 3) h) in
    let can_admin_provider_write_eq : a.can_admin_provider_write ≡ b.can_admin_provider_write =
      bool-Tells.apart _ _ (ap (value_at 4) h) in
    let can_manage_spend_cap_eq : a.can_manage_spend_cap ≡ b.can_manage_spend_cap =
      bool-Tells.apart _ _ (ap (value_at 5) h) in
    let has_client_access_eq : a.has_client_access ≡ b.has_client_access =
      bool-Tells.apart _ _ (ap (value_at 6) h) in
    let agency_client_bound_eq : a.agency_client_bound ≡ b.agency_client_bound =
      bool-Tells.apart _ _ (ap (value_at 7) h) in
    let solo_client_owned_eq : a.solo_client_owned ≡ b.solo_client_owned =
      bool-Tells.apart _ _ (ap (value_at 8) h) in
    let client_active_eq : a.client_active ≡ b.client_active =
      or_null-injective Json.bool bool-Tells a.client_active b.client_active (ap (value_at 9) h) in
    let account_active_eq : a.account_active ≡ b.account_active =
      or_null-injective Json.bool bool-Tells a.account_active b.account_active
        (ap (value_at 10) h) in
    let feature_enabled_eq : a.feature_enabled ≡ b.feature_enabled =
      or_null-injective Json.bool bool-Tells a.feature_enabled b.feature_enabled
        (ap (value_at 11) h) in
    let client_rollout_allowed_eq : a.client_rollout_allowed ≡ b.client_rollout_allowed =
      or_null-injective Json.bool bool-Tells a.client_rollout_allowed b.client_rollout_allowed
        (ap (value_at 12) h) in
    let binding_verified_eq : a.binding_verified ≡ b.binding_verified =
      or_null-injective Json.bool bool-Tells a.binding_verified b.binding_verified
        (ap (value_at 13) h) in
    let provider_account_id_eq : a.provider_account_id ≡ b.provider_account_id =
      or_null-injective Json.text text-Tells a.provider_account_id b.provider_account_id
        (ap (value_at 14) h) in
    let spend_cap_enabled_eq : a.spend_cap_enabled ≡ b.spend_cap_enabled =
      or_null-injective Json.bool bool-Tells a.spend_cap_enabled b.spend_cap_enabled
        (ap (value_at 15) h) in
    let final_gate_verified_eq : a.final_gate_verified ≡ b.final_gate_verified =
      or_null-injective Json.bool bool-Tells a.final_gate_verified b.final_gate_verified
        (ap (value_at 16) h) in
    let final_gate_failure_code_eq : a.final_gate_failure_code ≡ b.final_gate_failure_code =
      or_null-injective Json.text text-Tells a.final_gate_failure_code b.final_gate_failure_code
        (ap (value_at 17) h) in
    let snapshot_version_eq : a.snapshot_version ≡ b.snapshot_version =
      number-Tells.apart _ _ (ap (value_at 18) h) in
    let legacy_unverified_eq : a.legacy_unverified ≡ b.legacy_unverified =
      bool-Tells.apart _ _ (ap (value_at 19) h) in
    λ i. record {
      actor_role = actor_role_eq i;
      selected_agency_id = selected_agency_id_eq i;
      agency_member_role = agency_member_role_eq i;
      agency_active = agency_active_eq i;
      can_admin_provider_write = can_admin_provider_write_eq i;
      can_manage_spend_cap = can_manage_spend_cap_eq i;
      has_client_access = has_client_access_eq i;
      agency_client_bound = agency_client_bound_eq i;
      solo_client_owned = solo_client_owned_eq i;
      client_active = client_active_eq i;
      account_active = account_active_eq i;
      feature_enabled = feature_enabled_eq i;
      client_rollout_allowed = client_rollout_allowed_eq i;
      binding_verified = binding_verified_eq i;
      provider_account_id = provider_account_id_eq i;
      spend_cap_enabled = spend_cap_enabled_eq i;
      final_gate_verified = final_gate_verified_eq i;
      final_gate_failure_code = final_gate_failure_code_eq i;
      snapshot_version = snapshot_version_eq i;
      legacy_unverified = legacy_unverified_eq i;
    }

pub credential_payload-injective :
    (a b : BudgetCredentialAuditSnapshot) → credential_payload a ≡ credential_payload b → a ≡ b
unfolding credential_payload
credential_payload-injective a b h =
    let revision_eq : a.revision ≡ b.revision = number-Tells.apart _ _ (ap (value_at 0) h) in
    let meta_app_id_eq : a.meta_app_id ≡ b.meta_app_id = text-Tells.apart _ _ (ap (value_at 1) h) in
    let meta_business_config_id_eq : a.meta_business_config_id ≡ b.meta_business_config_id =
      text-Tells.apart _ _ (ap (value_at 2) h) in
    let meta_user_id_eq : a.meta_user_id ≡ b.meta_user_id =
      text-Tells.apart _ _ (ap (value_at 3) h) in
    let granted_permissions_eq : a.granted_permissions ≡ b.granted_permissions =
      texts-Tells.apart _ _ (ap (value_at 4) h) in
    let validation_version_eq : a.validation_version ≡ b.validation_version =
      number-Tells.apart _ _ (ap (value_at 5) h) in
    let validated_at_eq : a.validated_at ≡ b.validated_at =
      or_null-injective Json.instant instant-Tells a.validated_at b.validated_at
        (ap (value_at 6) h) in
    let final_gate_verified_eq : a.final_gate_verified ≡ b.final_gate_verified =
      or_null-injective Json.bool bool-Tells a.final_gate_verified b.final_gate_verified
        (ap (value_at 7) h) in
    let final_gate_failure_code_eq : a.final_gate_failure_code ≡ b.final_gate_failure_code =
      or_null-injective Json.text text-Tells a.final_gate_failure_code b.final_gate_failure_code
        (ap (value_at 8) h) in
    let snapshot_version_eq : a.snapshot_version ≡ b.snapshot_version =
      number-Tells.apart _ _ (ap (value_at 9) h) in
    let legacy_unverified_eq : a.legacy_unverified ≡ b.legacy_unverified =
      bool-Tells.apart _ _ (ap (value_at 10) h) in
    λ i. record {
      revision = revision_eq i;
      meta_app_id = meta_app_id_eq i;
      meta_business_config_id = meta_business_config_id_eq i;
      meta_user_id = meta_user_id_eq i;
      granted_permissions = granted_permissions_eq i;
      validation_version = validation_version_eq i;
      validated_at = validated_at_eq i;
      final_gate_verified = final_gate_verified_eq i;
      final_gate_failure_code = final_gate_failure_code_eq i;
      snapshot_version = snapshot_version_eq i;
      legacy_unverified = legacy_unverified_eq i;
    }

pub request_payload-injective :
    (a b : BudgetChangeRequest) → request_payload a ≡ request_payload b → a ≡ b
unfolding request_payload
request_payload-injective a b h =
    let client_id_eq : a.client_id ≡ b.client_id = uuid-Tells.apart _ _ (ap (value_at 1) h) in
    let ad_account_id_eq : a.ad_account_id ≡ b.ad_account_id =
      uuid-Tells.apart _ _ (ap (value_at 2) h) in
    let provider_account_id_eq : a.provider_account_id ≡ b.provider_account_id =
      text-Tells.apart _ _ (ap (value_at 3) h) in
    let credential_id_eq : a.credential_id ≡ b.credential_id =
      uuid-Tells.apart _ _ (ap (value_at 4) h) in
    let target_type_eq : a.target_type ≡ b.target_type =
      target_type_value-injective a.target_type b.target_type
        (text-Tells.apart _ _ (ap (value_at 6) h)) in
    let provider_target_id_eq : a.provider_target_id ≡ b.provider_target_id =
      text-Tells.apart _ _ (ap (value_at 7) h) in
    let field_eq : a.field ≡ b.field =
      field_value-injective a.field b.field (text-Tells.apart _ _ (ap (value_at 8) h)) in
    let amount_minor_eq : a.amount_minor ≡ b.amount_minor =
      number-Tells.apart _ _ (ap (value_at 9) h) in
    let currency_eq : a.currency ≡ b.currency = text-Tells.apart _ _ (ap (value_at 10) h) in
    let reason_eq : a.reason ≡ b.reason = text-Tells.apart _ _ (ap (value_at 12) h) in
    let expected_current_minor_eq : a.expected_current_minor ≡ b.expected_current_minor =
      nullable-injective Json.number number-Tells a.expected_current_minor b.expected_current_minor
        (ap (value_at 11) h) in
    let agency_id_eq : a.agency_id ≡ b.agency_id =
      nullable-injective Json.uuid uuid-Tells a.agency_id b.agency_id (ap (value_at 5) h) in
    let source_action_id_eq : a.source_action_id ≡ b.source_action_id =
      nullable-injective Json.uuid uuid-Tells a.source_action_id b.source_action_id
        (ap (value_at 13) h) in
    λ i. record {
      client_id = client_id_eq i;
      ad_account_id = ad_account_id_eq i;
      provider_account_id = provider_account_id_eq i;
      credential_id = credential_id_eq i;
      target_type = target_type_eq i;
      provider_target_id = provider_target_id_eq i;
      field = field_eq i;
      amount_minor = amount_minor_eq i;
      currency = currency_eq i;
      reason = reason_eq i;
      expected_current_minor = expected_current_minor_eq i;
      agency_id = agency_id_eq i;
      source_action_id = source_action_id_eq i;
    }

pub context_document-injective : (a b : Context) → context_document a ≡ context_document b → a ≡ b
unfolding context_document
context_document-injective a b h =
    let request_eq : a.request ≡ b.request =
      request_payload-injective a.request b.request (cc (h)) in
    let actor_eq : a.actor_user_id ≡ b.actor_user_id = cc (h) in
    let authorization_eq : a.authorization_snapshot ≡ b.authorization_snapshot =
      authorization_payload-injective a.authorization_snapshot b.authorization_snapshot (cc (h)) in
    let credential_eq : a.credential_snapshot ≡ b.credential_snapshot =
      credential_payload-injective a.credential_snapshot b.credential_snapshot (cc (h)) in
    λ i. record {
      request = request_eq i;
      actor_user_id = actor_eq i;
      authorization_snapshot = authorization_eq i;
      credential_snapshot = credential_eq i;
    }
