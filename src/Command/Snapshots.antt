-- ===== src/Command/Snapshots.antt =====
-- The audit snapshots of an execution and the payloads that are hashed
-- (app/services/provider_budget_commands.py).
use Prim.Native.Char.{Char, code}
use Prim.Native.String.{String}
use client_dash_up.Base.{
  ℕ, ◌-◌, Bool, true, false, ◌&&◌, ◌||◌, not, Option, none, some, List, [], ◌∷◌, ◌==◌, leb,
  if◌then◌else◌, length,
}
use client_dash_up.Base.Text.{codes, str_eq}
use client_dash_up.Base.Outcome.{◌>>◌, raise_if}
use client_dash_up.Command.Types.{
  ActorRole, AgencyMemberRole, Fallible, conflict_error, provider_error, plain_error,
  BudgetSnapshot, BudgetChangeRequest, BudgetActorContext, BudgetCredentialContext,
  BudgetExecutionAuthorization, BudgetAuthorizationSnapshot, BudgetCredentialAuditSnapshot,
  ProviderBudgetCommand,
}
use client_dash_up.Command.Authorize.{
  target_type_eq, field_eq, budget_authorization_snapshot, budget_credential_audit_snapshot,
}
use client_dash_up.Command.Store.{strip}

abbrev char_at : ℕ → String → Char → Char
char_at n String.[] default = default
char_at n (String.◌∷◌ c s) default =
    let rest = char_at (n - 1) s default in if n == 0 then c else rest

-- `str.lower` on the characters that it can turn into an ASCII letter; the Kelvin sign is one.
unfoldable pub lower_char : Char → Char
lower_char c =
    if leb b'A' (code c) && leb (code c) b'Z'
    then char_at (code c - b'A') "abcdefghijklmnopqrstuvwxyz" c
    else if code c == 8490
    then char_at 10 "abcdefghijklmnopqrstuvwxyz" c
    else c

abbrev pub lower : String → String
lower String.[] = ""
lower (String.◌∷◌ c s) = String.◌∷◌ (lower_char c) (lower s)

-- `[a-z][a-z0-9_]{0,127}`
unfoldable pub is_tail_code : ℕ → Bool
is_tail_code c = leb b'a' c && leb c b'z' || leb b'0' c && leb c b'9' || c == b'_'

abbrev all_tail : List ℕ → Bool
all_tail [] = true
all_tail (c ∷ cs) = is_tail_code c && all_tail cs

unfoldable pub is_failure_code : List ℕ → Bool
is_failure_code [] = false
is_failure_code (c ∷ cs) = leb b'a' c && leb c b'z' && all_tail cs && leb (length cs) 127

abbrev pub text_or : Option String → String → String
text_or none default = default
text_or (some t) default = if str_eq t "" then default else t

-- The code that an audit snapshot keeps of a failed gate.
unfoldable pub safe_failure_code : Option String → String
safe_failure_code failure_code =
    let candidate = strip (text_or failure_code "provider_budget_reauthorization_failed") in
    if is_failure_code (codes (lower candidate))
    then lower candidate
    else "provider_budget_reauthorization_failed"

abbrev pub gate_failure_code : Bool → Option String → Option String
gate_failure_code true failure_code = none
gate_failure_code false failure_code = some (safe_failure_code failure_code)

unfoldable pub budget_execution_authorization_snapshot :
    BudgetExecutionAuthorization
    → BudgetChangeRequest
    → Bool
    → Option String
    → BudgetAuthorizationSnapshot
budget_execution_authorization_snapshot authorization request verified failure_code =
    record (budget_authorization_snapshot authorization.actor request) {
      client_active = some authorization.tenant.client_active;
      account_active = some authorization.tenant.account_active;
      feature_enabled = some authorization.feature_enabled;
      client_rollout_allowed = some authorization.client_rollout_allowed;
      binding_verified = some authorization.binding_verified;
      provider_account_id = some authorization.provider_account_id;
      spend_cap_enabled = some authorization.spend_cap_enabled;
      final_gate_verified = some verified;
      final_gate_failure_code = gate_failure_code verified failure_code;
      snapshot_version = 2;
    }

unfoldable pub budget_execution_failure_snapshot : Option String → BudgetAuthorizationSnapshot
budget_execution_failure_snapshot failure_code = record {
  actor_role = none;
  selected_agency_id = none;
  agency_member_role = none;
  agency_active = false;
  can_admin_provider_write = false;
  can_manage_spend_cap = false;
  has_client_access = false;
  agency_client_bound = false;
  solo_client_owned = false;
  client_active = none;
  account_active = none;
  feature_enabled = none;
  client_rollout_allowed = none;
  binding_verified = none;
  provider_account_id = none;
  spend_cap_enabled = none;
  final_gate_verified = some false;
  final_gate_failure_code = some (safe_failure_code failure_code);
  snapshot_version = 2;
  legacy_unverified = true;
}

unfoldable pub budget_credential_failure_snapshot : Option String → BudgetCredentialAuditSnapshot
budget_credential_failure_snapshot failure_code = record {
  revision = 0;
  meta_app_id = "";
  meta_business_config_id = "";
  meta_user_id = "";
  granted_permissions = [];
  validation_version = 0;
  validated_at = none;
  final_gate_verified = some false;
  final_gate_failure_code = some (safe_failure_code failure_code);
  snapshot_version = 2;
  legacy_unverified = true;
}

unfoldable pub budget_execution_credential_snapshot :
    BudgetCredentialContext → Bool → Option String → BudgetCredentialAuditSnapshot
budget_execution_credential_snapshot credential verified failure_code =
    record (budget_credential_audit_snapshot credential) {
      final_gate_verified = some verified;
      final_gate_failure_code = gate_failure_code verified failure_code;
      snapshot_version = 2;
    }

-- The values of a payload. `uuid` and `instant` stand for the text of a UUID and of an instant.
pub data Json : Type 0 where
  null : Json
  bool : Bool → Json
  number : ℕ → Json
  text : String → Json
  uuid : ℕ → Json
  instant : ℕ → Json
  texts : List String → Json

abbrev pub Payload : Type 0
Payload = List (String × Json)

abbrev pub or_null : {A : Type 0} → (A → Json) → Option A → Json
or_null f none = Json.null
or_null f (some a) = f a

abbrev pub actor_role_value : ActorRole → String
actor_role_value ActorRole.admin = "admin"
actor_role_value ActorRole.agency = "agency"
actor_role_value ActorRole.client = "client"
actor_role_value ActorRole.solo_client = "solo_client"

abbrev pub agency_member_role_value : AgencyMemberRole → String
agency_member_role_value AgencyMemberRole.owner = "owner"
agency_member_role_value AgencyMemberRole.manager = "manager"
agency_member_role_value AgencyMemberRole.member = "member"

-- `BudgetAuthorizationSnapshot.canonical_payload`
unfoldable pub authorization_payload : BudgetAuthorizationSnapshot → Payload
authorization_payload s =
    ("actor_role", or_null (λ r. Json.text (actor_role_value r)) s.actor_role)
    ∷ ("selected_agency_id", or_null Json.uuid s.selected_agency_id)
    ∷ (
      "agency_member_role",
      or_null (λ r. Json.text (agency_member_role_value r)) s.agency_member_role,
    )
    ∷ ("agency_active", Json.bool s.agency_active)
    ∷ ("can_admin_provider_write", Json.bool s.can_admin_provider_write)
    ∷ ("can_manage_spend_cap", Json.bool s.can_manage_spend_cap)
    ∷ ("has_client_access", Json.bool s.has_client_access)
    ∷ ("agency_client_bound", Json.bool s.agency_client_bound)
    ∷ ("solo_client_owned", Json.bool s.solo_client_owned)
    ∷ ("client_active", or_null Json.bool s.client_active)
    ∷ ("account_active", or_null Json.bool s.account_active)
    ∷ ("feature_enabled", or_null Json.bool s.feature_enabled)
    ∷ ("client_rollout_allowed", or_null Json.bool s.client_rollout_allowed)
    ∷ ("binding_verified", or_null Json.bool s.binding_verified)
    ∷ ("provider_account_id", or_null Json.text s.provider_account_id)
    ∷ ("spend_cap_enabled", or_null Json.bool s.spend_cap_enabled)
    ∷ ("final_gate_verified", or_null Json.bool s.final_gate_verified)
    ∷ ("final_gate_failure_code", or_null Json.text s.final_gate_failure_code)
    ∷ ("snapshot_version", Json.number s.snapshot_version)
    ∷ ("legacy_unverified", Json.bool s.legacy_unverified)
    ∷ []

-- `BudgetCredentialAuditSnapshot.canonical_payload`
unfoldable pub credential_payload : BudgetCredentialAuditSnapshot → Payload
credential_payload s =
    ("revision", Json.number s.revision)
    ∷ ("meta_app_id", Json.text s.meta_app_id)
    ∷ ("meta_business_config_id", Json.text s.meta_business_config_id)
    ∷ ("meta_user_id", Json.text s.meta_user_id)
    ∷ ("granted_permissions", Json.texts s.granted_permissions)
    ∷ ("validation_version", Json.number s.validation_version)
    ∷ ("validated_at", or_null Json.instant s.validated_at)
    ∷ ("final_gate_verified", or_null Json.bool s.final_gate_verified)
    ∷ ("final_gate_failure_code", or_null Json.text s.final_gate_failure_code)
    ∷ ("snapshot_version", Json.number s.snapshot_version)
    ∷ ("legacy_unverified", Json.bool s.legacy_unverified)
    ∷ []

-- `_snapshot_matches_request`
unfoldable pub snapshot_matches_request : BudgetSnapshot → BudgetChangeRequest → Fallible Unit
snapshot_matches_request snapshot request = do
  raise_if
      (not (target_type_eq snapshot.target_type request.target_type)
        || not (str_eq snapshot.provider_target_id request.provider_target_id)
        || not (str_eq snapshot.provider_account_id request.provider_account_id)
        || not (field_eq snapshot.field request.field))
      (provider_error (plain_error "provider_target_mismatch" none))
  raise_if (not (str_eq snapshot.currency request.currency))
      (provider_error (plain_error "provider_currency_mismatch" none))

-- `sha256_payload` is the SHA-256 of the canonical JSON text.
module _ (sha256_payload : Payload → String) where
  unfoldable pub assert_context_matches :
      ProviderBudgetCommand → BudgetActorContext → BudgetCredentialContext → Fallible Unit
  assert_context_matches command actor credential = do
    raise_if
        (not (
          str_eq (sha256_payload (authorization_payload command.authorization_snapshot)) (
            sha256_payload
              (authorization_payload (budget_authorization_snapshot actor command.request)))))
        (conflict_error "provider_budget_authorization_changed")
    raise_if
        (not (
          str_eq (sha256_payload (credential_payload command.credential_snapshot))
            (sha256_payload (credential_payload (budget_credential_audit_snapshot credential)))))
        (conflict_error "provider_budget_credential_changed")
