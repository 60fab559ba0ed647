-- ===== src/Command/Preview/Payloads.antt =====
-- The documents that are hashed or signed for a preview
-- (app/services/provider_budget_commands.py).
use Prim.Native.String.{String}
use client_dash_up.Base.{ℕ, Option, none, some, List, [], ◌∷◌, map, if◌then◌else◌}
use client_dash_up.Base.Text.{str_eq}
use client_dash_up.Command.Types.{
  BudgetTargetType, BudgetField, BudgetChangeRequest, BudgetAuthorizationSnapshot,
  BudgetCredentialAuditSnapshot,
}
use client_dash_up.Command.Snapshots.{Json, Payload, authorization_payload, credential_payload}

-- A value of a document: a plain one or a dictionary of plain ones.
pub data Entry : Type 0 where
  plain : Json → Entry
  dict : Payload → Entry

abbrev pub Document : Type 0
Document = List (String × Entry)

abbrev pub plain_entry : String × Json → String × Entry
plain_entry (k, v) = (k, plain v)

-- A dictionary of plain values as a document.
abbrev pub flat : Payload → Document
flat = map plain_entry

-- `payload[key]`; a dictionary has one entry for a key.
abbrev pub item : String → Payload → Option Json
item k [] = none
item k ((j, v) ∷ p) = let rest = item k p in if str_eq j k then some v else rest

abbrev pub target_type_value : BudgetTargetType → String
target_type_value BudgetTargetType.campaign = "campaign"
target_type_value BudgetTargetType.ad_set = "ad_set"
target_type_value BudgetTargetType.account = "account"

abbrev pub field_value : BudgetField → String
field_value BudgetField.daily_budget = "daily_budget"
field_value BudgetField.lifetime_budget = "lifetime_budget"
field_value BudgetField.spend_cap = "spend_cap"

abbrev pub nullable : {A : Type 0} → (A → Json) → Option A → Json
nullable f none = Json.null
nullable f (some a) = f a

-- `BudgetChangeRequest.canonical_payload`
unfoldable pub request_payload : BudgetChangeRequest → Payload
request_payload r =
    ("provider", Json.text "meta")
    ∷ ("client_id", Json.uuid r.client_id)
    ∷ ("ad_account_id", Json.uuid r.ad_account_id)
    ∷ ("provider_account_id", Json.text r.provider_account_id)
    ∷ ("credential_id", Json.uuid r.credential_id)
    ∷ ("agency_id", nullable Json.uuid r.agency_id)
    ∷ ("target_type", Json.text (target_type_value r.target_type))
    ∷ ("provider_target_id", Json.text r.provider_target_id)
    ∷ ("field", Json.text (field_value r.field))
    ∷ ("amount_minor", Json.number r.amount_minor)
    ∷ ("currency", Json.text r.currency)
    ∷ ("expected_current_minor", nullable Json.number r.expected_current_minor)
    ∷ ("reason", Json.text r.reason)
    ∷ ("source_action_id", nullable Json.uuid r.source_action_id)
    ∷ []

-- Who previews what, under which authorisation and connection.
pub record Context : Type 0 where
  pub request : BudgetChangeRequest
  pub actor_user_id : ℕ
  pub authorization_snapshot : BudgetAuthorizationSnapshot
  pub credential_snapshot : BudgetCredentialAuditSnapshot

-- The document of the request's proof.
unfoldable pub context_document : Context → Document
context_document c =
    ("actor_user_id", plain (Json.uuid c.actor_user_id))
    ∷ ("request", dict (request_payload c.request))
    ∷ ("authorization_snapshot", dict (authorization_payload c.authorization_snapshot))
    ∷ ("credential_snapshot", dict (credential_payload c.credential_snapshot))
    ∷ []

-- The document of `command_idempotency_hash`.
unfoldable pub command_document : BudgetChangeRequest → ℕ → String → ℕ → Document
command_document request actor_user_id preview_request_digest observed_before_minor =
    ("actor_user_id", plain (Json.uuid actor_user_id))
    ∷ ("request", dict (request_payload request))
    ∷ ("preview_request_hash", plain (Json.text preview_request_digest))
    ∷ ("observed_before_minor", plain (Json.number observed_before_minor))
    ∷ []
