-- ===== src/Command/Preview/Service.antt =====
-- `preview` and `submit` of `ProviderBudgetCommandService` and `command_idempotency_hash`
-- (app/services/provider_budget_commands.py).
use Prim.Native.String.{String}
use client_dash_up.Base.{ℕ, Bool, false, not, Option, none, some, List, ◌==◌}
use client_dash_up.Base.Outcome.{ok, err, ◌>>=◌, ◌>>◌, raise_if, or_raise}
use client_dash_up.Command.Types.{
  Fallible, validation_error, conflict_error, BudgetChangeRequest, BudgetSnapshot,
  BudgetActorContext, BudgetTenantContext, BudgetCredentialContext, CommandSubmission,
}
use client_dash_up.Command.Authorize.{
  authorize_budget_write, budget_authorization_snapshot, budget_credential_audit_snapshot,
}
use client_dash_up.Command.Store.{
  CommandStore, NewCommand, create_or_replay, validate_idempotency_key,
}
use client_dash_up.Command.Snapshots.{snapshot_matches_request}
use client_dash_up.Command.Provider.{Adapter}
use client_dash_up.Command.Preview.Payloads.{Context, command_document}
use client_dash_up.Command.Preview.Signer.{
  Primitives, BudgetPreview, VerifiedPreview, issue, verify,
}

-- The signer of a service, if it has one: its time to live; the secret is in the primitives.
abbrev pub Signer : Type 0
Signer = Option ℕ

abbrev pub context_of : BudgetChangeRequest → BudgetActorContext → BudgetCredentialContext → Context
context_of request actor credential = record {
  request = request;
  actor_user_id = actor.user_id;
  authorization_snapshot = budget_authorization_snapshot actor request;
  credential_snapshot = budget_credential_audit_snapshot credential;
}

-- The checks that both methods begin with.
unfoldable pub authorized_signer :
    Signer
    → BudgetChangeRequest
    → BudgetActorContext
    → BudgetTenantContext
    → BudgetCredentialContext
    → Fallible ℕ
authorized_signer signer request actor tenant credential = do
  ttl_seconds ← or_raise signer (validation_error "preview_signer_unavailable")
  authorize_budget_write request actor tenant credential
  ok ttl_seconds

abbrev pub is_expected : Option ℕ → ℕ → Bool
is_expected none amount = false
is_expected (some n) amount = not (amount == n)

-- What `preview` does with the reading of the provider.
unfoldable pub preview_reading :
    Primitives
    → ℕ
    → BudgetChangeRequest
    → BudgetActorContext
    → BudgetCredentialContext
    → ℕ
    → String
    → BudgetSnapshot
    → Fallible BudgetPreview
preview_reading p ttl_seconds request actor credential now nonce snapshot = do
  snapshot_matches_request snapshot request
  raise_if (snapshot.amount_minor == request.amount_minor)
      (conflict_error "provider_budget_no_change")
  raise_if (is_expected request.expected_current_minor snapshot.amount_minor)
      (conflict_error "expected_budget_changed")
  issue p ttl_seconds (context_of request actor credential) snapshot.amount_minor now nonce

-- `preview` over the provider's state, which it only reads.
module _ {S : Type 0} (p : Primitives) (signer : Signer) (adapter : Adapter S)
    (request : BudgetChangeRequest) (actor : BudgetActorContext) (tenant : BudgetTenantContext)
    (credential : BudgetCredentialContext) (now : ℕ) (nonce : String) (s : S) where
  -- From the reading on, unless the checks have raised.
  abbrev pub read_and_issue : Fallible ℕ → Fallible BudgetPreview × S
  read_and_issue (err x) = (err x, s)
  read_and_issue (ok ttl_seconds) = (
    (adapter.read_budget request s).0
        >>= preview_reading p ttl_seconds request actor credential now nonce,
    (adapter.read_budget request s).1,
  )

  unfoldable pub preview : Fallible BudgetPreview × S
  preview = read_and_issue (authorized_signer signer request actor tenant credential)

-- `command_idempotency_hash`
unfoldable pub command_idempotency_hash : Primitives → BudgetChangeRequest → ℕ → String → ℕ → String
command_idempotency_hash p request actor_user_id preview_request_digest observed_before_minor =
    p.sha256_hex (
      p.canonical_json
        (command_document request actor_user_id preview_request_digest observed_before_minor))

unfoldable pub submitted_command : Primitives → Context → String → VerifiedPreview → NewCommand
submitted_command p c key verified = record {
  request = c.request;
  actor_user_id = c.actor_user_id;
  authorization_snapshot = c.authorization_snapshot;
  credential_snapshot = c.credential_snapshot;
  idempotency_key = key;
  request_hash =
      command_idempotency_hash p c.request c.actor_user_id verified.request_hash
        verified.observed_before_minor;
  preview_hash = verified.preview_hash;
  observed_before_minor = verified.observed_before_minor;
}

unfoldable pub submit :
    Primitives
    → Signer
    → BudgetChangeRequest
    → List ℕ
    → String
    → BudgetActorContext
    → BudgetTenantContext
    → BudgetCredentialContext
    → ℕ
    → ℕ
    → CommandStore
    → Fallible (CommandSubmission × CommandStore)
submit p signer request preview_token idempotency_key actor tenant credential new_id now store = do
  let c = context_of request actor credential
  ttl_seconds ← authorized_signer signer request actor tenant credential
  verified ← verify p ttl_seconds preview_token c now
  key ← validate_idempotency_key idempotency_key
  create_or_replay (submitted_command p c key verified) new_id now store
