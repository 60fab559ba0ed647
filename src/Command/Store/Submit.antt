-- ===== src/Command/Store/Submit.antt =====
-- `create_or_replay` of `InMemoryBudgetCommandStore` (app/services/provider_budget_commands.py).
use Prim.Native.String.{String}
use client_dash_up.Base.{ℕ, true, false, not, Option, none, some, [], is_some}
use client_dash_up.Base.Text.{str_eq}
use client_dash_up.Base.Outcome.{ok, ◌>>=◌, ◌>>◌, raise_if, or_raise}
use client_dash_up.Command.Types.{
  queued, Fallible, idempotency_conflict_error, not_executable_error, other_exception,
  BudgetChangeRequest, BudgetAuthorizationSnapshot, BudgetCredentialAuditSnapshot,
  ProviderBudgetCommand, CommandSubmission,
}
use client_dash_up.Command.Store.Key.{validate_idempotency_key}
use client_dash_up.Command.Store.State.{target_key, CommandStore, put_item, put_keys}

-- The keyword arguments of `create_or_replay`, but `now`.
pub record NewCommand : Type 0 where
  pub request : BudgetChangeRequest
  pub actor_user_id : ℕ
  pub authorization_snapshot : BudgetAuthorizationSnapshot
  pub credential_snapshot : BudgetCredentialAuditSnapshot
  pub idempotency_key : String
  pub request_hash : String
  pub preview_hash : String
  pub observed_before_minor : ℕ

unfoldable pub queued_command : NewCommand → String → ℕ → ℕ → ProviderBudgetCommand
queued_command n key new_id now = record {
  id = new_id;
  request = n.request;
  actor_user_id = n.actor_user_id;
  authorization_snapshot = n.authorization_snapshot;
  credential_snapshot = n.credential_snapshot;
  status = queued;
  idempotency_key = key;
  request_hash = n.request_hash;
  preview_hash = n.preview_hash;
  observed_before_minor = n.observed_before_minor;
  confirmed_after_minor = none;
  provider_trace_id = none;
  error = none;
  attempt_count = 0;
  attempts = [];
  created_at = now;
  updated_at = now;
  completed_at = none;
}

-- `existing_id is not None`: the key was used.
unfoldable pub replay : ℕ → NewCommand → CommandStore → Fallible (CommandSubmission × CommandStore)
replay existing_id n s = do
  existing ← or_raise (s.items existing_id) other_exception
  raise_if (not (str_eq existing.request_hash n.request_hash))
      (idempotency_conflict_error "idempotency_conflict")
  ok (record { command = existing; replayed = true }, s)

-- A key that was not used before: a new command.
unfoldable pub enqueue :
    NewCommand → String → ℕ → ℕ → CommandStore → Fallible (CommandSubmission × CommandStore)
enqueue n key new_id now s = do
  raise_if (is_some (s.preview_hashes n.preview_hash))
      (idempotency_conflict_error "preview_already_consumed")
  raise_if (is_some (s.target_quarantines (target_key n.request)))
      (not_executable_error "meta_budget_target_quarantined")
  let command = queued_command n key new_id now
  ok (record { command = command; replayed = false }, put_keys command (put_item new_id command s))

unfoldable pub create_or_replay :
    NewCommand → ℕ → ℕ → CommandStore → Fallible (CommandSubmission × CommandStore)
create_or_replay n new_id now s = do
  key ← validate_idempotency_key n.idempotency_key
  elim (s.idempotency n.request.client_id key) [
    | none ↦ enqueue n key new_id now s
    | some existing_id ↦ replay existing_id n s
  ]

abbrev pub get : ℕ → CommandStore → Option ProviderBudgetCommand
get command_id s = s.items command_id

abbrev pub target_quarantine_command_id : BudgetChangeRequest → CommandStore → Option ℕ
target_quarantine_command_id request s = s.target_quarantines (target_key request)
