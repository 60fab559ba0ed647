-- ===== src/Command/Service/Methods/Execute.antt =====
-- `execute` of `ProviderBudgetCommandService` (app/services/provider_budget_commands.py).
use Prim.Native.String.{String}
use client_dash_up.Base.{ℕ, false, not, Option, none, some, ◌==◌, if◌then◌else◌}
use client_dash_up.Base.Outcome.{ok, err, ◌>>=◌, ◌>>◌, raise_if, or_raise}
use client_dash_up.Command.Types.{
  BudgetCommandStatus, applied, SanitizedProviderError, Fallible, policy_error,
  not_executable_error, BudgetChangeRequest, BudgetActorContext, BudgetTenantContext,
  BudgetCredentialContext, BudgetAuthorizationSnapshot, BudgetCredentialAuditSnapshot,
  ProviderBudgetCommand,
}
use client_dash_up.Command.Authorize.{
  authorize_budget_write, budget_authorization_snapshot, budget_credential_audit_snapshot,
}
use client_dash_up.Command.Store.{CommandStore, Finish, get, claim_queued, finish_execution}
use client_dash_up.Command.Snapshots.{
  Payload, assert_context_matches, budget_execution_authorization_snapshot,
  budget_execution_failure_snapshot, budget_execution_credential_snapshot,
  budget_credential_failure_snapshot,
}
use client_dash_up.Command.Provider.{Adapter, Locals, no_locals, Env}
use client_dash_up.Command.Service.Attempt.{Verdict, attempt_write, verdict, verdict_trace}

abbrev pub error_code : Option SanitizedProviderError → Option String
error_code none = none
error_code (some e) = some e.code

-- The snapshots of the attempt, by how far the final gate came.
unfoldable pub attempt_authorization :
    Locals
    → BudgetActorContext
    → BudgetChangeRequest
    → Option SanitizedProviderError
    → BudgetAuthorizationSnapshot
attempt_authorization l actor request error = elim l.final_authorization [
  | some authorization ↦
      budget_execution_authorization_snapshot authorization request l.final_gate_verified
        (error_code error)
  | none ↦
      if l.final_gate_attempted
      then budget_execution_failure_snapshot (error_code error)
      else budget_authorization_snapshot actor request
]

unfoldable pub attempt_credential :
    Locals → BudgetCredentialContext → Option SanitizedProviderError → BudgetCredentialAuditSnapshot
attempt_credential l credential error = elim l.final_authorization [
  | some authorization ↦
      budget_execution_credential_snapshot authorization.credential l.final_gate_verified
        (error_code error)
  | none ↦
      if l.final_gate_attempted
      then budget_credential_failure_snapshot (error_code error)
      else budget_credential_audit_snapshot credential
]

unfoldable pub attempt_credential_id : Locals → BudgetCredentialContext → Option ℕ
attempt_credential_id l credential = elim l.final_authorization [
  | some authorization ↦ some authorization.credential.id
  | none ↦ if l.final_gate_attempted then none else some credential.id
]

-- `attempt_actor.user_id`
unfoldable pub attempt_actor_id : Locals → BudgetActorContext → ℕ
attempt_actor_id l actor = elim l.final_authorization [
  | some authorization ↦ authorization.actor.user_id
  | none ↦ actor.user_id
]

-- `x if status == APPLIED else None`
abbrev pub if_applied : BudgetCommandStatus → Option ℕ → Option ℕ
if_applied applied x = x
if_applied _ x = none

-- What `execute` tells the store.
unfoldable pub execution_finish :
    ProviderBudgetCommand
    → BudgetActorContext
    → BudgetCredentialContext
    → ℕ
    → ℕ
    → Locals
    → Verdict
    → Option String
    → Finish
execution_finish command actor credential started_at finished_at l v trace_id = record {
  status = v.0;
  attempt = record {
    attempt_no = command.attempt_count;
    started_at = started_at;
    finished_at = finished_at;
    outcome = v.0;
    observed_before_minor = l.before_minor;
    confirmed_after_minor = l.after_minor;
    provider_trace_id = trace_id;
    error = v.1;
    reconciliation = false;
    actor_user_id = some (attempt_actor_id l actor);
    credential_id = attempt_credential_id l credential;
    authorization_snapshot = some (attempt_authorization l actor command.request v.1);
    credential_snapshot = some (attempt_credential l credential v.1);
  };
  confirmed_after_minor = if_applied v.0 l.after_minor;
  provider_trace_id = trace_id;
  error = v.1;
}

-- How a call that may have reached the provider ends: the result, the store, the provider.
abbrev pub Ended : Type 0 → Type 0
Ended S = Fallible ProviderBudgetCommand × CommandStore × Env S

abbrev pub stored :
    {S : Type 0} → Fallible (ProviderBudgetCommand × CommandStore) → CommandStore → Env S → Ended S
stored (ok (command, s')) s e = (ok command, s', e)
stored (err x) s e = (err x, s, e)

module _ (sha256_payload : Payload → String) where
  -- Up to the claim.
  unfoldable pub begin_execution :
      ℕ
      → BudgetActorContext
      → BudgetTenantContext
      → BudgetCredentialContext
      → ℕ
      → CommandStore
      → Fallible (ProviderBudgetCommand × CommandStore)
  begin_execution command_id actor tenant credential started_at s = do
    existing ← or_raise (get command_id s) (not_executable_error "command_not_found")
    raise_if (not (existing.actor_user_id == actor.user_id)) (policy_error "command_actor_mismatch")
    authorize_budget_write existing.request actor tenant credential
    assert_context_matches sha256_payload existing actor credential
    claim_queued command_id started_at s

module _ {S : Type 0} (sha256_payload : Payload → String) (adapter : Adapter S) where
  -- From the claim on: the attempt and its record.
  unfoldable pub conclude_execution :
      ℕ
      → BudgetActorContext
      → BudgetCredentialContext
      → ℕ
      → ℕ
      → ProviderBudgetCommand × CommandStore
      → Env S
      → Ended S
  conclude_execution command_id actor credential started_at finished_at (command, s) e =
      let r = attempt_write sha256_payload adapter command (record e { locals = no_locals }) in
      let l = r.1.locals in
      let v = verdict r.0 l.write_accepted in
      let f =
        execution_finish command actor credential started_at finished_at l v
          (verdict_trace r.0 l.trace_id) in
      stored (finish_execution command_id f finished_at s) s r.1

  unfoldable pub execute :
      ℕ
      → BudgetActorContext
      → BudgetTenantContext
      → BudgetCredentialContext
      → ℕ
      → ℕ
      → CommandStore
      → Env S
      → Ended S
  execute command_id actor tenant credential started_at finished_at s e =
      elim (begin_execution sha256_payload command_id actor tenant credential started_at s) [
        | ok claimed ↦
            conclude_execution command_id actor credential started_at finished_at claimed e
        | err x ↦ (err x, s, e)
      ]
