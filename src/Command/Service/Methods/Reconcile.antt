-- ===== src/Command/Service/Methods/Reconcile.antt =====
-- `reconcile` of `ProviderBudgetCommandService` (app/services/provider_budget_commands.py).
use Prim.Native.String.{String}
use client_dash_up.Base.{
  ℕ, ◌+◌, Bool, true, not, ◌&&◌, ◌||◌, Option, none, some, ◌==◌, opt_eq, is_some, if◌then◌else◌,
}
use client_dash_up.Base.Outcome.{ok, err, ◌>>=◌, ◌>>◌, raise_if, or_raise}
use client_dash_up.Command.Types.{
  BudgetCommandStatus, applied, conflict, unknown, SanitizedProviderError, plain_error, Fallible,
  Failure, provider_error, policy_error, not_executable_error, BudgetSnapshot, BudgetActorContext,
  BudgetTenantContext, BudgetCredentialContext, ProviderBudgetCommand,
}
use client_dash_up.Command.Authorize.{
  is_admin, is_agency, may_manage, authorize_budget_reconciliation, budget_authorization_snapshot,
  budget_credential_audit_snapshot,
}
use client_dash_up.Command.Store.{
  CommandStore, Finish, get, is_unknown, or_text, record_reconciliation,
}
use client_dash_up.Command.Snapshots.{snapshot_matches_request}
use client_dash_up.Command.Provider.{Adapter, Env}
use client_dash_up.Command.Service.Methods.Execute.{if_applied, Ended, stored}

-- `successor_agency_manager or delegated_admin`
unfoldable pub may_succeed : ProviderBudgetCommand → BudgetActorContext → Bool
may_succeed command actor =
    is_agency actor.role
      && is_some command.request.agency_id
      && opt_eq actor.selected_agency_id command.request.agency_id
      && may_manage actor.agency_member_role
    || is_admin actor.role && actor.can_admin_provider_write

-- Up to the read of `reconcile`.
unfoldable pub begin_reconciliation :
    ℕ
    → BudgetActorContext
    → BudgetTenantContext
    → BudgetCredentialContext
    → CommandStore
    → Fallible ProviderBudgetCommand
begin_reconciliation command_id actor tenant credential s = do
  command ← or_raise (get command_id s) (not_executable_error "command_not_found")
  raise_if (not (is_unknown command.status)) (not_executable_error "command_not_reconcilable")
  raise_if (not (command.actor_user_id == actor.user_id) && not (may_succeed command actor))
      (policy_error "command_actor_mismatch")
  authorize_budget_reconciliation command.request actor tenant credential
  ok command

-- What a read by `reconcile` showed: the status, the error, the amount and the trace.
pub record Reading : Type 0 where
  pub status : BudgetCommandStatus
  pub error : Option SanitizedProviderError
  pub after_minor : Option ℕ
  pub trace_id : Option String

unfoldable pub judge : ProviderBudgetCommand → Bool → BudgetSnapshot → Reading
judge command finalize_mismatch snapshot =
    let trace_id = or_text snapshot.provider_trace_id command.provider_trace_id in
    let after_minor = some snapshot.amount_minor in
    if snapshot.amount_minor == command.request.amount_minor
    then record { status = applied; error = none; after_minor = after_minor; trace_id = trace_id }
    else if finalize_mismatch
    then record {
      status = conflict;
      error = some (plain_error "provider_reconciliation_mismatch" trace_id);
      after_minor = after_minor;
      trace_id = trace_id;
    }
    else record {
      status = unknown;
      error = some (plain_error "provider_reconciliation_pending" trace_id);
      after_minor = after_minor;
      trace_id = trace_id;
    }

-- The two `except` clauses of `reconcile`: the command stays unknown.
unfoldable pub unread : ProviderBudgetCommand → Failure → Reading
unread command (provider_error e) = record {
  status = unknown;
  error = some e;
  after_minor = none;
  trace_id = or_text e.trace_id command.provider_trace_id;
}
unread command _ = record {
  status = unknown;
  error = some (plain_error "provider_internal_error" none);
  after_minor = none;
  trace_id = command.provider_trace_id;
}

-- The `try` of `reconcile` over the result of its one read.
unfoldable pub read_back : ProviderBudgetCommand → Bool → Fallible BudgetSnapshot → Reading
read_back command finalize_mismatch (err x) = unread command x
read_back command finalize_mismatch (ok snapshot) =
    elim (snapshot_matches_request snapshot command.request) [
      | ok _ ↦ judge command finalize_mismatch snapshot
      | err x ↦ unread command x
    ]

-- `after_minor if status in {APPLIED, CONFLICT} else None`
abbrev pub if_settled : BudgetCommandStatus → Option ℕ → Option ℕ
if_settled applied x = x
if_settled conflict x = x
if_settled _ x = none

unfoldable pub reconciliation_finish :
    ProviderBudgetCommand → BudgetActorContext → BudgetCredentialContext → ℕ → ℕ → Reading → Finish
reconciliation_finish command actor credential started_at finished_at r = record {
  status = r.status;
  attempt = record {
    attempt_no = command.attempt_count + 1;
    started_at = started_at;
    finished_at = finished_at;
    outcome = r.status;
    observed_before_minor = none;
    confirmed_after_minor = if_settled r.status r.after_minor;
    provider_trace_id = r.trace_id;
    error = r.error;
    reconciliation = true;
    actor_user_id = some actor.user_id;
    credential_id = some credential.id;
    authorization_snapshot = some (budget_authorization_snapshot actor command.request);
    credential_snapshot = some (budget_credential_audit_snapshot credential);
  };
  confirmed_after_minor = if_applied r.status r.after_minor;
  provider_trace_id = r.trace_id;
  error = r.error;
}

module _ {S : Type 0} (adapter : Adapter S) where
  unfoldable pub reconcile :
      ℕ
      → BudgetActorContext
      → BudgetTenantContext
      → BudgetCredentialContext
      → Bool
      → ℕ
      → ℕ
      → CommandStore
      → Env S
      → Ended S
  reconcile command_id actor tenant credential finalize_mismatch started_at finished_at s e =
      elim (begin_reconciliation command_id actor tenant credential s) [
        | err x ↦ (err x, s, e)
        | ok command ↦
            let r = adapter.read_budget command.request e.provider in
            let f =
              reconciliation_finish command actor credential started_at finished_at
                (read_back command finalize_mismatch r.0) in
            stored (record_reconciliation command_id f finished_at s) s
              (record e { provider = r.1 })
      ]
