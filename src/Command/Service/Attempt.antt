-- ===== src/Command/Service/Attempt.antt =====
-- The `try` of `execute` and what becomes of its exceptions, and the `try` of `reconcile`
-- (app/services/provider_budget_commands.py).
use Prim.Native.String.{String}
use client_dash_up.Base.{
  ℕ, Bool, true, not, ◌&&◌, ◌||◌, Option, none, some, ◌==◌, opt_eq, is_some, if◌then◌else◌,
}
use client_dash_up.Base.Text.{str_eq}
use client_dash_up.Base.Outcome.{ok, err, raise_if}
use client_dash_up.Command.Types.{
  BudgetCommandStatus, applied, conflict, failed, unknown, SanitizedProviderError, plain_error,
  Fallible, validation_error, policy_error, preview_token_error, preview_expired_error,
  idempotency_conflict_error, conflict_error, not_executable_error, provider_error,
  write_outcome_unknown, other_exception, BudgetExecutionAuthorization, ProviderBudgetCommand,
}
use client_dash_up.Command.Authorize.{is_spend_cap, authorize_budget_write}
use client_dash_up.Command.Store.{or_text}
use client_dash_up.Command.Snapshots.{
  Payload, text_or, assert_context_matches, snapshot_matches_request,
}
use client_dash_up.Command.Provider.{Adapter, Exec, lift, inspect, call, send, assign, ◌>>=◌, ◌>>◌}

-- `before_minor != command.observed_before_minor or (expected is not None and before_minor != expected)`
unfoldable pub was_changed : ℕ → ProviderBudgetCommand → Bool
was_changed before_minor command =
    not (before_minor == command.observed_before_minor)
    || is_some command.request.expected_current_minor
      && not (opt_eq (some before_minor) command.request.expected_current_minor)

abbrev pub Verdict : Type 0
Verdict = BudgetCommandStatus × Option SanitizedProviderError

-- The status after the read-back.
unfoldable pub confirm : ProviderBudgetCommand → ℕ → Option String → Verdict
confirm command after_minor trace_id =
    if after_minor == command.request.amount_minor
    then (applied, none)
    else (unknown, some (plain_error "provider_readback_mismatch" trace_id))

module _ {S : Type 0} (sha256_payload : Payload → String) (adapter : Adapter S) where
  -- The read before the write, and its comparison with the preview.
  unfoldable pub preflight : ProviderBudgetCommand → Exec S Unit
  preflight command = do
    before ← call (adapter.read_budget command.request)
    lift (snapshot_matches_request before command.request)
    assign λ l. record l {
      before_minor = some before.amount_minor;
      trace_id = before.provider_trace_id;
    }
    lift (
        raise_if (was_changed before.amount_minor command)
          (conflict_error "provider_budget_changed"))

  -- `self.before_provider_write(command)`, when it is given.
  unfoldable pub run_before_write :
      Option (ProviderBudgetCommand → S → Fallible Unit × S) → ProviderBudgetCommand → Exec S Unit
  run_before_write none command = lift (ok tt)
  run_before_write (some f) command = call (f command)

  -- The checks on the live authorization.
  unfoldable pub check_authorization :
      ProviderBudgetCommand → BudgetExecutionAuthorization → Exec S Unit
  check_authorization command authorization = do
    lift (
        raise_if (not (authorization.actor.user_id == command.actor_user_id))
          (policy_error "command_actor_mismatch"))
    lift (
        raise_if (not authorization.feature_enabled) (policy_error "meta_budget_controls_disabled"))
    lift (
        raise_if (not authorization.client_rollout_allowed)
          (policy_error "meta_budget_client_not_allowed"))
    lift (
        raise_if (not authorization.binding_verified)
          (policy_error "meta_budget_rediscovery_required"))
    lift (
        raise_if
          (not (str_eq authorization.provider_account_id command.request.provider_account_id))
          (policy_error "provider_budget_account_binding_changed"))
    lift (
        raise_if (is_spend_cap command.request.field && not authorization.spend_cap_enabled)
          (policy_error "meta_spend_cap_disabled"))
    lift (
        authorize_budget_write command.request authorization.actor authorization.tenant
          authorization.credential)
    lift
        (assert_context_matches sha256_payload command authorization.actor authorization.credential)

  -- `self.reauthorize_before_write(command)` and the checks on it, when it is given.
  unfoldable pub final_gate :
      Option (ProviderBudgetCommand → S → Fallible BudgetExecutionAuthorization × S)
      → ProviderBudgetCommand
      → Exec S Unit
  final_gate none command = lift (ok tt)
  final_gate (some f) command = do
    assign λ l. record l { final_gate_attempted = true }
    authorization ← call (f command)
    assign λ l. record l { final_authorization = some authorization }
    check_authorization command authorization
    assign λ l. record l { final_gate_verified = true }

  -- The write and the read-back.
  unfoldable pub write_and_confirm : ProviderBudgetCommand → Exec S Verdict
  write_and_confirm command = do
    receipt ← send command.request (adapter.write_budget command.request)
    assign λ l. record l {
      write_accepted = receipt.accepted;
      trace_id = or_text receipt.provider_trace_id l.trace_id;
    }
    inspect λ l.
        raise_if (not receipt.accepted) (
          write_outcome_unknown
            (plain_error "provider_write_unconfirmed" (or_text l.trace_id none)))
    after ← call (adapter.read_budget command.request)
    lift (snapshot_matches_request after command.request)
    assign λ l. record l {
      after_minor = some after.amount_minor;
      trace_id = or_text after.provider_trace_id l.trace_id;
    }
    inspect λ l. ok (confirm command after.amount_minor l.trace_id)

  -- The body of the `try`.
  unfoldable pub attempt_write : ProviderBudgetCommand → Exec S Verdict
  attempt_write command = do
    preflight command
    run_before_write adapter.before_provider_write command
    final_gate adapter.reauthorize_before_write command
    write_and_confirm command

-- `str(exc.code or "provider_budget_reauthorization_failed")`
abbrev pub domain_error : String → Verdict
domain_error code =
    (failed, some (plain_error (text_or (some code) "provider_budget_reauthorization_failed") none))

-- The `except` clauses, in their order: the status and the error of an attempt.
unfoldable pub verdict : Fallible Verdict → Bool → Verdict
verdict (ok v) accepted = v
verdict (err (conflict_error code)) accepted = (conflict, some (plain_error code none))
verdict (err (write_outcome_unknown e)) accepted = (unknown, some e)
verdict (err (provider_error e)) accepted = (if accepted then unknown else failed, some e)
verdict (err (validation_error code)) accepted = domain_error code
verdict (err (policy_error code)) accepted = domain_error code
verdict (err (preview_token_error code)) accepted = domain_error code
verdict (err (preview_expired_error code)) accepted = domain_error code
verdict (err (idempotency_conflict_error code)) accepted = domain_error code
verdict (err (not_executable_error code)) accepted = domain_error code
verdict (err other_exception) accepted =
    (if accepted then unknown else failed, some (plain_error "provider_internal_error" none))

-- `trace_id = exc.provider_error.trace_id or trace_id` in two of them.
unfoldable pub verdict_trace : {A : Type 0} → Fallible A → Option String → Option String
verdict_trace (err (write_outcome_unknown e)) trace_id = or_text e.trace_id trace_id
verdict_trace (err (provider_error e)) trace_id = or_text e.trace_id trace_id
verdict_trace _ trace_id = trace_id
