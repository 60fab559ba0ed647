-- ===== src/Command/Store/Transitions.antt =====
-- `claim_queued`, `finish_execution` and `record_reconciliation` of `InMemoryBudgetCommandStore`
-- (app/services/provider_budget_commands.py).
use Prim.Native.String.{String}
use client_dash_up.Base.{
  ℕ, ◌+◌, Bool, true, false, not, Option, none, some, [], ◌∷◌, ◌++◌, if◌then◌else◌, opt_eq,
}
use client_dash_up.Base.Text.{str_eq}
use client_dash_up.Base.Outcome.{ok, ◌>>=◌, ◌>>◌, raise_if, or_raise}
use client_dash_up.Command.Types.{
  BudgetCommandStatus, applied, conflict, failed, in_progress, queued, unknown,
  SanitizedProviderError, Fallible, validation_error, not_executable_error, BudgetCommandAttempt,
  ProviderBudgetCommand,
}
use client_dash_up.Command.Store.State.{
  TargetKey, target_key, CommandStore, put_item, put_quarantine,
}

abbrev pub is_queued : BudgetCommandStatus → Bool
is_queued queued = true
is_queued _ = false

abbrev pub is_in_progress : BudgetCommandStatus → Bool
is_in_progress in_progress = true
is_in_progress _ = false

abbrev pub is_unknown : BudgetCommandStatus → Bool
is_unknown unknown = true
is_unknown _ = false

-- `status in {APPLIED, CONFLICT, FAILED, UNKNOWN}`
abbrev pub ends_execution : BudgetCommandStatus → Bool
ends_execution applied = true
ends_execution conflict = true
ends_execution failed = true
ends_execution unknown = true
ends_execution _ = false

-- `status in {APPLIED, CONFLICT, UNKNOWN}`
abbrev pub ends_reconciliation : BudgetCommandStatus → Bool
ends_reconciliation applied = true
ends_reconciliation conflict = true
ends_reconciliation unknown = true
ends_reconciliation _ = false

unfoldable pub claimed : ProviderBudgetCommand → ℕ → ProviderBudgetCommand
claimed command now = record command {
  status = in_progress;
  attempt_count = command.attempt_count + 1;
  updated_at = now;
}

unfoldable pub claim_queued : ℕ → ℕ → CommandStore → Fallible (ProviderBudgetCommand × CommandStore)
claim_queued command_id now s = do
  command ← or_raise (s.items command_id) (not_executable_error "command_not_found")
  raise_if (not (is_queued command.status)) (not_executable_error "command_not_executable")
  ok (claimed command now, put_item command_id (claimed command now) s)

-- What `finish_execution` and `record_reconciliation` are told of an attempt.
pub record Finish : Type 0 where
  pub status : BudgetCommandStatus
  pub attempt : BudgetCommandAttempt
  pub confirmed_after_minor : Option ℕ
  pub provider_trace_id : Option String
  pub error : Option SanitizedProviderError

-- `a or b` on optional objects, which are all truthy.
abbrev pub or_else {ℓ} : {A : Type ℓ} → Option A → Option A → Option A
or_else none b = b
or_else (some a) b = some a

-- `a or b` on optional texts: an empty one counts as none.
abbrev pub or_text : Option String → Option String → Option String
or_text none b = b
or_text (some a) b = if str_eq a "" then b else some a

unfoldable pub attempt_with_snapshots :
    ProviderBudgetCommand → BudgetCommandAttempt → BudgetCommandAttempt
attempt_with_snapshots command attempt = record attempt {
  authorization_snapshot =
      or_else attempt.authorization_snapshot (some command.authorization_snapshot);
  credential_snapshot = or_else attempt.credential_snapshot (some command.credential_snapshot);
}

abbrev pub completed_at : BudgetCommandStatus → ℕ → Option ℕ
completed_at status now = if is_unknown status then none else some now

unfoldable pub finished : ProviderBudgetCommand → Finish → ℕ → ProviderBudgetCommand
finished command f now = record command {
  status = f.status;
  confirmed_after_minor = f.confirmed_after_minor;
  provider_trace_id = f.provider_trace_id;
  error = f.error;
  attempts = command.attempts ++ attempt_with_snapshots command f.attempt ∷ [];
  updated_at = now;
  completed_at = completed_at f.status now;
}

unfoldable pub finish_execution :
    ℕ → Finish → ℕ → CommandStore → Fallible (ProviderBudgetCommand × CommandStore)
finish_execution command_id f now s = do
  raise_if (not (ends_execution f.status)) (validation_error "invalid_transition")
  command ← or_raise (s.items command_id) (not_executable_error "command_not_in_progress")
  raise_if (not (is_in_progress command.status)) (not_executable_error "command_not_in_progress")
  let stored = put_item command_id (finished command f now) s
  ok (
    finished command f now,
    if is_unknown f.status
        then put_quarantine (target_key command.request) (some command_id) stored
        else stored,
  )

unfoldable pub reconciled : ProviderBudgetCommand → Finish → ℕ → ProviderBudgetCommand
reconciled command f now = record command {
  status = f.status;
  confirmed_after_minor = f.confirmed_after_minor;
  provider_trace_id = or_text f.provider_trace_id command.provider_trace_id;
  error = f.error;
  attempt_count = command.attempt_count + 1;
  attempts = command.attempts ++ attempt_with_snapshots command f.attempt ∷ [];
  updated_at = now;
  completed_at = completed_at f.status now;
}

-- The quarantine after a reconciliation: set while the outcome is unknown, otherwise lifted when
-- it names this command.
unfoldable pub requarantined : ℕ → BudgetCommandStatus → TargetKey → CommandStore → CommandStore
requarantined command_id status key s =
    if is_unknown status
    then put_quarantine key (some command_id) s
    else if opt_eq (s.target_quarantines key) (some command_id)
    then put_quarantine key none s
    else s

unfoldable pub record_reconciliation :
    ℕ → Finish → ℕ → CommandStore → Fallible (ProviderBudgetCommand × CommandStore)
record_reconciliation command_id f now s = do
  raise_if (not (ends_reconciliation f.status)) (validation_error "invalid_reconciliation")
  command ← or_raise (s.items command_id) (not_executable_error "command_not_reconcilable")
  raise_if (not (is_unknown command.status)) (not_executable_error "command_not_reconcilable")
  ok (
    reconciled command f now,
    requarantined command_id f.status (target_key command.request)
        (put_item command_id (reconciled command f now) s),
  )
