-- ===== src/Command/Sqlite/Commands.antt =====
-- `create_or_replay`, `claim_queued`, `finish_execution` and `record_reconciliation` of
-- `SqliteProviderBudgetCommandStore` (app/db.py).
use Prim.Native.String.{String}
use client_dash_up.Base.{
  ℕ, ◌+◌, Bool, true, false, not, ◌&&◌, Option, none, some, List, [], ◌∷◌, ◌++◌, ◌==◌, any, first,
  select, is_some, if◌then◌else◌,
}
use client_dash_up.Base.Text.{str_eq}
use client_dash_up.Base.Outcome.{ok, ◌>>=◌, ◌>>◌, raise_if, or_raise}
use client_dash_up.Command.Types.{
  Fallible, validation_error, idempotency_conflict_error, not_executable_error, other_exception,
  BudgetCommandAttempt, ProviderBudgetCommand, CommandSubmission,
}
use client_dash_up.Command.Store.{
  validate_idempotency_key, target_key, NewCommand, queued_command, is_queued, is_in_progress,
  is_unknown, ends_execution, ends_reconciliation, claimed, Finish, or_else, completed_at,
  attempt_with_snapshots,
}
use client_dash_up.Command.Sqlite.Tables.{
  QuarantineRow, Tables, update_where, has_command_id, find_command, command_target,
  quarantines_target, find_quarantine, upsert_target_quarantine, insert_attempt, read_text,
  read_error,
}

abbrev pub has_idempotency_key : ℕ → String → ProviderBudgetCommand → Bool
has_idempotency_key client_id key command =
    command.request.client_id == client_id && str_eq command.idempotency_key key

-- What follows when the key was not used.
unfoldable pub insert_command :
    NewCommand → String → ℕ → ℕ → Tables → Fallible (CommandSubmission × Tables)
insert_command n key new_id now db = do
  raise_if (any (λ c. str_eq c.preview_hash n.preview_hash) db.commands)
      (idempotency_conflict_error "preview_already_consumed")
  raise_if (is_some (find_quarantine (target_key n.request) db))
      (not_executable_error "meta_budget_target_quarantined")
  raise_if (any (has_command_id new_id) db.commands) other_exception
  let command = queued_command n key new_id now
  ok (
    record { command = command; replayed = false },
    record db { commands = db.commands ++ command ∷ [] },
  )

unfoldable pub replay_command :
    NewCommand → ProviderBudgetCommand → Tables → Fallible (CommandSubmission × Tables)
replay_command n existing db = do
  raise_if (not (str_eq existing.request_hash n.request_hash))
      (idempotency_conflict_error "idempotency_conflict")
  ok (record { command = existing; replayed = true }, db)

-- What follows the search for the key.
unfoldable pub submit_command :
    NewCommand
    → String
    → ℕ
    → ℕ
    → Tables
    → Option ProviderBudgetCommand
    → Fallible (CommandSubmission × Tables)
submit_command n key new_id now db none = insert_command n key new_id now db
submit_command n key new_id now db (some existing) = replay_command n existing db

unfoldable pub create_or_replay :
    NewCommand → ℕ → ℕ → Tables → Fallible (CommandSubmission × Tables)
create_or_replay n new_id now db = do
  key ← validate_idempotency_key n.idempotency_key
  submit_command n key new_id now db
      (first (has_idempotency_key n.request.client_id key) db.commands)

unfoldable pub claim_queued : ℕ → ℕ → Tables → Fallible (ProviderBudgetCommand × Tables)
claim_queued command_id now db = do
  command ← or_raise (find_command command_id db) (not_executable_error "command_not_found")
  raise_if (not (is_queued command.status)) (not_executable_error "command_not_executable")
  ok (
    claimed command now,
    record db {
      commands =
          update_where (λ c. c.id == command_id && is_queued c.status) (λ c. claimed c now)
            db.commands;
    },
  )

-- The columns that `finish_execution` sets.
unfoldable pub finished_row :
    Finish → List BudgetCommandAttempt → ℕ → ProviderBudgetCommand → ProviderBudgetCommand
finished_row f attempts now command = record command {
  status = f.status;
  confirmed_after_minor = f.confirmed_after_minor;
  provider_trace_id = read_text f.provider_trace_id;
  error = read_error f.error f.provider_trace_id;
  attempts = attempts;
  updated_at = now;
  completed_at = completed_at f.status now;
}

unfoldable pub finish_execution :
    ℕ → Finish → ℕ → Tables → Fallible (ProviderBudgetCommand × Tables)
finish_execution command_id f now db = do
  raise_if (not (ends_execution f.status)) (validation_error "invalid_transition")
  command ← or_raise (find_command command_id db) (not_executable_error "command_not_in_progress")
  raise_if (not (is_in_progress command.status)) (not_executable_error "command_not_in_progress")
  attempts ← insert_attempt (attempt_with_snapshots command f.attempt) command.attempts
  quarantines ←
      if is_unknown f.status
      then upsert_target_quarantine command now db.quarantines
      else ok db.quarantines
  ok (
    finished_row f attempts now command,
    record db {
      commands =
          update_where (λ c. c.id == command_id && is_in_progress c.status)
            (finished_row f attempts now) db.commands;
      quarantines = quarantines;
    },
  )

-- The columns that `record_reconciliation` sets.
unfoldable pub reconciled_row :
    Finish → List BudgetCommandAttempt → ℕ → ProviderBudgetCommand → ProviderBudgetCommand
reconciled_row f attempts now command = record command {
  status = f.status;
  confirmed_after_minor = f.confirmed_after_minor;
  provider_trace_id = read_text (or_else f.provider_trace_id command.provider_trace_id);
  error = read_error f.error (or_else f.provider_trace_id command.provider_trace_id);
  attempt_count = command.attempt_count + 1;
  attempts = attempts;
  updated_at = now;
  completed_at = completed_at f.status now;
}

abbrev pub lift_quarantine : ProviderBudgetCommand → List QuarantineRow → List QuarantineRow
lift_quarantine command rows =
    select (λ q. not (quarantines_target (command_target command) q && q.command_id == command.id))
      rows

unfoldable pub record_reconciliation :
    ℕ → Finish → ℕ → Tables → Fallible (ProviderBudgetCommand × Tables)
record_reconciliation command_id f now db = do
  raise_if (not (ends_reconciliation f.status)) (validation_error "invalid_reconciliation")
  command ← or_raise (find_command command_id db) (not_executable_error "command_not_reconcilable")
  raise_if (not (is_unknown command.status)) (not_executable_error "command_not_reconcilable")
  attempts ← insert_attempt (attempt_with_snapshots command f.attempt) command.attempts
  quarantines ←
      if is_unknown f.status
      then upsert_target_quarantine command now db.quarantines
      else ok (lift_quarantine command db.quarantines)
  ok (
    reconciled_row f attempts now command,
    record db {
      commands =
          update_where (λ c. c.id == command_id && is_unknown c.status)
            (reconciled_row f attempts now) db.commands;
      quarantines = quarantines;
    },
  )
