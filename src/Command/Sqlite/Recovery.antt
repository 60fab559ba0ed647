-- ===== src/Command/Sqlite/Recovery.antt =====
-- `count_interrupted_in_progress` and `recover_interrupted_in_progress_offline` of
-- `SqliteProviderBudgetCommandStore` (app/db.py).
use client_dash_up.Base.{
  ℕ, ◌+◌, Bool, false, not, none, some, List, [], ◌∷◌, ◌==◌, leb, max, select, length,
}
use client_dash_up.Base.Outcome.{ok, ◌>>=◌, ◌>>◌, raise_if}
use client_dash_up.Base.Sorting.{order_by}
use client_dash_up.Command.Types.{
  unknown, plain_error, Fallible, other_exception, BudgetCommandAttempt, ProviderBudgetCommand,
}
use client_dash_up.Command.Store.{is_in_progress}
use client_dash_up.Command.Sqlite.Tables.{
  Tables, update_where, is_running, upsert_target_quarantine, insert_attempt,
}

abbrev pub is_interrupted : ProviderBudgetCommand → Bool
is_interrupted command = is_in_progress command.status

unfoldable pub count_interrupted_in_progress : Tables → ℕ
count_interrupted_in_progress db = length (select is_interrupted db.commands)

-- `MAX(attempt_no)`, or 0.
abbrev pub last_attempt_no : List BudgetCommandAttempt → ℕ
last_attempt_no [] = 0
last_attempt_no (a ∷ attempts) = max a.attempt_no (last_attempt_no attempts)

unfoldable pub next_attempt_no : ProviderBudgetCommand → ℕ
next_attempt_no row = max 1 (max row.attempt_count (last_attempt_no row.attempts + 1))

unfoldable pub interrupted_attempt : ProviderBudgetCommand → ℕ → BudgetCommandAttempt
interrupted_attempt row now = record {
  attempt_no = next_attempt_no row;
  started_at = row.updated_at;
  finished_at = now;
  outcome = unknown;
  observed_before_minor = none;
  confirmed_after_minor = none;
  provider_trace_id = none;
  error = some (plain_error "provider_execution_interrupted" none);
  reconciliation = false;
  actor_user_id = none;
  credential_id = none;
  authorization_snapshot = some row.authorization_snapshot;
  credential_snapshot = some row.credential_snapshot;
}

unfoldable pub interrupted_row :
    ℕ → List BudgetCommandAttempt → ℕ → ProviderBudgetCommand → ProviderBudgetCommand
interrupted_row attempt_no attempts now command = record command {
  status = unknown;
  attempt_count = attempt_no;
  error = some (plain_error "provider_execution_interrupted" command.provider_trace_id);
  attempts = attempts;
  updated_at = now;
  completed_at = none;
}

-- The body of the loop.
unfoldable pub recover_row : ProviderBudgetCommand → ℕ → Tables → Fallible Tables
recover_row row now db = do
  attempts ← insert_attempt (interrupted_attempt row now) row.attempts
  quarantines ← upsert_target_quarantine row now db.quarantines
  ok record {
    commands =
        update_where (is_running row.id) (interrupted_row (next_attempt_no row) attempts now)
          db.commands;
    locks = select (λ l. not (l.command_id == row.id)) db.locks;
    quarantines = quarantines;
  }

unfoldable pub recover_rows : List ProviderBudgetCommand → ℕ → Tables → Fallible (ℕ × Tables)
recover_rows [] now db = ok (0, db)
recover_rows (row ∷ rows) now db = do
  after ← recover_row row now db
  rest ← recover_rows rows now after
  ok (rest.0 + 1, rest.1)

-- A call without the confirmation that all instances are stopped raises a `ValueError`.
unfoldable pub recover_interrupted_in_progress_offline : Bool → ℕ → Tables → Fallible (ℕ × Tables)
recover_interrupted_in_progress_offline all_api_instances_stopped now db = do
  raise_if (not all_api_instances_stopped) other_exception
  recover_rows (order_by (λ a b. leb a.updated_at b.updated_at) (select is_interrupted db.commands))
      now db
