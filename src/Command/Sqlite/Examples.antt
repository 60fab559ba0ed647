-- ===== src/Command/Sqlite/Examples.antt =====
-- Two commands for one target in `SqliteProviderBudgetCommandStore` (app/db.py), and the theorem at
-- them.
use client_dash_up.Base.{false, any, In, ℕ, ◌≡◌, refl, true, none, [], ◌∷◌, In-cons, inl, inr, ap}
use client_dash_up.Base.Outcome.{ok, ◌>>=◌ as outcome_bind, raise_if, or_raise}
use client_dash_up.Command.Types.{BudgetCommandStatus, in_progress, queued, ProviderBudgetCommand}
use client_dash_up.Command.Authorize.{
  budget_authorization_snapshot, budget_credential_audit_snapshot,
}
use client_dash_up.Command.Store.{target_key, same_target, claimed}
use client_dash_up.Command.Fixtures.{request, actor, credential}
use client_dash_up.Command.Sqlite.Tables.{
  Tables, read_attempt, insert_attempt, insert_quarantine, upsert_target_quarantine,
}
use client_dash_up.Command.Sqlite.Commands.{claim_queued}
use client_dash_up.Command.Sqlite.Locks.{renew_target_lock}
use client_dash_up.Command.Sqlite.Beside.{no_step, then_step, claims, HasUniqueTargets}
use client_dash_up.Command.Sqlite.Recovery.{
  interrupted_row, interrupted_attempt, next_attempt_no, recover_row, recover_rows,
  recover_interrupted_in_progress_offline,
}
use client_dash_up.Command.Sqlite.Recovers.{Recovers}
use client_dash_up.Command.Sqlite.Returns.{
  holds_quarantine, HasUniqueIds, recover_interrupted_in_progress_offline_returns,
}
use client_dash_up.Command.Sqlite.Recovery.{is_interrupted, count_interrupted_in_progress}
use client_dash_up.Command.Sqlite.Excludes.{IsStored, Excludes, renew-Excludes}

abbrev command : ℕ → BudgetCommandStatus → ProviderBudgetCommand
command id status = record {
  id = id;
  request = request;
  actor_user_id = 9;
  authorization_snapshot = budget_authorization_snapshot actor request;
  credential_snapshot = budget_credential_audit_snapshot credential;
  status = status;
  idempotency_key = "key-00001";
  request_hash = "r";
  preview_hash = "p";
  observed_before_minor = 4000;
  confirmed_after_minor = none;
  provider_trace_id = none;
  error = none;
  attempt_count = 1;
  attempts = [];
  created_at = 10;
  updated_at = 10;
  completed_at = none;
}

-- Command 1 writes, command 2 waits.
abbrev tables : Tables
tables = record {
  commands = command 1 in_progress ∷ command 2 queued ∷ [];
  locks =
      record {
        target = target_key request;
        command_id = 1;
        lease_token = 77;
        lease_until = 610;
        updated_at = 10;
      }
      ∷ [];
  quarantines = [];
}

one_lock_each : HasUniqueTargets tables.locks
one_lock_each = (λ k i. elim i [ ], tt)

is_stored : IsStored (command 1 queued) tables
is_stored row i e = elim (In-cons i) [
  | inl first ↦ ap (λ r. r.request) first
  | inr j ↦ elim (In-cons j) [ inl second ↦ ap (λ r. r.request) second | inr k ↦ elim k [ ] ]
]

renewed : (renew_target_lock (command 1 queued) 77 500 tables).0 ≡ true
unfolding renew_target_lock same_target
renewed = refl

-- Another lease of ten minutes is over at 1200, and the second command is claimed.
abbrev later_tables : Tables
later_tables = record {
  commands =
      record (command 1 in_progress) { updated_at = 500 }
      ∷ record (command 2 in_progress) { attempt_count = 2; updated_at = 1200 }
      ∷ [];
  locks =
      record {
        target = target_key request;
        command_id = 1;
        lease_token = 77;
        lease_until = 1100;
        updated_at = 500;
      }
      ∷ [];
  quarantines = [];
}

claim_run :
    claim_queued 2 1200 (renew_target_lock (command 1 queued) 77 500 tables).1
    ≡ ok (claimed (command 2 queued) 1200, later_tables)
unfolding claim_queued renew_target_lock same_target outcome_bind raise_if or_raise claimed
claim_run = refl

renew-Excludes_example : Excludes (command 1 queued) 77 later_tables
renew-Excludes_example =
    renew-Excludes (command 1 queued) 77 500 tables later_tables one_lock_each is_stored renewed
      (then_step (claims 2 1200 claim_run) no_step)

abbrev first_interrupted : ProviderBudgetCommand
first_interrupted = record (command 1 in_progress) { updated_at = 500 }

abbrev second_interrupted : ProviderBudgetCommand
second_interrupted = record (command 2 in_progress) { attempt_count = 2; updated_at = 1200 }

-- Both writes were interrupted; the first one has quarantined the target already.
abbrev recovered_tables : Tables
recovered_tables = record {
  commands =
      interrupted_row 1 (read_attempt (interrupted_attempt first_interrupted 2000) ∷ []) 2000
        first_interrupted
      ∷ interrupted_row 2 (read_attempt (interrupted_attempt second_interrupted 2000) ∷ []) 2000
          second_interrupted
      ∷ [];
  locks = [];
  quarantines =
      record { target = target_key request; command_id = 1; created_at = 2000; updated_at = 2000 }
      ∷ [];
}

recover_run :
    recover_interrupted_in_progress_offline true 2000 later_tables ≡ ok (2, recovered_tables)
unfolding recover_interrupted_in_progress_offline recover_rows recover_row interrupted_row
    interrupted_attempt next_attempt_no insert_attempt upsert_target_quarantine insert_quarantine
    same_target outcome_bind raise_if
recover_run = refl

no_quarantine_held :
    (c : ProviderBudgetCommand)
    → In c later_tables.commands
    → is_interrupted c ≡ true
    → any (holds_quarantine c.id) later_tables.quarantines ≡ false
no_quarantine_held c i running = refl

later_unique : HasUniqueIds later_tables.commands
later_unique = (
  λ d i. elim (In-cons i) [ inl second ↦ rw second refl | inr k ↦ elim k [ ] ],
  (λ d i. elim i [ ], tt),
)

recover_interrupted_in_progress_offline_returns_example :
    (db' : Tables) × (recover_interrupted_in_progress_offline true 2000 later_tables
      ≡ ok (count_interrupted_in_progress later_tables, db'))
    × Recovers later_tables db' (count_interrupted_in_progress later_tables)
recover_interrupted_in_progress_offline_returns_example =
    recover_interrupted_in_progress_offline_returns 2000 later_tables later_unique
      no_quarantine_held
