-- ===== src/Command/Sqlite/Beside.antt =====
-- Calls of `SqliteProviderBudgetCommandStore` (app/db.py) beside a command in progress.
use client_dash_up.Base.{ℕ, ◌≡◌, ◌≢◌, Bool, false, Option, List, [], ◌∷◌, ◌==◌, In}
use client_dash_up.Base.Outcome.{ok}
use client_dash_up.Command.Types.{ProviderBudgetCommand, CommandSubmission}
use client_dash_up.Command.Store.{NewCommand, Finish}
use client_dash_up.Command.Sqlite.Tables.{LockRow, Tables}
use client_dash_up.Command.Sqlite.Commands.{
  create_or_replay, claim_queued, finish_execution, record_reconciliation,
}
use client_dash_up.Command.Sqlite.Locks.{
  acquire_target_lock, release_target_lock, renew_target_lock,
}

-- A call that returns, other than one which finishes the command `holder`.
pub data StepBeside (holder : ℕ) : Tables → Tables → Type 0 where
  creates :
      {db db' : Tables} {submission : CommandSubmission} (n : NewCommand) (new_id now : ℕ)
      → create_or_replay n new_id now db ≡ ok (submission, db')
      → StepBeside holder db db'
  claims :
      {db db' : Tables} {command : ProviderBudgetCommand} (id now : ℕ)
      → claim_queued id now db ≡ ok (command, db')
      → StepBeside holder db db'
  finishes :
      {db db' : Tables} {command : ProviderBudgetCommand} (id : ℕ) (f : Finish) (now : ℕ)
      → (id == holder) ≡ false
      → finish_execution id f now db ≡ ok (command, db')
      → StepBeside holder db db'
  reconciles :
      {db db' : Tables} {command : ProviderBudgetCommand} (id : ℕ) (f : Finish) (now : ℕ)
      → record_reconciliation id f now db ≡ ok (command, db')
      → StepBeside holder db db'
  acquires :
      {db db' : Tables} {given : Option ℕ} (command : ProviderBudgetCommand)
      (allow_quarantined : Bool) (token now : ℕ)
      → acquire_target_lock command allow_quarantined token now db ≡ ok (given, db')
      → StepBeside holder db db'
  releases :
      {db : Tables} (command : ProviderBudgetCommand) (token : ℕ)
      → StepBeside holder db (release_target_lock command token db)
  renews :
      {db : Tables} (command : ProviderBudgetCommand) (token now : ℕ)
      → StepBeside holder db (renew_target_lock command token now db).1

pub data StepsBeside (holder : ℕ) : Tables → Tables → Type 0 where
  no_step : {db : Tables} → StepsBeside holder db db
  then_step :
      {db₀ db₁ db₂ : Tables}
      → StepBeside holder db₀ db₁
      → StepsBeside holder db₁ db₂
      → StepsBeside holder db₀ db₂

-- The primary key of the locks.
abbrev pub HasUniqueTargets : List LockRow → Type 0
HasUniqueTargets [] = Unit
HasUniqueTargets (l ∷ ls) = ((k : LockRow) → In k ls → k.target ≢ l.target) × HasUniqueTargets ls
