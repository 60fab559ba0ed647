-- ===== src/Command/Steps/Moves.antt =====
-- The states of a command and how a command changes (`BudgetCommandStatus` and
-- `ProviderBudgetCommand` of app/services/provider_budget_commands.py); the steps of the store.
use client_dash_up.Base.{ℕ, ◌≡◌, ◌≢◌, refl, true, none, List, ◌++◌}
use client_dash_up.Base.Outcome.{ok}
use client_dash_up.Command.Types.{
  BudgetCommandStatus, in_progress, queued, unknown, ProviderBudgetCommand, CommandSubmission,
}
use client_dash_up.Command.Store.{
  CommandStore, NewCommand, Finish, create_or_replay, claim_queued, finish_execution,
  record_reconciliation, ends_execution, ends_reconciliation,
}

-- A change of state that the store makes.
pub data Turn : BudgetCommandStatus → BudgetCommandStatus → Type 0 where
  claims : Turn queued in_progress
  finishes : {to : BudgetCommandStatus} → ends_execution to ≡ true → Turn in_progress to
  reconciles : {to : BudgetCommandStatus} → ends_reconciliation to ≡ true → Turn unknown to

pub data Moves : BudgetCommandStatus → BudgetCommandStatus → Type 0 where
  stays : {a : BudgetCommandStatus} → Moves a a
  turns : {a b c : BudgetCommandStatus} → Turn a b → Moves b c → Moves a c

pub Moves-trans : {a b c : BudgetCommandStatus} → Moves a b → Moves b c → Moves a c
Moves-trans stays n = n
Moves-trans (turns t m) n = turns t (Moves-trans m n)

-- The states that no method leaves.
abbrev pub IsFinal : BudgetCommandStatus → Type 0
IsFinal s = (s ≢ queued) × (s ≢ in_progress) × (s ≢ unknown)

pub Turn-not-IsFinal : {a b : BudgetCommandStatus} → Turn a b → ¬ IsFinal a
Turn-not-IsFinal claims f = f.0 refl
Turn-not-IsFinal (finishes e) f = f.1 refl
Turn-not-IsFinal (reconciles e) f = f.2 refl

-- What later steps keep of a command: all but its state, its outcome and its log, which grows.
pub record Evolves (old new : ProviderBudgetCommand) : Type 0 where
  pub id : new.id ≡ old.id
  pub request : new.request ≡ old.request
  pub actor_user_id : new.actor_user_id ≡ old.actor_user_id
  pub authorization_snapshot : new.authorization_snapshot ≡ old.authorization_snapshot
  pub credential_snapshot : new.credential_snapshot ≡ old.credential_snapshot
  pub idempotency_key : new.idempotency_key ≡ old.idempotency_key
  pub request_hash : new.request_hash ≡ old.request_hash
  pub preview_hash : new.preview_hash ≡ old.preview_hash
  pub observed_before_minor : new.observed_before_minor ≡ old.observed_before_minor
  pub created_at : new.created_at ≡ old.created_at
  pub moves : Moves old.status new.status
  pub log : (more : List _) × (new.attempts ≡ old.attempts ++ more)
  pub final : IsFinal old.status → new ≡ old

-- A successful call of a method. A new command gets an id that no command has.
pub data Step : CommandStore → CommandStore → Type 0 where
  submits :
      (n : NewCommand) (new_id now : ℕ) {s s' : CommandStore} {sub : CommandSubmission}
      → s.items new_id ≡ none
      → create_or_replay n new_id now s ≡ ok (sub, s')
      → Step s s'
  claims :
      (id now : ℕ) {s s' : CommandStore} {c : ProviderBudgetCommand}
      → claim_queued id now s ≡ ok (c, s')
      → Step s s'
  finishes :
      (id : ℕ) (f : Finish) (now : ℕ) {s s' : CommandStore} {c : ProviderBudgetCommand}
      → finish_execution id f now s ≡ ok (c, s')
      → Step s s'
  reconciles :
      (id : ℕ) (f : Finish) (now : ℕ) {s s' : CommandStore} {c : ProviderBudgetCommand}
      → record_reconciliation id f now s ≡ ok (c, s')
      → Step s s'

pub data Steps : CommandStore → CommandStore → Type 0 where
  done : {s : CommandStore} → Steps s s
  next : {s t u : CommandStore} → Step s t → Steps t u → Steps s u
