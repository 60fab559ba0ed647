-- ===== src/Command/Examples.antt =====
-- Runs of the command store and of the service of app/services/provider_budget_commands.py on one
-- command, and the theorems at them.
use client_dash_up.Base.{ℕ, ◌≡◌, ◌↔◌, refl, true, false, Option, none, some, [], ◌∷◌}
use client_dash_up.Base.Outcome.{ok, err, ◌>>=◌ as outcome_bind, raise_if, or_raise, branch}
use client_dash_up.Command.Types.{
  BudgetCommandStatus, applied, unknown, not_executable_error, ProviderBudgetCommand,
}
use client_dash_up.Command.Authorize.{
  authorize_budget_write, authorize_role, authorize_agency, budget_authorization_snapshot,
  budget_credential_audit_snapshot, authorize_budget_reconciliation, recovery_actor,
}
use client_dash_up.Command.Policy.{MayWrite}
use client_dash_up.Command.Policy.Decides.{authorize_budget_write_iff}
use client_dash_up.Command.Store.{
  CommandStore, NewCommand, Finish, empty_store, create_or_replay, enqueue, replay,
  validate_idempotency_key, queued_command, claimed, claim_queued, finished, finish_execution,
  reconciled, record_reconciliation, requarantined, put_item, put_keys, put_quarantine, same_target,
  target_key, is_space, is_key_code, attempt_with_snapshots,
}
use client_dash_up.Command.Steps.Moves.{Step, Steps, done, next, Evolves}
use client_dash_up.Command.Steps.Evolve.{Steps-Evolves}
use client_dash_up.Command.Steps.Invariant.{WellFormed}
use client_dash_up.Command.Steps.Reachable.{Steps-WellFormed}
use client_dash_up.Command.Steps.Replay.{
  claim_queued-once, create_or_replay-idempotent, create_or_replay-consumes_preview,
}
use client_dash_up.Base.Int.{pos}
use client_dash_up.Command.Validate.{
  RawRequest, new_request, target_type_of, field_of, require_provider_id, is_numeric,
  require_minor_units, require_expected, is_currency_code, is_reason,
}
use client_dash_up.Command.Validate.Accepts.{Accepts}
use client_dash_up.Command.Validate.Complete.{new_request_iff}
use client_dash_up.Command.Service.Executes.{Executes}
use client_dash_up.Command.Service.Reconciles.{Reconciles, reconcile-Reconciles}
use client_dash_up.Command.Snapshots.{
  assert_context_matches, authorization_payload, credential_payload, snapshot_matches_request,
}
use client_dash_up.Command.Provider.{call, send, assign, inspect, ◌>>=◌ as exec_bind}
use client_dash_up.Command.Service.Attempt.{
  attempt_write, preflight, run_before_write, final_gate, check_authorization, write_and_confirm,
  was_changed, confirm, verdict, verdict_trace,
}
use client_dash_up.Command.Service.Methods.{
  execute, begin_execution, conclude_execution, execution_finish, reconcile, begin_reconciliation,
  read_back, judge, unread, reconciliation_finish, may_succeed, Ended,
}
use client_dash_up.Command.Fixtures.{request, actor, tenant, credential, digest, adapter, start}

abbrev new_command : NewCommand
new_command = record {
  request = request;
  actor_user_id = 9;
  authorization_snapshot = budget_authorization_snapshot actor request;
  credential_snapshot = budget_credential_audit_snapshot credential;
  idempotency_key = " key-00001 ";
  request_hash = "hash";
  preview_hash = "preview";
  observed_before_minor = 4000;
}

abbrev first_command : ProviderBudgetCommand
first_command = queued_command new_command "key-00001" 1 10

abbrev submitted : CommandStore
submitted = put_keys first_command (put_item 1 first_command empty_store)

-- Opens the methods in the tests.
methods : ℕ
unfolding create_or_replay enqueue replay validate_idempotency_key queued_command claimed
    claim_queued finished finish_execution reconciled record_reconciliation requarantined put_item
    put_keys put_quarantine same_target is_space is_key_code attempt_with_snapshots outcome_bind
    raise_if or_raise branch authorize_budget_write authorize_role authorize_agency
    budget_authorization_snapshot budget_credential_audit_snapshot assert_context_matches
    authorization_payload credential_payload snapshot_matches_request call send assign inspect
    exec_bind attempt_write preflight run_before_write final_gate check_authorization
    write_and_confirm was_changed confirm verdict verdict_trace execute begin_execution
    conclude_execution execution_finish reconcile begin_reconciliation read_back judge unread
    reconciliation_finish may_succeed authorize_budget_reconciliation recovery_actor
methods = 0

submit_new :
    create_or_replay new_command 1 10 empty_store
    ≡ ok (record { command = first_command; replayed = false }, submitted)
unfolding methods
submit_new = refl

abbrev claimed_store : CommandStore
claimed_store = put_item 1 (claimed first_command 11) submitted

claim_first : claim_queued 1 11 submitted ≡ ok (claimed first_command 11, claimed_store)
unfolding methods
claim_first = refl

-- The amount moves from 4000 to 5000 with one write, and the command is applied.
execute_applies :
    let r = execute digest adapter 1 actor tenant credential 11 12 submitted start in
    (r.2.provider ≡ 5000) × (r.2.writes ≡ request ∷ [])
unfolding methods
execute_applies = (refl, refl)

abbrev status_of : {S : Type 0} → Ended S → Option BudgetCommandStatus
status_of (ok c, _, _) = some c.status
status_of (err x, _, _) = none

execute_status :
    status_of (execute digest adapter 1 actor tenant credential 11 12 submitted start)
    ≡ some applied
unfolding methods
execute_status = refl

-- An attempt whose outcome is not known.
abbrev lost : Finish
lost = record {
  status = unknown;
  attempt = record {
    attempt_no = 1;
    started_at = 11;
    finished_at = 12;
    outcome = unknown;
    observed_before_minor = some 4000;
    confirmed_after_minor = none;
    provider_trace_id = none;
    error = none;
    reconciliation = false;
    actor_user_id = some 9;
    credential_id = some 5;
    authorization_snapshot = none;
    credential_snapshot = none;
  };
  confirmed_after_minor = none;
  provider_trace_id = none;
  error = none;
}

abbrev lost_command : ProviderBudgetCommand
lost_command = finished (claimed first_command 11) lost 12

abbrev lost_store : CommandStore
lost_store = put_quarantine (target_key request) (some 1) (put_item 1 lost_command claimed_store)

finish_lost : finish_execution 1 lost 12 claimed_store ≡ ok (lost_command, lost_store)
unfolding methods
finish_lost = refl

-- The read-back of the reconciliation shows that the write did reach the provider.
reconcile_applies :
    status_of (
      reconcile adapter 1 actor tenant credential false 13 14 lost_store
        (record start { provider = 5000 }))
    ≡ some applied
unfolding methods
reconcile_applies = refl

fresh_id : empty_store.items 1 ≡ none
fresh_id = refl

Steps-on : Steps submitted lost_store
Steps-on = next (Step.claims 1 11 claim_first) (next (Step.finishes 1 lost 12 finish_lost) done)

Steps-from_claim : Steps claimed_store lost_store
Steps-from_claim = next (Step.finishes 1 lost 12 finish_lost) done

Steps-all : Steps empty_store lost_store
Steps-all = next (Step.submits new_command 1 10 fresh_id submit_new) Steps-on

first_item : submitted.items 1 ≡ some first_command
unfolding methods
first_item = refl

lost_item : lost_store.items 1 ≡ some lost_command
unfolding methods
lost_item = refl

reconcile-Reconciles_example :
    Reconciles adapter 1 actor tenant credential false lost_store
      (record start { provider = 5000 })
      (reconcile adapter 1 actor tenant credential false 13 14 lost_store
        (record start { provider = 5000 }))
reconcile-Reconciles_example =
    reconcile-Reconciles adapter 1 actor tenant credential false 13 14 lost_store
      (record start { provider = 5000 })

authorize_budget_write_iff_example :
    (authorize_budget_write request actor tenant credential ≡ ok tt)
    ↔ MayWrite request actor tenant credential
authorize_budget_write_iff_example = authorize_budget_write_iff request actor tenant credential

Steps-Evolves_example :
    (d : ProviderBudgetCommand) × (lost_store.items 1 ≡ some d) × Evolves first_command d
Steps-Evolves_example = Steps-Evolves submitted lost_store 1 first_command Steps-on first_item

Steps-WellFormed_example : WellFormed lost_store
Steps-WellFormed_example = Steps-WellFormed lost_store Steps-all

claim_queued-once_example :
    claim_queued 1 20 lost_store ≡ err (not_executable_error "command_not_executable")
claim_queued-once_example =
    claim_queued-once 1 11 (claimed first_command 11) submitted claimed_store lost_store 20
      claim_first Steps-from_claim

create_or_replay-idempotent_example :
    (d : ProviderBudgetCommand) × (create_or_replay new_command 2 20 lost_store
      ≡ ok (record { command = d; replayed = true }, lost_store))
    × Evolves first_command d
create_or_replay-idempotent_example =
    create_or_replay-idempotent new_command 1 10
      (record { command = first_command; replayed = false }) empty_store submitted lost_store 2 20
      submit_new Steps-on

replay_later :
    create_or_replay new_command 2 20 lost_store
    ≡ ok (record { command = lost_command; replayed = true }, lost_store)
unfolding methods
replay_later = refl

create_or_replay-consumes_preview_example : true ≡ true
create_or_replay-consumes_preview_example =
    create_or_replay-consumes_preview new_command new_command 1 10 2 20
      (record { command = first_command; replayed = false })
      (record { command = lost_command; replayed = true }) empty_store submitted lost_store
      lost_store submit_new refl Steps-on refl replay_later

abbrev raw_request : RawRequest
raw_request = record {
  client_id = 7;
  ad_account_id = 21;
  provider_account_id = " 1001 ";
  credential_id = 5;
  target_type = "campaign";
  provider_target_id = "2002";
  field = "daily_budget";
  amount_minor = pos 5000;
  currency = "USD ";
  reason = "  pacing";
  expected_current_minor = none;
  agency_id = some 3;
  source_action_id = none;
}

new_request-run : new_request raw_request ≡ ok request
unfolding new_request or_raise raise_if outcome_bind target_type_of field_of require_provider_id
    is_numeric require_minor_units require_expected is_currency_code is_reason is_space
new_request-run = refl

new_request_iff_example : (new_request raw_request ≡ ok request) ↔ Accepts raw_request request
new_request_iff_example = new_request_iff raw_request request
