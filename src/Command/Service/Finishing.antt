-- ===== src/Command/Service/Finishing.antt =====
-- The record that `execute` makes of an attempt, and what it checks before the claim
-- (app/services/provider_budget_commands.py).
use Prim.Native.String.{String}
use client_dash_up.Base.{
  ℕ, ◌≡◌, inl, inr, refl, ap, ◌∙◌, true, Bool-cases, some, arith, if◌then◌else◌,
}
use client_dash_up.Base.Outcome.{
  ok, ◌>>=◌, raise_if, or_raise, raise_if-false, or_raise-some, Ensures, Ensures-bind,
}
use client_dash_up.Command.Types.{
  unknown, in_progress, BudgetActorContext, BudgetTenantContext, BudgetCredentialContext,
  ProviderBudgetCommand,
}
use client_dash_up.Command.Policy.{MayWrite}
use client_dash_up.Command.Policy.Decides.{authorize_budget_write_iff}
use client_dash_up.Command.Store.{
  CommandStore, Finish, finished, finish_execution, put_item, put_quarantine, target_key,
  is_unknown, is_in_progress, ends_execution,
}
use client_dash_up.Command.Steps.Effects.{Claims, claim_queued-Claims}
use client_dash_up.Command.Steps.Evolve.{items_put_same, put_quarantine-items}
use client_dash_up.Command.Steps.Updates.{same_target_refl}
use client_dash_up.Command.Snapshots.{Payload, assert_context_matches}
use client_dash_up.Command.Service.Methods.{begin_execution}

-- The state after `finish_execution`.
abbrev pub after_finish : ℕ → ProviderBudgetCommand → Finish → ℕ → CommandStore → CommandStore
after_finish id c f now s =
    if is_unknown f.status
    then put_quarantine (target_key c.request) (some id) (put_item id (finished c f now) s)
    else put_item id (finished c f now) s

pub finish_execution-ok :
    (id : ℕ) (c : ProviderBudgetCommand) (f : Finish) (now : ℕ) (s : CommandStore)
    → s.items id ≡ some c
    → c.status ≡ in_progress
    → ends_execution f.status ≡ true
    → finish_execution id f now s ≡ ok (finished c f now, after_finish id c f now s)
unfolding finish_execution ◌>>=◌ or_raise raise_if
finish_execution-ok id c f now s found running ends =
    let r : is_in_progress c.status ≡ true = ap is_in_progress running in rw (ends, found, r) refl

pub after_finish-item :
    (id : ℕ) (c : ProviderBudgetCommand) (f : Finish) (now : ℕ) (s : CommandStore)
    → (after_finish id c f now s).items id ≡ some (finished c f now)
after_finish-item id c f now s = elim (Bool-cases (is_unknown f.status)) [
  | inl held ↦ rw held (
      ap (λ items. items id)
        (put_quarantine-items (target_key c.request) (some id) (put_item id (finished c f now) s))
      ∙ items_put_same id (finished c f now) s)
  | inr other ↦ rw other (items_put_same id (finished c f now) s)
]

pub after_finish-quarantine :
    (id : ℕ) (c : ProviderBudgetCommand) (f : Finish) (now : ℕ) (s : CommandStore)
    → f.status ≡ unknown
    → (after_finish id c f now s).target_quarantines (target_key c.request) ≡ some id
unfolding put_quarantine
after_finish-quarantine id c f now s e =
    rw (ap is_unknown e, same_target_refl (target_key c.request)) refl

-- What `begin_execution` has checked.
pub record Begins (sha256_payload : Payload → String) (id : ℕ) (actor : BudgetActorContext)
    (tenant : BudgetTenantContext) (credential : BudgetCredentialContext) (now : ℕ)
    (s : CommandStore) (r : ProviderBudgetCommand × CommandStore) : Type 0 where
  pub existing : ProviderBudgetCommand
  pub found : s.items id ≡ some existing
  pub own : existing.actor_user_id ≡ actor.user_id
  pub may_write : MayWrite existing.request actor tenant credential
  pub same_context : assert_context_matches sha256_payload existing actor credential ≡ ok tt
  pub claim : Claims id now s r

pub begin_execution-Begins :
    (sha256_payload : Payload → String) (id : ℕ) (actor : BudgetActorContext)
    (tenant : BudgetTenantContext) (credential : BudgetCredentialContext) (now : ℕ)
    (s : CommandStore)
    → Ensures
        (Begins sha256_payload id actor tenant credential now s)
        (begin_execution sha256_payload id actor tenant credential now s)
unfolding begin_execution
begin_execution-Begins sha256_payload id actor tenant credential now s =
    Ensures-bind λ existing found. Ensures-bind λ _ own. Ensures-bind λ _ may.
      Ensures-bind λ _ context. record {
        at = λ r h. record {
          existing = existing;
          found = or_raise-some _ _ existing found;
          own = let b = raise_if-false _ _ own in ground arith;
          may_write = (authorize_budget_write_iff existing.request actor tenant credential).0 may;
          same_context = context;
          claim = (claim_queued-Claims id now s).at r h;
        };
      }
