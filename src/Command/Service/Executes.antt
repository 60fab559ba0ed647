-- ===== src/Command/Service/Executes.antt =====
-- `execute` (app/services/provider_budget_commands.py): it sends at most one write, after every check,
-- and records how the attempt ended.
use Prim.Native.String.{String}
use client_dash_up.Base.{ℕ, ◌≡◌, ◌≢◌, ◌⊎◌, true, false, some, [], ◌∷◌, ◌++◌}
use client_dash_up.Base.Outcome.{ok, err}
use client_dash_up.Command.Types.{
  applied, conflict, unknown, queued, Fallible, Failure, BudgetSnapshot, BudgetActorContext,
  BudgetTenantContext, BudgetCredentialContext, ProviderBudgetCommand,
}
use client_dash_up.Command.Policy.{MayWrite}
use client_dash_up.Command.Store.{CommandStore, target_key, ends_execution}
use client_dash_up.Command.Steps.Moves.{Evolves}
use client_dash_up.Command.Snapshots.{Payload, snapshot_matches_request}
use client_dash_up.Command.Provider.{Adapter, Env}
use client_dash_up.Command.Service.Attempt.{Verdict}
use client_dash_up.Command.Service.Methods.{Ended}
use client_dash_up.Command.Service.Post.{Post}
use client_dash_up.Command.Service.Stages.{Gated, Quiet}
use client_dash_up.Command.Service.Replies.{StopsAs, Replies}

-- What `execute` has done with a command that it claimed.
pub record Executed {S : Type 0} (sha256_payload : Payload → String) (adapter : Adapter S) (id : ℕ)
    (actor : BudgetActorContext) (tenant : BudgetTenantContext)
    (credential : BudgetCredentialContext) (s : CommandStore) (e : Env S) (r : Ended S)
    : Type 0 where
  pub old : ProviderBudgetCommand
  pub found : s.items id ≡ some old
  pub was_queued : old.status ≡ queued
  pub own : old.actor_user_id ≡ actor.user_id
  pub may_write : MayWrite old.request actor tenant credential
  pub new : ProviderBudgetCommand
  pub returned : r.0 ≡ ok new
  pub item : r.1.items id ≡ some new
  pub evolves : Evolves old new
  pub ended : ends_execution new.status ≡ true
  pub quarantined : new.status ≡ unknown → r.1.target_quarantines (target_key old.request) ≡ some id
  pub unreadable :
      (x : Failure) (p : S)
      → adapter.read_budget old.request e.provider ≡ (err x, p)
      → (r.2.writes ≡ e.writes) × StopsAs false x new.status
  pub moved :
      (b : BudgetSnapshot) (p : S)
      → adapter.read_budget old.request e.provider ≡ (ok b, p)
      → snapshot_matches_request b old.request ≡ ok tt
      → b.amount_minor ≢ old.observed_before_minor
      → (r.2.writes ≡ e.writes) × (new.status ≡ conflict)
  pub effect :
      ((r.2.writes ≡ e.writes) × ((x : Failure) × StopsAs false x new.status))
      ⊎ ((r.2.writes ≡ e.writes ++ old.request ∷ [])
          × (r.2.locals.before_minor ≡ some old.observed_before_minor)
          × Gated sha256_payload adapter old r.2.locals
          × ((at : S) × Replies adapter old at r.2.provider new.status)
          × (new.status ≡ applied → new.confirmed_after_minor ≡ some old.request.amount_minor))

-- `execute` ended: refused before the claim, with nothing changed, or executed.
abbrev pub Executes :
    {S : Type 0}
    → (Payload → String)
    → Adapter S
    → ℕ
    → BudgetActorContext
    → BudgetTenantContext
    → BudgetCredentialContext
    → CommandStore
    → Env S
    → Ended S
    → Type 0
Executes sha256_payload adapter id actor tenant credential s e r =
    ((x : Failure) × (r ≡ (err x, s, e)))
    ⊎ Executed sha256_payload adapter id actor tenant credential s e r

module _ {S : Type 0} (sha256_payload : Payload → String) (adapter : Adapter S) (id : ℕ)
    (actor : BudgetActorContext) (tenant : BudgetTenantContext)
    (credential : BudgetCredentialContext) (started finished_at : ℕ) (s : CommandStore)
    (e : Env S) where
  abbrev NeverReturns : Failure → Fallible Verdict × Env S → Type 0
  NeverReturns x r = Post (λ _ _. ⊥) (λ y e'. (y ≡ x) × Quiet e.writes e') r
