-- ===== src/Command/Provider.antt =====
-- The adapter and the callbacks that `ProviderBudgetCommandService` is given, and the body of a
-- `try` over them: the local variables that an exception leaves as they are, and the log of the
-- writes that were sent (app/services/provider_budget_commands.py).
use Prim.Native.String.{String}
use client_dash_up.Base.{ℕ, Bool, false, Option, none, List, [], ◌∷◌, ◌++◌}
use client_dash_up.Base.Outcome.{ok, err}
use client_dash_up.Command.Types.{
  Fallible, BudgetChangeRequest, BudgetSnapshot, ProviderWriteReceipt, BudgetExecutionAuthorization,
  ProviderBudgetCommand,
}

-- The `Protocol` of an adapter over the provider's state, and the two callbacks.
pub record Adapter (S : Type 0) : Type 0 where
  pub read_budget : BudgetChangeRequest → S → Fallible BudgetSnapshot × S
  pub write_budget : BudgetChangeRequest → S → Fallible ProviderWriteReceipt × S
  pub before_provider_write : Option (ProviderBudgetCommand → S → Fallible Unit × S)
  pub reauthorize_before_write :
      Option (ProviderBudgetCommand → S → Fallible BudgetExecutionAuthorization × S)

-- The variables of `execute` that its `try` assigns, but the status and the error.
pub record Locals : Type 0 where
  pub before_minor : Option ℕ
  pub after_minor : Option ℕ
  pub trace_id : Option String
  pub write_accepted : Bool
  pub final_authorization : Option BudgetExecutionAuthorization
  pub final_gate_attempted : Bool
  pub final_gate_verified : Bool

abbrev pub no_locals : Locals
no_locals = record {
  before_minor = none;
  after_minor = none;
  trace_id = none;
  write_accepted = false;
  final_authorization = none;
  final_gate_attempted = false;
  final_gate_verified = false;
}

-- The provider, the writes that were sent to it, and the variables.
pub record Env (S : Type 0) : Type 0 where
  pub provider : S
  pub writes : List BudgetChangeRequest
  pub locals : Locals

abbrev pub Exec : Type 0 → Type 0 → Type 0
Exec S A = Env S → Fallible A × Env S

module _ {S A : Type 0} where
  abbrev pub lift : Fallible A → Exec S A
  lift r e = (r, e)

  -- A pure computation that reads the variables.
  unfoldable pub inspect : (Locals → Fallible A) → Exec S A
  inspect f e = (f e.locals, e)

  -- A call of a callback or of a read.
  unfoldable pub call : (S → Fallible A × S) → Exec S A
  call f e = ((f e.provider).0, record e { provider = (f e.provider).1 })

  -- A call of `write_budget`.
  unfoldable pub send : BudgetChangeRequest → (S → Fallible A × S) → Exec S A
  send request f e = (
    (f e.provider).0,
    record e { provider = (f e.provider).1; writes = e.writes ++ request ∷ [] },
  )

module _ {S : Type 0} where
  unfoldable pub assign : (Locals → Locals) → Exec S Unit
  assign f e = (ok tt, record e { locals = f e.locals })

module _ {S A B : Type 0} where
  abbrev pub continue : Fallible A → (A → Exec S B) → Exec S B
  continue (ok a) f e = f a e
  continue (err x) f e = (err x, e)

  infixl 5 ◌>>=◌
  unfoldable pub ◌>>=◌ : Exec S A → (A → Exec S B) → Exec S B
  ◌>>=◌ m f e = continue (m e).0 f (m e).1

module _ {S B : Type 0} where
  infixl 5 ◌>>◌
  abbrev pub ◌>>◌ : Exec S Unit → Exec S B → Exec S B
  m >> n = m >>= λ _. n
