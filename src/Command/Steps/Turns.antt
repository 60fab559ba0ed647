-- ===== src/Command/Steps/Turns.antt =====
-- A change of state of one command keeps what was decided when it was created
-- (app/services/provider_budget_commands.py).
use Prim.Native.String.{String}
use client_dash_up.Base.{ℕ, ◌≡◌, refl, sym, ap, ◌∙◌, subst, true, Option, List, [], ◌∷◌, ◌++◌}
use client_dash_up.Command.Types.{
  BudgetCommandStatus, in_progress, queued, unknown, ProviderBudgetCommand, SanitizedProviderError,
  BudgetCommandAttempt,
}
use client_dash_up.Command.Store.{
  Finish, claimed, finished, reconciled, ends_execution, ends_reconciliation,
}
use client_dash_up.Command.Steps.Moves.{
  Turn, stays, turns, Moves-trans, IsFinal, Turn-not-IsFinal, Evolves,
}

append_nil : {A : Type 0} (xs : List A) → xs ≡ xs ++ []
append_nil [] = refl
append_nil (x ∷ xs) = ap (λ ys. x ∷ ys) (append_nil xs)

append_assoc : {A : Type 0} (xs ys zs : List A) → (xs ++ ys) ++ zs ≡ xs ++ (ys ++ zs)
append_assoc [] ys zs = refl
append_assoc (x ∷ xs) ys zs = ap (λ us. x ∷ us) (append_assoc xs ys zs)

pub Evolves-refl : (c : ProviderBudgetCommand) → Evolves c c
Evolves-refl c = record {
  id = refl;
  request = refl;
  actor_user_id = refl;
  authorization_snapshot = refl;
  credential_snapshot = refl;
  idempotency_key = refl;
  request_hash = refl;
  preview_hash = refl;
  observed_before_minor = refl;
  created_at = refl;
  moves = stays;
  log = ([], append_nil c.attempts);
  final = λ _. refl;
}

pub Evolves-trans : {a b c : ProviderBudgetCommand} → Evolves a b → Evolves b c → Evolves a c
Evolves-trans {a} {b} {c} e f = record {
  id = f.id ∙ e.id;
  request = f.request ∙ e.request;
  actor_user_id = f.actor_user_id ∙ e.actor_user_id;
  authorization_snapshot = f.authorization_snapshot ∙ e.authorization_snapshot;
  credential_snapshot = f.credential_snapshot ∙ e.credential_snapshot;
  idempotency_key = f.idempotency_key ∙ e.idempotency_key;
  request_hash = f.request_hash ∙ e.request_hash;
  preview_hash = f.preview_hash ∙ e.preview_hash;
  observed_before_minor = f.observed_before_minor ∙ e.observed_before_minor;
  created_at = f.created_at ∙ e.created_at;
  moves = Moves-trans e.moves f.moves;
  log =
      let (xs, p) = e.log in
      let (ys, q) = f.log in
      (xs ++ ys, q ∙ (ap (λ us. us ++ ys) p ∙ append_assoc a.attempts xs ys));
  final = λ h. f.final (subst (λ c. IsFinal c.status) (sym (e.final h)) h) ∙ e.final h;
}

-- A change of the state, the outcome and the log alone.
Turn-Evolves :
    (c : ProviderBudgetCommand) (to : BudgetCommandStatus) (after : Option ℕ)
    (trace : Option String) (error : Option SanitizedProviderError) (count : ℕ)
    (attempts : List BudgetCommandAttempt) (at : ℕ) (done_at : Option ℕ)
    → Turn c.status to
    → (more : List BudgetCommandAttempt) × (attempts ≡ c.attempts ++ more)
    → Evolves c (record c {
      status = to;
      confirmed_after_minor = after;
      provider_trace_id = trace;
      error = error;
      attempt_count = count;
      attempts = attempts;
      updated_at = at;
      completed_at = done_at;
    })
Turn-Evolves c to after trace error count attempts at done_at t log = record {
  id = refl;
  request = refl;
  actor_user_id = refl;
  authorization_snapshot = refl;
  credential_snapshot = refl;
  idempotency_key = refl;
  request_hash = refl;
  preview_hash = refl;
  observed_before_minor = refl;
  created_at = refl;
  moves = turns t stays;
  log = log;
  final = λ f. absurd (Turn-not-IsFinal t f);
}

pub claimed-Evolves :
    (c : ProviderBudgetCommand) (now : ℕ) → c.status ≡ queued → Evolves c (claimed c now)
unfolding claimed
claimed-Evolves c now e =
    Turn-Evolves c in_progress _ _ _ _ c.attempts _ _
      (subst (λ a. Turn a in_progress) (sym e) Turn.claims) ([], append_nil c.attempts)

pub finished-Evolves :
    (c : ProviderBudgetCommand) (f : Finish) (now : ℕ)
    → c.status ≡ in_progress
    → ends_execution f.status ≡ true
    → Evolves c (finished c f now)
unfolding finished
finished-Evolves c f now e ends =
    Turn-Evolves c f.status _ _ _ _ _ _ _
      (subst (λ a. Turn a f.status) (sym e) (Turn.finishes ends)) (_, refl)

pub reconciled-Evolves :
    (c : ProviderBudgetCommand) (f : Finish) (now : ℕ)
    → c.status ≡ unknown
    → ends_reconciliation f.status ≡ true
    → Evolves c (reconciled c f now)
unfolding reconciled
reconciled-Evolves c f now e ends =
    Turn-Evolves c f.status _ _ _ _ _ _ _
      (subst (λ a. Turn a f.status) (sym e) (Turn.reconciles ends)) (_, refl)
