-- ===== src/Command/Steps/Reachable.antt =====
-- The states that the command store reaches (app/services/provider_budget_commands.py).
use client_dash_up.Base.{
  ℕ, ◌≡◌, refl, ap, ◌∙◌, true, Bool-cases, inl, inr, Option, some, arith, opt_eq, ==_self,
}
use client_dash_up.Command.Types.{BudgetCommandStatus, unknown, ProviderBudgetCommand}
use client_dash_up.Command.Store.{
  CommandStore, empty_store, Finish, claimed, finished, reconciled, requarantined, put_item,
  put_quarantine, target_key, TargetKey, is_unknown,
}
use client_dash_up.Command.Steps.Moves.{Step, Steps, done, next}
use client_dash_up.Command.Steps.Effects.{
  Claims, Finishes, Reconciles, claim_queued-Claims, finish_execution-Finishes,
  record_reconciliation-Reconciles, create_or_replay-Submits,
}
use client_dash_up.Command.Steps.Updates.{
  Updates, Claims-Updates, Finishes-Updates, Reconciles-Updates,
}
use client_dash_up.Command.Steps.Invariant.{
  IsCounted, Holds, WellFormed, claimed-IsCounted, finished-IsCounted, reconciled-IsCounted,
  Updates-IsIndexed, Updates-IsCounted,
}
use client_dash_up.Command.Steps.Preserve.{
  Submits-WellFormed, kept-held, set-held, lifted-held, foreign-held,
}

Updates-WellFormed :
    (id : ℕ) (old new : ProviderBudgetCommand) (s t : CommandStore)
    → Updates id old new s t
    → (IsCounted old → IsCounted new)
    → ((k : TargetKey) (i : ℕ) → t.target_quarantines k ≡ some i → Holds t k i)
    → WellFormed s
    → WellFormed t
Updates-WellFormed id old new s t u counted held h = record {
  indexed = Updates-IsIndexed id old new s t u h.indexed;
  counted = Updates-IsCounted id old new s t u (counted (h.counted id old u.found)) h.counted;
  held = held;
}

is_unknown-eq : (s : BudgetCommandStatus) → is_unknown s ≡ true → s ≡ unknown
is_unknown-eq s h = ground arith

Claims-WellFormed :
    (id now : ℕ) (s : CommandStore) (r : ProviderBudgetCommand × CommandStore)
    → Claims id now s r
    → WellFormed s
    → WellFormed r.1
unfolding put_item
Claims-WellFormed id now s r q h =
    let u = Claims-Updates id now s r q in
    Updates-WellFormed id q.old (claimed q.old now) s r.1 u
      (claimed-IsCounted q.old now q.was_queued)
      (kept-held id q.old (claimed q.old now) s r.1 u (λ e. cc (e, q.was_queued))
        (λ k. ap (λ t. t.target_quarantines k) q.store) h)
      h

finished_unknown :
    (c : ProviderBudgetCommand) (f : Finish) (now : ℕ)
    → is_unknown f.status ≡ true
    → (finished c f now).status ≡ unknown
unfolding finished
finished_unknown c f now e = is_unknown-eq f.status e

Finishes-WellFormed :
    (id : ℕ) (f : Finish) (now : ℕ) (s : CommandStore) (r : ProviderBudgetCommand × CommandStore)
    → Finishes id f now s r
    → WellFormed s
    → WellFormed r.1
unfolding put_item put_quarantine
Finishes-WellFormed id f now s r q h =
    let u = Finishes-Updates id f now s r q in
    Updates-WellFormed id q.old (finished q.old f now) s r.1 u
      (finished-IsCounted q.old f now q.was_in_progress q.ends)
      (elim (Bool-cases (is_unknown f.status)) [
        | inl held ↦
            set-held id q.old (finished q.old f now) s r.1 u (finished_unknown q.old f now held)
              (λ k. ap (λ t. t.target_quarantines k) q.store ∙ rw held refl) h
        | inr not_held ↦
            kept-held id q.old (finished q.old f now) s r.1 u (λ e. cc (e, q.was_in_progress))
              (λ k. ap (λ t. t.target_quarantines k) q.store ∙ rw not_held refl) h
      ])
      h

reconciled_unknown :
    (c : ProviderBudgetCommand) (f : Finish) (now : ℕ)
    → is_unknown f.status ≡ true
    → (reconciled c f now).status ≡ unknown
unfolding reconciled
reconciled_unknown c f now e = is_unknown-eq f.status e

opt_eq_same : (a b : ℕ) (o : Option ℕ) → o ≡ some b → opt_eq o (some b) ≡ true
opt_eq_same a b o e = rw e (==_self b)

Reconciles-WellFormed :
    (id : ℕ) (f : Finish) (now : ℕ) (s : CommandStore) (r : ProviderBudgetCommand × CommandStore)
    → Reconciles id f now s r
    → WellFormed s
    → WellFormed r.1
unfolding put_item put_quarantine requarantined
Reconciles-WellFormed id f now s r q h =
    let u = Reconciles-Updates id f now s r q in
    let key = target_key q.old.request in
    Updates-WellFormed id q.old (reconciled q.old f now) s r.1 u
      (reconciled-IsCounted q.old f now q.was_unknown q.ends)
      (elim (Bool-cases (is_unknown f.status)) [
        | inl held ↦
            set-held id q.old (reconciled q.old f now) s r.1 u (reconciled_unknown q.old f now held)
              (λ k. ap (λ t. t.target_quarantines k) q.store ∙ rw held refl) h
        | inr settled ↦ elim (Bool-cases (opt_eq (s.target_quarantines key) (some id))) [
          | inl own ↦
              lifted-held id q.old (reconciled q.old f now) s r.1 u
                (λ k. ap (λ t. t.target_quarantines k) q.store ∙ rw (settled, own) refl) h
          | inr foreign ↦
              foreign-held id q.old (reconciled q.old f now) s r.1 u
                (λ e. cc (foreign, opt_eq_same id id (s.target_quarantines key) e))
                (λ k. ap (λ t. t.target_quarantines k) q.store ∙ rw (settled, foreign) refl) h
        ]
      ])
      h

Step-WellFormed : {s t : CommandStore} → Step s t → WellFormed s → WellFormed t
Step-WellFormed {s} {t} (Step.submits n new_id now {sub = sub} fresh e) h =
    Submits-WellFormed n new_id now s (sub, t) fresh
      ((create_or_replay-Submits n new_id now s).at (sub, t) e) h
Step-WellFormed {s} {t} (Step.claims id now {c = c} e) h =
    Claims-WellFormed id now s (c, t) ((claim_queued-Claims id now s).at (c, t) e) h
Step-WellFormed {s} {t} (Step.finishes id f now {c = c} e) h =
    Finishes-WellFormed id f now s (c, t) ((finish_execution-Finishes id f now s).at (c, t) e) h
Step-WellFormed {s} {t} (Step.reconciles id f now {c = c} e) h =
    Reconciles-WellFormed id f now s (c, t)
      ((record_reconciliation-Reconciles id f now s).at (c, t) e) h

Steps-keep_WellFormed : {s t : CommandStore} → Steps s t → WellFormed s → WellFormed t
Steps-keep_WellFormed done h = h
Steps-keep_WellFormed (next step steps) h = Steps-keep_WellFormed steps (Step-WellFormed step h)

empty_store-WellFormed : WellFormed empty_store
empty_store-WellFormed = record {
  indexed = record {
    named = λ i c e. absurd (cc (e));
    keyed = λ i c e. absurd (cc (e));
    previewed = λ i c e. absurd (cc (e));
  };
  counted = λ i c e. absurd (cc (e));
  held = λ k i e. absurd (cc (e));
}

-- Every state that the store reaches is well-formed: a command stands under its id, its idempotency
-- key and its preview; its counter is the length of its log, with one more while it is in progress;
-- it has an instant of completion exactly when it is applied, in conflict or failed; and a target in
-- quarantine is there for a command on that target whose outcome is unknown.
pub Steps-WellFormed : (s : CommandStore) → Steps empty_store s → WellFormed s
Steps-WellFormed s steps = Steps-keep_WellFormed steps empty_store-WellFormed
