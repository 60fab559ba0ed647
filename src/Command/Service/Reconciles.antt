-- ===== src/Command/Service/Reconciles.antt =====
-- `reconcile` (app/services/provider_budget_commands.py): it only reads, and settles a command whose
-- outcome is unknown when the provider's answer allows it.
use client_dash_up.Base.{
  ℕ, ◌≡◌, ◌≢◌, ◌⊎◌, inl, inr, refl, ap, ◌∙◌, true, false, Bool, Bool-cases, not, ◌&&◌, some, arith,
  ◌==◌, ==_iff-eq, ==_self, opt_eq, if◌then◌else◌,
}
use client_dash_up.Base.Outcome.{
  ok, err, ◌>>=◌, raise_if, or_raise, raise_if-false, or_raise-some, Ensures, Ensures-ok,
  Ensures-bind,
}
use client_dash_up.Command.Types.{
  BudgetCommandStatus, applied, conflict, unknown, Fallible, Failure, BudgetSnapshot,
  BudgetActorContext, BudgetTenantContext, BudgetCredentialContext, ProviderBudgetCommand,
}
use client_dash_up.Command.Authorize.{authorize_budget_reconciliation}
use client_dash_up.Command.Store.{
  CommandStore, Finish, reconciled, record_reconciliation, requarantined, put_item, put_quarantine,
  target_key, TargetKey, is_unknown, ends_reconciliation,
}
use client_dash_up.Command.Steps.Moves.{Evolves}
use client_dash_up.Command.Steps.Turns.{reconciled-Evolves}
use client_dash_up.Command.Steps.Evolve.{items_put_same, requarantined-items}
use client_dash_up.Command.Steps.Updates.{same_target_refl}
use client_dash_up.Command.Snapshots.{snapshot_matches_request}
use client_dash_up.Command.Provider.{Adapter, Env}
use client_dash_up.Command.Service.Methods.{
  Ended, stored, if_applied, may_succeed, begin_reconciliation, read_back, reconciliation_finish,
  reconcile,
}
use client_dash_up.Command.Service.Readings.{read_back-Sound}

-- Who may reconcile, and what.
record Begins (actor : BudgetActorContext) (tenant : BudgetTenantContext)
    (credential : BudgetCredentialContext) (id : ℕ) (s : CommandStore) (c : ProviderBudgetCommand)
    : Type 0 where
  found : s.items id ≡ some c
  was_unknown : c.status ≡ unknown
  allowed : (c.actor_user_id ≡ actor.user_id) ⊎ (may_succeed c actor ≡ true)
  authorized : authorize_budget_reconciliation c.request actor tenant credential ≡ ok tt

begin_reconciliation-Begins :
    (id : ℕ) (actor : BudgetActorContext) (tenant : BudgetTenantContext)
    (credential : BudgetCredentialContext) (s : CommandStore)
    → Ensures
        (Begins actor tenant credential id s)
        (begin_reconciliation id actor tenant credential s)
unfolding begin_reconciliation
begin_reconciliation-Begins id actor tenant credential s = Ensures-bind λ c found.
    Ensures-bind λ _ unsettled. Ensures-bind λ _ allowed. Ensures-bind λ _ may. Ensures-ok (record {
      found = or_raise-some _ _ c found;
      was_unknown = let b = raise_if-false _ _ unsettled in ground arith;
      allowed = own_or_successor c actor (raise_if-false _ _ allowed);
      authorized = may;
    })
  where
    own_or_successor :
        (c : ProviderBudgetCommand) (actor : BudgetActorContext)
        → (not (c.actor_user_id == actor.user_id) && not (may_succeed c actor)) ≡ false
        → (c.actor_user_id ≡ actor.user_id) ⊎ (may_succeed c actor ≡ true)
    own_or_successor c actor h = elim (Bool-cases (c.actor_user_id == actor.user_id)) [
      | inl own ↦ inl (==_iff-eq c.actor_user_id actor.user_id own)
      | inr other ↦ inr (ground arith)
    ]

record_reconciliation-ok :
    (id : ℕ) (c : ProviderBudgetCommand) (f : Finish) (now : ℕ) (s : CommandStore)
    → s.items id ≡ some c
    → c.status ≡ unknown
    → ends_reconciliation f.status ≡ true
    → record_reconciliation id f now s
      ≡ ok (
        reconciled c f now,
        requarantined id f.status (target_key c.request) (put_item id (reconciled c f now) s),
      )
unfolding record_reconciliation ◌>>=◌ or_raise raise_if
record_reconciliation-ok id c f now s found unsettled ends =
    let r : is_unknown c.status ≡ true = ap is_unknown unsettled in rw (ends, found, r) refl

-- What `reconcile` has done with a command whose outcome was unknown.
pub record Reconciled {S : Type 0} (adapter : Adapter S) (id : ℕ) (actor : BudgetActorContext)
    (tenant : BudgetTenantContext) (credential : BudgetCredentialContext) (finalize_mismatch : Bool)
    (s : CommandStore) (e : Env S) (r : Ended S) : Type 0 where
  pub old : ProviderBudgetCommand
  pub found : s.items id ≡ some old
  pub was_unknown : old.status ≡ unknown
  pub allowed : (old.actor_user_id ≡ actor.user_id) ⊎ (may_succeed old actor ≡ true)
  pub authorized : authorize_budget_reconciliation old.request actor tenant credential ≡ ok tt
  pub new : ProviderBudgetCommand
  pub returned : r.0 ≡ ok new
  pub item : r.1.items id ≡ some new
  pub evolves : Evolves old new
  pub ended : ends_reconciliation new.status ≡ true
  pub writes : r.2.writes ≡ e.writes
  pub provider : r.2.provider ≡ (adapter.read_budget old.request e.provider).1
  pub settles :
      (snapshot : BudgetSnapshot)
      → (adapter.read_budget old.request e.provider).0 ≡ ok snapshot
      → snapshot_matches_request snapshot old.request ≡ ok tt
      → ((snapshot.amount_minor ≡ old.request.amount_minor) → new.status ≡ applied)
        × ((snapshot.amount_minor ≢ old.request.amount_minor)
            → new.status ≡ (if finalize_mismatch then conflict else unknown))
  pub applied :
      new.status ≡ applied
      → (snapshot : BudgetSnapshot) × ((adapter.read_budget old.request e.provider).0 ≡ ok snapshot)
        × (snapshot_matches_request snapshot old.request ≡ ok tt)
        × (snapshot.amount_minor ≡ old.request.amount_minor)
        × (new.confirmed_after_minor ≡ some old.request.amount_minor)
  pub conflict :
      new.status ≡ conflict
      → (finalize_mismatch ≡ true)
        × ((snapshot : BudgetSnapshot) × ((adapter.read_budget old.request e.provider).0
              ≡ ok snapshot)
            × (snapshot_matches_request snapshot old.request ≡ ok tt)
            × (snapshot.amount_minor ≢ old.request.amount_minor))
  pub quarantined : new.status ≡ unknown → r.1.target_quarantines (target_key old.request) ≡ some id
  pub released : new.status ≢ unknown → r.1.target_quarantines (target_key old.request) ≢ some id

abbrev pub Reconciles :
    {S : Type 0}
    → Adapter S
    → ℕ
    → BudgetActorContext
    → BudgetTenantContext
    → BudgetCredentialContext
    → Bool
    → CommandStore
    → Env S
    → Ended S
    → Type 0
Reconciles adapter id actor tenant credential finalize_mismatch s e r =
    ((x : Failure) × (r ≡ (err x, s, e)))
    ⊎ Reconciled adapter id actor tenant credential finalize_mismatch s e r

requarantined_unknown :
    (id : ℕ) (st : BudgetCommandStatus) (k : TargetKey) (s : CommandStore)
    → st ≡ unknown
    → (requarantined id st k s).target_quarantines k ≡ some id
unfolding requarantined put_quarantine
requarantined_unknown id st k s e = rw (ap is_unknown e, same_target_refl k) refl

settled_status : (st : BudgetCommandStatus) → st ≢ unknown → is_unknown st ≡ false
settled_status st n = ground arith

requarantined_released :
    (id : ℕ) (st : BudgetCommandStatus) (k : TargetKey) (s : CommandStore)
    → st ≢ unknown
    → (requarantined id st k s).target_quarantines k ≢ some id
unfolding requarantined put_quarantine
requarantined_released id st k s n = elim (Bool-cases (opt_eq (s.target_quarantines k) (some id))) [
  | inl own ↦ rw (settled_status st n, own, same_target_refl k) (λ e. cc (e))
  | inr foreign ↦ rw (settled_status st n, foreign) (λ e. cc (foreign, e, ==_self id))
]

module _ {S : Type 0} (adapter : Adapter S) (id : ℕ) (actor : BudgetActorContext)
    (tenant : BudgetTenantContext) (credential : BudgetCredentialContext) (finalize_mismatch : Bool)
    (started finished_at : ℕ) (s : CommandStore) (e : Env S) where
  Begins-Reconciles :
      (m : Fallible ProviderBudgetCommand)
      → Ensures (Begins actor tenant credential id s) m
      → Reconciles adapter id actor tenant credential finalize_mismatch s e (elim m [
        | err x ↦ (err x, s, e)
        | ok command ↦
            let r = adapter.read_budget command.request e.provider in
            let f =
              reconciliation_finish command actor credential started finished_at
                (read_back command finalize_mismatch r.0) in
            stored (record_reconciliation id f finished_at s) s (record e { provider = r.1 })
      ])
  unfolding reconciliation_finish reconciled
  Begins-Reconciles (err x) h = inl (x, refl)
  Begins-Reconciles (ok c) h =
      let b = h.at c refl in
      let r = adapter.read_budget c.request e.provider in
      let reading = read_back c finalize_mismatch r.0 in
      let sound = read_back-Sound c finalize_mismatch r.0 in
      let f = reconciliation_finish c actor credential started finished_at reading in
      let put = put_item id (reconciled c f finished_at) s in
      inr (
        rw (record_reconciliation-ok id c f finished_at s b.found b.was_unknown sound.ends)
          (record {
            old = c;
            found = b.found;
            was_unknown = b.was_unknown;
            allowed = b.allowed;
            authorized = b.authorized;
            new = reconciled c f finished_at;
            returned = refl;
            item =
                ap (λ items. items id) (requarantined-items id f.status (target_key c.request) put)
                ∙ items_put_same id (reconciled c f finished_at) s;
            evolves = reconciled-Evolves c f finished_at b.was_unknown sound.ends;
            ended = sound.ends;
            writes = refl;
            provider = refl;
            applied = λ done.
                let (snapshot, answer, matches, amount, after) = sound.applied done in
                (
                  snapshot,
                  answer,
                  matches,
                  amount,
                  ap (λ st. if_applied st reading.after_minor) done ∙ after,
                );
            settles = sound.settles;
            conflict = λ ends_so.
                let (final, (snapshot, answer, matches, differs, _)) = sound.conflict ends_so in
                (final, (snapshot, answer, matches, differs));
            quarantined = requarantined_unknown id f.status (target_key c.request) put;
            released = requarantined_released id f.status (target_key c.request) put;
          }))

  -- `reconcile`, whatever the adapter and the store are: either it raises with the store and the
  -- provider as they were, or the command was unknown and the actor its own or a successor that the
  -- policy authorises. Then it has sent no write and called the provider once, to read; the command
  -- ends applied, in conflict or unknown. An answer that matches the request and shows its amount ends
  -- it applied; one that matches and shows another amount ends it in conflict where the caller asked
  -- to finalise, and else leaves it unknown; and it is applied or in conflict only so, which leaves it
  -- unknown after a read that failed or does not match. Its target is in quarantine for it exactly as
  -- long as it is unknown.
  pub reconcile-Reconciles :
      Reconciles adapter id actor tenant credential finalize_mismatch s e
        (reconcile adapter id actor tenant credential finalize_mismatch started finished_at s e)
  unfolding reconcile
  reconcile-Reconciles =
      Begins-Reconciles (begin_reconciliation id actor tenant credential s)
        (begin_reconciliation-Begins id actor tenant credential s)
