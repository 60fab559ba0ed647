-- ===== src/Command/Steps/Evolve.antt =====
-- Every step of the command store moves each command along the state machine and keeps what was
-- decided when it was created.
use client_dash_up.Base.{
  ℕ, ◌≡◌, refl, sym, ap, ◌∙◌, subst, true, false, Bool, Bool-cases, inl, inr, Option, none, some,
  arith, ◌==◌, ==_iff-eq, if◌then◌else◌,
}
use client_dash_up.Command.Types.{BudgetCommandStatus, ProviderBudgetCommand, CommandSubmission}
use client_dash_up.Command.Store.{
  CommandStore, NewCommand, claimed, finished, reconciled, requarantined, put_item, put_keys,
  put_quarantine, queued_command, target_key, TargetKey, is_unknown,
}
use client_dash_up.Command.Steps.Moves.{Evolves, Step, Steps, done, next}
use client_dash_up.Command.Steps.Effects.{
  claim_queued-Claims, finish_execution-Finishes, record_reconciliation-Reconciles, Submits,
  enqueues, replays, create_or_replay-Submits,
}
use client_dash_up.Command.Steps.Turns.{
  Evolves-refl, Evolves-trans, claimed-Evolves, finished-Evolves, reconciled-Evolves,
}

-- Each command of the first store is in the second, further along.
abbrev pub AllEvolve : CommandStore → CommandStore → Type 0
AllEvolve s t =
    (i : ℕ) (c : ProviderBudgetCommand)
    → s.items i ≡ some c
    → (d : ProviderBudgetCommand) × (t.items i ≡ some d) × Evolves c d

pub items_put_same :
    (id : ℕ) (c : ProviderBudgetCommand) (s : CommandStore) → (put_item id c s).items id ≡ some c
unfolding put_item
items_put_same id c s = ground arith

pub items_put_other :
    (id i : ℕ) (c : ProviderBudgetCommand) (s : CommandStore)
    → (i == id) ≡ false
    → (put_item id c s).items i ≡ s.items i
unfolding put_item
items_put_other id i c s e = rw e

put_item-AllEvolve :
    (id : ℕ) (old new : ProviderBudgetCommand) (s : CommandStore)
    → s.items id ≡ some old
    → Evolves old new
    → AllEvolve s (put_item id new s)
put_item-AllEvolve id old new s found e i c h = elim (Bool-cases (i == id)) [
  | inl same ↦
      let p = ==_iff-eq i id same in
      let q : c ≡ old = ground (arith, p, h, found) in
      (
        new,
        ap (put_item id new s).items p ∙ items_put_same id new s,
        subst (λ o. Evolves o new) (sym q) e,
      )
  | inr other ↦ (c, items_put_other id i new s other ∙ h, Evolves-refl c)
]

put_new-AllEvolve :
    (id : ℕ) (new : ProviderBudgetCommand) (s : CommandStore)
    → s.items id ≡ none
    → AllEvolve s (put_item id new s)
put_new-AllEvolve id new s fresh i c h = elim (Bool-cases (i == id)) [
  | inl same ↦ let p = ==_iff-eq i id same in absurd (ground (arith, p, h, fresh))
  | inr other ↦ (c, items_put_other id i new s other ∙ h, Evolves-refl c)
]

pub put_keys-items : (c : ProviderBudgetCommand) (s : CommandStore) → (put_keys c s).items ≡ s.items
unfolding put_keys
put_keys-items c s = refl

pub put_quarantine-items :
    (k : TargetKey) (id : Option ℕ) (s : CommandStore) → (put_quarantine k id s).items ≡ s.items
unfolding put_quarantine
put_quarantine-items k id s = refl

pub requarantined-items :
    (id : ℕ) (to : BudgetCommandStatus) (k : TargetKey) (s : CommandStore)
    → (requarantined id to k s).items ≡ s.items
unfolding requarantined
requarantined-items id to k s =
    ground (arith, put_quarantine-items k (some id) s, put_quarantine-items k none s)

-- Only the items matter.
AllEvolve-items : (s t u : CommandStore) → u.items ≡ t.items → AllEvolve s t → AllEvolve s u
AllEvolve-items s t u e h i c found =
    let (d, at, ev) = h i c found in (d, ap (λ items. items i) e ∙ at, ev)

pub AllEvolve-trans : (s t u : CommandStore) → AllEvolve s t → AllEvolve t u → AllEvolve s u
AllEvolve-trans s t u h k i c found =
    let (d, at, e) = h i c found in let (d', at', e') = k i d at in (d', at', Evolves-trans e e')

Submits-AllEvolve :
    (n : NewCommand) (new_id now : ℕ) (s : CommandStore) (r : CommandSubmission × CommandStore)
    → s.items new_id ≡ none
    → Submits n new_id now s r
    → AllEvolve s r.1
Submits-AllEvolve n new_id now s r fresh (enqueues key valid e q) =
    let stored = put_item new_id (queued_command n key new_id now) s in
    AllEvolve-items s stored r.1
      (ap (λ t. t.items) q.store ∙ put_keys-items (queued_command n key new_id now) stored)
      (put_new-AllEvolve new_id (queued_command n key new_id now) s fresh)
Submits-AllEvolve n new_id now s r fresh (replays key id valid e q) =
    λ i c found. (c, ap (λ t. t.items i) q.store ∙ found, Evolves-refl c)

finished_items :
    (b : Bool) (k : TargetKey) (id : Option ℕ) (s : CommandStore)
    → (if b then put_quarantine k id s else s).items ≡ s.items
finished_items true k id s = put_quarantine-items k id s
finished_items false k id s = refl

-- One step keeps every command, moves it along the state machine and changes neither what it asks
-- for nor who asked; a final command stays as it is.
Step-AllEvolve : {s t : CommandStore} → Step s t → AllEvolve s t
Step-AllEvolve {s} {t} (Step.submits n new_id now {sub = sub} fresh e) =
    Submits-AllEvolve n new_id now s (sub, t) fresh
      ((create_or_replay-Submits n new_id now s).at (sub, t) e)
Step-AllEvolve {s} {t} (Step.claims id now {c = c} e) =
    let q = (claim_queued-Claims id now s).at (c, t) e in
    AllEvolve-items s (put_item id (claimed q.old now) s) t (ap (λ t. t.items) q.store) (
      put_item-AllEvolve id q.old (claimed q.old now) s q.found
        (claimed-Evolves q.old now q.was_queued))
Step-AllEvolve {s} {t} (Step.finishes id f now {c = c} e) =
    let q = (finish_execution-Finishes id f now s).at (c, t) e in
    AllEvolve-items s (put_item id (finished q.old f now) s) t
      (ap (λ t. t.items) q.store
        ∙ finished_items (is_unknown f.status) (target_key q.old.request) (some id)
            (put_item id (finished q.old f now) s))
      (put_item-AllEvolve id q.old (finished q.old f now) s q.found
        (finished-Evolves q.old f now q.was_in_progress q.ends))
Step-AllEvolve {s} {t} (Step.reconciles id f now {c = c} e) =
    let q = (record_reconciliation-Reconciles id f now s).at (c, t) e in
    AllEvolve-items s (put_item id (reconciled q.old f now) s) t
      (ap (λ t. t.items) q.store
        ∙ requarantined-items id f.status (target_key q.old.request)
            (put_item id (reconciled q.old f now) s))
      (put_item-AllEvolve id q.old (reconciled q.old f now) s q.found
        (reconciled-Evolves q.old f now q.was_unknown q.ends))

pub Steps-AllEvolve : {s t : CommandStore} → Steps s t → AllEvolve s t
Steps-AllEvolve done = λ i c found. (c, found, Evolves-refl c)
Steps-AllEvolve {s} {t} (next {t = u} h k) =
    AllEvolve-trans s u t (Step-AllEvolve h) (Steps-AllEvolve k)

-- Over any sequence of steps of the store, by whichever threads, every command stays: its request,
-- its actor, its two snapshots, its keys and hashes and its first amount never change, its log of
-- attempts only grows, its state moves along queued, in progress, then applied, conflict, failed or
-- unknown, and from unknown by a reconciliation; a command that is applied, in conflict or failed is
-- never changed again.
pub Steps-Evolves :
    (s t : CommandStore) (i : ℕ) (c : ProviderBudgetCommand)
    → Steps s t
    → s.items i ≡ some c
    → (d : ProviderBudgetCommand) × (t.items i ≡ some d) × Evolves c d
Steps-Evolves s t i c steps found = Steps-AllEvolve steps i c found
