-- ===== src/Command/Steps/Updates.antt =====
-- What `claim_queued`, `finish_execution` and `record_reconciliation` have in common: one command is
-- replaced by a later form of it, and the keys stay.
use client_dash_up.Base.{
  ℕ, ◌≡◌, refl, sym, ap, ◌∙◌, subst, true, false, Bool, Bool-cases, inl, inr, Option, some, arith,
  ◌==◌, ==_iff-eq, if◌then◌else◌,
}
use client_dash_up.Command.Types.{ProviderBudgetCommand}
use client_dash_up.Base.Text.{str_eq}
use text.Mathlib.TextEquality.{eq_iff}
use client_dash_up.Command.Authorize.{target_type_eq, field_eq}
use client_dash_up.Command.Store.{
  CommandStore, Finish, claimed, finished, reconciled, requarantined, put_item, put_quarantine,
  TargetKey, is_unknown, same_target,
}
use client_dash_up.Command.Steps.Moves.{Evolves}
use client_dash_up.Command.Steps.Effects.{Claims, Finishes, Reconciles}
use client_dash_up.Command.Steps.Turns.{
  Evolves-refl, claimed-Evolves, finished-Evolves, reconciled-Evolves,
}
use client_dash_up.Command.Steps.Evolve.{items_put_same, items_put_other}

pub same_target_refl : (k : TargetKey) → same_target k k ≡ true
unfolding same_target
same_target_refl k =
    let text = (eq_iff k.provider_target_id k.provider_target_id).1 refl in
    let type : target_type_eq k.target_type k.target_type ≡ true = ground arith in
    let field : field_eq k.field k.field ≡ true = ground arith in ground arith

pub same_target-eq : (a b : TargetKey) → same_target a b ≡ true → a ≡ b
unfolding same_target
same_target-eq a b h =
    let type : a.target_type ≡ b.target_type = ground arith in
    let field : a.field ≡ b.field = ground arith in
    let text : str_eq a.provider_target_id b.provider_target_id ≡ true = ground arith in
    let text' = (eq_iff a.provider_target_id b.provider_target_id).0 text in cc (type, field, text')

pub record Updates (id : ℕ) (old new : ProviderBudgetCommand) (s t : CommandStore) : Type 0 where
  pub found : s.items id ≡ some old
  pub evolves : Evolves old new
  pub at : t.items id ≡ some new
  pub elsewhere : (i : ℕ) → (i == id) ≡ false → t.items i ≡ s.items i
  pub idempotency : t.idempotency ≡ s.idempotency
  pub preview_hashes : t.preview_hashes ≡ s.preview_hashes

put_item-Updates :
    (id : ℕ) (old new : ProviderBudgetCommand) (s : CommandStore)
    → s.items id ≡ some old
    → Evolves old new
    → Updates id old new s (put_item id new s)
unfolding put_item
put_item-Updates id old new s found evolves = record {
  found = found;
  evolves = evolves;
  at = items_put_same id new s;
  elsewhere = λ i e. items_put_other id i new s e;
  idempotency = refl;
  preview_hashes = refl;
}

quarantine-Updates :
    (k : TargetKey) (q : Option ℕ) (id : ℕ) (old new : ProviderBudgetCommand) (s t : CommandStore)
    → Updates id old new s t
    → Updates id old new s (put_quarantine k q t)
unfolding put_quarantine
quarantine-Updates k q id old new s t u = record {
  found = u.found;
  evolves = u.evolves;
  at = u.at;
  elsewhere = u.elsewhere;
  idempotency = u.idempotency;
  preview_hashes = u.preview_hashes;
}

pub Claims-Updates :
    (id now : ℕ) (s : CommandStore) (r : ProviderBudgetCommand × CommandStore)
    → (q : Claims id now s r) → Updates id q.old (claimed q.old now) s r.1
Claims-Updates id now s r q = subst (Updates id q.old (claimed q.old now) s) (sym q.store) (
    put_item-Updates id q.old (claimed q.old now) s q.found
      (claimed-Evolves q.old now q.was_queued))

if-Updates :
    (b : Bool) (id : ℕ) (old new : ProviderBudgetCommand) (s t u : CommandStore)
    → Updates id old new s t
    → Updates id old new s u
    → Updates id old new s (if b then t else u)
if-Updates true id old new s t u h k = h
if-Updates false id old new s t u h k = k

pub Finishes-Updates :
    (id : ℕ) (f : Finish) (now : ℕ) (s : CommandStore) (r : ProviderBudgetCommand × CommandStore)
    → (q : Finishes id f now s r) → Updates id q.old (finished q.old f now) s r.1
Finishes-Updates id f now s r q =
    let put =
      put_item-Updates id q.old (finished q.old f now) s q.found
        (finished-Evolves q.old f now q.was_in_progress q.ends) in
    subst (Updates id q.old (finished q.old f now) s) (sym q.store) (
      if-Updates (is_unknown f.status) id q.old _ s _ _ (quarantine-Updates _ _ id q.old _ s _ put)
        put)

pub Reconciles-Updates :
    (id : ℕ) (f : Finish) (now : ℕ) (s : CommandStore) (r : ProviderBudgetCommand × CommandStore)
    → (q : Reconciles id f now s r) → Updates id q.old (reconciled q.old f now) s r.1
unfolding requarantined
Reconciles-Updates id f now s r q =
    let put =
      put_item-Updates id q.old (reconciled q.old f now) s q.found
        (reconciled-Evolves q.old f now q.was_unknown q.ends) in
    subst (Updates id q.old (reconciled q.old f now) s) (sym q.store) (
      if-Updates (is_unknown f.status) id q.old _ s _ _ (quarantine-Updates _ _ id q.old _ s _ put)
        (if-Updates _ id q.old _ s _ _ (quarantine-Updates _ _ id q.old _ s _ put) put))

-- Where a command of the new store comes from.
pub Updates-back :
    (id : ℕ) (old new : ProviderBudgetCommand) (s t : CommandStore)
    → Updates id old new s t
    → (i : ℕ) (d : ProviderBudgetCommand) → t.items i ≡ some d
    → (c : ProviderBudgetCommand) × (s.items i ≡ some c) × Evolves c d
Updates-back id old new s t u i d e = elim (Bool-cases (i == id)) [
  | inl same ↦
      let p = ==_iff-eq i id same in
      let q : d ≡ new = ground (arith, p, e, u.at) in
      (old, ap s.items p ∙ u.found, subst (Evolves old) (sym q) u.evolves)
  | inr other ↦ (d, sym (u.elsewhere i other) ∙ e, Evolves-refl d)
]
