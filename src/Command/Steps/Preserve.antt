-- ===== src/Command/Steps/Preserve.antt =====
-- Every step of the command store keeps its invariant.
use Prim.Native.String.{String}
use client_dash_up.Base.{
  ℕ, ◌≡◌, ◌≢◌, ◌⊎◌, refl, sym, ap, ◌∙◌, subst, true, false, Bool-cases, inl, inr, none, some, arith,
  ◌==◌, ==_iff-eq, if◌then◌else◌,
}
use client_dash_up.Command.Types.{unknown, ProviderBudgetCommand, CommandSubmission}
use client_dash_up.Command.Store.{
  CommandStore, NewCommand, put_item, put_keys, queued_command, target_key, TargetKey, same_target,
}
use client_dash_up.Command.Steps.Effects.{Submits, enqueues, replays}
use client_dash_up.Command.Steps.Evolve.{items_put_same, items_put_other}
use client_dash_up.Command.Steps.Keys.{put_keys-key, put_keys-preview, Submits-key, Submits-preview}
use client_dash_up.Command.Steps.Updates.{Updates, same_target_refl, same_target-eq}
use client_dash_up.Command.Steps.Invariant.{
  IsCounted, Holds, WellFormed, queued-IsCounted, Updates-Holds,
}

-- A new command stands beside the others.
record Adds (c : ProviderBudgetCommand) (s t : CommandStore) : Type 0 where
  fresh : s.items c.id ≡ none
  at : t.items c.id ≡ some c
  elsewhere : (i : ℕ) → (i == c.id) ≡ false → t.items i ≡ s.items i
  key : t.idempotency c.request.client_id c.idempotency_key ≡ some c.id
  preview : t.preview_hashes c.preview_hash ≡ some c.id
  target_quarantines : t.target_quarantines ≡ s.target_quarantines

put_new-Adds :
    (c : ProviderBudgetCommand) (s : CommandStore)
    → s.items c.id ≡ none
    → Adds c s (put_keys c (put_item c.id c s))
unfolding put_keys put_item
put_new-Adds c s fresh = record {
  fresh = fresh;
  at = items_put_same c.id c s;
  elsewhere = λ i e. items_put_other c.id i c s e;
  key = put_keys-key c (put_item c.id c s);
  preview = put_keys-preview c (put_item c.id c s);
  target_quarantines = refl;
}

Adds-back :
    (c : ProviderBudgetCommand) (s t : CommandStore)
    → Adds c s t
    → (i : ℕ) (d : ProviderBudgetCommand) → t.items i ≡ some d
    → ((i ≡ c.id) × (d ≡ c)) ⊎ (s.items i ≡ some d)
Adds-back c s t a i d e = elim (Bool-cases (i == c.id)) [
  | inl same ↦ let p = ==_iff-eq i c.id same in inl (p, ground (arith, p, e, a.at))
  | inr other ↦ inr (sym (a.elsewhere i other) ∙ e)
]

Adds-WellFormed :
    (c : ProviderBudgetCommand) (s t : CommandStore)
    → Adds c s t
    → IsCounted c
    → ((client id : ℕ) (key : String)
        → s.idempotency client key ≡ some id
        → t.idempotency client key ≡ some id)
    → ((id : ℕ) (hash : String) → s.preview_hashes hash ≡ some id → t.preview_hashes hash ≡ some id)
    → WellFormed s
    → WellFormed t
Adds-WellFormed c s t a counted keys previews h = record {
  indexed = record {
    named = λ i d e. elim (Adds-back c s t a i d e) [
      | inl (p, q) ↦ cc (p, q)
      | inr old ↦ h.indexed.named i d old
    ];
    keyed = λ i d e. elim (Adds-back c s t a i d e) [
      | inl (p, q) ↦ cc (p, q, a.key)
      | inr old ↦ keys d.request.client_id i d.idempotency_key (h.indexed.keyed i d old)
    ];
    previewed = λ i d e. elim (Adds-back c s t a i d e) [
      | inl (p, q) ↦ cc (p, q, a.preview)
      | inr old ↦ previews i d.preview_hash (h.indexed.previewed i d old)
    ];
  };
  counted = λ i d e. elim (Adds-back c s t a i d e) [
    | inl (p, q) ↦ subst IsCounted (sym q) counted
    | inr old ↦ h.counted i d old
  ];
  held = λ k i e.
      let o = h.held k i (ap (λ m. m k) (sym a.target_quarantines) ∙ e) in
      elim (Bool-cases (i == c.id)) [
        | inl same ↦ absurd (cc (==_iff-eq i c.id same, o.item, a.fresh))
        | inr other ↦ record {
          command = o.command;
          item = a.elsewhere i other ∙ o.item;
          unknown = o.unknown;
          target = o.target;
        }
      ];
}

pub Submits-WellFormed :
    (n : NewCommand) (new_id now : ℕ) (s : CommandStore) (r : CommandSubmission × CommandStore)
    → s.items new_id ≡ none
    → Submits n new_id now s r
    → WellFormed s
    → WellFormed r.1
unfolding queued_command
Submits-WellFormed n new_id now s r fresh (enqueues key valid e q) h =
    Adds-WellFormed (queued_command n key new_id now) s r.1
      (subst (Adds (queued_command n key new_id now) s) (sym q.store)
        (put_new-Adds (queued_command n key new_id now) s fresh))
      (queued-IsCounted n key new_id now) (Submits-key n new_id now s r (enqueues key valid e q))
      (Submits-preview n new_id now s r (enqueues key valid e q)) h
Submits-WellFormed n new_id now s r fresh (replays key id valid e q) h =
    subst WellFormed (sym q.store) h

-- The quarantines are as before, and the command was in none.
pub kept-held :
    (id : ℕ) (old new : ProviderBudgetCommand) (s t : CommandStore)
    → Updates id old new s t
    → old.status ≢ unknown
    → ((k : TargetKey) → t.target_quarantines k ≡ s.target_quarantines k)
    → WellFormed s
    → (k : TargetKey) (i : ℕ) → t.target_quarantines k ≡ some i
    → Holds t k i
kept-held id old new s t u not_held same h k i e =
    Updates-Holds id old new s t u k i (λ _ _ held. not_held held) (h.held k i (sym (same k) ∙ e))

-- The target of a command whose outcome is unknown is put in quarantine for it.
pub set-held :
    (id : ℕ) (old new : ProviderBudgetCommand) (s t : CommandStore)
    → Updates id old new s t
    → new.status ≡ unknown
    → ((k : TargetKey)
        → t.target_quarantines k
          ≡ (if same_target k (target_key old.request) then some id else s.target_quarantines k))
    → WellFormed s
    → (k : TargetKey) (i : ℕ) → t.target_quarantines k ≡ some i
    → Holds t k i
set-held id old new s t u held read h k i e =
    elim (Bool-cases (same_target k (target_key old.request))) [
      | inl same ↦
          let p : id ≡ i = ground (arith, read k, same, e) in
          record {
            command = new;
            item = ap t.items (sym p) ∙ u.at;
            unknown = held;
            target =
                ap target_key u.evolves.request
                ∙ sym (same_target-eq k (target_key old.request) same);
          }
      | inr other ↦
          let before : s.target_quarantines k ≡ some i = ground (arith, read k, other, e) in
          Updates-Holds id old new s t u k i
            (λ _ target _.
              let refl_k = same_target_refl k in
              cc (other, subst (λ x. same_target k x ≡ true) (sym target) refl_k))
            (h.held k i before)
    ]

-- The quarantine of the target is lifted.
pub lifted-held :
    (id : ℕ) (old new : ProviderBudgetCommand) (s t : CommandStore)
    → Updates id old new s t
    → ((k : TargetKey)
        → t.target_quarantines k
          ≡ (if same_target k (target_key old.request) then none else s.target_quarantines k))
    → WellFormed s
    → (k : TargetKey) (i : ℕ) → t.target_quarantines k ≡ some i
    → Holds t k i
lifted-held id old new s t u read h k i e =
    elim (Bool-cases (same_target k (target_key old.request))) [
      | inl same ↦ absurd (ground (arith, read k, same, e))
      | inr other ↦
          let before : s.target_quarantines k ≡ some i = ground (arith, read k, other, e) in
          Updates-Holds id old new s t u k i
            (λ _ target _.
              let refl_k = same_target_refl k in
              cc (other, subst (λ x. same_target k x ≡ true) (sym target) refl_k))
            (h.held k i before)
    ]

-- The quarantine of the target names another command, and stays.
pub foreign-held :
    (id : ℕ) (old new : ProviderBudgetCommand) (s t : CommandStore)
    → Updates id old new s t
    → s.target_quarantines (target_key old.request) ≢ some id
    → ((k : TargetKey) → t.target_quarantines k ≡ s.target_quarantines k)
    → WellFormed s
    → (k : TargetKey) (i : ℕ) → t.target_quarantines k ≡ some i
    → Holds t k i
foreign-held id old new s t u foreign same h k i e =
    let before = sym (same k) ∙ e in
    Updates-Holds id old new s t u k i
      (λ p target _. foreign (ap s.target_quarantines target ∙ (before ∙ ap some p)))
      (h.held k i before)
