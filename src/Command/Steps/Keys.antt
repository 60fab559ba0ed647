-- ===== src/Command/Steps/Keys.antt =====
-- The idempotency keys and the consumed previews of the command store are never given up.
use Prim.Native.String.{String}
use text.Mathlib.TextEquality.{eq_iff}
use client_dash_up.Base.{
  ℕ, ◌≡◌, refl, sym, ap, ◌∙◌, subst, true, ◌&&◌, Bool-cases, inl, inr, none, some, arith, ◌==◌,
  ==_iff-eq, ==_self,
}
use client_dash_up.Base.Text.{str_eq}
use client_dash_up.Command.Types.{ProviderBudgetCommand, CommandSubmission}
use client_dash_up.Command.Store.{CommandStore, NewCommand, put_item, put_keys, queued_command}
use client_dash_up.Command.Steps.Moves.{Step, Steps, done, next}
use client_dash_up.Command.Steps.Effects.{
  claim_queued-Claims, finish_execution-Finishes, record_reconciliation-Reconciles, Submits,
  enqueues, replays, create_or_replay-Submits,
}
use client_dash_up.Command.Steps.Updates.{Claims-Updates, Finishes-Updates, Reconciles-Updates}

pub put_keys-key :
    (c : ProviderBudgetCommand) (s : CommandStore)
    → (put_keys c s).idempotency c.request.client_id c.idempotency_key ≡ some c.id
unfolding put_keys
put_keys-key c s =
    let text = (eq_iff c.idempotency_key c.idempotency_key).1 refl in
    let id = ==_self c.request.client_id in ground arith

pub put_keys-preview :
    (c : ProviderBudgetCommand) (s : CommandStore)
    → (put_keys c s).preview_hashes c.preview_hash ≡ some c.id
unfolding put_keys
put_keys-preview c s = let text = (eq_iff c.preview_hash c.preview_hash).1 refl in ground arith

-- A key that was in use is not one that is new.
put_keys-old_key :
    (c : ProviderBudgetCommand) (s : CommandStore) (client id : ℕ) (key : String)
    → s.idempotency c.request.client_id c.idempotency_key ≡ none
    → s.idempotency client key ≡ some id
    → (put_keys c s).idempotency client key ≡ some id
unfolding put_keys
put_keys-old_key c s client id key unused used =
    elim (Bool-cases (client == c.request.client_id && str_eq key c.idempotency_key)) [
      | inl same ↦
          let p = ==_iff-eq client c.request.client_id (ground arith) in
          let q : str_eq key c.idempotency_key ≡ true = ground arith in
          let q' = (eq_iff key c.idempotency_key).0 q in absurd (cc (p, q', unused, used))
      | inr other ↦ rw other used
    ]

put_keys-old_preview :
    (c : ProviderBudgetCommand) (s : CommandStore) (id : ℕ) (hash : String)
    → s.preview_hashes c.preview_hash ≡ none
    → s.preview_hashes hash ≡ some id
    → (put_keys c s).preview_hashes hash ≡ some id
unfolding put_keys
put_keys-old_preview c s id hash unused used = elim (Bool-cases (str_eq hash c.preview_hash)) [
  | inl same ↦ let q = (eq_iff hash c.preview_hash).0 same in absurd (cc (q, unused, used))
  | inr other ↦ rw other used
]

pub Submits-key :
    (n : NewCommand) (new_id now : ℕ) (s : CommandStore) (r : CommandSubmission × CommandStore)
    → Submits n new_id now s r
    → (client id : ℕ) (key : String) → s.idempotency client key ≡ some id
    → r.1.idempotency client key ≡ some id
unfolding queued_command put_item
Submits-key n new_id now s r (enqueues new_key valid e q) client id key used =
    subst (λ t. t.idempotency client key ≡ some id) (sym q.store)
      (put_keys-old_key (queued_command n new_key new_id now)
        (put_item new_id (queued_command n new_key new_id now) s) client id key e used)
Submits-key n new_id now s r (replays old_key old valid e q) client id key used =
    ap (λ t. t.idempotency client key) q.store ∙ used

pub Submits-preview :
    (n : NewCommand) (new_id now : ℕ) (s : CommandStore) (r : CommandSubmission × CommandStore)
    → Submits n new_id now s r
    → (id : ℕ) (hash : String) → s.preview_hashes hash ≡ some id
    → r.1.preview_hashes hash ≡ some id
unfolding queued_command put_item
Submits-preview n new_id now s r (enqueues new_key valid e q) id hash used =
    subst (λ t. t.preview_hashes hash ≡ some id) (sym q.store)
      (put_keys-old_preview (queued_command n new_key new_id now)
        (put_item new_id (queued_command n new_key new_id now) s) id hash q.unused used)
Submits-preview n new_id now s r (replays old_key old valid e q) id hash used =
    ap (λ t. t.preview_hashes hash) q.store ∙ used

pub Step-key :
    {s t : CommandStore}
    → Step s t
    → (client id : ℕ) (key : String) → s.idempotency client key ≡ some id
    → t.idempotency client key ≡ some id
Step-key {s} {t} (Step.submits n new_id now {sub = sub} fresh e) client id key used =
    Submits-key n new_id now s (sub, t) ((create_or_replay-Submits n new_id now s).at (sub, t) e)
      client id key used
Step-key {s} {t} (Step.claims cid now {c = c} e) client id key used =
    ap (λ m. m client key)
      (Claims-Updates cid now s (c, t) ((claim_queued-Claims cid now s).at (c, t) e)).idempotency
    ∙ used
Step-key {s} {t} (Step.finishes cid f now {c = c} e) client id key used =
    ap (λ m. m client key)
      (Finishes-Updates cid f now s (c, t)
        ((finish_execution-Finishes cid f now s).at (c, t) e)).idempotency
    ∙ used
Step-key {s} {t} (Step.reconciles cid f now {c = c} e) client id key used =
    ap (λ m. m client key)
      (Reconciles-Updates cid f now s (c, t)
        ((record_reconciliation-Reconciles cid f now s).at (c, t) e)).idempotency
    ∙ used

pub Step-preview :
    {s t : CommandStore}
    → Step s t
    → (id : ℕ) (hash : String) → s.preview_hashes hash ≡ some id
    → t.preview_hashes hash ≡ some id
Step-preview {s} {t} (Step.submits n new_id now {sub = sub} fresh e) id hash used =
    Submits-preview n new_id now s (sub, t)
      ((create_or_replay-Submits n new_id now s).at (sub, t) e) id hash used
Step-preview {s} {t} (Step.claims cid now {c = c} e) id hash used =
    ap (λ m. m hash)
      (Claims-Updates cid now s (c, t) ((claim_queued-Claims cid now s).at (c, t) e)).preview_hashes
    ∙ used
Step-preview {s} {t} (Step.finishes cid f now {c = c} e) id hash used =
    ap (λ m. m hash)
      (Finishes-Updates cid f now s (c, t)
        ((finish_execution-Finishes cid f now s).at (c, t) e)).preview_hashes
    ∙ used
Step-preview {s} {t} (Step.reconciles cid f now {c = c} e) id hash used =
    ap (λ m. m hash)
      (Reconciles-Updates cid f now s (c, t)
        ((record_reconciliation-Reconciles cid f now s).at (c, t) e)).preview_hashes
    ∙ used

pub Steps-key :
    {s t : CommandStore}
    → Steps s t
    → (client id : ℕ) (key : String) → s.idempotency client key ≡ some id
    → t.idempotency client key ≡ some id
Steps-key done client id key used = used
Steps-key (next h k) client id key used = Steps-key k client id key (Step-key h client id key used)

pub Steps-preview :
    {s t : CommandStore}
    → Steps s t
    → (id : ℕ) (hash : String) → s.preview_hashes hash ≡ some id
    → t.preview_hashes hash ≡ some id
Steps-preview done id hash used = used
Steps-preview (next h k) id hash used = Steps-preview k id hash (Step-preview h id hash used)
