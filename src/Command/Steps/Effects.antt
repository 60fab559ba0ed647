-- ===== src/Command/Steps/Effects.antt =====
-- What each method of `InMemoryBudgetCommandStore` has done when it returns.
use Prim.Native.String.{String}
use text.Mathlib.TextEquality.{eq_iff}
use client_dash_up.Base.Text.{str_eq}
use client_dash_up.Base.{
  ℕ, ◌≡◌, refl, true, false, Option, none, some, arith, Option-cases, if◌then◌else◌, is_some, inl,
  inr, not,
}
use client_dash_up.Base.Outcome.{
  ok, raise_if-false, or_raise-some, Ensures, Ensures-ok, Ensures-bind,
}
use client_dash_up.Command.Types.{
  in_progress, queued, unknown, ProviderBudgetCommand, CommandSubmission, BudgetCommandStatus,
}
use client_dash_up.Command.Store.{
  CommandStore, NewCommand, Finish, validate_idempotency_key, replay, enqueue, create_or_replay,
  claimed, claim_queued, finished, finish_execution, reconciled, requarantined,
  record_reconciliation, put_item, put_keys, put_quarantine, queued_command, target_key, is_unknown,
  is_queued, ends_execution, ends_reconciliation,
}

is_queued-eq : (s : BudgetCommandStatus) → is_queued s ≡ true → s ≡ queued
is_queued-eq s h = ground arith

pub record Claims (id now : ℕ) (s : CommandStore) (r : ProviderBudgetCommand × CommandStore)
    : Type 0 where
  pub old : ProviderBudgetCommand
  pub found : s.items id ≡ some old
  pub was_queued : old.status ≡ queued
  pub row : r.0 ≡ claimed old now
  pub store : r.1 ≡ put_item id (claimed old now) s

pub claim_queued-Claims :
    (id now : ℕ) (s : CommandStore) → Ensures (Claims id now s) (claim_queued id now s)
unfolding claim_queued
claim_queued-Claims id now s = Ensures-bind λ old found. Ensures-bind λ _ fine. Ensures-ok (record {
  old = old;
  found = or_raise-some _ _ old found;
  was_queued = let e = raise_if-false _ _ fine in ground arith;
  row = refl;
  store = refl;
})

pub record Finishes (id : ℕ) (f : Finish) (now : ℕ) (s : CommandStore)
    (r : ProviderBudgetCommand × CommandStore) : Type 0 where
  pub old : ProviderBudgetCommand
  pub found : s.items id ≡ some old
  pub was_in_progress : old.status ≡ in_progress
  pub ends : ends_execution f.status ≡ true
  pub row : r.0 ≡ finished old f now
  pub store : r.1 ≡ (
      if is_unknown f.status
      then put_quarantine (target_key old.request) (some id) (put_item id (finished old f now) s)
      else put_item id (finished old f now) s)

pub finish_execution-Finishes :
    (id : ℕ) (f : Finish) (now : ℕ) (s : CommandStore)
    → Ensures (Finishes id f now s) (finish_execution id f now s)
unfolding finish_execution
finish_execution-Finishes id f now s = Ensures-bind λ _ ends. Ensures-bind λ old found.
    Ensures-bind λ _ fine. Ensures-ok (record {
      old = old;
      found = or_raise-some _ _ old found;
      was_in_progress = let e = raise_if-false _ _ fine in ground arith;
      ends = let e = raise_if-false _ _ ends in ground arith;
      row = refl;
      store = refl;
    })

pub record Reconciles (id : ℕ) (f : Finish) (now : ℕ) (s : CommandStore)
    (r : ProviderBudgetCommand × CommandStore) : Type 0 where
  pub old : ProviderBudgetCommand
  pub found : s.items id ≡ some old
  pub was_unknown : old.status ≡ unknown
  pub ends : ends_reconciliation f.status ≡ true
  pub row : r.0 ≡ reconciled old f now
  pub store :
      r.1
      ≡ requarantined id f.status (target_key old.request) (put_item id (reconciled old f now) s)

pub record_reconciliation-Reconciles :
    (id : ℕ) (f : Finish) (now : ℕ) (s : CommandStore)
    → Ensures (Reconciles id f now s) (record_reconciliation id f now s)
unfolding record_reconciliation
record_reconciliation-Reconciles id f now s = Ensures-bind λ _ ends. Ensures-bind λ old found.
    Ensures-bind λ _ fine. Ensures-ok (record {
      old = old;
      found = or_raise-some _ _ old found;
      was_unknown = let e = raise_if-false _ _ fine in ground arith;
      ends = let e = raise_if-false _ _ ends in ground arith;
      row = refl;
      store = refl;
    })

-- A new command: neither its preview was consumed nor its target in quarantine.
pub record Enqueues (n : NewCommand) (key : String) (new_id now : ℕ) (s : CommandStore)
    (r : CommandSubmission × CommandStore) : Type 0 where
  pub unused : s.preview_hashes n.preview_hash ≡ none
  pub free : s.target_quarantines (target_key n.request) ≡ none
  pub row : r.0 ≡ record { command = queued_command n key new_id now; replayed = false }
  pub store :
      r.1
      ≡ put_keys
          (queued_command n key new_id now)
          (put_item new_id (queued_command n key new_id now) s)

not_some : {A : Type 0} (o : Option A) → is_some o ≡ false → o ≡ none
not_some none e = refl
not_some (some a) e = cc

pub enqueue-Enqueues :
    (n : NewCommand) (key : String) (new_id now : ℕ) (s : CommandStore)
    → Ensures (Enqueues n key new_id now s) (enqueue n key new_id now s)
unfolding enqueue
enqueue-Enqueues n key new_id now s = Ensures-bind λ _ unused. Ensures-bind λ _ free.
    Ensures-ok (record {
      unused = not_some _ (raise_if-false _ _ unused);
      free = not_some _ (raise_if-false _ _ free);
      row = refl;
      store = refl;
    })

str_eq-eq : (a b : String) → not (str_eq a b) ≡ false → a ≡ b
str_eq-eq a b h = (eq_iff a b).0 (ground arith)

pub record Replays (id : ℕ) (n : NewCommand) (s : CommandStore)
    (r : CommandSubmission × CommandStore) : Type 0 where
  pub old : ProviderBudgetCommand
  pub found : s.items id ≡ some old
  pub same_hash : old.request_hash ≡ n.request_hash
  pub row : r.0 ≡ record { command = old; replayed = true }
  pub store : r.1 ≡ s

pub replay-Replays :
    (id : ℕ) (n : NewCommand) (s : CommandStore) → Ensures (Replays id n s) (replay id n s)
unfolding replay
replay-Replays id n s = Ensures-bind λ old found. Ensures-bind λ _ fine. Ensures-ok (record {
  old = old;
  found = or_raise-some _ _ old found;
  same_hash = str_eq-eq _ _ (raise_if-false _ _ fine);
  row = refl;
  store = refl;
})

-- `create_or_replay` by whether the key was used.
pub data Submits (n : NewCommand) (new_id now : ℕ) (s : CommandStore)
    (r : CommandSubmission × CommandStore) : Type 0 where
  enqueues :
      (key : String)
      → validate_idempotency_key n.idempotency_key ≡ ok key
      → s.idempotency n.request.client_id key ≡ none
      → Enqueues n key new_id now s r
      → Submits n new_id now s r
  replays :
      (key : String) (id : ℕ)
      → validate_idempotency_key n.idempotency_key ≡ ok key
      → s.idempotency n.request.client_id key ≡ some id
      → Replays id n s r
      → Submits n new_id now s r

pub create_or_replay-Submits :
    (n : NewCommand) (new_id now : ℕ) (s : CommandStore)
    → Ensures (Submits n new_id now s) (create_or_replay n new_id now s)
unfolding create_or_replay
create_or_replay-Submits n new_id now s = Ensures-bind λ key valid.
    elim (Option-cases (s.idempotency n.request.client_id key)) [
      | inl e ↦
          rw e record {
            at = λ r h. enqueues key valid e ((enqueue-Enqueues n key new_id now s).at r h);
          }
      | inr (id, e) ↦
          rw e record { at = λ r h. replays key id valid e ((replay-Replays id n s).at r h) }
    ]
