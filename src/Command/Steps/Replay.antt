-- ===== src/Command/Steps/Replay.antt =====
-- What a submission and a claim mean for the rest of the life of the store: a key is replayed, a
-- preview is consumed and a command is claimed once (app/services/provider_budget_commands.py).
use Prim.Native.String.{String}
use text.Mathlib.TextEquality.{eq_iff}
use client_dash_up.Base.{ℕ, ◌≡◌, ◌≢◌, refl, sym, ap, ◌∙◌, subst, true, false, some, arith}
use client_dash_up.Base.Outcome.{ok, err, ◌>>=◌, raise_if, or_raise}
use client_dash_up.Command.Types.{
  BudgetCommandStatus, queued, not_executable_error, ProviderBudgetCommand, CommandSubmission,
}
use client_dash_up.Command.Store.{
  CommandStore, NewCommand, validate_idempotency_key, replay, create_or_replay, claim_queued,
  claimed, put_item, put_keys, queued_command, is_queued,
}
use client_dash_up.Command.Steps.Moves.{Turn, Moves, stays, turns, Evolves, Steps}
use client_dash_up.Command.Steps.Effects.{
  claim_queued-Claims, Submits, enqueues, replays, create_or_replay-Submits,
}
use client_dash_up.Command.Steps.Evolve.{Steps-AllEvolve, items_put_same, put_keys-items}
use client_dash_up.Command.Steps.Keys.{put_keys-key, put_keys-preview, Steps-key, Steps-preview}

Turn-not_queued : {a b : BudgetCommandStatus} → Turn a b → b ≢ queued
Turn-not_queued Turn.claims e = cc
Turn-not_queued (Turn.finishes {to = to} h) e = ground arith
Turn-not_queued (Turn.reconciles {to = to} h) e = ground arith

Moves-not_queued : {a b : BudgetCommandStatus} → Moves a b → a ≢ queued → b ≢ queued
Moves-not_queued stays n = n
Moves-not_queued (turns t m) n = Moves-not_queued m (Turn-not_queued t)

not_queued : (s : BudgetCommandStatus) → s ≢ queued → is_queued s ≡ false
not_queued s n = ground arith

claim_refused :
    (id now : ℕ) (s : CommandStore) (c : ProviderBudgetCommand)
    → s.items id ≡ some c
    → c.status ≢ queued
    → claim_queued id now s ≡ err (not_executable_error "command_not_executable")
unfolding claim_queued ◌>>=◌ or_raise raise_if
claim_refused id now s c found n = rw (found, not_queued c.status n) refl

claimed-status : (c : ProviderBudgetCommand) (now : ℕ) → (claimed c now).status ≢ queued
unfolding claimed
claimed-status c now e = cc

-- A command that was claimed is never claimed again: after any steps of the store, whichever threads
-- take them, `claim_queued` on its id raises. So the write that follows a claim is tried once.
pub claim_queued-once :
    (id now : ℕ) (c : ProviderBudgetCommand) (s t u : CommandStore) (later : ℕ)
    → claim_queued id now s ≡ ok (c, t)
    → Steps t u
    → claim_queued id later u ≡ err (not_executable_error "command_not_executable")
claim_queued-once id now c s t u later e steps =
    let q = (claim_queued-Claims id now s).at (c, t) e in
    let at = ap (λ t. t.items id) q.store ∙ items_put_same id (claimed q.old now) s in
    let (d, found, ev) = Steps-AllEvolve steps id (claimed q.old now) at in
    claim_refused id later u d found (Moves-not_queued ev.moves (claimed-status q.old now))

pair_eq : {A B : Type 0} {a : A} {b : B} (r : A × B) → r.0 ≡ a → r.1 ≡ b → r ≡ (a, b)
pair_eq (x, y) e f = cc (e, f)

-- Where a submission that returned stands in the store.
record Stands (n : NewCommand) (command : ProviderBudgetCommand) (t : CommandStore) : Type 0 where
  key : String
  id : ℕ
  valid : validate_idempotency_key n.idempotency_key ≡ ok key
  keyed : t.idempotency n.request.client_id key ≡ some id
  item : t.items id ≡ some command
  hash : command.request_hash ≡ n.request_hash

enqueued-Stands :
    (n : NewCommand) (key : String) (new_id now : ℕ) (s : CommandStore)
    → validate_idempotency_key n.idempotency_key ≡ ok key
    → Stands n (queued_command n key new_id now) (
        put_keys
          (queued_command n key new_id now)
          (put_item new_id (queued_command n key new_id now) s))
unfolding queued_command
enqueued-Stands n key new_id now s valid = record {
  key = key;
  id = new_id;
  valid = valid;
  keyed =
      put_keys-key (queued_command n key new_id now)
        (put_item new_id (queued_command n key new_id now) s);
  item =
      ap (λ items. items new_id)
        (put_keys-items (queued_command n key new_id now)
          (put_item new_id (queued_command n key new_id now) s))
      ∙ items_put_same new_id (queued_command n key new_id now) s;
  hash = refl;
}

Submits-Stands :
    (n : NewCommand) (new_id now : ℕ) (s : CommandStore) (r : CommandSubmission × CommandStore)
    → Submits n new_id now s r
    → Stands n r.0.command r.1
Submits-Stands n new_id now s r (enqueues key valid e q) =
    subst (λ (r : CommandSubmission × CommandStore). Stands n r.0.command r.1)
      (sym (pair_eq r q.row q.store)) (enqueued-Stands n key new_id now s valid)
Submits-Stands n new_id now s r (replays key id valid e q) = record {
  key = key;
  id = id;
  valid = valid;
  keyed = ap (λ t. t.idempotency n.request.client_id key) q.store ∙ e;
  item = ap (λ t. t.items id) q.store ∙ (q.found ∙ ap (λ x. some x.command) (sym q.row));
  hash = ap (λ x. x.command.request_hash) q.row ∙ q.same_hash;
}

replayed_by_key :
    (n : NewCommand) (new_id now id : ℕ) (key : String) (s : CommandStore)
    (d : ProviderBudgetCommand)
    → validate_idempotency_key n.idempotency_key ≡ ok key
    → s.idempotency n.request.client_id key ≡ some id
    → s.items id ≡ some d
    → d.request_hash ≡ n.request_hash
    → create_or_replay n new_id now s ≡ ok (record { command = d; replayed = true }, s)
unfolding create_or_replay replay ◌>>=◌ or_raise raise_if
replayed_by_key n new_id now id key s d valid keyed item hash =
    let same = (eq_iff d.request_hash n.request_hash).1 hash in rw (valid, keyed, item, same) refl

-- A submission that returned is replayed: whatever steps the store takes afterwards, submitting it
-- again returns the same command, as it then stands, marked as a replay, and writes nothing.
pub create_or_replay-idempotent :
    (n : NewCommand) (new_id now : ℕ) (sub : CommandSubmission) (s t u : CommandStore)
    (id' later : ℕ)
    → create_or_replay n new_id now s ≡ ok (sub, t)
    → Steps t u
    → (d : ProviderBudgetCommand) × (create_or_replay n id' later u
        ≡ ok (record { command = d; replayed = true }, u))
      × Evolves sub.command d
create_or_replay-idempotent n new_id now sub s t u id' later e steps =
    let q =
      Submits-Stands n new_id now s (sub, t)
        ((create_or_replay-Submits n new_id now s).at (sub, t) e) in
    let (d, found, ev) = Steps-AllEvolve steps q.id sub.command q.item in
    (
      d,
      replayed_by_key n id' later q.id q.key u d q.valid
          (Steps-key steps n.request.client_id q.id q.key q.keyed) found (ev.request_hash ∙ q.hash),
      ev,
    )

Submits-consumes :
    (n : NewCommand) (new_id now : ℕ) (s : CommandStore) (r : CommandSubmission × CommandStore)
    → Submits n new_id now s r
    → r.0.replayed ≡ false
    → r.1.preview_hashes n.preview_hash ≡ some r.0.command.id
unfolding queued_command
Submits-consumes n new_id now s r (enqueues key valid e q) h =
    subst
      (λ (r : CommandSubmission × CommandStore).
        r.1.preview_hashes n.preview_hash ≡ some r.0.command.id)
      (sym (pair_eq r q.row q.store))
      (put_keys-preview (queued_command n key new_id now)
        (put_item new_id (queued_command n key new_id now) s))
Submits-consumes n new_id now s r (replays key id valid e q) h = absurd (cc (h, q.row))

Submits-replayed :
    (n : NewCommand) (new_id now id : ℕ) (s : CommandStore) (r : CommandSubmission × CommandStore)
    → Submits n new_id now s r
    → s.preview_hashes n.preview_hash ≡ some id
    → r.0.replayed ≡ true
Submits-replayed n new_id now id s r (enqueues key valid e q) used = absurd (cc (used, q.unused))
Submits-replayed n new_id now id s r (replays key old valid e q) used = ap (λ x. x.replayed) q.row

-- A preview is consumed by the command that it creates: a later submission with the same preview,
-- whatever its key and its request, and whatever steps come between, creates no command; when it
-- returns it is the replay of one.
pub create_or_replay-consumes_preview :
    (n m : NewCommand) (id1 now1 id2 now2 : ℕ) (sub sub' : CommandSubmission)
    (s t u v : CommandStore)
    → create_or_replay n id1 now1 s ≡ ok (sub, t)
    → sub.replayed ≡ false
    → Steps t u
    → m.preview_hash ≡ n.preview_hash
    → create_or_replay m id2 now2 u ≡ ok (sub', v)
    → sub'.replayed ≡ true
create_or_replay-consumes_preview n m id1 now1 id2 now2 sub sub' s t u v e new steps same e' =
    let used =
      Submits-consumes n id1 now1 s (sub, t) ((create_or_replay-Submits n id1 now1 s).at (sub, t) e)
        new in
    Submits-replayed m id2 now2 sub.command.id u (sub', v)
      ((create_or_replay-Submits m id2 now2 u).at (sub', v) e')
      (ap u.preview_hashes same ∙ Steps-preview steps sub.command.id n.preview_hash used)
