-- ===== src/Command/Steps/Invariant.antt =====
-- The invariant of the command store: the indices agree with the commands, the counters with the
-- logs, and a quarantine names a command whose outcome is unknown.
use Prim.Native.String.{String}
use client_dash_up.Base.{
  ℕ, ◌+◌, ◌≡◌, refl, sym, ap, ◌∙◌, subst, true, false, Bool, Bool-cases, inl, inr, some, arith,
  ◌==◌, ==_iff-eq, length, length-append, [], ◌∷◌, is_some, not,
}
use client_dash_up.Command.Types.{
  BudgetCommandStatus, previewed, queued, in_progress, unknown, ProviderBudgetCommand,
}
use client_dash_up.Command.Store.{
  CommandStore, NewCommand, Finish, claimed, finished, reconciled, queued_command, target_key,
  TargetKey, ends_execution, ends_reconciliation,
}
use client_dash_up.Command.Steps.Updates.{Updates, Updates-back}

-- Attempts that have begun and are not in the log yet.
abbrev pub in_flight : BudgetCommandStatus → ℕ
in_flight in_progress = 1
in_flight _ = 0

abbrev pub is_open : BudgetCommandStatus → Bool
is_open previewed = true
is_open queued = true
is_open in_progress = true
is_open unknown = true
is_open _ = false

-- The counter counts the log, and a command is completed exactly when no method will change it.
pub record IsCounted (c : ProviderBudgetCommand) : Type 0 where
  pub count : c.attempt_count ≡ length c.attempts + in_flight c.status
  pub completed : is_some c.completed_at ≡ not (is_open c.status)

pub record IsIndexed (s : CommandStore) : Type 0 where
  pub named : (i : ℕ) (c : ProviderBudgetCommand) → s.items i ≡ some c → c.id ≡ i
  pub keyed :
      (i : ℕ) (c : ProviderBudgetCommand)
      → s.items i ≡ some c
      → s.idempotency c.request.client_id c.idempotency_key ≡ some i
  pub previewed :
      (i : ℕ) (c : ProviderBudgetCommand)
      → s.items i ≡ some c
      → s.preview_hashes c.preview_hash ≡ some i

-- A quarantine names a command of that target whose outcome is unknown.
pub record Holds (s : CommandStore) (k : TargetKey) (i : ℕ) : Type 0 where
  pub command : ProviderBudgetCommand
  pub item : s.items i ≡ some command
  pub unknown : command.status ≡ unknown
  pub target : target_key command.request ≡ k

pub record WellFormed (s : CommandStore) : Type 0 where
  pub indexed : IsIndexed s
  pub counted : (i : ℕ) (c : ProviderBudgetCommand) → s.items i ≡ some c → IsCounted c
  pub held : (k : TargetKey) (i : ℕ) → s.target_quarantines k ≡ some i → Holds s k i

pub claimed-IsCounted :
    (c : ProviderBudgetCommand) (now : ℕ)
    → c.status ≡ queued
    → IsCounted c
    → IsCounted (claimed c now)
unfolding claimed
claimed-IsCounted c now e h = record {
  count = let a = h.count in let b : in_flight c.status ≡ 0 = ap in_flight e in omega arith;
  completed = h.completed ∙ ap (λ s. not (is_open s)) e;
}

pub finished-IsCounted :
    (c : ProviderBudgetCommand) (f : Finish) (now : ℕ)
    → c.status ≡ in_progress
    → ends_execution f.status ≡ true
    → IsCounted c
    → IsCounted (finished c f now)
unfolding finished
finished-IsCounted c f now e ends h = record {
  count =
      let a = h.count in
      let b : in_flight c.status ≡ 1 = ap in_flight e in
      let d : in_flight f.status ≡ 0 = ground arith in
      omega (arith, length-append c.attempts (_ ∷ []));
  completed = ground arith;
}

pub reconciled-IsCounted :
    (c : ProviderBudgetCommand) (f : Finish) (now : ℕ)
    → c.status ≡ unknown
    → ends_reconciliation f.status ≡ true
    → IsCounted c
    → IsCounted (reconciled c f now)
unfolding reconciled
reconciled-IsCounted c f now e ends h = record {
  count =
      let a = h.count in
      let b : in_flight c.status ≡ 0 = ap in_flight e in
      let d : in_flight f.status ≡ 0 = ground arith in
      omega (arith, length-append c.attempts (_ ∷ []));
  completed = ground arith;
}

pub queued-IsCounted :
    (n : NewCommand) (key : String) (new_id now : ℕ) → IsCounted (queued_command n key new_id now)
unfolding queued_command
queued-IsCounted n key new_id now = record { count = omega arith; completed = refl }

-- An update keeps the indices.
pub Updates-IsIndexed :
    (id : ℕ) (old new : ProviderBudgetCommand) (s t : CommandStore)
    → Updates id old new s t
    → IsIndexed s
    → IsIndexed t
Updates-IsIndexed id old new s t u h = record {
  named =
      λ i d e. let (c, item, ev) = Updates-back id old new s t u i d e in ev.id ∙ h.named i c item;
  keyed = λ i d e.
      let (c, item, ev) = Updates-back id old new s t u i d e in
      let k = h.keyed i c item in cc (k, u.idempotency, ev.request, ev.idempotency_key);
  previewed = λ i d e.
      let (c, item, ev) = Updates-back id old new s t u i d e in
      let k = h.previewed i c item in cc (k, u.preview_hashes, ev.preview_hash);
}

pub Updates-IsCounted :
    (id : ℕ) (old new : ProviderBudgetCommand) (s t : CommandStore)
    → Updates id old new s t
    → IsCounted new
    → ((i : ℕ) (c : ProviderBudgetCommand) → s.items i ≡ some c → IsCounted c)
    → (i : ℕ) (d : ProviderBudgetCommand) → t.items i ≡ some d
    → IsCounted d
Updates-IsCounted id old new s t u counted h i d e = elim (Bool-cases (i == id)) [
  | inl same ↦
      let p = ==_iff-eq i id same in
      let q : d ≡ new = ground (arith, p, e, u.at) in subst IsCounted (sym q) counted
  | inr other ↦ h i d (sym (u.elsewhere i other) ∙ e)
]

-- A quarantine that names another command, or a command that was not unknown, is kept.
pub Updates-Holds :
    (id : ℕ) (old new : ProviderBudgetCommand) (s t : CommandStore)
    → Updates id old new s t
    → (k : TargetKey) (i : ℕ) → ((i ≡ id) → target_key old.request ≡ k → old.status ≡ unknown → ⊥)
    → Holds s k i
    → Holds t k i
Updates-Holds id old new s t u k i other h = elim (Bool-cases (i == id)) [
  | inl same ↦
      let p = ==_iff-eq i id same in
      let q : h.command ≡ old = ground (arith, p, h.item, u.found) in
      absurd (
        other p (ap (λ c. target_key c.request) (sym q) ∙ h.target)
          (ap (λ c. c.status) (sym q) ∙ h.unknown))
  | inr fresh ↦ record {
    command = h.command;
    item = u.elsewhere i fresh ∙ h.item;
    unknown = h.unknown;
    target = h.target;
  }
]
