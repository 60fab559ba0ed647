-- ===== src/Command/Service/Replies.antt =====
-- The write of `execute` and its read-back: what the provider answers, and the state of the command
-- that this calls for (app/services/provider_budget_commands.py).
use Prim.Native.String.{String}
use client_dash_up.Base.{
  ℕ, ◌≡◌, ◌≢◌, ◌⊎◌, inl, inr, refl, true, false, Bool, Bool-cases, not, Option, arith, ◌==◌,
  ==_iff-eq,
}
use client_dash_up.Base.Outcome.{ok, err, raise_if, raise_if-false}
use client_dash_up.Command.Types.{
  BudgetCommandStatus, applied, conflict, failed, unknown, SanitizedProviderError, Failure,
  validation_error, policy_error, preview_token_error, preview_expired_error,
  idempotency_conflict_error, conflict_error, not_executable_error, provider_error,
  write_outcome_unknown, other_exception, BudgetSnapshot, ProviderWriteReceipt,
  ProviderBudgetCommand,
}
use client_dash_up.Command.Snapshots.{snapshot_matches_request}
use client_dash_up.Command.Provider.{Adapter}
use client_dash_up.Command.Service.Attempt.{confirm, verdict}

-- The errors of this module that are neither of the provider nor a conflict.
abbrev pub IsDomainError : Failure → Type 0
IsDomainError (validation_error code) = Unit
IsDomainError (policy_error code) = Unit
IsDomainError (preview_token_error code) = Unit
IsDomainError (preview_expired_error code) = Unit
IsDomainError (idempotency_conflict_error code) = Unit
IsDomainError (not_executable_error code) = Unit
IsDomainError _ = ⊥

-- The state of a command whose attempt was stopped by a failure, by whether the provider had
-- accepted the write.
pub data StopsAs (accepted : Bool) : Failure → BudgetCommandStatus → Type 0 where
  conflicts : (code : String) → StopsAs accepted (conflict_error code) conflict
  uncertain : (e : SanitizedProviderError) → StopsAs accepted (write_outcome_unknown e) unknown
  rejected :
      (e : SanitizedProviderError) → accepted ≡ false → StopsAs accepted (provider_error e) failed
  ambiguous :
      (e : SanitizedProviderError) → accepted ≡ true → StopsAs accepted (provider_error e) unknown
  crashed : accepted ≡ false → StopsAs accepted other_exception failed
  crashed_after : accepted ≡ true → StopsAs accepted other_exception unknown
  refused : (x : Failure) → IsDomainError x → StopsAs accepted x failed

pub verdict-StopsAs : (x : Failure) (b : Bool) → StopsAs b x (verdict (err x) b).0
unfolding verdict
verdict-StopsAs (validation_error code) b = refused (validation_error code) tt
verdict-StopsAs (policy_error code) b = refused (policy_error code) tt
verdict-StopsAs (preview_token_error code) b = refused (preview_token_error code) tt
verdict-StopsAs (preview_expired_error code) b = refused (preview_expired_error code) tt
verdict-StopsAs (idempotency_conflict_error code) b = refused (idempotency_conflict_error code) tt
verdict-StopsAs (not_executable_error code) b = refused (not_executable_error code) tt
verdict-StopsAs (conflict_error code) b = conflicts code
verdict-StopsAs (write_outcome_unknown e) b = uncertain e
verdict-StopsAs (provider_error e) true = ambiguous e refl
verdict-StopsAs (provider_error e) false = rejected e refl
verdict-StopsAs other_exception true = crashed_after refl
verdict-StopsAs other_exception false = crashed refl

pub StopsAs-conflict :
    (code : String) (status : BudgetCommandStatus)
    → StopsAs false (conflict_error code) status
    → status ≡ conflict
StopsAs-conflict code status (conflicts _) = refl
StopsAs-conflict code status (refused _ denied) = absurd denied

-- What the provider answered to the write in the state `at` and to the read-back after it, the state
-- that it was left in, and the state of the command that this calls for.
pub data Replies {S : Type 0} (adapter : Adapter S) (c : ProviderBudgetCommand) (at after : S)
    (status : BudgetCommandStatus) : Type 0 where
  raised :
      (x : Failure)
      → adapter.write_budget c.request at ≡ (err x, after)
      → StopsAs false x status
      → Replies adapter c at after status
  unacknowledged :
      (receipt : ProviderWriteReceipt)
      → adapter.write_budget c.request at ≡ (ok receipt, after)
      → receipt.accepted ≡ false
      → status ≡ unknown
      → Replies adapter c at after status
  unread :
      (receipt : ProviderWriteReceipt) (x : Failure) (between : S)
      → adapter.write_budget c.request at ≡ (ok receipt, between)
      → receipt.accepted ≡ true
      → adapter.read_budget c.request between ≡ (err x, after)
      → StopsAs true x status
      → Replies adapter c at after status
  mistaken :
      (receipt : ProviderWriteReceipt) (snapshot : BudgetSnapshot) (x : Failure) (between : S)
      → adapter.write_budget c.request at ≡ (ok receipt, between)
      → receipt.accepted ≡ true
      → adapter.read_budget c.request between ≡ (ok snapshot, after)
      → snapshot_matches_request snapshot c.request ≡ err x
      → StopsAs true x status
      → Replies adapter c at after status
  shown :
      (receipt : ProviderWriteReceipt) (snapshot : BudgetSnapshot) (between : S)
      → adapter.write_budget c.request at ≡ (ok receipt, between)
      → receipt.accepted ≡ true
      → adapter.read_budget c.request between ≡ (ok snapshot, after)
      → snapshot_matches_request snapshot c.request ≡ ok tt
      → (snapshot.amount_minor ≡ c.request.amount_minor) × (status ≡ applied)
        ⊎ (snapshot.amount_minor ≢ c.request.amount_minor) × (status ≡ unknown)
      → Replies adapter c at after status

pub confirm-cases :
    (c : ProviderBudgetCommand) (m : ℕ) (t : Option String)
    → (m ≡ c.request.amount_minor) × ((confirm c m t).0 ≡ applied)
      ⊎ (m ≢ c.request.amount_minor) × ((confirm c m t).0 ≡ unknown)
unfolding confirm
confirm-cases c m t = elim (Bool-cases (m == c.request.amount_minor)) [
  | inl same ↦ inl (==_iff-eq m c.request.amount_minor same, rw same refl)
  | inr other ↦ inr ((λ same. ground arith), rw other refl)
]

pub raised_by : (b : Bool) (y x : Failure) → raise_if (not b) y ≡ err x → (b ≡ false) × (y ≡ x)
unfolding raise_if
raised_by true y x h = absurd (cc (h))
raised_by false y x h = (refl, ground arith)

pub stopped_by : (b : Bool) (y x : Failure) → raise_if b y ≡ err x → x ≡ y
unfolding raise_if
stopped_by true y x h = ground arith
stopped_by false y x h = absurd (cc (h))

pub acknowledged : (b : Bool) (y : Failure) → raise_if (not b) y ≡ ok tt → b ≡ true
acknowledged b y h = let e = raise_if-false (not b) y h in ground arith
