-- ===== src/Command/Sqlite/Tables.antt =====
-- The tables of `SqliteProviderBudgetCommandStore` (app/db.py), and the statements on them. A row of a
-- command holds what `_to_command` reads from its columns, with the rows of
-- `provider_budget_command_attempts` that belong to it, by their number.
use Prim.Native.String.{String}
use client_dash_up.Base.{
  ℕ, Bool, not, ◌&&◌, ◌||◌, Option, none, some, List, [], ◌∷◌, ◌++◌, ◌==◌, leb, any, first,
  if◌then◌else◌,
}
use client_dash_up.Base.Text.{str_eq}
use client_dash_up.Base.Outcome.{ok, ◌>>◌, raise_if}
use client_dash_up.Base.Sorting.{insert_by}
use client_dash_up.Command.Types.{
  SanitizedProviderError, Fallible, other_exception, BudgetCommandAttempt, ProviderBudgetCommand,
}
use client_dash_up.Command.Store.{
  TargetKey, target_key, same_target, is_in_progress, ends_execution,
}

-- A row of `provider_budget_target_locks`; its provider is always "meta".
pub record LockRow : Type 0 where
  pub target : TargetKey
  pub command_id : ℕ
  pub lease_token : ℕ
  pub lease_until : ℕ
  pub updated_at : ℕ

-- A row of `provider_budget_target_quarantines`.
pub record QuarantineRow : Type 0 where
  pub target : TargetKey
  pub command_id : ℕ
  pub created_at : ℕ
  pub updated_at : ℕ

pub record Tables : Type 0 where
  pub commands : List ProviderBudgetCommand
  pub locks : List LockRow
  pub quarantines : List QuarantineRow

-- `UPDATE ... SET ... WHERE ...`
abbrev pub update_where {ℓ} : {A : Type ℓ} → (A → Bool) → (A → A) → List A → List A
update_where p f [] = []
update_where p f (x ∷ xs) = let rest = update_where p f xs in if p x then f x ∷ rest else x ∷ rest

-- `WHERE id=?`
abbrev pub has_command_id : ℕ → ProviderBudgetCommand → Bool
has_command_id id command = command.id == id

abbrev pub find_command : ℕ → Tables → Option ProviderBudgetCommand
find_command id db = first (has_command_id id) db.commands

abbrev pub command_target : ProviderBudgetCommand → TargetKey
command_target command = target_key command.request

-- `WHERE provider='meta' AND target_type=? AND provider_target_id=? AND budget_field=?`
abbrev pub quarantines_target : TargetKey → QuarantineRow → Bool
quarantines_target target row = same_target row.target target

abbrev pub locks_target : TargetKey → LockRow → Bool
locks_target target row = same_target row.target target

abbrev pub find_quarantine : TargetKey → Tables → Option QuarantineRow
find_quarantine target db = first (quarantines_target target) db.quarantines

-- `... AND status='in_progress'`
abbrev pub is_running_on : TargetKey → ProviderBudgetCommand → Bool
is_running_on target command =
    same_target (command_target command) target && is_in_progress command.status

abbrev pub is_running : ℕ → ProviderBudgetCommand → Bool
is_running id command = command.id == id && is_in_progress command.status

-- The insert of a quarantine, where the target has the one that was found: a quarantine of another
-- command is left as it is, and a second one of the same command violates the constraint on
-- `command_id`.
unfoldable pub insert_quarantine :
    ProviderBudgetCommand
    → ℕ
    → List QuarantineRow
    → Option QuarantineRow
    → Fallible (List QuarantineRow)
insert_quarantine command now rows none =
    raise_if (any (λ q. q.command_id == command.id) rows) other_exception
    >> ok (
        rows
        ++ record {
          target = command_target command;
          command_id = command.id;
          created_at = now;
          updated_at = now;
        }
          ∷ [])
insert_quarantine command now rows (some found) = ok (
    update_where (λ q. quarantines_target (command_target command) q && q.command_id == command.id)
      (λ q. record q { updated_at = now }) rows)

-- `_upsert_target_quarantine`
unfoldable pub upsert_target_quarantine :
    ProviderBudgetCommand → ℕ → List QuarantineRow → Fallible (List QuarantineRow)
upsert_target_quarantine command now rows =
    insert_quarantine command now rows (first (quarantines_target (command_target command)) rows)

-- `INSERT ... ON CONFLICT(provider, target_type, provider_target_id, budget_field) DO UPDATE SET ...`
unfoldable pub upsert_lock : LockRow → List LockRow → List LockRow
upsert_lock row [] = row ∷ []
upsert_lock row (r ∷ rows) =
    let rest = upsert_lock row rows in
    if same_target r.target row.target then row ∷ rows else r ∷ rest

-- `str(value) if value else None`
unfoldable pub read_text : Option String → Option String
read_text none = none
read_text (some s) = if str_eq s "" then none else some s

-- An error as it is read back: its trace id is that of the row.
unfoldable pub read_error :
    Option SanitizedProviderError → Option String → Option SanitizedProviderError
read_error none provider_trace_id = none
read_error (some x) provider_trace_id =
    if str_eq x.code "" then none else some (record x { trace_id = read_text provider_trace_id })

-- An attempt as it is read back.
unfoldable pub read_attempt : BudgetCommandAttempt → BudgetCommandAttempt
read_attempt attempt = record attempt {
  provider_trace_id = read_text attempt.provider_trace_id;
  error = read_error attempt.error attempt.provider_trace_id;
}

-- The insert of `_insert_attempt`, with the CHECKs and the constraint on `(command_id, attempt_no)`.
unfoldable pub insert_attempt :
    BudgetCommandAttempt → List BudgetCommandAttempt → Fallible (List BudgetCommandAttempt)
insert_attempt attempt attempts =
    raise_if
      (attempt.attempt_no == 0
        || not (ends_execution attempt.outcome)
        || any (λ a. a.attempt_no == attempt.attempt_no) attempts)
      other_exception
    >> ok (insert_by (λ a b. leb a.attempt_no b.attempt_no) (read_attempt attempt) attempts)
