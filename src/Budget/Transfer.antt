-- ===== src/Budget/Transfer.antt =====
-- `SqliteBudgetStore.transfer` (app/services/budgets.py): an amount moves from an account budget
-- to the budget of another account of the same client, in one transaction.
use Prim.Native.String.{String}
use client_dash_up.Base.{
  ℕ, ◌+◌, Bool, not, ◌&&◌, ◌||◌, Option, none, some, List, [], ◌∷◌, ◌==◌, ltb, opt_eq,
  if◌then◌else◌, select,
}
use client_dash_up.Base.Int.{ℤ, pos, ◌+ℤ◌, ◌-ℤ◌, ltb_ℤ, leb_ℤ}
use client_dash_up.Base.Text.{str_eq, same_currency}
use client_dash_up.Base.Outcome.{ok, err, ◌>>=◌, ◌>>◌, raise_if, or_raise}
use client_dash_up.Budget.Money.{q_money}
use client_dash_up.Budget.Types.{
  account, active, Budget, BudgetTransferRequest, BudgetTransferResponse, Db, BudgetError,
}
use client_dash_up.Budget.Table.{
  Fallible, find_budget, find_client, find_account, insert_budget, update_budget, insert_history,
  insert_transfer, is_account, is_active,
}
use client_dash_up.Budget.Checks.{overlaps, assert_no_overlap, assert_allocation_limit}
use client_dash_up.Budget.Store.{transaction}

-- The checks on the source budget; the result is its account.
unfoldable pub check_source : Budget → ℤ → ℕ → Fallible ℕ
check_source s amount target_account_id = do
  raise_if (not (is_account s.scope)) BudgetError.not_account_scope
  source_account_id ← or_raise s.account_id BudgetError.not_account_scope
  raise_if (not (is_active s.status)) BudgetError.source_not_active
  raise_if (source_account_id == target_account_id) BudgetError.same_account
  raise_if (ltb_ℤ s.amount (pos 0)) BudgetError.source_negative
  raise_if (ltb_ℤ s.amount amount) BudgetError.exceeds_source
  ok source_account_id

-- `not client_row or client_row["status"] != "active"`, and the currency of the client.
unfoldable pub check_client : Budget → Db → Fallible Unit
check_client s db = do
  c ← or_raise (find_client s.client_id db) BudgetError.client_not_active
  raise_if (not c.is_active) BudgetError.client_not_active
  raise_if (not (same_currency c.default_currency s.currency)) BudgetError.client_currency_mismatch

unfoldable pub check_source_account : Budget → ℕ → Db → Fallible Unit
check_source_account s source_account_id db = do
  a ← or_raise (find_account source_account_id db) BudgetError.source_account_not_active
  raise_if (not a.is_active) BudgetError.source_account_not_active
  raise_if (not (a.client_id == s.client_id)) BudgetError.source_account_of_other_client
  raise_if (not (same_currency a.currency s.currency)) BudgetError.source_account_currency_mismatch

unfoldable pub check_target_account : Budget → ℕ → Db → Fallible Unit
check_target_account s target_account_id db = do
  a ← or_raise (find_account target_account_id db) BudgetError.target_account_not_found
  raise_if (not (a.client_id == s.client_id)) BudgetError.target_account_of_other_client
  raise_if (not a.is_active) BudgetError.target_account_not_active
  raise_if (not (same_currency a.currency s.currency)) BudgetError.target_account_currency_mismatch

-- The WHERE clause of the search for the target's budget.
unfoldable pub is_target : Budget → ℕ → Budget → Bool
unfolding overlaps
is_target s target_account_id b =
    is_active b.status
    && is_account b.scope
    && b.client_id == s.client_id
    && opt_eq b.account_id (some target_account_id)
    && overlaps s.start_date s.end_date b

-- `version DESC, updated_at DESC`: `a` comes before `b`.
abbrev pub comes_before : Budget → Budget → Bool
comes_before a b =
    ltb b.version a.version || a.version == b.version && ltb b.updated_at a.updated_at

-- The first row of `ORDER BY version DESC, updated_at DESC`; of equal rows the one that is read
-- first.
unfoldable pub newest : List Budget → Option Budget
newest [] = none
newest (b ∷ rows) = elim (newest rows) [
  | none ↦ some b
  | some o ↦ some (if comes_before o b then o else b)
]

-- `payload.note if payload.note is not None else ...`
abbrev noted : Option String → Option String → Option String
noted none old = old
noted (some n) old = some n

-- `payload.note or ...`: an empty note counts as none.
abbrev note_or : Option String → String → String
note_or none default = default
note_or (some n) default = if str_eq n "" then default else n

-- The row that one side of the transfer writes.
unfoldable pub reissued : Budget → ℤ → BudgetTransferRequest → ℕ → Budget
reissued b amount p now = record b {
  amount = amount;
  version = b.version + 1;
  updated_at = now;
  note = noted p.note b.note;
}

-- One side of the transfer: the new amount, with the next version and a row of the history.
unfoldable pub set_amount : Budget → ℤ → BudgetTransferRequest → ℕ → Db → Fallible (Budget × Db)
set_amount b amount p now db = do
  db' ← update_budget (reissued b amount p now) db
  row ← or_raise (find_budget b.id db'.budgets) BudgetError.budget_not_found
  ok (row, insert_history now p.changed_by b row db')

-- A budget of the target account takes the amount.
unfoldable pub credit_existing :
    Budget → Budget → ℤ → BudgetTransferRequest → ℕ → Db → Fallible (Budget × Db)
credit_existing s t amount p now db = do
  raise_if (not (same_currency t.currency s.currency)) BudgetError.target_currency_mismatch
  raise_if (ltb_ℤ t.amount (pos 0)) BudgetError.target_negative
  assert_allocation_limit account s.client_id (t.amount +ℤ amount) t.start_date t.end_date active
      (some t.id) db.budgets
  set_amount t (t.amount +ℤ amount) p now db

-- The budget that a transfer opens for the target account, over the period of the source. The
-- default note is a text made from the id of the source.
unfoldable pub opened_row : (ℕ → String) → Budget → ℤ → BudgetTransferRequest → ℕ → ℕ → Budget
opened_row default_note s amount p new_id now = record {
  id = new_id;
  client_id = s.client_id;
  scope = account;
  account_id = some p.target_account_id;
  amount = amount;
  currency = s.currency;
  period_type = s.period_type;
  start_date = s.start_date;
  end_date = s.end_date;
  status = active;
  version = 1;
  note = some (note_or p.note (default_note s.id));
  created_by = p.changed_by;
  created_at = now;
  updated_at = now;
}

module _ (default_note : ℕ → String) where
  -- The target account has no budget in the period, and one is opened.
  unfoldable pub open_target :
      Budget → ℤ → BudgetTransferRequest → ℕ → ℕ → Db → Fallible (Budget × Db)
  open_target s amount p new_id now db = do
    assert_no_overlap account s.client_id (some p.target_account_id) s.start_date s.end_date none
        db.budgets
    assert_allocation_limit account s.client_id amount s.start_date s.end_date active none
        db.budgets
    db' ← insert_budget (opened_row default_note s amount p new_id now) db
    row ← or_raise (find_budget new_id db'.budgets) BudgetError.budget_not_found
    ok (row, db')

  unfoldable pub credit_target :
      Option Budget → Budget → ℤ → BudgetTransferRequest → ℕ → ℕ → Db → Fallible (Budget × Db)
  credit_target none s amount p new_id now db = open_target s amount p new_id now db
  credit_target (some t) s amount p new_id now db = credit_existing s t amount p now db

  -- The writes, in the order of the code: the source, the target, the log of the transfers.
  unfoldable pub move_amount :
      Option Budget
      → Budget
      → ℤ
      → BudgetTransferRequest
      → ℕ
      → ℕ
      → Db
      → Fallible (BudgetTransferResponse × Db)
  move_amount target s amount p new_id now db = do
    raise_if (ltb_ℤ (s.amount -ℤ amount) (pos 0)) BudgetError.source_would_be_negative
    debited ← set_amount s (s.amount -ℤ amount) p now db
    credited ← credit_target target s amount p new_id now debited.1
    ok (
      record { source_budget = debited.0; target_budget = credited.0; transferred_amount = amount },
      insert_transfer s.id credited.0.id amount p.note p.changed_by now credited.1,
    )

  unfoldable pub transfer_body :
      ℕ → BudgetTransferRequest → ℕ → ℕ → Db → Fallible (BudgetTransferResponse × Db)
  transfer_body source_id p new_id now db = do
    s ← or_raise (find_budget source_id db.budgets) BudgetError.budget_not_found
    source_account_id ← check_source s (q_money p.amount) p.target_account_id
    check_client s db
    check_source_account s source_account_id db
    check_target_account s p.target_account_id db
    move_amount (newest (select (is_target s p.target_account_id) db.budgets)) s (q_money p.amount)
        p new_id now db

  -- The amount is tested before the transaction begins.
  unfoldable pub transfer :
      ℕ → BudgetTransferRequest → ℕ → ℕ → Db → Fallible BudgetTransferResponse × Db
  transfer source_id p new_id now db =
      if leb_ℤ (q_money p.amount) (pos 0)
      then (err BudgetError.transfer_not_positive, db)
      else transaction (transfer_body source_id p new_id now) db
