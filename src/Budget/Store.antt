-- ===== src/Budget/Store.antt =====
-- The writing methods of `SqliteBudgetStore` (app/services/budgets.py): `create`, `patch` and
-- `archive`. A method is a transaction on the tables: `BEGIN IMMEDIATE` serialises it, an exception
-- rolls it back. The instant `now` and the id that `uuid4` draws are arguments.
use client_dash_up.Base.{
  ℕ, ◌+◌, Bool, true, false, not, ◌&&◌, Option, none, some, List, ◌==◌, opt_eq, get_or, is_some,
}
use client_dash_up.Base.Int.{ℤ, pos, eqb_ℤ, ltb_ℤ}
use client_dash_up.Base.Text.{str_eq, opt_str_eq}
use client_dash_up.Base.Outcome.{ok, err, ◌>>=◌, ◌>>◌, raise_if, or_raise, branch}
use client_dash_up.Budget.Money.{Decimal, q_money}
use client_dash_up.Budget.Types.{
  Scope, client, account, PeriodType, monthly, custom, BudgetStatus, active, archived, Budget,
  BudgetCreate, BudgetPatch, Db, budget_not_found, negative_amount,
}
use client_dash_up.Budget.Table.{
  Fallible, find_budget, insert_budget, update_budget, insert_history, is_active,
}
use client_dash_up.Budget.Checks.{
  validate_period, validate_scope, assert_no_overlap, assert_allocation_limit,
}

-- How a transaction ends: with the tables of the body, or with those before it.
unfoldable pub settled : {A : Type 0} → Fallible (A × Db) → Db → Fallible A × Db
settled (ok (a, db')) db = (ok a, db')
settled (err e) db = (err e, db)

-- `with _budget_write_conn(...) as conn`: an exception leaves the tables as they were.
unfoldable pub transaction : {A : Type 0} → (Db → Fallible (A × Db)) → Db → Fallible A × Db
transaction body db = settled (body db) db

-- The row that `create` inserts.
unfoldable pub created_row : BudgetCreate → ℕ → ℕ → Budget
created_row p new_id now = record {
  id = new_id;
  client_id = p.client_id;
  scope = p.scope;
  account_id = p.account_id;
  amount = q_money p.amount;
  currency = p.currency;
  period_type = p.period_type;
  start_date = p.start_date;
  end_date = p.end_date;
  status = active;
  version = 1;
  note = p.note;
  created_by = p.created_by;
  created_at = now;
  updated_at = now;
}

unfoldable pub create_body : BudgetCreate → ℕ → ℕ → Db → Fallible (Budget × Db)
create_body p new_id now db = do
  validate_period p.start_date p.end_date
  validate_scope p.scope p.account_id
  assert_no_overlap p.scope p.client_id p.account_id p.start_date p.end_date none db.budgets
  assert_allocation_limit p.scope p.client_id (q_money p.amount) p.start_date p.end_date active none
      db.budgets
  db' ← insert_budget (created_row p new_id now) db
  row ← or_raise (find_budget new_id db'.budgets) budget_not_found
  ok (row, db')

unfoldable pub create : BudgetCreate → ℕ → ℕ → Db → Fallible Budget × Db
create p new_id now = transaction (create_body p new_id now)

-- `if not patch`, after `changed_by` has been taken out.
unfoldable pub is_empty_patch : BudgetPatch → Bool
is_empty_patch p =
    not (is_some p.client_id)
    && not (is_some p.scope)
    && not (is_some p.account_id)
    && not (is_some p.amount)
    && not (is_some p.currency)
    && not (is_some p.period_type)
    && not (is_some p.start_date)
    && not (is_some p.end_date)
    && not (is_some p.note)
    && not (is_some p.status)

abbrev pub patched_amount : Option Decimal → ℤ → ℤ
patched_amount none old = old
patched_amount (some d) old = q_money d

-- `data`: the stored budget with the fields of the patch, and the candidate's amount.
unfoldable pub merged : BudgetPatch → Budget → Budget
merged p b = record b {
  client_id = get_or p.client_id b.client_id;
  scope = get_or p.scope b.scope;
  account_id = get_or p.account_id b.account_id;
  amount = patched_amount p.amount b.amount;
  currency = get_or p.currency b.currency;
  period_type = get_or p.period_type b.period_type;
  start_date = get_or p.start_date b.start_date;
  end_date = get_or p.end_date b.end_date;
  status = get_or p.status b.status;
  note = get_or p.note b.note;
}

abbrev pub scope_eq : Scope → Scope → Bool
scope_eq client client = true
scope_eq account account = true
scope_eq _ _ = false

abbrev pub period_type_eq : PeriodType → PeriodType → Bool
period_type_eq monthly monthly = true
period_type_eq custom custom = true
period_type_eq _ _ = false

abbrev pub status_eq : BudgetStatus → BudgetStatus → Bool
status_eq active active = true
status_eq archived archived = true
status_eq _ _ = false

-- `candidate_normalized == existing_normalized`: the business fields agree.
unfoldable pub same_business : Budget → Budget → Bool
same_business a b =
    a.client_id == b.client_id
    && scope_eq a.scope b.scope
    && opt_eq a.account_id b.account_id
    && eqb_ℤ a.amount b.amount
    && str_eq a.currency b.currency
    && period_type_eq a.period_type b.period_type
    && a.start_date == b.start_date
    && a.end_date == b.end_date
    && status_eq a.status b.status
    && opt_str_eq a.note b.note
    && opt_eq a.created_by b.created_by

-- The guarded checks of an active candidate, which leave the patched row itself out.
unfoldable pub check_active : Budget → List Budget → Fallible Unit
check_active c rows =
    branch (is_active c.status)
      (do
        assert_no_overlap c.scope c.client_id c.account_id c.start_date c.end_date (some c.id) rows
        assert_allocation_limit c.scope c.client_id c.amount c.start_date c.end_date c.status
            (some c.id) rows)
      (ok tt)

-- The write of `patch`: the new row, its version and instant, and the row of the history.
unfoldable pub save_patch : Budget → Budget → Option ℕ → ℕ → Db → Fallible (Budget × Db)
save_patch existing c changed_by now db = do
  let saved = record c { version = existing.version + 1; updated_at = now }
  db' ← update_budget saved db
  row ← or_raise (find_budget existing.id db'.budgets) budget_not_found
  ok (row, insert_history now changed_by existing row db')

unfoldable pub patch_body : ℕ → BudgetPatch → ℕ → Db → Fallible (Budget × Db)
patch_body budget_id p now db = do
  existing ← or_raise (find_budget budget_id db.budgets) budget_not_found
  let c = merged p existing
  branch (is_empty_patch p) (ok (existing, db)) do
    validate_period c.start_date c.end_date
    validate_scope c.scope c.account_id
    raise_if (ltb_ℤ c.amount (pos 0)) negative_amount
    branch (same_business c existing) (ok (existing, db))
        do check_active c db.budgets; save_patch existing c p.changed_by now db

unfoldable pub patch : ℕ → BudgetPatch → ℕ → Db → Fallible Budget × Db
patch budget_id p now = transaction (patch_body budget_id p now)

unfoldable pub archive_body : ℕ → ℕ → Db → Fallible (Budget × Db)
archive_body budget_id now db = do
  existing ← or_raise (find_budget budget_id db.budgets) budget_not_found
  db' ← update_budget (record existing { status = archived; updated_at = now }) db
  row ← or_raise (find_budget budget_id db'.budgets) budget_not_found
  ok (row, db')

unfoldable pub archive : ℕ → ℕ → Db → Fallible Budget × Db
archive budget_id now = transaction (archive_body budget_id now)
