-- ===== src/Budget/Keeps/Create.antt =====
-- `create` keeps the invariant of the table.
use client_dash_up.Base.{ℕ, ◌≤◌, ◌≡◌, ◌≢◌, sym, ap, ◌∙◌, none, some, arith, ltb}
use client_dash_up.Base.Int.{◌+ℤ◌}
use client_dash_up.Base.Outcome.{
  ok, raise_if-false, or_raise-some, Ensures, Ensures-ok, Ensures-bind,
}
use client_dash_up.Budget.Money.{q_money}
use client_dash_up.Budget.Types.{active, Budget, BudgetCreate, Db, start_after_end}
use client_dash_up.Budget.Table.{find_budget, insert_budget}
use client_dash_up.Budget.Checks.{
  sum_amounts, validate_period, assert_no_overlap, assert_allocation_limit,
}
use client_dash_up.Budget.Store.{created_row, create_body, create}
use client_dash_up.Budget.Keeps.Settles.{Settles, transaction-Settles}
use client_dash_up.Budget.Keeps.Amounts.{some_eq}
use client_dash_up.Budget.Invariant.Rows.{find_budget-fresh, find_budget-append_other}
use client_dash_up.Budget.Invariant.Totals.{sum_amounts-append}
use client_dash_up.Budget.Invariant.Defs.{IsConsistent}
use client_dash_up.Budget.Invariant.Admission.{Admitted-of_checks}
use client_dash_up.Budget.Keeps.Writes.{
  insert_budget-ok, insert_budget-read, insert_budget-IsConsistent,
}

pub validate_period-le : (s e : ℕ) → validate_period s e ≡ ok tt → s ≤ e
unfolding validate_period
validate_period-le s e h = let fine = raise_if-false (ltb e s) start_after_end h in ground arith

created_row_saved :
    (p : BudgetCreate) (new_id now : ℕ) (db db' : Db)
    → IsConsistent db.budgets
    → validate_period p.start_date p.end_date ≡ ok tt
    → assert_no_overlap p.scope p.client_id p.account_id p.start_date p.end_date none db.budgets
      ≡ ok tt
    → assert_allocation_limit p.scope p.client_id
        (q_money p.amount)
        p.start_date
        p.end_date
        active
        none
        db.budgets
      ≡ ok tt
    → insert_budget (created_row p new_id now) db ≡ ok db'
    → IsConsistent db'.budgets
unfolding created_row
created_row_saved p new_id now db db' h period no_overlap limit inserted =
    insert_budget-IsConsistent (created_row p new_id now) db db' h
      (validate_period-le p.start_date p.end_date period)
      (λ fresh.
        Admitted-of_checks (created_row p new_id now) none db.budgets fresh no_overlap limit)
      inserted

-- What `create` has done: the row of the payload stands under a new id, active and at version 1,
-- and every other budget is as before.
pub record Creates (p : BudgetCreate) (new_id now : ℕ) (db : Db) (r : Budget × Db) : Type 0 where
  pub row : r.0 ≡ record {
    id = new_id;
    client_id = p.client_id;
    scope = p.scope;
    account_id = p.account_id;
    amount = q_money p.amount;
    currency = p.currency;
    period_type = p.period_type;
    start_date = p.start_date;
    end_date = p.end_date;
    status = active;
    version = 1;
    note = p.note;
    created_by = p.created_by;
    created_at = now;
    updated_at = now;
  }
  pub new : find_budget new_id db.budgets ≡ none
  pub read : find_budget new_id r.1.budgets ≡ some r.0
  pub searches : (id : ℕ) → id ≢ new_id → find_budget id r.1.budgets ≡ find_budget id db.budgets
  pub sum : sum_amounts r.1.budgets ≡ sum_amounts db.budgets +ℤ q_money p.amount
  pub consistent : IsConsistent r.1.budgets

create_body-Creates :
    (p : BudgetCreate) (new_id now : ℕ) (db : Db)
    → IsConsistent db.budgets
    → Ensures (Creates p new_id now db) (create_body p new_id now db)
unfolding create_body created_row
create_body-Creates p new_id now db h =
    let b = created_row p new_id now in
    Ensures-bind λ _ period. Ensures-bind λ _ scope. Ensures-bind λ _ no_overlap.
      Ensures-bind λ _ limit. Ensures-bind λ db' inserted. Ensures-bind λ row found.
        let (fresh, allowed, rows) = insert_budget-ok b db db' inserted in
        let read = insert_budget-read b db db' h.unique inserted in
        let row_eq : row ≡ b = some_eq (sym (or_raise-some _ _ _ found) ∙ read) in
        Ensures-ok (record {
          row = row_eq;
          new = find_budget-fresh new_id db.budgets fresh;
          read = read ∙ ap some (sym row_eq);
          searches =
              λ id ne. ap (find_budget id) rows ∙ find_budget-append_other id b db.budgets ne;
          sum = ap sum_amounts rows ∙ sum_amounts-append b db.budgets;
          consistent = created_row_saved p new_id now db db' h period no_overlap limit inserted;
        })

-- `create` on a consistent table either raises and leaves the tables as they were, or inserts the
-- row of the payload under an id that was not there and keeps the table consistent: the row has every
-- field of the payload, the amount rounded, is active and at version 1, and was created and updated at
-- the instant of the call; it is read back and returned, the sum of all amounts grows by its amount,
-- and every other budget is as before.
pub create-Creates :
    (p : BudgetCreate) (new_id now : ℕ) (db : Db)
    → IsConsistent db.budgets
    → Settles (Creates p new_id now db) db (create p new_id now db)
unfolding create
create-Creates p new_id now db h =
    transaction-Settles _ db (create_body p new_id now) (create_body-Creates p new_id now db h)
