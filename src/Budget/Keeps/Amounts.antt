-- ===== src/Budget/Keeps/Amounts.antt =====
-- One side of a transfer: what `set_amount` of `SqliteBudgetStore.transfer` wrote.
use client_dash_up.Base.{ℕ, ◌≡◌, ◌≢◌, refl, sym, ap, subst, ◌∙◌, some, In}
use client_dash_up.Base.Int.{ℤ, ◌+ℤ◌}
use client_dash_up.Base.Outcome.{or_raise-some, Ensures, Ensures-ok, Ensures-bind}
use client_dash_up.Budget.Types.{account, active, Budget, BudgetTransferRequest, Db}
use client_dash_up.Budget.Table.{find_budget, insert_history}
use client_dash_up.Budget.Checks.{sum_amounts}
use client_dash_up.Budget.Transfer.{reissued, set_amount}
use client_dash_up.Budget.Invariant.Defs.{IsConsistent}
use client_dash_up.Budget.Invariant.Rows.{In-replace_other, find_budget-replace_other}
use client_dash_up.Budget.Invariant.Totals.{sum_amounts-replace}
use client_dash_up.Budget.Invariant.Puts.{Admitted}
use client_dash_up.Budget.Invariant.Moved.{Reissues}
use client_dash_up.Budget.Keeps.Writes.{
  update_budget-ok, update_budget-IsConsistent, update_budget-read,
}

-- `b'` has taken the place of `b`, was read back, and everything else is as before.
pub record Sets (b b' : Budget) (db : Db) (r : Budget × Db) : Type 0 where
  pub row : r.0 ≡ b'
  pub read : find_budget b'.id r.1.budgets ≡ some b'
  pub total : sum_amounts r.1.budgets +ℤ b.amount ≡ sum_amounts db.budgets +ℤ b'.amount
  pub others : (x : Budget) → In x db.budgets → x.id ≢ b'.id → In x r.1.budgets
  pub searches : (id : ℕ) → id ≢ b'.id → find_budget id r.1.budgets ≡ find_budget id db.budgets
  pub consistent : Admitted b' db.budgets → IsConsistent r.1.budgets

pub some_eq : {a b : Budget} → some a ≡ some b → a ≡ b
some_eq e = cc

pub set_amount-IsSet :
    (b : Budget) (amount : ℤ) (p : BudgetTransferRequest) (now : ℕ) (db : Db)
    → IsConsistent db.budgets
    → In b db.budgets
    → Ensures (Sets b (reissued b amount p now) db) (set_amount b amount p now db)
unfolding set_amount insert_history reissued
set_amount-IsSet b amount p now db h i =
    let b' = reissued b amount p now in
    Ensures-bind λ db' updated. Ensures-bind λ row found.
      let read = update_budget-read b b' db db' h.unique i refl updated in
      let rows = (update_budget-ok b' db db' updated).1 in
      Ensures-ok (record {
        row = some_eq (sym (or_raise-some _ _ _ found) ∙ read);
        read = read;
        total =
            subst (λ rs. sum_amounts rs +ℤ b.amount ≡ sum_amounts db.budgets +ℤ b'.amount)
              (sym rows) (sum_amounts-replace b b' db.budgets h.unique i refl);
        others = λ x j ne. subst (In x) (sym rows) (In-replace_other b' x db.budgets j ne);
        searches =
            λ id ne. ap (find_budget id) rows ∙ find_budget-replace_other id b' db.budgets ne;
        consistent = λ admitted.
            update_budget-IsConsistent b b' db db' h i refl (h.row b i).in_order admitted updated;
      })

pub reissued-Reissues :
    (b : Budget) (amount : ℤ) (p : BudgetTransferRequest) (now : ℕ)
    → b.scope ≡ account
    → b.status ≡ active
    → Reissues (reissued b amount p now) b
unfolding reissued
reissued-Reissues b amount p now sc st = record {
  id = refl;
  client_id = refl;
  scope = sc;
  old_scope = sc;
  account_id = refl;
  start_date = refl;
  end_date = refl;
  status = st;
  old_status = st;
}
