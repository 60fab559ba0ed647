-- ===== src/Budget/Keeps/Debit.antt =====
-- The source of a transfer after its debit.
use client_dash_up.Base.{ℕ, ◌≡◌, ◌≢◌, sym, ap, ◌∙◌, some, In}
use client_dash_up.Base.Int.{ℤ, pos, pos_part, neg_part, ◌+ℤ◌, ◌-ℤ◌, ◌≤ℤ◌, int_laws}
use client_dash_up.Base.Outcome.{Ensures}
use client_dash_up.Budget.Types.{account, active, Budget, BudgetTransferRequest, Db}
use client_dash_up.Budget.Table.{find_budget}
use client_dash_up.Budget.Checks.{sum_amounts}
use client_dash_up.Budget.Transfer.{reissued, set_amount}
use client_dash_up.Budget.Invariant.Defs.{IsConsistent}
use client_dash_up.Budget.Invariant.Moved.{Admitted-lowered}
use client_dash_up.Budget.Keeps.Amounts.{set_amount-IsSet, reissued-Reissues}

pub record Debits (s : Budget) (amount : ℤ) (db : Db) (r : Budget × Db) : Type 0 where
  pub consistent : IsConsistent r.1.budgets
  pub read : find_budget s.id r.1.budgets ≡ some r.0
  pub balance : r.0.amount ≡ s.amount -ℤ amount
  pub sum : sum_amounts r.1.budgets +ℤ amount ≡ sum_amounts db.budgets
  pub others : (x : Budget) → In x db.budgets → x.id ≢ s.id → In x r.1.budgets
  pub searches : (id : ℕ) → id ≢ s.id → find_budget id r.1.budgets ≡ find_budget id db.budgets

sum_after_debit :
    (new old amount : ℤ) (s : ℤ) → new +ℤ s ≡ old +ℤ (s -ℤ amount) → new +ℤ amount ≡ old
sum_after_debit new old amount s h = omega (int_laws, ap pos_part h, ap neg_part h)

pub set_amount-Debits :
    (s : Budget) (amount : ℤ) (p : BudgetTransferRequest) (now : ℕ) (db : Db)
    → IsConsistent db.budgets
    → In s db.budgets
    → s.scope ≡ account
    → s.status ≡ active
    → pos 0 ≤ℤ amount
    → Ensures (Debits s amount db) (set_amount s (s.amount -ℤ amount) p now db)
unfolding reissued
set_amount-Debits s amount p now db h i sc st positive = record {
  at = λ r done.
      let b' = reissued s (s.amount -ℤ amount) p now in
      let w = (set_amount-IsSet s (s.amount -ℤ amount) p now db h i).at r done in
      let admitted =
        Admitted-lowered b' s db.budgets h i (reissued-Reissues s (s.amount -ℤ amount) p now sc st)
          (omega int_laws) in
      record {
        consistent = w.consistent admitted;
        read = w.read ∙ ap some (sym w.row);
        balance = ap (λ (b : Budget). b.amount) w.row;
        sum = sum_after_debit _ _ amount s.amount w.total;
        others = w.others;
        searches = w.searches;
      };
}
