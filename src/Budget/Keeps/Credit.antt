-- ===== src/Budget/Keeps/Credit.antt =====
-- The target of a transfer after its credit: a budget that was there, or one that was opened.
use Prim.Native.String.{String}
use client_dash_up.Base.{
  ℕ, ◌≤◌, ◌≡◌, ◌≢◌, refl, sym, ap, subst, ◌∙◌, Option, none, some, In, true, not-false,
}
use client_dash_up.Base.Int.{ℤ, pos, pos_part, neg_part, ◌+ℤ◌, int_laws}
use client_dash_up.Base.Text.{same_currency, codes_eq_iff, upper}
use client_dash_up.Base.Outcome.{
  ok, raise_if-false, or_raise-some, Ensures, Ensures-ok, Ensures-bind,
}
use client_dash_up.Budget.Types.{account, active, Budget, BudgetTransferRequest, Db}
use client_dash_up.Budget.Table.{find_budget}
use client_dash_up.Budget.Checks.{sum_amounts, assert_allocation_limit}
use client_dash_up.Budget.Transfer.{
  reissued, credit_existing, opened_row, open_target, credit_target,
}
use client_dash_up.Budget.Invariant.Defs.{IsConsistent}
use client_dash_up.Budget.Invariant.Rows.{
  IsFresh-ne, find_budget-eq, find_budget-append_other, find_budget-fresh,
}
use client_dash_up.Budget.Invariant.Totals.{sum_amounts-append}
use client_dash_up.Budget.Invariant.Admission.{Admitted-of_checks}
use client_dash_up.Budget.Invariant.Moved.{Admitted-limited}
use client_dash_up.Budget.Keeps.Writes.{
  insert_budget-ok, insert_budget-IsConsistent, insert_budget-read,
}
use client_dash_up.Budget.Keeps.Amounts.{some_eq, set_amount-IsSet, reissued-Reissues}

-- The amount of a budget that is there, and nothing where there is none.
abbrev pub old_balance : Option Budget → ℤ
old_balance none = pos 0
old_balance (some b) = b.amount

-- A budget that may take an amount of another: an active account budget of the same client, in its
-- currency and in a period that meets its own.
pub record IsPeer (s t : Budget) : Type 0 where
  pub at_account : t.scope ≡ account
  pub is_live : t.status ≡ active
  pub of_client : t.client_id ≡ s.client_id
  pub in_currency : same_currency t.currency s.currency ≡ true
  pub meets : (t.start_date ≤ s.end_date) × (s.start_date ≤ t.end_date)

pub record Credits (s : Budget) (account_id : ℕ) (amount : ℤ) (db : Db) (r : Budget × Db)
    : Type 0 where
  pub peer : IsPeer s r.0
  pub consistent : IsConsistent r.1.budgets
  pub read : find_budget r.0.id r.1.budgets ≡ some r.0
  pub not_source : r.0.id ≢ s.id
  pub of_account : r.0.account_id ≡ some account_id
  pub balance : r.0.amount ≡ old_balance (find_budget r.0.id db.budgets) +ℤ amount
  pub sum : sum_amounts r.1.budgets ≡ sum_amounts db.budgets +ℤ amount
  pub searches : (id : ℕ) → id ≢ r.0.id → find_budget id r.1.budgets ≡ find_budget id db.budgets

sum_after_credit : (new old t amount : ℤ) → new +ℤ t ≡ old +ℤ (t +ℤ amount) → new ≡ old +ℤ amount
sum_after_credit new old t amount h = omega (int_laws, ap pos_part h, ap neg_part h)

from_nothing : (amount : ℤ) → amount ≡ pos 0 +ℤ amount
from_nothing amount = omega int_laws

pub credit_existing-Credits :
    (s t : Budget) (amount : ℤ) (p : BudgetTransferRequest) (now account_id : ℕ) (db : Db)
    → IsConsistent db.budgets
    → In t db.budgets
    → t.scope ≡ account
    → t.status ≡ active
    → t.client_id ≡ s.client_id
    → t.account_id ≡ some account_id
    → t.id ≢ s.id
    → t.start_date ≤ s.end_date
    → s.start_date ≤ t.end_date
    → Ensures (Credits s account_id amount db) (credit_existing s t amount p now db)
unfolding credit_existing reissued
credit_existing-Credits s t amount p now account_id db h i sc st cl acc ne before after =
    Ensures-bind λ _ currency. Ensures-bind λ _ nonnegative. Ensures-bind λ _ limit.
      let b' = reissued t (t.amount +ℤ amount) p now in
      record {
        at = λ r done.
            let w = (set_amount-IsSet t (t.amount +ℤ amount) p now db h i).at r done in
            let id_eq : r.0.id ≡ t.id = ap (λ (b : Budget). b.id) w.row in
            record {
              peer = subst (IsPeer s) (sym w.row) (record {
                at_account = sc;
                is_live = st;
                of_client = cl;
                in_currency = not-false _ (raise_if-false _ _ currency);
                meets = (before, after);
              });
              consistent = w.consistent (
                  Admitted-limited b' t db.budgets h i
                    (reissued-Reissues t (t.amount +ℤ amount) p now sc st)
                    (subst
                      (λ c.
                        assert_allocation_limit account c (t.amount +ℤ amount) t.start_date
                          t.end_date active (some t.id) db.budgets
                        ≡ ok tt)
                      (sym cl) limit));
              read = ap (λ k. find_budget k r.1.budgets) id_eq ∙ w.read ∙ ap some (sym w.row);
              not_source = λ e. ne (sym id_eq ∙ e);
              of_account = ap (λ (b : Budget). b.account_id) w.row ∙ acc;
              balance =
                  ap (λ (b : Budget). b.amount) w.row
                  ∙ ap (λ o. old_balance o +ℤ amount)
                      (sym (
                        ap (λ k. find_budget k db.budgets) id_eq
                        ∙ find_budget-eq db.budgets t h.unique i));
              sum = sum_after_credit _ _ t.amount amount w.total;
              searches = λ id other. w.searches id (λ e. other (e ∙ sym id_eq));
            };
      }

same_currency_self : (t : String) → same_currency t t ≡ true
unfolding same_currency
same_currency_self t = (codes_eq_iff (upper t) (upper t)).1 refl

module _ (default_note : ℕ → String) where
  pub open_target-Credits :
      (s : Budget) (amount : ℤ) (p : BudgetTransferRequest) (new_id now : ℕ) (db : Db)
      → IsConsistent db.budgets
      → (x : Budget) → In x db.budgets
      → x.id ≡ s.id
      → s.start_date ≤ s.end_date
      → Ensures
          (Credits s p.target_account_id amount db)
          (open_target default_note s amount p new_id now db)
  unfolding open_target opened_row
  open_target-Credits s amount p new_id now db h x i same le =
      let b' = opened_row default_note s amount p new_id now in
      Ensures-bind λ _ no_overlap. Ensures-bind λ _ limit. Ensures-bind λ db' inserted.
        Ensures-bind λ row found.
          let (fresh, allowed, rows) = insert_budget-ok b' db db' inserted in
          let read = insert_budget-read b' db db' h.unique inserted in
          let row_eq : row ≡ b' = some_eq (sym (or_raise-some _ _ _ found) ∙ read) in
          let id_eq : row.id ≡ new_id = ap (λ (b : Budget). b.id) row_eq in
          Ensures-ok (record {
            peer = subst (IsPeer s) (sym row_eq) (record {
              at_account = refl;
              is_live = refl;
              of_client = refl;
              in_currency = same_currency_self s.currency;
              meets = (le, le);
            });
            consistent =
                insert_budget-IsConsistent b' db db' h le
                  (λ f. Admitted-of_checks b' none db.budgets f no_overlap limit) inserted;
            read = ap (λ k. find_budget k db'.budgets) id_eq ∙ read ∙ ap some (sym row_eq);
            not_source = λ e. IsFresh-ne new_id db.budgets x fresh i (same ∙ sym e ∙ id_eq);
            of_account = ap (λ (b : Budget). b.account_id) row_eq;
            balance =
                ap (λ (b : Budget). b.amount) row_eq
                ∙ from_nothing amount
                ∙ ap (λ o. old_balance o +ℤ amount)
                    (sym (
                      ap (λ k. find_budget k db.budgets) id_eq
                      ∙ find_budget-fresh new_id db.budgets fresh));
            sum = ap sum_amounts rows ∙ sum_amounts-append b' db.budgets;
            searches = λ id other.
                ap (find_budget id) rows
                ∙ find_budget-append_other id b' db.budgets (λ e. other (e ∙ sym id_eq));
          })

  pub credit_target-Credits :
      (target : Option Budget) (s : Budget) (amount : ℤ) (p : BudgetTransferRequest)
      (new_id now : ℕ) (db : Db)
      → IsConsistent db.budgets
      → (x : Budget) → In x db.budgets
      → x.id ≡ s.id
      → s.start_date ≤ s.end_date
      → ((t : Budget)
          → target ≡ some t
          → In t db.budgets
            × (t.status ≡ active)
            × (t.scope ≡ account)
            × (t.client_id ≡ s.client_id)
            × (t.account_id ≡ some p.target_account_id)
            × (t.id ≢ s.id)
            × (t.start_date ≤ s.end_date)
            × (s.start_date ≤ t.end_date))
      → Ensures
          (Credits s p.target_account_id amount db)
          (credit_target default_note target s amount p new_id now db)
  unfolding credit_target
  credit_target-Credits none s amount p new_id now db h x i same le facts =
      open_target-Credits s amount p new_id now db h x i same le
  credit_target-Credits (some t) s amount p new_id now db h x i same le facts =
      let (j, st, sc, cl, acc, ne, before, after) = facts t refl in
      credit_existing-Credits s t amount p now p.target_account_id db h j sc st cl acc ne before
        after
