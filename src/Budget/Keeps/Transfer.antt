-- ===== src/Budget/Keeps/Transfer.antt =====
-- `SqliteBudgetStore.transfer`: what a transfer that returns has done, and that it keeps the
-- invariant of the table.
use Prim.Native.String.{String}
use client_dash_up.Base.{
  ℕ, ◌≤◌, ◌≡◌, ◌≢◌, refl, sym, ap, subst, ◌∙◌, some, In, Bool-cases, inl, inr, select, In-select,
}
use client_dash_up.Base.Int.{
  ℤ, pos, pos_part, neg_part, ◌+ℤ◌, ◌-ℤ◌, ◌≤ℤ◌, leb_ℤ, leb_ℤ-false, int_laws,
}
use client_dash_up.Base.Outcome.{or_raise-some, Ensures, Ensures-ok, Ensures-bind}
use client_dash_up.Budget.Money.{q_money}
use client_dash_up.Budget.Types.{
  account, active, Budget, BudgetTransferRequest, BudgetTransferResponse, Db,
}
use client_dash_up.Budget.Table.{find_budget, insert_transfer}
use client_dash_up.Budget.Checks.{sum_amounts}
use client_dash_up.Budget.Transfer.{is_target, newest, move_amount, transfer_body, transfer}
use client_dash_up.Budget.Invariant.Defs.{IsConsistent}
use client_dash_up.Budget.Invariant.Rows.{find_budget-In, IsUnique-eq}
use client_dash_up.Budget.Keeps.Settles.{Settles, transaction-Settles}
use client_dash_up.Budget.Keeps.Source.{
  MayMove, check_source-IsSource, check_client-facts, check_source_account-facts,
  check_target_account-facts, is_target-facts, newest-In,
}
use client_dash_up.Budget.Keeps.Debit.{Debits, set_amount-Debits}
use client_dash_up.Budget.Keeps.Credit.{old_balance, IsPeer, credit_target-Credits}

-- What a transfer of `amount` has done to the table.
pub record Transfers (source_id account_id : ℕ) (amount : ℤ) (db : Db)
    (r : BudgetTransferResponse × Db) : Type 0 where
  pub source : Budget
  pub source_found : find_budget source_id db.budgets ≡ some source
  pub may_move : MayMove source amount account_id db
  pub peer : IsPeer source r.0.target_budget
  pub source_read : find_budget source_id r.1.budgets ≡ some r.0.source_budget
  pub target_read : find_budget r.0.target_budget.id r.1.budgets ≡ some r.0.target_budget
  pub of_account : r.0.target_budget.account_id ≡ some account_id
  pub transferred : r.0.transferred_amount ≡ amount
  pub debited : old_balance (find_budget source_id db.budgets) ≡ r.0.source_budget.amount +ℤ amount
  pub credited :
      r.0.target_budget.amount ≡ old_balance (find_budget r.0.target_budget.id db.budgets) +ℤ amount
  pub sum : sum_amounts r.1.budgets ≡ sum_amounts db.budgets
  pub others :
      (id : ℕ)
      → id ≢ source_id
      → id ≢ r.0.target_budget.id
      → find_budget id r.1.budgets ≡ find_budget id db.budgets
  pub consistent : IsConsistent r.1.budgets

sums_agree : (a b c amount : ℤ) → b +ℤ amount ≡ c → a ≡ b +ℤ amount → a ≡ c
sums_agree a b c amount h k = k ∙ h

balance_back : (old new amount : ℤ) → new ≡ old -ℤ amount → old ≡ new +ℤ amount
balance_back old new amount h = omega (int_laws, ap pos_part h, ap neg_part h)

-- The budget of the target account that the search finds, in the table before and after the debit.
found_target :
    (s t : Budget) (amount : ℤ) (account_id : ℕ) (db : Db) (r : Budget × Db)
    → IsConsistent db.budgets
    → In s db.budgets
    → s.account_id ≢ some account_id
    → Debits s amount db r
    → newest (select (is_target s account_id) db.budgets) ≡ some t
    → In t r.1.budgets
      × (t.status ≡ active)
      × (t.scope ≡ account)
      × (t.client_id ≡ s.client_id)
      × (t.account_id ≡ some account_id)
      × (t.id ≢ s.id)
      × (t.start_date ≤ s.end_date)
      × (s.start_date ≤ t.end_date)
found_target s t amount account_id db r h i other d e =
    let (j, pass) = In-select (is_target s account_id) t db.budgets (newest-In _ t e) in
    let (st, sc, cl, acc, before, after) = is_target-facts s account_id t pass in
    let ne : t.id ≢ s.id = λ same. other (
      ap (λ (b : Budget). b.account_id) (sym (IsUnique-eq db.budgets t s h.unique j i same))
      ∙ acc) in
    (d.others t j ne, st, sc, cl, acc, ne, before, after)

module _ (default_note : ℕ → String) where
  move_amount-Transfers :
      (s : Budget) (amount : ℤ) (p : BudgetTransferRequest) (new_id now : ℕ) (db : Db)
      → IsConsistent db.budgets
      → In s db.budgets
      → find_budget s.id db.budgets ≡ some s
      → MayMove s amount p.target_account_id db
      → pos 0 ≤ℤ amount
      → Ensures (Transfers s.id p.target_account_id amount db) (
          move_amount default_note
            (newest (select (is_target s p.target_account_id) db.budgets))
            s
            amount
            p
            new_id
            now
            db)
  unfolding move_amount insert_transfer
  move_amount-Transfers s amount p new_id now db h i found may positive = Ensures-bind λ _ enough.
      Ensures-bind λ debited done. Ensures-bind λ credited done'.
        let d =
          (set_amount-Debits s amount p now db h i may.is_source.at_account may.is_source.is_live
              positive).at
            debited done in
        let (at_source, same) = find_budget-In s.id debited.1.budgets debited.0 d.read in
        let c =
          (credit_target-Credits default_note
              (newest (select (is_target s p.target_account_id) db.budgets)) s amount p new_id now
              debited.1 d.consistent debited.0 at_source same (h.row s i).in_order
              (λ t e.
                found_target s t amount p.target_account_id db debited h i
                  may.is_source.other_account d e)).at
            credited done' in
        Ensures-ok (record {
          source = s;
          source_found = found;
          may_move = may;
          peer = c.peer;
          source_read = c.searches s.id (λ e. c.not_source (sym e)) ∙ d.read;
          target_read = c.read;
          of_account = c.of_account;
          transferred = refl;
          debited = ap old_balance found ∙ balance_back s.amount debited.0.amount amount d.balance;
          credited =
              c.balance ∙ ap (λ o. old_balance o +ℤ amount) (d.searches credited.0.id c.not_source);
          sum = sums_agree _ _ _ amount d.sum c.sum;
          others = λ id ne ne'. c.searches id ne' ∙ d.searches id ne;
          consistent = c.consistent;
        })

  transfer_body-Transfers :
      (source_id : ℕ) (p : BudgetTransferRequest) (new_id now : ℕ) (db : Db)
      → IsConsistent db.budgets
      → pos 0 ≤ℤ q_money p.amount
      → Ensures
          (Transfers source_id p.target_account_id (q_money p.amount) db)
          (transfer_body default_note source_id p new_id now db)
  unfolding transfer_body
  transfer_body-Transfers source_id p new_id now db h positive = Ensures-bind λ s has_source.
      Ensures-bind λ source_account_id checked. Ensures-bind λ _ client_checked.
        Ensures-bind λ _ source_checked. Ensures-bind λ _ target_checked.
          let found = or_raise-some _ _ _ has_source in
          let (i, same) = find_budget-In source_id db.budgets s found in
          let may : MayMove s (q_money p.amount) p.target_account_id db = record {
            source_account_id = source_account_id;
            is_source =
                (check_source-IsSource s (q_money p.amount) p.target_account_id).at _ checked;
            client = (check_client-facts s db).at _ client_checked;
            source_account =
                (check_source_account-facts s source_account_id db).at _ source_checked;
            target_account =
                (check_target_account-facts s p.target_account_id db).at _ target_checked;
          } in
          subst
            (λ k. Ensures (Transfers k p.target_account_id (q_money p.amount) db) (
              move_amount default_note
                (newest (select (is_target s p.target_account_id) db.budgets)) s (q_money p.amount)
                p new_id now db))
            same
            (move_amount-Transfers s (q_money p.amount) p new_id now db h i
              (ap (λ k. find_budget k db.budgets) same ∙ found) may positive)

  -- A transfer on a consistent table either raises and leaves the tables as they were, or it returns
  -- and has done this. The source was an active account budget that covers the rounded amount, of
  -- another account than the requested one; its client and both accounts are active and have its
  -- currency, and the accounts are of its client. Both returned budgets are read back. The source lost
  -- the amount. The target gained it: an active account budget of the requested account and the same
  -- client, in the currency of the source and in a period that meets its own, that was there or was
  -- opened with nothing. The sum of all amounts is unchanged, every other budget is as before, and the
  -- table is consistent again.
  pub transfer-Transfers :
      (source_id : ℕ) (p : BudgetTransferRequest) (new_id now : ℕ) (db : Db)
      → IsConsistent db.budgets
      → Settles
          (Transfers source_id p.target_account_id (q_money p.amount) db)
          db
          (transfer default_note source_id p new_id now db)
  unfolding transfer
  transfer-Transfers source_id p new_id now db h =
      elim (Bool-cases (leb_ℤ (q_money p.amount) (pos 0))) [
        | inl refused ↦ rw refused refl
        | inr positive ↦
            let amount = q_money p.amount in
            let le : pos 0 ≤ℤ amount =
              let strict = leb_ℤ-false amount (pos 0) positive in omega int_laws in
            rw positive (
              transaction-Settles _ db (transfer_body default_note source_id p new_id now)
                (transfer_body-Transfers source_id p new_id now db h le))
      ]
