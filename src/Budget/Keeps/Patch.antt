-- ===== src/Budget/Keeps/Patch.antt =====
-- `patch` and `archive` keep the invariant of the table.
use client_dash_up.Base.{
  ℕ, ◌+◌, ◌≤◌, subst, ◌≡◌, ◌≢◌, ◌⊎◌, refl, sym, ap, ◌∙◌, [], ◌∷◌, ◌++◌, some, List, arith, inl, inr,
  In,
}
use client_dash_up.Base.Outcome.{
  ok, err, branch, raise_if, ◌>>=◌, >>=-eq-ok, or_raise-some, Ensures, Ensures-ok, Ensures-branch,
  Ensures-bind,
}
use client_dash_up.Budget.Types.{
  BudgetStatus, active, archived, Budget, BudgetPatch, BudgetHistory, Db,
}
use client_dash_up.Budget.Table.{Fallible, find_budget, update_budget, insert_history}
use client_dash_up.Budget.Checks.{assert_no_overlap, assert_allocation_limit}
use client_dash_up.Budget.Store.{
  transaction, settled, merged, check_active, save_patch, patch_body, patch, archive_body, archive,
}
use client_dash_up.Budget.Invariant.Defs.{IsConsistent}
use client_dash_up.Budget.Invariant.Rows.{find_budget-In, find_budget-replace_other}
use client_dash_up.Budget.Invariant.Puts.{Admitted}
use client_dash_up.Budget.Invariant.Admission.{Admitted-of_checks, Admitted-archived}
use client_dash_up.Budget.Keeps.Writes.{
  update_budget-ok, update_budget-read, update_budget-IsConsistent,
}
use client_dash_up.Budget.Keeps.Settles.{Settles, transaction-Settles}
use client_dash_up.Budget.Keeps.Amounts.{some_eq}
use client_dash_up.Budget.Keeps.SameBusiness.{same_business_iff, is_empty_patch-merged}
use client_dash_up.Budget.Keeps.Refusals.{PatchRefuses, Blames, patch_body-Blames}
use client_dash_up.Budget.Keeps.Merge.{IsMerged, merged-IsMerged, IsMerged-merged}
use client_dash_up.Budget.Keeps.Create.{validate_period-le}

-- The candidate that passed the guarded checks is admitted, with any version and instant.
check_active-Admitted :
    (st : BudgetStatus) (c : Budget) (rows : List Budget) (version now : ℕ)
    → c.status ≡ st
    → check_active c rows ≡ ok tt
    → Admitted (record c { version = version; updated_at = now }) rows
unfolding check_active branch
check_active-Admitted active c rows version now e h =
    let (_, no_overlap, limit) =
      >>=-eq-ok
        (assert_no_overlap c.scope c.client_id c.account_id c.start_date c.end_date (some c.id)
          rows)
        (λ _.
          assert_allocation_limit c.scope c.client_id c.amount c.start_date c.end_date active
            (some c.id) rows)
        (rw e at h) in
    Admitted-of_checks (record c { version = version; updated_at = now }) (some c.id) rows refl
      no_overlap limit
check_active-Admitted archived c rows version now e h = Admitted-archived _ rows e

-- The row that a patch writes.
abbrev pub patched_row : BudgetPatch → ℕ → Budget → Budget
patched_row p now e = record (merged p e) { version = e.version + 1; updated_at = now }

-- The row of the history that a patch writes.
abbrev pub patch_entry : BudgetPatch → ℕ → Db → Budget → Budget → BudgetHistory
patch_entry p now db old new = record {
  id = db.next_history_id;
  budget_id = old.id;
  changed_at = now;
  changed_by = p.changed_by;
  previous_values = old;
  new_values = new;
}

-- A patch that changes a field: the next version, and one more row of the history.
pub record Changes (p : BudgetPatch) (now : ℕ) (db : Db) (e : Budget) (r : Budget × Db)
    : Type 0 where
  pub differs : ¬ IsMerged p e e
  pub merges : IsMerged p e r.0
  pub version : (r.0.version ≡ e.version + 1) × (r.0.updated_at ≡ now)
  pub read : find_budget e.id r.1.budgets ≡ some r.0
  pub logged : r.1.history ≡ db.history ++ patch_entry p now db e r.0 ∷ []
  pub searches : (id : ℕ) → id ≢ e.id → find_budget id r.1.budgets ≡ find_budget id db.budgets
  pub consistent : IsConsistent r.1.budgets

-- What `patch` has done to the budget `e`: nothing, when the fields that it sets have their values
-- already, or a change.
abbrev pub Patches : BudgetPatch → ℕ → Db → Budget → Budget × Db → Type 0
Patches p now db e r = (IsMerged p e e × (r ≡ (e, db))) ⊎ Changes p now db e r

-- The same of the budget that the id names.
abbrev pub PatchesAt : ℕ → BudgetPatch → ℕ → Db → Budget × Db → Type 0
PatchesAt budget_id p now db r =
    (e : Budget) × (find_budget budget_id db.budgets ≡ some e) × Patches p now db e r

update_budget-history :
    (b : Budget) (db db' : Db)
    → update_budget b db ≡ ok db'
    → (db'.history ≡ db.history) × (db'.next_history_id ≡ db.next_history_id)
unfolding update_budget raise_if ◌>>=◌
update_budget-history b db db' h = (ground arith, ground arith)

save_patch-Changes :
    (e : Budget) (p : BudgetPatch) (now : ℕ) (db : Db)
    → IsConsistent db.budgets
    → In e db.budgets
    → merged p e ≢ e
    → (merged p e).start_date ≤ (merged p e).end_date
    → check_active (merged p e) db.budgets ≡ ok tt
    → Ensures (Changes p now db e) (save_patch e (merged p e) p.changed_by now db)
unfolding save_patch insert_history
save_patch-Changes e p now db h i differs le checked =
    let b = patched_row p now e in
    let same : e.id ≡ b.id = unfold merged in refl in
    Ensures-bind λ db' updated. Ensures-bind λ row found.
      let read =
        ap (λ k. find_budget k db'.budgets) same
        ∙ update_budget-read e b db db' h.unique i same updated in
      let row_eq : row ≡ b = some_eq (sym (or_raise-some _ _ _ found) ∙ read) in
      let rows = (update_budget-ok b db db' updated).1 in
      let (kept, counter) = update_budget-history b db db' updated in
      Ensures-ok (record {
        differs = λ same_fields. differs (IsMerged-merged p e same_fields);
        merges = subst (IsMerged p e) (sym row_eq) (merged-IsMerged p e (e.version + 1) now);
        version = (ap (λ (z : Budget). z.version) row_eq, ap (λ (z : Budget). z.updated_at) row_eq);
        read = read ∙ ap some (sym row_eq);
        logged = rw (kept, counter);
        searches = λ id ne.
            ap (find_budget id) rows
            ∙ find_budget-replace_other id b db.budgets (λ q. ne (q ∙ sym same));
        consistent =
            update_budget-IsConsistent e b db db' h i same le
              (check_active-Admitted (merged p e).status (merged p e) db.budgets (e.version + 1) now
                refl checked)
              updated;
      })

unchanged-IsMerged : (p : BudgetPatch) (e : Budget) → merged p e ≡ e → IsMerged p e e
unchanged-IsMerged p e same =
    subst (IsMerged p e)
      (ap (λ (z : Budget). record z { version = e.version; updated_at = e.updated_at }) same)
      (merged-IsMerged p e e.version e.updated_at)

patch_body-Patches :
    (budget_id : ℕ) (p : BudgetPatch) (now : ℕ) (db : Db)
    → IsConsistent db.budgets
    → Ensures (PatchesAt budget_id p now db) (patch_body budget_id p now db)
unfolding patch_body
patch_body-Patches budget_id p now db h = Ensures-bind λ e has.
    let found = or_raise-some _ _ _ has in
    Ensures-branch
      (λ empty.
        Ensures-ok (e, found, inl (unchanged-IsMerged p e (is_empty_patch-merged p e empty), refl)))
      (λ _. Ensures-bind λ _ period. Ensures-bind λ _ scope. Ensures-bind λ _ nonnegative.
        Ensures-branch
          (λ same.
            Ensures-ok
              (e, found, inl (unchanged-IsMerged p e ((same_business_iff p e).0 same), refl)))
          (λ other. Ensures-bind λ _ checked.
            let (i, _) = find_budget-In budget_id db.budgets e found in
            record {
              at = λ r done. (
                e,
                found,
                inr (
                    (save_patch-Changes e p now db h i (λ q. cc ((same_business_iff p e).1 q))
                        (validate_period-le _ _ period) checked).at
                      r done),
              );
            }))

-- How `patch` ended: it returned and has done its work, or raised for a reason with the tables as
-- they were.
abbrev pub PatchEnds : ℕ → BudgetPatch → ℕ → Db → Fallible Budget × Db → Type 0
PatchEnds budget_id p now db (ok b, db') = PatchesAt budget_id p now db (b, db')
PatchEnds budget_id p now db (err x, db') = (db' ≡ db) × PatchRefuses budget_id p db x

settled-PatchEnds :
    (budget_id : ℕ) (p : BudgetPatch) (now : ℕ) (db : Db) (r : Fallible (Budget × Db))
    → Ensures (PatchesAt budget_id p now db) r
    → Blames (PatchRefuses budget_id p db) r
    → PatchEnds budget_id p now db (settled r db)
unfolding settled
settled-PatchEnds budget_id p now db (ok r) h k = h.at r refl
settled-PatchEnds budget_id p now db (err x) h k = (refl, k.at x refl)

pub patch-Settles :
    (budget_id : ℕ) (p : BudgetPatch) (now : ℕ) (db : Db)
    → IsConsistent db.budgets
    → Settles (PatchesAt budget_id p now db) db (patch budget_id p now db)
unfolding patch
patch-Settles budget_id p now db h =
    transaction-Settles _ db (patch_body budget_id p now) (patch_body-Patches budget_id p now db h)

-- `patch` on a consistent table returns or raises. It returns when it finds the budget `e` and: where
-- the patch sets no field to another value than `e` has it returns `e` and writes nothing; otherwise
-- it stores `e` with each field that the patch sets at its value, the amount rounded, and each other
-- field as it was, at the next version and with the instant of the call, adds one row to the history
-- with the values before and after, leaves every other budget as it was, and keeps the table
-- consistent. It raises with the tables as they were: that there is no such budget, where the id has
-- none; or what is wrong with `e` and the fields of the patch: a period that ends before it starts, an
-- account id at the client scope or none at the account scope, an amount below zero, an overlap or an
-- allocation that the checks refuse for an active budget, or a row that the table refuses.
pub patch-Patches :
    (budget_id : ℕ) (p : BudgetPatch) (now : ℕ) (db : Db)
    → IsConsistent db.budgets
    → PatchEnds budget_id p now db (patch budget_id p now db)
unfolding patch transaction
patch-Patches budget_id p now db h =
    settled-PatchEnds budget_id p now db (patch_body budget_id p now db)
      (patch_body-Patches budget_id p now db h) (patch_body-Blames budget_id p now db h)

-- What `archive` has done: the row is archived, at its version and with no row of the history.
pub record Archives (budget_id now : ℕ) (db : Db) (r : Budget × Db) : Type 0 where
  pub read : find_budget budget_id r.1.budgets ≡ some r.0
  pub row :
      (e : Budget)
      → find_budget budget_id db.budgets ≡ some e
      → r.0 ≡ record e { status = archived; updated_at = now }
  pub kept : r.1.history ≡ db.history
  pub searches : (id : ℕ) → id ≢ budget_id → find_budget id r.1.budgets ≡ find_budget id db.budgets
  pub consistent : IsConsistent r.1.budgets

archive_body-Archives :
    (budget_id now : ℕ) (db : Db)
    → IsConsistent db.budgets
    → Ensures (Archives budget_id now db) (archive_body budget_id now db)
unfolding archive_body
archive_body-Archives budget_id now db h = Ensures-bind λ e has. Ensures-bind λ db' updated.
    Ensures-bind λ row read_back.
      let found = or_raise-some _ _ _ has in
      let b = record e { status = archived; updated_at = now } in
      let (i, same) = find_budget-In budget_id db.budgets e found in
      let read =
        ap (λ k. find_budget k db'.budgets) (sym same)
        ∙ update_budget-read e b db db' h.unique i refl updated in
      let row_eq : row ≡ b = some_eq (sym (or_raise-some _ _ _ read_back) ∙ read) in
      let rows = (update_budget-ok b db db' updated).1 in
      Ensures-ok (record {
        read = read ∙ ap some (sym row_eq);
        row = λ o f.
            row_eq
            ∙ ap (λ (z : Budget). record z { status = archived; updated_at = now })
                (some_eq (sym found ∙ f));
        kept = (update_budget-history b db db' updated).0;
        searches = λ id ne.
            ap (find_budget id) rows
            ∙ find_budget-replace_other id b db.budgets (λ q. ne (q ∙ same));
        consistent =
            update_budget-IsConsistent e b db db' h i refl (h.row e i).in_order
              (Admitted-archived b db.budgets refl) updated;
      })

-- `archive` on a consistent table either raises and leaves the tables as they were, or sets the
-- status and the instant of the found budget and nothing else, and keeps the table consistent.
pub archive-Archives :
    (budget_id now : ℕ) (db : Db)
    → IsConsistent db.budgets
    → Settles (Archives budget_id now db) db (archive budget_id now db)
unfolding archive
archive-Archives budget_id now db h =
    transaction-Settles _ db (archive_body budget_id now) (archive_body-Archives budget_id now db h)

pub Patches-IsConsistent :
    (budget_id : ℕ) (p : BudgetPatch) (now : ℕ) (db : Db) (r : Budget × Db)
    → IsConsistent db.budgets
    → PatchesAt budget_id p now db r
    → IsConsistent r.1.budgets
Patches-IsConsistent budget_id p now db r h (e, found, inl same) = rw same.1 h
Patches-IsConsistent budget_id p now db r h (e, found, inr c) = c.consistent
