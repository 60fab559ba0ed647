-- ===== src/Budget/Keeps/Refusals.antt =====
-- Why `patch` raises (`SqliteBudgetStore.patch` of app/services/budgets.py).
use client_dash_up.Base.{
  ℕ, ◌+◌, ◌<◌, ◌≡◌, ◌≢◌, refl, ap, ◌∙◌, subst, List, is_some, Bool, true, false, not, Option, none,
  some, arith, In,
}
use client_dash_up.Base.Int.{pos, ltb_ℤ}
use client_dash_up.Base.Outcome.{ok, err, ◌>>=◌, raise_if, or_raise, or_raise-some, branch, ◌>>◌}
use client_dash_up.Budget.Types.{
  Scope, client, account, active, archived, BudgetStatus, Budget, BudgetPatch, Db, BudgetError,
  budget_not_found, start_after_end, client_with_account, account_without_account, negative_amount,
  integrity_error,
}
use client_dash_up.Budget.Table.{Fallible, find_budget, update_budget, row_allowed, is_active}
use client_dash_up.Budget.Checks.{
  validate_period, validate_scope, assert_no_overlap, assert_allocation_limit,
}
use client_dash_up.Budget.Store.{merged, check_active, save_patch, patch_body}
use client_dash_up.Budget.Invariant.Defs.{IsConsistent}
use client_dash_up.Budget.Invariant.Rows.{find_budget-In}
use client_dash_up.Budget.Keeps.Writes.{update_budget-read}
use client_dash_up.Budget.Keeps.Merge.{IsMerged, merged-IsMerged}

-- What is wrong with the budget `b` that a patch would store in a table.
pub data IsRefused (b : Budget) (rows : List Budget) : BudgetError → Type 0 where
  reversed : b.end_date < b.start_date → IsRefused b rows start_after_end
  with_account : b.scope ≡ client → b.account_id ≢ none → IsRefused b rows client_with_account
  without_account :
      b.scope ≡ account → b.account_id ≡ none → IsRefused b rows account_without_account
  negative : ltb_ℤ b.amount (pos 0) ≡ true → IsRefused b rows negative_amount
  overlapping :
      (x : BudgetError)
      → b.status ≡ active
      → assert_no_overlap b.scope b.client_id b.account_id b.start_date b.end_date (some b.id) rows
        ≡ err x
      → IsRefused b rows x
  over_limit :
      (x : BudgetError)
      → b.status ≡ active
      → assert_allocation_limit b.scope b.client_id b.amount b.start_date b.end_date active
          (some b.id)
          rows
        ≡ err x
      → IsRefused b rows x
  against_table : row_allowed b ≡ false → IsRefused b rows integrity_error

-- Why a patch raised: there is no such budget, or the one that it makes of it is refused.
pub data PatchRefuses (budget_id : ℕ) (p : BudgetPatch) (db : Db) : BudgetError → Type 0 where
  missing : find_budget budget_id db.budgets ≡ none → PatchRefuses budget_id p db budget_not_found
  unfit :
      (e b : Budget) (x : BudgetError)
      → find_budget budget_id db.budgets ≡ some e
      → IsMerged p e b
      → IsRefused b db.budgets x
      → PatchRefuses budget_id p db x

-- `P` holds of the error, when one is raised.
pub record Blames {A : Type 0} (P : BudgetError → Type 0) (r : Fallible A) : Type 0 where
  pub at : (x : BudgetError) → r ≡ err x → P x

module _ {A : Type 0} {P : BudgetError → Type 0} where
  Blames-ok : {a : A} → Blames P (ok a)
  Blames-ok = record { at = λ x h. absurd (cc (h)) }

  Blames-branch : (b : Bool) {x y : Fallible A} → Blames P x → Blames P y → Blames P (branch b x y)
  unfolding branch
  Blames-branch true h k = h
  Blames-branch false h k = k

Blames-bind :
    {A B : Type 0} {P : BudgetError → Type 0} {m : Fallible A} {f : A → Fallible B}
    → Blames P m
    → ((a : A) → m ≡ ok a → Blames P (f a))
    → Blames P (m >>= f)
unfolding ◌>>=◌
Blames-bind {m = ok a} h k = k a refl
Blames-bind {m = err x} h k = record { at = λ y e. h.at y (cc (e)) }

falsified : (b : Bool) → not b ≡ true → b ≡ false
falsified true h = absurd (cc (h))
falsified false h = refl

Blames-map :
    {A : Type 0} {P Q : BudgetError → Type 0} {r : Fallible A}
    → Blames P r
    → ((x : BudgetError) → P x → Q x)
    → Blames Q r
Blames-map h k = record { at = λ x e. k x (h.at x e) }

raised : (b : Bool) (y x : BudgetError) → raise_if b y ≡ err x → (b ≡ true) × (y ≡ x)
unfolding raise_if
raised true y x h = (refl, cc (h))
raised false y x h = absurd (cc (h))

raise_if-Blames :
    {P : BudgetError → Type 0} (b : Bool) (y : BudgetError)
    → (b ≡ true → P y)
    → Blames P (raise_if b y)
raise_if-Blames {P} b y h = record {
  at = λ x e. let (holds, same) = raised b y x e in subst P same (h holds);
}

or_raise-Blames :
    {A : Type 0} {P : BudgetError → Type 0} (o : Option A) (y : BudgetError)
    → (o ≡ none → P y)
    → Blames P (or_raise o y)
unfolding or_raise
or_raise-Blames {P = P} none y h = record { at = λ x e. subst P (cc (e)) (h refl) }
or_raise-Blames (some a) y h = record { at = λ x e. absurd (cc (e)) }

validate_scope-Blames :
    (b : Budget) (rows : List Budget) (s : Scope)
    → b.scope ≡ s
    → Blames (IsRefused b rows) (validate_scope s b.account_id)
unfolding validate_scope
validate_scope-Blames b rows client e =
    raise_if-Blames _ _ λ given. with_account e λ h. cc (given, ap is_some h)
validate_scope-Blames b rows account e =
    raise_if-Blames _ _ λ lacks. without_account e (let h = lacks in ground arith)

check_active-Blames :
    (b : Budget) (rows : List Budget) (st : BudgetStatus)
    → b.status ≡ st
    → Blames (IsRefused b rows) (
        branch
          (is_active st)
          (do
            assert_no_overlap b.scope b.client_id b.account_id b.start_date b.end_date
                (some b.id)
                rows
            assert_allocation_limit b.scope b.client_id b.amount b.start_date b.end_date st
                (some b.id)
                rows)
          (ok tt))
unfolding branch
check_active-Blames b rows active e =
    Blames-bind (record { at = λ x h. overlapping x e h })
      (λ _ _. record { at = λ x h. over_limit x e h })
check_active-Blames b rows archived e = Blames-ok

save_patch-Blames :
    (e : Budget) (p : BudgetPatch) (now : ℕ) (db : Db)
    → IsConsistent db.budgets
    → In e db.budgets
    → Blames (IsRefused (merged p e) db.budgets) (save_patch e (merged p e) p.changed_by now db)
unfolding save_patch
save_patch-Blames e p now db h i =
    let b = record (merged p e) { version = e.version + 1; updated_at = now } in
    let same : e.id ≡ b.id = unfold merged in refl in
    Blames-bind
      (unfold update_budget row_allowed in
        Blames-bind (raise_if-Blames _ _ λ odd. against_table (let k = odd in falsified _ k))
          (λ _ _. Blames-ok))
      (λ db' updated.
        let read =
          ap (λ k. find_budget k db'.budgets) same
          ∙ update_budget-read e b db db' h.unique i same updated in
        Blames-bind (or_raise-Blames _ _ λ gone. absurd (cc (read, gone))) (λ _ _. Blames-ok))

-- `patch` raises for a reason that the table and the patch show.
pub patch_body-Blames :
    (budget_id : ℕ) (p : BudgetPatch) (now : ℕ) (db : Db)
    → IsConsistent db.budgets
    → Blames (PatchRefuses budget_id p db) (patch_body budget_id p now db)
unfolding patch_body
patch_body-Blames budget_id p now db h =
    Blames-bind (or_raise-Blames _ _ λ gone. missing gone) λ e has.
      let found = or_raise-some _ _ _ has in
      let (i, _) = find_budget-In budget_id db.budgets e found in
      let b = merged p e in
      let merges : IsMerged p e b = unfold merged in merged-IsMerged p e e.version e.updated_at in
      Blames-branch _ Blames-ok (
        Blames-map {P = IsRefused b db.budgets}
          (Blames-bind
            (unfold validate_period in
              raise_if-Blames _ _ λ late. reversed (let k = late in ground arith))
            λ _ _. Blames-bind (validate_scope-Blames b db.budgets b.scope refl) λ _ _.
              Blames-bind (raise_if-Blames _ _ λ below. negative below) λ _ _.
                Blames-branch _ Blames-ok (
                  Blames-bind
                    (unfold check_active in check_active-Blames b db.budgets b.status refl)
                    λ _ _. save_patch-Blames e p now db h i))
          (λ x refused. unfit e b x found merges refused))
