-- ===== src/Budget/Keeps/SameBusiness.antt =====
-- `candidate_normalized == existing_normalized` in `patch`: the comparison of the business fields
-- decides whether the merged budget is the stored one.
use text.Mathlib.TextEquality.{eq_iff}
use Prim.Native.String.{String}
use client_dash_up.Base.{
  ℕ, ◌≡◌, refl, sym, ap, subst, Bool, true, false, not, ◌&&◌, Option, none, some, arith, ◌==◌,
  ==_iff-eq, ==_self, opt_eq, ◌↔◌, ◌+◌, get_or, is_some,
}
use client_dash_up.Base.Int.{ℤ, pos_part, neg_part, eqb_ℤ, eq_of_parts}
use client_dash_up.Base.Text.{str_eq, opt_str_eq}
use client_dash_up.Budget.Money.{Decimal}
use client_dash_up.Budget.Types.{Scope, PeriodType, BudgetStatus, Budget, BudgetPatch}
use client_dash_up.Budget.Store.{
  merged, same_business, is_empty_patch, scope_eq, period_type_eq, status_eq, patched_amount,
}

scope_eq-eq : (a b : Scope) → scope_eq a b ≡ true → a ≡ b
scope_eq-eq a b h = ground arith

period_type_eq-eq : (a b : PeriodType) → period_type_eq a b ≡ true → a ≡ b
period_type_eq-eq a b h = ground arith

status_eq-eq : (a b : BudgetStatus) → status_eq a b ≡ true → a ≡ b
status_eq-eq a b h = ground arith

opt_eq-eq : (a b : Option ℕ) → opt_eq a b ≡ true → a ≡ b
opt_eq-eq a b h = ground arith

opt_str_eq-eq : (a b : Option String) → opt_str_eq a b ≡ true → a ≡ b
opt_str_eq-eq none none h = refl
opt_str_eq-eq none (some t) h = cc
opt_str_eq-eq (some s) none h = cc
opt_str_eq-eq (some s) (some t) h = ap some ((eq_iff s t).0 h)

eqb_ℤ-eq : (a b : ℤ) → eqb_ℤ a b ≡ true → a ≡ b
unfolding eqb_ℤ
eqb_ℤ-eq a b h = eq_of_parts a b (ground arith)

-- The fields that the comparison reads.
pub record SameFields (a b : Budget) : Type 0 where
  pub client_id : a.client_id ≡ b.client_id
  pub scope : a.scope ≡ b.scope
  pub account_id : a.account_id ≡ b.account_id
  pub amount : a.amount ≡ b.amount
  pub currency : a.currency ≡ b.currency
  pub period_type : a.period_type ≡ b.period_type
  pub start_date : a.start_date ≡ b.start_date
  pub end_date : a.end_date ≡ b.end_date
  pub status : a.status ≡ b.status
  pub note : a.note ≡ b.note

and_left : (a b : Bool) → (a && b) ≡ true → a ≡ true
and_left true b h = refl
and_left false b h = h

and_right : (a b : Bool) → (a && b) ≡ true → b ≡ true
and_right true b h = h
and_right false b h = absurd (cc)

same_business-SameFields : (a b : Budget) → same_business a b ≡ true → SameFields a b
unfolding same_business
same_business-SameFields a b h =
    let h10 = and_left _ (opt_eq a.created_by b.created_by) h in
    let h9 = and_left _ (opt_str_eq a.note b.note) h10 in
    let h8 = and_left _ (status_eq a.status b.status) h9 in
    let h7 = and_left _ (a.end_date == b.end_date) h8 in
    let h6 = and_left _ (a.start_date == b.start_date) h7 in
    let h5 = and_left _ (period_type_eq a.period_type b.period_type) h6 in
    let h4 = and_left _ (str_eq a.currency b.currency) h5 in
    let h3 = and_left _ (eqb_ℤ a.amount b.amount) h4 in
    let h2 = and_left _ (opt_eq a.account_id b.account_id) h3 in
    let h1 = and_left _ (scope_eq a.scope b.scope) h2 in
    record {
      client_id = ==_iff-eq a.client_id b.client_id h1;
      scope = scope_eq-eq a.scope b.scope (and_right (a.client_id == b.client_id) _ h2);
      account_id = opt_eq-eq a.account_id b.account_id (and_right _ _ h3);
      amount = eqb_ℤ-eq a.amount b.amount (and_right _ _ h4);
      currency = (eq_iff a.currency b.currency).0 (and_right _ _ h5);
      period_type = period_type_eq-eq a.period_type b.period_type (and_right _ _ h6);
      start_date = ==_iff-eq a.start_date b.start_date (and_right _ _ h7);
      end_date = ==_iff-eq a.end_date b.end_date (and_right _ _ h8);
      status = status_eq-eq a.status b.status (and_right _ _ h9);
      note = opt_str_eq-eq a.note b.note (and_right _ _ h10);
    }

pub merged_eq : (p : BudgetPatch) (e : Budget) → SameFields (merged p e) e → merged p e ≡ e
unfolding merged
merged_eq p e f = λ i. record e {
  client_id = f.client_id i;
  scope = f.scope i;
  account_id = f.account_id i;
  amount = f.amount i;
  currency = f.currency i;
  period_type = f.period_type i;
  start_date = f.start_date i;
  end_date = f.end_date i;
  status = f.status i;
  note = f.note i;
}

opt_eq_same : (o : Option ℕ) → opt_eq o o ≡ true
opt_eq_same none = refl
opt_eq_same (some a) = ==_self a

opt_str_eq_same : (o : Option String) → opt_str_eq o o ≡ true
opt_str_eq_same none = refl
opt_str_eq_same (some s) = (eq_iff s s).1 refl

eqb_ℤ_same : (a : ℤ) → eqb_ℤ a a ≡ true
unfolding eqb_ℤ
eqb_ℤ_same a = ==_self (pos_part a + neg_part a)

scope_eq_same : (a : Scope) → scope_eq a a ≡ true
scope_eq_same a = ground arith

period_type_eq_same : (a : PeriodType) → period_type_eq a a ≡ true
period_type_eq_same a = ground arith

status_eq_same : (a : BudgetStatus) → status_eq a a ≡ true
status_eq_same a = ground arith

same_business_self : (e : Budget) → same_business e e ≡ true
unfolding same_business
same_business_self e = rw (
  ==_self e.client_id,
  scope_eq_same e.scope,
  opt_eq_same e.account_id,
  eqb_ℤ_same e.amount,
  (eq_iff e.currency e.currency).1 refl,
  period_type_eq_same e.period_type,
  ==_self e.start_date,
  ==_self e.end_date,
  status_eq_same e.status,
  opt_str_eq_same e.note,
  opt_eq_same e.created_by,
)

-- The comparison passes exactly when the merged budget is the stored one.
pub same_business_iff :
    (p : BudgetPatch) (e : Budget) → (same_business (merged p e) e ≡ true) ↔ (merged p e ≡ e)
same_business_iff p e = (
  λ h. merged_eq p e (same_business-SameFields (merged p e) e h),
  λ h. subst (λ b. same_business b e ≡ true) (sym h) (same_business_self e),
)

unset {ℓ} : {A : Type ℓ} (o : Option A) (d : A) → not (is_some o) ≡ true → get_or o d ≡ d
unset none d h = refl
unset (some a) d h = cc

unset_amount : (o : Option Decimal) (d : ℤ) → not (is_some o) ≡ true → patched_amount o d ≡ d
unset_amount none d h = refl
unset_amount (some a) d h = cc

-- A patch with no field set merges to the stored budget.
pub is_empty_patch-merged :
    (p : BudgetPatch) (e : Budget) → is_empty_patch p ≡ true → merged p e ≡ e
unfolding is_empty_patch merged
is_empty_patch-merged p e h9 =
    let h8 = and_left _ (not (is_some p.status)) h9 in
    let h7 = and_left _ (not (is_some p.note)) h8 in
    let h6 = and_left _ (not (is_some p.end_date)) h7 in
    let h5 = and_left _ (not (is_some p.start_date)) h6 in
    let h4 = and_left _ (not (is_some p.period_type)) h5 in
    let h3 = and_left _ (not (is_some p.currency)) h4 in
    let h2 = and_left _ (not (is_some p.amount)) h3 in
    let h1 = and_left _ (not (is_some p.account_id)) h2 in
    let h0 = and_left _ (not (is_some p.scope)) h1 in
    merged_eq p e (record {
      client_id = unset p.client_id e.client_id h0;
      scope = unset p.scope e.scope (and_right _ _ h1);
      account_id = unset p.account_id e.account_id (and_right _ _ h2);
      amount = unset_amount p.amount e.amount (and_right _ _ h3);
      currency = unset p.currency e.currency (and_right _ _ h4);
      period_type = unset p.period_type e.period_type (and_right _ _ h5);
      start_date = unset p.start_date e.start_date (and_right _ _ h6);
      end_date = unset p.end_date e.end_date (and_right _ _ h7);
      status = unset p.status e.status (and_right _ _ h9);
      note = unset p.note e.note (and_right _ _ h8);
    })
