-- ===== src/Budget/Keeps/Merge.antt =====
-- What a patch makes of a budget (`SqliteBudgetStore.patch` of app/services/budgets.py), field by field.
use client_dash_up.Base.{ℕ, ◌≡◌, refl, sym, Option, none, some, get_or}
use client_dash_up.Base.Int.{ℤ}
use client_dash_up.Budget.Money.{Decimal, q_money}
use client_dash_up.Budget.Types.{Budget, BudgetPatch}
use client_dash_up.Budget.Store.{merged, patched_amount}
use client_dash_up.Budget.Keeps.SameBusiness.{SameFields, merged_eq}

-- A field has the value that is given, or else the one that it had.
abbrev pub SetTo {ℓ} : {A : Type ℓ} → Option A → A → A → Type ℓ
SetTo none old new = new ≡ old
SetTo (some v) old new = new ≡ v

-- The same of an amount, which is given as a decimal and stored rounded.
abbrev pub RoundedTo : Option Decimal → ℤ → ℤ → Type 0
RoundedTo none old new = new ≡ old
RoundedTo (some d) old new = new ≡ q_money d

-- `b` is `e` with the fields of the patch, but for its version and the instant of its update.
pub record IsMerged (p : BudgetPatch) (e b : Budget) : Type 0 where
  pub id : b.id ≡ e.id
  pub client_id : SetTo p.client_id e.client_id b.client_id
  pub scope : SetTo p.scope e.scope b.scope
  pub account_id : SetTo p.account_id e.account_id b.account_id
  pub amount : RoundedTo p.amount e.amount b.amount
  pub currency : SetTo p.currency e.currency b.currency
  pub period_type : SetTo p.period_type e.period_type b.period_type
  pub start_date : SetTo p.start_date e.start_date b.start_date
  pub end_date : SetTo p.end_date e.end_date b.end_date
  pub status : SetTo p.status e.status b.status
  pub note : SetTo p.note e.note b.note
  pub created : (b.created_by ≡ e.created_by) × (b.created_at ≡ e.created_at)

set_lem {ℓ} : {A : Type ℓ} (o : Option A) (d : A) → SetTo o d (get_or o d)
set_lem none d = refl
set_lem (some v) d = refl

rounded_lem : (o : Option Decimal) (d : ℤ) → RoundedTo o d (patched_amount o d)
rounded_lem none d = refl
rounded_lem (some v) d = refl

pub SetTo-get_or {ℓ} : {A : Type ℓ} (o : Option A) (d a : A) → SetTo o d a → get_or o d ≡ a
SetTo-get_or none d a h = sym h
SetTo-get_or (some v) d a h = sym h

RoundedTo-patched_amount : (o : Option Decimal) (d a : ℤ) → RoundedTo o d a → patched_amount o d ≡ a
RoundedTo-patched_amount none d a h = sym h
RoundedTo-patched_amount (some v) d a h = sym h

pub merged-IsMerged :
    (p : BudgetPatch) (e : Budget) (version now : ℕ)
    → IsMerged p e (record (merged p e) { version = version; updated_at = now })
unfolding merged
merged-IsMerged p e version now = record {
  id = refl;
  client_id = set_lem p.client_id e.client_id;
  scope = set_lem p.scope e.scope;
  account_id = set_lem p.account_id e.account_id;
  amount = rounded_lem p.amount e.amount;
  currency = set_lem p.currency e.currency;
  period_type = set_lem p.period_type e.period_type;
  start_date = set_lem p.start_date e.start_date;
  end_date = set_lem p.end_date e.end_date;
  status = set_lem p.status e.status;
  note = set_lem p.note e.note;
  created = (refl, refl);
}

merged-SameFields : (p : BudgetPatch) (e b : Budget) → IsMerged p e b → SameFields (merged p e) b
unfolding merged
merged-SameFields p e b h = record {
  client_id = SetTo-get_or p.client_id e.client_id b.client_id h.client_id;
  scope = SetTo-get_or p.scope e.scope b.scope h.scope;
  account_id = SetTo-get_or p.account_id e.account_id b.account_id h.account_id;
  amount = RoundedTo-patched_amount p.amount e.amount b.amount h.amount;
  currency = SetTo-get_or p.currency e.currency b.currency h.currency;
  period_type = SetTo-get_or p.period_type e.period_type b.period_type h.period_type;
  start_date = SetTo-get_or p.start_date e.start_date b.start_date h.start_date;
  end_date = SetTo-get_or p.end_date e.end_date b.end_date h.end_date;
  status = SetTo-get_or p.status e.status b.status h.status;
  note = SetTo-get_or p.note e.note b.note h.note;
}

-- A budget that a patch leaves as it is, is the merged one.
pub IsMerged-merged : (p : BudgetPatch) (e : Budget) → IsMerged p e e → merged p e ≡ e
IsMerged-merged p e h = merged_eq p e (merged-SameFields p e e h)
