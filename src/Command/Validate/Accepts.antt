-- ===== src/Command/Validate/Accepts.antt =====
-- What the constructor of `BudgetChangeRequest` (app/services/provider_budget_commands.py) accepts.
use Prim.Native.String.{String}
use client_dash_up.Base.{
  not-false, ℕ, ◌≤◌, ◌<◌, ◌≡◌, refl, Bool, true, false, not, ◌&&◌, Option, none, some, List, [],
  ◌∷◌, leb, length, ◌==◌, arith, ap, sym, subst, Bool-cases, inl, inr, ==_iff-eq,
}
use text.Mathlib.TextEquality.{eq_iff}
use client_dash_up.Command.Validate.Words.{words, joined, one_line-joined}
use client_dash_up.Base.Int.{ℤ, pos, negsuc}
use client_dash_up.Base.Text.{codes, str_eq}
use client_dash_up.Base.Outcome.{
  raise_if-false, or_raise-some, Ensures, Ensures-ok, Ensures-err, Ensures-bind,
}
use client_dash_up.Command.Types.{BudgetTargetType, BudgetField, BudgetChangeRequest}
use client_dash_up.Command.Store.Key.{strip}
use client_dash_up.Command.Validate.{
  RawRequest, target_type_of, field_of, is_allowed, is_account_target, is_spend_cap_field,
  all_in_range, is_numeric, require_provider_id, require_minor_units, require_expected,
  is_currency_code, is_reason, new_request,
}

-- The fields of an object that a request may change.
pub data MayChange : BudgetTargetType → BudgetField → Type 0 where
  daily_of_campaign : MayChange BudgetTargetType.campaign BudgetField.daily_budget
  lifetime_of_campaign : MayChange BudgetTargetType.campaign BudgetField.lifetime_budget
  daily_of_ad_set : MayChange BudgetTargetType.ad_set BudgetField.daily_budget
  lifetime_of_ad_set : MayChange BudgetTargetType.ad_set BudgetField.lifetime_budget
  cap_of_account : MayChange BudgetTargetType.account BudgetField.spend_cap

-- The texts that name a target type, and those that name a field.
pub data NamesTarget : String → BudgetTargetType → Type 0 where
  names_campaign : NamesTarget "campaign" BudgetTargetType.campaign
  names_ad_set : NamesTarget "ad_set" BudgetTargetType.ad_set
  names_account : NamesTarget "account" BudgetTargetType.account

pub data NamesField : String → BudgetField → Type 0 where
  names_daily_budget : NamesField "daily_budget" BudgetField.daily_budget
  names_lifetime_budget : NamesField "lifetime_budget" BudgetField.lifetime_budget
  names_spend_cap : NamesField "spend_cap" BudgetField.spend_cap

-- Every code point of a text lies in a range.
abbrev pub AllBetween : ℕ → ℕ → List ℕ → Type 0
AllBetween low high [] = Unit
AllBetween low high (c ∷ cs) = (low ≤ c) × (c ≤ high) × AllBetween low high cs

-- A text of ASCII digits, of one at least.
abbrev pub IsNumeric : String → Type 0
IsNumeric s = (1 ≤ length (codes s)) × AllBetween b'0' b'9' (codes s)

-- An expected amount, where the arguments have one.
abbrev pub amount_given : Option ℕ → Option ℤ
amount_given none = none
amount_given (some n) = some (pos n)

-- What holds of every request that exists, and how it comes from the arguments.
pub record Accepts (raw : RawRequest) (r : BudgetChangeRequest) : Type 0 where
  pub target : NamesTarget raw.target_type r.target_type
  pub field_read : NamesField raw.field r.field
  pub may_change : MayChange r.target_type r.field
  pub account_id :
      (r.provider_account_id ≡ strip raw.provider_account_id) × IsNumeric r.provider_account_id
  pub target_id :
      (r.provider_target_id ≡ strip raw.provider_target_id) × IsNumeric r.provider_target_id
  pub own_account :
      r.target_type ≡ BudgetTargetType.account
      → str_eq r.provider_target_id r.provider_account_id ≡ true
  pub amount : raw.amount_minor ≡ pos r.amount_minor
  pub positive : is_spend_cap_field r.field ≡ false → 0 < r.amount_minor
  pub expected : raw.expected_current_minor ≡ amount_given r.expected_current_minor
  pub currency :
      (r.currency ≡ strip raw.currency)
      × (length (codes r.currency) ≡ 3)
      × AllBetween b'A' b'Z' (codes r.currency)
  pub reason :
      (r.reason ≡ joined (words raw.reason))
      × (1 ≤ length (codes r.reason))
      × (length (codes r.reason) ≤ 500)
  pub ids :
      (r.client_id ≡ raw.client_id)
      × (r.ad_account_id ≡ raw.ad_account_id)
      × (r.credential_id ≡ raw.credential_id)
      × (r.agency_id ≡ raw.agency_id)
      × (r.source_action_id ≡ raw.source_action_id)

some_injective : {A : Type 0} {a b : A} → some a ≡ some b → a ≡ b
some_injective h = cc (h)

target_type_of-NamesTarget :
    (s : String) (t : BudgetTargetType) → target_type_of s ≡ some t → NamesTarget s t
unfolding target_type_of
target_type_of-NamesTarget s t h = elim (Bool-cases (str_eq s "campaign")) [
  | inl e ↦ named ((eq_iff s "campaign").0 e) (some_injective (rw e at h)) names_campaign
  | inr n1 ↦ elim (Bool-cases (str_eq s "ad_set")) [
    | inl e ↦ named ((eq_iff s "ad_set").0 e) (some_injective (rw (n1, e) at h)) names_ad_set
    | inr n2 ↦ elim (Bool-cases (str_eq s "account")) [
      | inl e ↦
          named ((eq_iff s "account").0 e) (some_injective (rw (n1, n2, e) at h)) names_account
      | inr n3 ↦ absurd (cc (n1, n2, n3, h))
    ]
  ]
]
  where
    named : {u : String} {v : BudgetTargetType} → s ≡ u → v ≡ t → NamesTarget u v → NamesTarget s t
    named same same' n = subst (λ k. NamesTarget k t) (sym same) (subst (NamesTarget _) same' n)

field_of-NamesField : (s : String) (f : BudgetField) → field_of s ≡ some f → NamesField s f
unfolding field_of
field_of-NamesField s f h = elim (Bool-cases (str_eq s "daily_budget")) [
  | inl e ↦ named ((eq_iff s "daily_budget").0 e) (some_injective (rw e at h)) names_daily_budget
  | inr n1 ↦ elim (Bool-cases (str_eq s "lifetime_budget")) [
    | inl e ↦
        named ((eq_iff s "lifetime_budget").0 e) (some_injective (rw (n1, e) at h))
          names_lifetime_budget
    | inr n2 ↦ elim (Bool-cases (str_eq s "spend_cap")) [
      | inl e ↦
          named ((eq_iff s "spend_cap").0 e) (some_injective (rw (n1, n2, e) at h)) names_spend_cap
      | inr n3 ↦ absurd (cc (n1, n2, n3, h))
    ]
  ]
]
  where
    named : {u : String} {v : BudgetField} → s ≡ u → v ≡ f → NamesField u v → NamesField s f
    named same same' n = subst (λ k. NamesField k f) (sym same) (subst (NamesField _) same' n)

is_allowed-MayChange :
    (t : BudgetTargetType) (f : BudgetField) → is_allowed t f ≡ true → MayChange t f
is_allowed-MayChange BudgetTargetType.campaign BudgetField.daily_budget h = daily_of_campaign
is_allowed-MayChange BudgetTargetType.campaign BudgetField.lifetime_budget h = lifetime_of_campaign
is_allowed-MayChange BudgetTargetType.campaign BudgetField.spend_cap h = absurd (cc)
is_allowed-MayChange BudgetTargetType.ad_set BudgetField.daily_budget h = daily_of_ad_set
is_allowed-MayChange BudgetTargetType.ad_set BudgetField.lifetime_budget h = lifetime_of_ad_set
is_allowed-MayChange BudgetTargetType.ad_set BudgetField.spend_cap h = absurd (cc)
is_allowed-MayChange BudgetTargetType.account BudgetField.daily_budget h = absurd (cc)
is_allowed-MayChange BudgetTargetType.account BudgetField.lifetime_budget h = absurd (cc)
is_allowed-MayChange BudgetTargetType.account BudgetField.spend_cap h = cap_of_account

&&-split : (a b : Bool) → (a && b) ≡ true → (a ≡ true) × (b ≡ true)
&&-split true b h = (refl, h)
&&-split false b h = absurd (cc)

leb-le : (a b : ℕ) → leb a b ≡ true → a ≤ b
leb-le a b h = ground arith

all_in_range-AllBetween :
    (low high : ℕ) (cs : List ℕ) → all_in_range low high cs ≡ true → AllBetween low high cs
all_in_range-AllBetween low high [] h = tt
all_in_range-AllBetween low high (c ∷ cs) h =
    let (both, others) = &&-split (leb low c && leb c high) (all_in_range low high cs) h in
    let (above, below) = &&-split (leb low c) (leb c high) both in
    (leb-le low c above, leb-le c high below, all_in_range-AllBetween low high cs others)

is_numeric-IsNumeric : (s : String) → is_numeric s ≡ true → IsNumeric s
unfolding is_numeric
is_numeric-IsNumeric s h =
    let (some_digit, digits) = &&-split (leb 1 (length (codes s))) _ h in
    (leb-le 1 _ some_digit, all_in_range-AllBetween b'0' b'9' (codes s) digits)

require_provider_id-Ensures :
    (s : String) → Ensures (λ t. (t ≡ strip s) × IsNumeric t) (require_provider_id s)
unfolding require_provider_id
require_provider_id-Ensures s =
    Ensures-bind
      λ _ h. Ensures-ok (refl, is_numeric-IsNumeric (strip s) (not-false _ (raise_if-false _ _ h)))

require_minor_units-Ensures :
    (z : ℤ) (allow_zero : Bool)
    → Ensures (λ n. (z ≡ pos n) × (allow_zero ≡ false → 0 < n)) (require_minor_units z allow_zero)
unfolding require_minor_units
require_minor_units-Ensures (negsuc n) allow_zero = Ensures-err _
require_minor_units-Ensures (pos n) allow_zero =
    Ensures-bind λ _ h. Ensures-ok (refl, nonzero (raise_if-false _ _ h))
  where
    nonzero : (not allow_zero && n == 0) ≡ false → allow_zero ≡ false → 0 < n
    nonzero h e = ground arith

require_expected-Ensures : (o : Option ℤ) → Ensures (λ r. o ≡ amount_given r) (require_expected o)
unfolding require_expected
require_expected-Ensures none = Ensures-ok refl
require_expected-Ensures (some z) =
    Ensures-bind λ n m. Ensures-ok (ap some ((require_minor_units-Ensures z true).at n m).0)

is_currency_code_lem :
    (s : String)
    → is_currency_code s ≡ true
    → (length (codes s) ≡ 3) × AllBetween b'A' b'Z' (codes s)
unfolding is_currency_code
is_currency_code_lem s h =
    let (three, capitals) = &&-split (length (codes s) == 3) _ h in
    (==_iff-eq _ 3 three, all_in_range-AllBetween b'A' b'Z' (codes s) capitals)

is_reason_lem :
    (s : String) → is_reason s ≡ true → (1 ≤ length (codes s)) × (length (codes s) ≤ 500)
unfolding is_reason
is_reason_lem s h =
    let (some_char, bounded) = &&-split (leb 1 (length (codes s))) _ h in
    (leb-le 1 _ some_char, leb-le _ 500 bounded)

own_account_lem :
    (t : BudgetTargetType) (same : Bool)
    → (is_account_target t && not same) ≡ false
    → t ≡ BudgetTargetType.account
    → same ≡ true
own_account_lem BudgetTargetType.account same h e = not-false same h
own_account_lem BudgetTargetType.campaign same h e = absurd (cc)
own_account_lem BudgetTargetType.ad_set same h e = absurd (cc)

-- What the constructor returns is accepted.
pub new_request-Accepts : (raw : RawRequest) → Ensures (Accepts raw) (new_request raw)
unfolding new_request
new_request-Accepts raw = Ensures-bind λ t known. Ensures-bind λ f known_field.
    Ensures-bind λ _ allowed. Ensures-bind λ a account. Ensures-bind λ i target.
      Ensures-bind λ _ own. Ensures-bind λ n amount. Ensures-bind λ o expected.
        Ensures-bind λ _ currency. Ensures-bind λ _ reason.
          let (value, positive) = (require_minor_units-Ensures _ _).at n amount in
          let (three, capitals) =
            is_currency_code_lem _ (not-false _ (raise_if-false _ _ currency)) in
          let (some_char, bounded) = is_reason_lem _ (not-false _ (raise_if-false _ _ reason)) in
          Ensures-ok (record {
            target = target_type_of-NamesTarget raw.target_type t (or_raise-some _ _ t known);
            field_read = field_of-NamesField raw.field f (or_raise-some _ _ f known_field);
            may_change = is_allowed-MayChange t f (not-false _ (raise_if-false _ _ allowed));
            account_id = (require_provider_id-Ensures _).at a account;
            target_id = (require_provider_id-Ensures _).at i target;
            own_account = own_account_lem t _ (raise_if-false _ _ own);
            amount = value;
            positive = positive;
            expected = (require_expected-Ensures _).at o expected;
            currency = (refl, three, capitals);
            reason = (one_line-joined raw.reason, some_char, bounded);
            ids = (refl, refl, refl, refl, refl);
          })
