-- ===== src/Command/Validate/Complete.antt =====
-- The arguments that the constructor of `BudgetChangeRequest`
-- (app/services/provider_budget_commands.py) takes, and the request that it makes of them.
use Prim.Native.String.{String}
use client_dash_up.Base.{
  not-true, ℕ, ◌≤◌, ◌<◌, ◌≡◌, refl, Bool, true, false, not, ◌&&◌, Option, none, some, List, [], ◌∷◌,
  length, arith, ap, subst, sym, ◌∙◌, ◌↔◌,
}
use client_dash_up.Base.Int.{pos}
use client_dash_up.Base.Text.{codes, str_eq}
use client_dash_up.Base.Outcome.{bind_ok, or_raise_ok, raise_if_ok, ok, ◌>>=◌, raise_if}
use client_dash_up.Command.Types.{BudgetTargetType, BudgetField, BudgetChangeRequest}
use client_dash_up.Command.Store.Key.{strip}
use client_dash_up.Command.Validate.{
  RawRequest, target_type_of, field_of, is_allowed, is_account_target, is_spend_cap_field,
  all_in_range, is_numeric, require_provider_id, require_minor_units, require_expected,
  is_currency_code, one_line, is_reason, new_request,
}
use client_dash_up.Command.Validate.Words.{one_line-joined}
use client_dash_up.Command.Validate.Accepts.{
  MayChange, daily_of_campaign, lifetime_of_campaign, daily_of_ad_set, lifetime_of_ad_set,
  cap_of_account, NamesTarget, names_campaign, names_ad_set, names_account, NamesField,
  names_daily_budget, names_lifetime_budget, names_spend_cap, AllBetween, IsNumeric, Accepts,
  amount_given, new_request-Accepts,
}

MayChange-is_allowed :
    (t : BudgetTargetType) (f : BudgetField) → MayChange t f → is_allowed t f ≡ true
MayChange-is_allowed _ _ daily_of_campaign = refl
MayChange-is_allowed _ _ lifetime_of_campaign = refl
MayChange-is_allowed _ _ daily_of_ad_set = refl
MayChange-is_allowed _ _ lifetime_of_ad_set = refl
MayChange-is_allowed _ _ cap_of_account = refl

AllBetween-all_in_range :
    (low high : ℕ) (cs : List ℕ) → AllBetween low high cs → all_in_range low high cs ≡ true
AllBetween-all_in_range low high [] h = refl
AllBetween-all_in_range low high (c ∷ cs) (above, below, rest) =
    let others = AllBetween-all_in_range low high cs rest in ground arith

IsNumeric-is_numeric : (s : String) → IsNumeric s → is_numeric s ≡ true
unfolding is_numeric
IsNumeric-is_numeric s (some_digit, digits) =
    let others = AllBetween-all_in_range b'0' b'9' (codes s) digits in ground arith

require_provider_id-ok : (s : String) → IsNumeric (strip s) → require_provider_id s ≡ ok (strip s)
unfolding require_provider_id
require_provider_id-ok s h =
    bind_ok _ _ (raise_if_ok _ _ (not-true _ (IsNumeric-is_numeric (strip s) h))) refl

require_minor_units-ok :
    (n : ℕ) (allow_zero : Bool)
    → (allow_zero ≡ false → 0 < n)
    → require_minor_units (pos n) allow_zero ≡ ok n
unfolding require_minor_units ◌>>=◌ raise_if
require_minor_units-ok n true h = refl
require_minor_units-ok n false h = let positive = h refl in ground arith

require_expected-ok : (o : Option ℕ) → require_expected (amount_given o) ≡ ok o
unfolding require_expected
require_expected-ok none = refl
require_expected-ok (some n) = bind_ok _ _ (require_minor_units-ok n true (λ e. absurd (cc))) refl

is_currency_code_holds :
    (s : String) → length (codes s) ≡ 3 → AllBetween b'A' b'Z' (codes s) → is_currency_code s ≡ true
unfolding is_currency_code
is_currency_code_holds s three capitals =
    let others = AllBetween-all_in_range b'A' b'Z' (codes s) capitals in ground arith

is_reason_holds : (s : String) → 1 ≤ length (codes s) → length (codes s) ≤ 500 → is_reason s ≡ true
unfolding is_reason
is_reason_holds s above below = ground arith

own_account_holds :
    (t : BudgetTargetType) (same : Bool)
    → (t ≡ BudgetTargetType.account → same ≡ true)
    → (is_account_target t && not same) ≡ false
own_account_holds BudgetTargetType.account same h = not-true same (h refl)
own_account_holds BudgetTargetType.campaign same h = refl
own_account_holds BudgetTargetType.ad_set same h = refl

NamesTarget-target_type_of :
    {s : String} {t : BudgetTargetType} → NamesTarget s t → target_type_of s ≡ some t
unfolding target_type_of
NamesTarget-target_type_of names_campaign = refl
NamesTarget-target_type_of names_ad_set = refl
NamesTarget-target_type_of names_account = refl

NamesField-field_of : {s : String} {f : BudgetField} → NamesField s f → field_of s ≡ some f
unfolding field_of
NamesField-field_of names_daily_budget = refl
NamesField-field_of names_lifetime_budget = refl
NamesField-field_of names_spend_cap = refl

Accepts-one_line :
    (raw : RawRequest) (r : BudgetChangeRequest) → Accepts raw r → r.reason ≡ one_line raw.reason
Accepts-one_line raw r a = let (rea, _, _) = a.reason in rea ∙ sym (one_line-joined raw.reason)

-- The request of the arguments, with what is read of the target, the field and the amounts.
unfoldable built : RawRequest → BudgetTargetType → BudgetField → ℕ → Option ℕ → BudgetChangeRequest
built raw t f n o = record {
  client_id = raw.client_id;
  ad_account_id = raw.ad_account_id;
  provider_account_id = strip raw.provider_account_id;
  credential_id = raw.credential_id;
  target_type = t;
  provider_target_id = strip raw.provider_target_id;
  field = f;
  amount_minor = n;
  currency = strip raw.currency;
  reason = one_line raw.reason;
  expected_current_minor = o;
  agency_id = raw.agency_id;
  source_action_id = raw.source_action_id;
}

Accepts-built :
    (raw : RawRequest) (r : BudgetChangeRequest)
    → Accepts raw r
    → built raw r.target_type r.field r.amount_minor r.expected_current_minor ≡ r
unfolding built
Accepts-built raw r a =
    let (client, ad, credential, agency, source) = a.ids in
    let (acc, _) = a.account_id in
    let (tgt, _) = a.target_id in
    let (cur, _, _) = a.currency in
    let rea = Accepts-one_line raw r a in
    cc (client, ad, credential, agency, source, acc, tgt, cur, rea)

module _ (raw : RawRequest) (r : BudgetChangeRequest) (a : Accepts raw r) where
  Accepts-own_account :
      (is_account_target r.target_type
        && not (str_eq (strip raw.provider_target_id) (strip raw.provider_account_id)))
      ≡ false
  Accepts-own_account = own_account_holds r.target_type _ λ e.
      let (acc, _) = a.account_id in let (tgt, _) = a.target_id in cc (acc, tgt, a.own_account e)

  Accepts-amount :
      require_minor_units raw.amount_minor (is_spend_cap_field r.field) ≡ ok r.amount_minor
  Accepts-amount =
      subst (λ z. require_minor_units z (is_spend_cap_field r.field) ≡ ok r.amount_minor)
        (sym a.amount) (require_minor_units-ok r.amount_minor _ a.positive)

  Accepts-expected : require_expected raw.expected_current_minor ≡ ok r.expected_current_minor
  Accepts-expected =
      subst (λ o. require_expected o ≡ ok r.expected_current_minor) (sym a.expected)
        (require_expected-ok r.expected_current_minor)

  Accepts-currency : is_currency_code (strip raw.currency) ≡ true
  Accepts-currency =
      let (cur, three, capitals) = a.currency in
      subst (λ s. is_currency_code s ≡ true) cur (is_currency_code_holds r.currency three capitals)

  Accepts-reason : is_reason (one_line raw.reason) ≡ true
  Accepts-reason =
      let (_, above, below) = a.reason in
      subst (λ s. is_reason s ≡ true) (Accepts-one_line raw r a)
        (is_reason_holds r.reason above below)

  Accepts-new_request : new_request raw ≡ ok r
  unfolding new_request
  Accepts-new_request =
      let (acc, account_numeric) = a.account_id in
      let (tgt, target_numeric) = a.target_id in
      bind_ok _ _ (or_raise_ok _ _ (NamesTarget-target_type_of a.target)) (
        bind_ok _ _ (or_raise_ok _ _ (NamesField-field_of a.field_read)) (
          bind_ok _ _
            (raise_if_ok _ _ (not-true _ (MayChange-is_allowed r.target_type r.field a.may_change)))
            (bind_ok _ _ (require_provider_id-ok _ (subst IsNumeric acc account_numeric)) (
              bind_ok _ _ (require_provider_id-ok _ (subst IsNumeric tgt target_numeric)) (
                bind_ok _ _ (raise_if_ok _ _ Accepts-own_account) (
                  bind_ok _ _ Accepts-amount (
                    bind_ok _ _ Accepts-expected (
                      bind_ok _ _ (raise_if_ok _ _ (not-true _ Accepts-currency)) (
                        bind_ok _ _ (raise_if_ok _ _ (not-true _ Accepts-reason))
                          (ap ok (unfold built in Accepts-built raw r a)))))))))))

-- The constructor returns a request exactly when the request has the ids of the arguments, the
-- target type and the field that they name ("campaign", "ad_set" or "account"; "daily_budget",
-- "lifetime_budget" or "spend_cap"), which is one that such a target carries, the stripped provider
-- ids, which are numeric and the same one for an account, their amount, which is positive unless it is
-- a spend cap, their expected amount where they have one, their stripped currency, of three capital
-- letters, and as its reason the words of theirs with one space between them, of 1 to 500 characters.
pub new_request_iff :
    (raw : RawRequest) (r : BudgetChangeRequest) → (new_request raw ≡ ok r) ↔ Accepts raw r
new_request_iff raw r = (λ h. (new_request-Accepts raw).at r h, λ a. Accepts-new_request raw r a)
