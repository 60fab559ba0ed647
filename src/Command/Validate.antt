-- ===== src/Command/Validate.antt =====
-- `BudgetChangeRequest.__post_init__` (app/services/provider_budget_commands.py): the checks and the
-- normalisation of a request. Values of a wrong Python type cannot be written here.
pub mod Words
pub mod Accepts
pub mod Complete
use Prim.Native.Char.{code}
use Prim.Native.String.{String}
use client_dash_up.Base.{
  ℕ, Bool, true, false, not, ◌&&◌, ◌||◌, Option, none, some, List, [], ◌∷◌, ◌==◌, leb,
  if◌then◌else◌, length,
}
use client_dash_up.Base.Int.{ℤ, pos, negsuc}
use client_dash_up.Base.Text.{codes, str_eq}
use client_dash_up.Base.Outcome.{ok, err, ◌>>=◌, ◌>>◌, raise_if, or_raise}
use client_dash_up.Command.Types.{
  BudgetTargetType, BudgetField, Fallible, validation_error, BudgetChangeRequest,
}
use client_dash_up.Command.Store.Key.{is_space, strip}

-- The arguments of the constructor.
pub record RawRequest : Type 0 where
  pub client_id : ℕ
  pub ad_account_id : ℕ
  pub provider_account_id : String
  pub credential_id : ℕ
  pub target_type : String
  pub provider_target_id : String
  pub field : String
  pub amount_minor : ℤ
  pub currency : String
  pub reason : String
  pub expected_current_minor : Option ℤ
  pub agency_id : Option ℕ
  pub source_action_id : Option ℕ

-- `BudgetTargetType(value)`
unfoldable pub target_type_of : String → Option BudgetTargetType
target_type_of s =
    if str_eq s "campaign"
    then some BudgetTargetType.campaign
    else if str_eq s "ad_set"
    then some BudgetTargetType.ad_set
    else if str_eq s "account"
    then some BudgetTargetType.account
    else none

-- `BudgetField(value)`
unfoldable pub field_of : String → Option BudgetField
field_of s =
    if str_eq s "daily_budget"
    then some BudgetField.daily_budget
    else if str_eq s "lifetime_budget"
    then some BudgetField.lifetime_budget
    else if str_eq s "spend_cap"
    then some BudgetField.spend_cap
    else none

-- `budget_field in allowed_fields[target_type]`
abbrev pub is_allowed : BudgetTargetType → BudgetField → Bool
is_allowed BudgetTargetType.campaign BudgetField.daily_budget = true
is_allowed BudgetTargetType.campaign BudgetField.lifetime_budget = true
is_allowed BudgetTargetType.campaign BudgetField.spend_cap = false
is_allowed BudgetTargetType.ad_set BudgetField.daily_budget = true
is_allowed BudgetTargetType.ad_set BudgetField.lifetime_budget = true
is_allowed BudgetTargetType.ad_set BudgetField.spend_cap = false
is_allowed BudgetTargetType.account BudgetField.daily_budget = false
is_allowed BudgetTargetType.account BudgetField.lifetime_budget = false
is_allowed BudgetTargetType.account BudgetField.spend_cap = true

abbrev pub is_account_target : BudgetTargetType → Bool
is_account_target BudgetTargetType.account = true
is_account_target _ = false

abbrev pub is_spend_cap_field : BudgetField → Bool
is_spend_cap_field BudgetField.spend_cap = true
is_spend_cap_field _ = false

abbrev pub all_in_range : ℕ → ℕ → List ℕ → Bool
all_in_range low high [] = true
all_in_range low high (c ∷ cs) = leb low c && leb c high && all_in_range low high cs

-- `[0-9]+`
unfoldable pub is_numeric : String → Bool
is_numeric s = leb 1 (length (codes s)) && all_in_range b'0' b'9' (codes s)

-- `_require_provider_id`
unfoldable pub require_provider_id : String → Fallible String
require_provider_id value =
    raise_if (not (is_numeric (strip value))) (validation_error "invalid_provider_id")
    >> ok (strip value)

-- `_require_minor_units`
unfoldable pub require_minor_units : ℤ → Bool → Fallible ℕ
require_minor_units (negsuc n) allow_zero = err (validation_error "invalid_minor_units")
require_minor_units (pos n) allow_zero =
    raise_if (not allow_zero && n == 0) (validation_error "invalid_minor_units") >> ok n

unfoldable pub require_expected : Option ℤ → Fallible (Option ℕ)
require_expected none = ok none
require_expected (some z) = do n ← require_minor_units z true; ok (some n)

-- `[A-Z]{3}`
unfoldable pub is_currency_code : String → Bool
is_currency_code s = length (codes s) == 3 && all_in_range b'A' b'Z' (codes s)

-- `" ".join(text.split())`: `pending` after a space, `started` after a word.
abbrev pub squeeze : Bool → Bool → String → String
squeeze pending started String.[] = ""
squeeze pending started (String.◌∷◌ c s) =
    let rest = squeeze (is_space (code c)) (started || not (is_space (code c))) s in
    if is_space (code c)
    then rest
    else if pending && started
    then String.◌∷◌ " " (String.◌∷◌ c rest)
    else String.◌∷◌ c rest

abbrev pub one_line : String → String
one_line = squeeze false false

unfoldable pub is_reason : String → Bool
is_reason s = leb 1 (length (codes s)) && leb (length (codes s)) 500

unfoldable pub new_request : RawRequest → Fallible BudgetChangeRequest
new_request raw = do
  target_type ← or_raise (target_type_of raw.target_type) (validation_error "invalid_enum")
  field ← or_raise (field_of raw.field) (validation_error "invalid_enum")
  raise_if (not (is_allowed target_type field)) (validation_error "target_field_mismatch")
  account_id ← require_provider_id raw.provider_account_id
  target_id ← require_provider_id raw.provider_target_id
  raise_if (is_account_target target_type && not (str_eq target_id account_id))
      (validation_error "account_target_mismatch")
  amount ← require_minor_units raw.amount_minor (is_spend_cap_field field)
  expected ← require_expected raw.expected_current_minor
  raise_if (not (is_currency_code (strip raw.currency))) (validation_error "invalid_currency")
  raise_if (not (is_reason (one_line raw.reason))) (validation_error "invalid_reason")
  ok record {
    client_id = raw.client_id;
    ad_account_id = raw.ad_account_id;
    provider_account_id = account_id;
    credential_id = raw.credential_id;
    target_type = target_type;
    provider_target_id = target_id;
    field = field;
    amount_minor = amount;
    currency = strip raw.currency;
    reason = one_line raw.reason;
    expected_current_minor = expected;
    agency_id = raw.agency_id;
    source_action_id = raw.source_action_id;
  }
