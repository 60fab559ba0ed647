-- ===== src/Budget/Types.antt =====
-- The rows and payloads of the budgets: the columns of the table `budgets`, of `budget_history`
-- and `budget_transfers`, what a transfer reads of `clients` and `ad_accounts`, the request
-- bodies, and the errors that the store raises.
use Prim.Native.String.{String}
use client_dash_up.Base.{ℕ, Bool, Option, List}
use client_dash_up.Base.Int.{ℤ}
use client_dash_up.Budget.Money.{Decimal}

pub data Scope : Type 0 where
  client account : Scope

pub data PeriodType : Type 0 where
  monthly custom : PeriodType

pub data BudgetStatus : Type 0 where
  active archived : BudgetStatus

-- `BudgetOut`, which is also a row of `budgets`. A UUID is a number that is only compared, a date
-- is its ordinal day, an instant is a number, and the amount is in hundredths.
pub record Budget : Type 0 where
  pub id : ℕ
  pub client_id : ℕ
  pub scope : Scope
  pub account_id : Option ℕ
  pub amount : ℤ
  pub currency : String
  pub period_type : PeriodType
  pub start_date : ℕ
  pub end_date : ℕ
  pub status : BudgetStatus
  pub version : ℕ
  pub note : Option String
  pub created_by : Option ℕ
  pub created_at : ℕ
  pub updated_at : ℕ

-- A row of `budget_history`. Its two JSON texts are printed from the budgets that stand here.
pub record BudgetHistory : Type 0 where
  pub id : ℕ
  pub budget_id : ℕ
  pub changed_at : ℕ
  pub changed_by : Option ℕ
  pub previous_values : Budget
  pub new_values : Budget

-- A row of `budget_transfers`.
pub record BudgetTransfer : Type 0 where
  pub id : ℕ
  pub source_budget_id : ℕ
  pub target_budget_id : ℕ
  pub amount : ℤ
  pub note : Option String
  pub changed_by : Option ℕ
  pub created_at : ℕ

-- What a transfer reads of a row of `clients`; the flag says that its status is 'active'.
pub record Client : Type 0 where
  pub id : ℕ
  pub is_active : Bool
  pub default_currency : String

-- What a transfer reads of a row of `ad_accounts`.
pub record AdAccount : Type 0 where
  pub id : ℕ
  pub client_id : ℕ
  pub is_active : Bool
  pub currency : String

-- The tables. The two counters are the next AUTOINCREMENT ids.
pub record Db : Type 0 where
  pub budgets : List Budget
  pub history : List BudgetHistory
  pub transfers : List BudgetTransfer
  pub clients : List Client
  pub ad_accounts : List AdAccount
  pub next_history_id : ℕ
  pub next_transfer_id : ℕ

pub record BudgetCreate : Type 0 where
  pub client_id : ℕ
  pub scope : Scope
  pub account_id : Option ℕ
  pub amount : Decimal
  pub currency : String
  pub period_type : PeriodType
  pub start_date : ℕ
  pub end_date : ℕ
  pub note : Option String
  pub created_by : Option ℕ

-- `model_dump(exclude_unset=True)` of a `BudgetPatch`: `none` is a field that is not set. The two
-- columns that may hold null have a second `Option`.
pub record BudgetPatch : Type 0 where
  pub client_id : Option ℕ
  pub scope : Option Scope
  pub account_id : Option (Option ℕ)
  pub amount : Option Decimal
  pub currency : Option String
  pub period_type : Option PeriodType
  pub start_date : Option ℕ
  pub end_date : Option ℕ
  pub note : Option (Option String)
  pub status : Option BudgetStatus
  pub changed_by : Option ℕ

pub record BudgetTransferRequest : Type 0 where
  pub target_account_id : ℕ
  pub amount : Decimal
  pub note : Option String
  pub changed_by : Option ℕ

pub record BudgetTransferResponse : Type 0 where
  pub source_budget : Budget
  pub target_budget : Budget
  pub transferred_amount : ℤ

-- One constructor for each `raise HTTPException`, with no text of the message, and one for the
-- integrity error of SQLite: a primary key or a CHECK of the table.
pub data BudgetError : Type 0 where
  start_after_end client_with_account account_without_account : BudgetError
  overlap_client overlap_account : BudgetError
  client_below_allocated account_over_cap : BudgetError
  budget_not_found negative_amount : BudgetError
  transfer_not_positive not_account_scope source_not_active same_account : BudgetError
  source_negative exceeds_source source_would_be_negative : BudgetError
  client_not_active client_currency_mismatch : BudgetError
  source_account_not_active source_account_of_other_client : BudgetError
  source_account_currency_mismatch : BudgetError
  target_account_not_found target_account_of_other_client target_account_not_active : BudgetError
  target_account_currency_mismatch target_currency_mismatch target_negative : BudgetError
  integrity_error : BudgetError

-- The status code of the response.
unfoldable pub status_code : BudgetError → ℕ
status_code BudgetError.budget_not_found = 404
status_code BudgetError.target_account_not_found = 404
status_code BudgetError.overlap_client = 409
status_code BudgetError.overlap_account = 409
status_code BudgetError.client_below_allocated = 409
status_code BudgetError.account_over_cap = 409
status_code BudgetError.source_negative = 409
status_code BudgetError.source_would_be_negative = 409
status_code BudgetError.client_not_active = 409
status_code BudgetError.source_account_not_active = 409
status_code BudgetError.source_account_of_other_client = 409
status_code BudgetError.target_account_not_active = 409
status_code BudgetError.target_negative = 409
status_code BudgetError.integrity_error = 500
status_code _ = 400
