-- ===== src/Budget/Queries.antt =====
-- The queries of `SqliteBudgetStore` (app/services/budgets.py): `list`, `get`, `history`,
-- `list_transfers` and `resolve_effective`. An `ORDER BY` is an insertion sort that keeps the order of
-- equal rows.
use Prim.Native.String.{String}
use client_dash_up.Base.Sorting.{order_by}
use client_dash_up.Base.{
  ℕ, Bool, true, ◌&&◌, ◌||◌, Option, none, some, List, [], ◌∷◌, ◌==◌, leb, ltb, opt_eq,
  if◌then◌else◌, select, min, max, ◌-◌,
}
use client_dash_up.Base.Text.{str_eq}
use client_dash_up.Budget.Types.{
  Budget, BudgetStatus, active, archived, BudgetHistory, BudgetTransfer, Db,
}
use client_dash_up.Budget.Table.{is_active, is_client, is_account}
use client_dash_up.Budget.Transfer.{newest}

-- `LIMIT`
abbrev pub take {ℓ} : {A : Type ℓ} → ℕ → List A → List A
take n [] = []
take n (x ∷ xs) = let rest = take (n - 1) xs in if n == 0 then [] else x ∷ rest

abbrev pub status_text_eq : String → BudgetStatus → Bool
status_text_eq t active = str_eq t "active"
status_text_eq t archived = str_eq t "archived"

-- The `status` argument of `list`: "active" when it is missing or empty, and "all" for both.
unfoldable pub has_status : Option String → BudgetStatus → Bool
has_status none s = is_active s
has_status (some t) s = str_eq t "all" || (if str_eq t "" then is_active s else status_text_eq t s)

-- A missing argument adds no condition.
abbrev pub matches {ℓ} : {A : Type ℓ} → (A → Bool) → Option A → Bool
matches test none = true
matches test (some a) = test a

unfoldable pub is_listed : Option ℕ → Option ℕ → Option String → Option ℕ → Option ℕ → Budget → Bool
is_listed client_id account_id status date_from date_to b =
    matches (λ c. b.client_id == c) client_id
    && matches (λ a. opt_eq b.account_id (some a)) account_id
    && has_status status b.status
    && matches (λ d. leb d b.end_date) date_from
    && matches (λ d. leb b.start_date d) date_to

unfoldable pub list : Option ℕ → Option ℕ → Option String → Option ℕ → Option ℕ → Db → List Budget
list client_id account_id status date_from date_to db =
    order_by (λ a b. leb b.updated_at a.updated_at)
      (select (is_listed client_id account_id status date_from date_to) db.budgets)

unfoldable pub history : ℕ → Db → List BudgetHistory
history budget_id db =
    order_by (λ a b. ltb b.changed_at a.changed_at || a.changed_at == b.changed_at && leb b.id a.id)
      (select (λ h. h.budget_id == budget_id) db.history)

-- The `WHERE` of `list_transfers`; an unknown direction counts as "all".
unfoldable pub in_direction : String → ℕ → BudgetTransfer → Bool
in_direction direction budget_id t =
    if str_eq direction "incoming"
    then t.target_budget_id == budget_id
    else if str_eq direction "outgoing"
    then t.source_budget_id == budget_id
    else t.source_budget_id == budget_id || t.target_budget_id == budget_id

-- The limit of the caller is at least 0 here; 0 and less count as 1 in the code.
unfoldable pub list_transfers : ℕ → String → ℕ → Db → List BudgetTransfer
list_transfers budget_id direction limit db = take (max 1 (min limit 200)) (
    order_by (λ a b. ltb b.created_at a.created_at || a.created_at == b.created_at && leb b.id a.id)
      (select (in_direction direction budget_id) db.transfers))

unfoldable pub is_effective_account : ℕ → ℕ → ℕ → ℕ → Budget → Bool
is_effective_account client_id account_id period_start period_end b =
    is_active b.status
    && is_account b.scope
    && b.client_id == client_id
    && opt_eq b.account_id (some account_id)
    && leb period_start b.end_date
    && leb b.start_date period_end

unfoldable pub is_effective_client : ℕ → ℕ → ℕ → Budget → Bool
is_effective_client client_id period_start period_end b =
    is_active b.status
    && is_client b.scope
    && b.client_id == client_id
    && leb period_start b.end_date
    && leb b.start_date period_end

-- The account's budget, when an account is given and has one.
unfoldable pub effective_account : ℕ → Option ℕ → ℕ → ℕ → List Budget → Option Budget
effective_account client_id none period_start period_end rows = none
effective_account client_id (some account_id) period_start period_end rows =
    newest (select (is_effective_account client_id account_id period_start period_end) rows)

-- The account's budget in the period, or else the client's.
unfoldable pub resolve_effective : Option ℕ → Option ℕ → ℕ → ℕ → Db → Option Budget
resolve_effective none account_id period_start period_end db = none
resolve_effective (some client_id) account_id period_start period_end db =
    elim (effective_account client_id account_id period_start period_end db.budgets) [
      | some b ↦ some b
      | none ↦ newest (select (is_effective_client client_id period_start period_end) db.budgets)
    ]
