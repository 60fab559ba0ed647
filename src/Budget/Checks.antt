-- ===== src/Budget/Checks.antt =====
-- `_validate_period`, `_validate_scope`, `_assert_no_overlap` and
-- `_assert_client_account_allocation_limit` of app/services/budgets.py.
use client_dash_up.Base.{
  ℕ, Bool, true, not, ◌&&◌, Option, none, some, List, [], ◌∷◌, ◌==◌, ltb, leb, opt_eq,
  if◌then◌else◌, is_some, any, select,
}
use client_dash_up.Base.Int.{ℤ, pos, ◌+ℤ◌, ltb_ℤ}
use client_dash_up.Base.Outcome.{ok, ◌>>◌, raise_if}
use client_dash_up.Budget.Types.{
  Scope, client, account, Budget, BudgetStatus, BudgetError, start_after_end, client_with_account,
  account_without_account, overlap_client, overlap_account, client_below_allocated,
  account_over_cap,
}
use client_dash_up.Budget.Table.{Fallible, is_client, is_account, is_active}

unfoldable pub validate_period : ℕ → ℕ → Fallible Unit
validate_period start_date end_date = raise_if (ltb end_date start_date) start_after_end

unfoldable pub validate_scope : Scope → Option ℕ → Fallible Unit
validate_scope client account_id = raise_if (is_some account_id) client_with_account
validate_scope account account_id = raise_if (not (is_some account_id)) account_without_account

-- `start_date<=? AND end_date>=?` at the end and the start of a period.
unfoldable pub overlaps : ℕ → ℕ → Budget → Bool
overlaps start_date end_date b = leb b.start_date end_date && leb start_date b.end_date

-- ` AND id<>?`, when a budget is excluded.
abbrev pub is_other : Option ℕ → Budget → Bool
is_other none b = true
is_other (some id) b = not (b.id == id)

-- The WHERE clause of the two overlap queries.
unfoldable pub collides : Scope → ℕ → Option ℕ → ℕ → ℕ → Option ℕ → Budget → Bool
unfolding overlaps
collides client client_id account_id start_date end_date exclude b =
    is_active b.status
    && is_client b.scope
    && b.client_id == client_id
    && overlaps start_date end_date b
    && is_other exclude b
collides account client_id account_id start_date end_date exclude b =
    is_active b.status
    && is_account b.scope
    && opt_eq b.account_id account_id
    && overlaps start_date end_date b
    && is_other exclude b

abbrev overlap_error : Scope → BudgetError
overlap_error client = overlap_client
overlap_error account = overlap_account

unfoldable pub assert_no_overlap :
    Scope → ℕ → Option ℕ → ℕ → ℕ → Option ℕ → List Budget → Fallible Unit
assert_no_overlap scope client_id account_id start_date end_date exclude rows =
    raise_if (any (collides scope client_id account_id start_date end_date exclude) rows)
      (overlap_error scope)

-- The WHERE clause of an allocation: the active account budgets of a client in a period.
unfoldable pub is_allocated : ℕ → ℕ → ℕ → Option ℕ → Budget → Bool
unfolding overlaps
is_allocated client_id start_date end_date exclude b =
    is_active b.status
    && is_account b.scope
    && b.client_id == client_id
    && overlaps start_date end_date b
    && is_other exclude b

-- `sum(...)` of the amounts; a stored amount is in hundredths already, so `_q_money` keeps it.
abbrev pub sum_amounts : List Budget → ℤ
sum_amounts [] = pos 0
sum_amounts (b ∷ rows) = b.amount +ℤ sum_amounts rows

unfoldable pub allocated_total : ℕ → ℕ → ℕ → Option ℕ → List Budget → ℤ
allocated_total client_id start_date end_date exclude rows =
    sum_amounts (select (is_allocated client_id start_date end_date exclude) rows)

-- The client budgets whose period meets the account budget's.
unfoldable pub is_cap : ℕ → ℕ → ℕ → Budget → Bool
unfolding overlaps
is_cap client_id start_date end_date b =
    is_active b.status
    && is_client b.scope
    && b.client_id == client_id
    && overlaps start_date end_date b

-- One round of the loop over `client_budget_rows`.
unfoldable pub assert_cap : Budget → ℕ → ℤ → Option ℕ → List Budget → Fallible Unit
assert_cap cap_row client_id amount exclude rows =
    raise_if
      (ltb_ℤ cap_row.amount
        (allocated_total client_id cap_row.start_date cap_row.end_date exclude rows +ℤ amount))
      account_over_cap

-- The loop. The ORDER BY only chooses which failing cap the message names.
unfoldable pub assert_caps : List Budget → ℕ → ℤ → Option ℕ → List Budget → Fallible Unit
assert_caps [] client_id amount exclude rows = ok tt
assert_caps (cap_row ∷ caps) client_id amount exclude rows =
    assert_cap cap_row client_id amount exclude rows
    >> assert_caps caps client_id amount exclude rows

unfoldable pub assert_allocation_limit :
    Scope → ℕ → ℤ → ℕ → ℕ → BudgetStatus → Option ℕ → List Budget → Fallible Unit
assert_allocation_limit scope client_id amount start_date end_date status exclude rows =
    if not (is_active status) then ok tt else elim scope [
      | client ↦
          raise_if (ltb_ℤ amount (allocated_total client_id start_date end_date exclude rows))
            client_below_allocated
      | account ↦
          assert_caps (select (is_cap client_id start_date end_date) rows) client_id amount exclude
            rows
    ]
