-- ===== src/Budget/Examples.antt =====
-- Runs of the budget store of app/services/budgets.py on a small table, and the theorems at it.
use Prim.Native.String.{String}
use client_dash_up.Base.{
  ℕ, ◌≡◌, ◌≢◌, ◌↔◌, In, refl, true, Option, none, some, List, [], ◌∷◌, ◌++◌, arith, map, All,
  All-In,
}
use client_dash_up.Base.Int.{pos, ◌+ℤ◌, ◌-ℤ◌, ◌≤ℤ◌, ltb_ℤ, leb_ℤ, eqb_ℤ, negsuc}
use client_dash_up.Base.Text.{same_currency, upper}
use client_dash_up.Base.Outcome.{ok, err, ◌>>=◌, raise_if, or_raise, branch}
use client_dash_up.Budget.Money.{Decimal, q_money, cents_of, half_up}
use client_dash_up.Budget.Keeps.Rounded.{RoundsTo, q_money-RoundsTo}
use client_dash_up.Budget.Types.{
  client, account, monthly, active, Budget, BudgetCreate, BudgetPatch, BudgetTransferRequest, Db,
  BudgetError,
}
use client_dash_up.Budget.Table.{
  find_budget, find_client, find_account, row_allowed, insert_budget, update_budget, insert_history,
  insert_transfer,
}
use client_dash_up.Budget.Checks.{
  validate_period, validate_scope, overlaps, collides, assert_no_overlap, is_allocated,
  allocated_total, is_cap, assert_cap, assert_caps, assert_allocation_limit,
}
use client_dash_up.Budget.Store.{
  settled, transaction, created_row, create_body, create, is_empty_patch, merged, same_business,
  check_active, save_patch, patch_body, patch, archive_body, archive,
}
use client_dash_up.Budget.Transfer.{
  check_source, check_client, check_source_account, check_target_account, is_target, newest,
  reissued, set_amount, credit_existing, opened_row, open_target, credit_target, move_amount,
  transfer_body, transfer,
}
use client_dash_up.Budget.Invariant.Defs.{IsRow, Clash, IsConsistent, allocated_under}
use client_dash_up.Budget.Keeps.Settles.{Settles}
use client_dash_up.Budget.Keeps.Create.{Creates, create-Creates}
use client_dash_up.Budget.Keeps.Listed.{IsSelected, NewestFirst, list_iff}
use client_dash_up.Budget.Queries.{
  list, resolve_effective, effective_account, is_effective_account, is_effective_client,
}
use client_dash_up.Budget.Keeps.Effective.{Answers, resolve_effective-Answers}
use client_dash_up.Budget.Keeps.Complete.{Creatable, create-Creatable}
use client_dash_up.Budget.Keeps.Patch.{PatchEnds, patch-Patches, Archives, archive-Archives}
use client_dash_up.Budget.Keeps.Transfer.{Transfers, transfer-Transfers}
use client_dash_up.Budget.Run.{
  Request, creates, patches, archives, transfers, serve, run, run-IsConsistent,
}

abbrev default_note : ℕ → String
default_note id = "Transfer from budget"

abbrev usd : ℕ → Decimal
usd cents = record { value = pos cents; places = 2 }

-- A client budget of 1000.00 and two account budgets of 300.00 and 200.00 in one month.
abbrev client_row : Budget
client_row = record {
  id = 1;
  client_id = 7;
  scope = client;
  account_id = none;
  amount = pos 100000;
  currency = "USD";
  period_type = monthly;
  start_date = 100;
  end_date = 130;
  status = active;
  version = 1;
  note = none;
  created_by = none;
  created_at = 5;
  updated_at = 5;
}

abbrev account_row : ℕ → ℕ → ℕ → Budget
account_row id account_id cents = record client_row {
  id = id;
  scope = account;
  account_id = some account_id;
  amount = pos cents;
}

abbrev tables : Db
tables = record {
  budgets = client_row ∷ account_row 2 21 30000 ∷ account_row 3 22 20000 ∷ [];
  history = [];
  transfers = [];
  clients = record { id = 7; is_active = true; default_currency = "usd" } ∷ [];
  ad_accounts =
      record { id = 21; client_id = 7; is_active = true; currency = "USD" }
      ∷ record { id = 22; client_id = 7; is_active = true; currency = "USD" }
      ∷ [];
  next_history_id = 1;
  next_transfer_id = 1;
}

abbrev request : BudgetTransferRequest
request = record { target_account_id = 22; amount = usd 12500; note = none; changed_by = none }

-- Opens the methods in the tests.
methods : ℕ
unfolding create patch archive transfer transaction settled create_body patch_body archive_body
    transfer_body created_row merged same_business is_empty_patch check_active save_patch
    check_source check_client check_source_account check_target_account is_target newest reissued
    set_amount credit_existing opened_row open_target credit_target move_amount validate_period
    validate_scope overlaps collides assert_no_overlap is_allocated allocated_total is_cap
    assert_cap assert_caps assert_allocation_limit find_budget find_client find_account row_allowed
    insert_budget update_budget insert_history insert_transfer ◌>>=◌ raise_if or_raise branch ◌+ℤ◌
    ◌-ℤ◌ ltb_ℤ leb_ℤ eqb_ℤ q_money same_currency upper serve run
methods = 0

-- 125.00 moves from the budget of account 21 to that of account 22.
transfer_moves :
    map (λ (b : Budget). b.amount) (transfer default_note 2 request 9 50 tables).1.budgets
    ≡ pos 100000 ∷ pos 17500 ∷ pos 32500 ∷ []
unfolding methods
transfer_moves = refl

-- 500.01 more for account 23 would pass the client's 1000.00.
create_over_cap :
    (create
      (record {
        client_id = 7;
        scope = account;
        account_id = some 23;
        amount = usd 50001;
        currency = "USD";
        period_type = monthly;
        start_date = 120;
        end_date = 125;
        note = none;
        created_by = none;
      })
      9
      50
      tables).0
    ≡ err BudgetError.account_over_cap
unfolding methods
create_over_cap = refl

abbrev no_patch : BudgetPatch
no_patch = record {
  client_id = none;
  scope = none;
  account_id = none;
  amount = none;
  currency = none;
  period_type = none;
  start_date = none;
  end_date = none;
  note = none;
  status = none;
  changed_by = none;
}

-- The client's budget cannot fall below the 500.00 that are allocated.
patch_below_allocated :
    (patch 1 (record no_patch { amount = some (usd 49999) }) 50 tables).0
    ≡ err BudgetError.client_below_allocated
unfolding methods
patch_below_allocated = refl

tables-IsRow : All IsRow tables.budgets
tables-IsRow = omega arith

other_owner : ¬ (◌≡◌ {A = Option ℕ} (some 21) (some 22))
other_owner e = ground arith

other_owner' : ¬ (◌≡◌ {A = Option ℕ} (some 22) (some 21))
other_owner' e = ground arith

tables-disjoint : All (λ a. All (λ b. a.id ≢ b.id → ¬ Clash a b) tables.budgets) tables.budgets
tables-disjoint = (
  (λ ne c. absurd (ne refl), (λ ne c. cc (c.one_scope), (λ ne c. cc (c.one_scope), tt))),
  (
    (λ ne c. cc (c.one_scope), (λ ne c. absurd (ne refl), (λ ne c. other_owner c.one_owner, tt))),
    (
      (
        λ ne c. cc (c.one_scope),
        (λ ne c. other_owner' c.one_owner, (λ ne c. absurd (ne refl), tt)),
      ),
      tt,
    ),
  ),
)

tables-capped :
    All
      (λ c. c.status ≡ active → c.scope ≡ client → allocated_under c tables.budgets ≤ℤ c.amount)
      tables.budgets
unfolding methods
tables-capped = ((λ _ _. omega arith), ((λ _ e. cc (e)), ((λ _ e. cc (e)), tt)))

tables-IsConsistent : IsConsistent tables.budgets
tables-IsConsistent = record {
  unique = omega arith;
  row = All-In IsRow tables.budgets tables-IsRow;
  disjoint = λ a b i j.
      All-In (λ b. a.id ≢ b.id → ¬ Clash a b) tables.budgets
        (All-In (λ a. All (λ b. a.id ≢ b.id → ¬ Clash a b) tables.budgets) tables.budgets
          tables-disjoint a i)
        b j;
  capped = All-In _ tables.budgets tables-capped;
}

abbrev custom_budget : BudgetCreate
custom_budget = record {
  client_id = 7;
  scope = account;
  account_id = some 23;
  amount = usd 40000;
  currency = "USD";
  period_type = monthly;
  start_date = 120;
  end_date = 125;
  note = none;
  created_by = none;
}

create-Creates_example :
    Settles (Creates custom_budget 9 50 tables) tables (create custom_budget 9 50 tables)
create-Creates_example = create-Creates custom_budget 9 50 tables tables-IsConsistent

abbrev raise_amount : BudgetPatch
raise_amount = record no_patch { amount = some (usd 35000) }

patch-Patches_example : PatchEnds 2 raise_amount 50 tables (patch 2 raise_amount 50 tables)
patch-Patches_example = patch-Patches 2 raise_amount 50 tables tables-IsConsistent

archive-Archives_example : Settles (Archives 2 50 tables) tables (archive 2 50 tables)
archive-Archives_example = archive-Archives 2 50 tables tables-IsConsistent

transfer-Transfers_example :
    Settles
      (Transfers 2 22 (q_money (usd 12500)) tables)
      tables
      (transfer default_note 2 request 9 50 tables)
transfer-Transfers_example =
    transfer-Transfers default_note 2 request 9 50 tables tables-IsConsistent

abbrev requests : List Request
requests =
    transfers 2 request 9 50
    ∷ creates custom_budget 10 51
    ∷ archives 3 52
    ∷ patches 2 raise_amount 53
    ∷ []

run-IsConsistent_example : IsConsistent (run default_note requests tables).budgets
run-IsConsistent_example = run-IsConsistent default_note requests tables tables-IsConsistent

custom-no-Clash : All (λ x. ¬ Clash x (created_row custom_budget 9 50)) tables.budgets
unfolding methods
custom-no-Clash = (
  (λ c. cc (c.one_scope)),
  ((λ c. other_account c.one_owner), ((λ c. other_account' c.one_owner), tt)),
)
  where
    other_account : ¬ (◌≡◌ {A = Option ℕ} (some 21) (some 23))
    other_account e = ground arith

    other_account' : ¬ (◌≡◌ {A = Option ℕ} (some 22) (some 23))
    other_account' e = ground arith

abbrev map_id : Option Budget → Option ℕ
map_id none = none
map_id (some b) = some b.id

abbrev HasRoom : Budget → Type 0
HasRoom c =
    c.scope ≡ client → allocated_under c tables.budgets +ℤ q_money custom_budget.amount ≤ℤ c.amount

custom-HasRoom : All HasRoom tables.budgets
unfolding methods
custom-HasRoom = ((λ _. omega arith), ((λ e. cc (e)), ((λ e. cc (e)), tt)))

custom-Creatable : Creatable custom_budget 9 50 tables.budgets
unfolding methods
custom-Creatable = record {
  in_order = omega arith;
  nonnegative = omega arith;
  fits = tt;
  fresh = omega arith;
  no_clash =
      All-In (λ x. ¬ Clash x (created_row custom_budget 9 50)) tables.budgets custom-no-Clash;
  covers = λ e. cc (e);
  under = λ c _ i _ sc _ _ _. All-In HasRoom tables.budgets custom-HasRoom c i sc;
}

create-Creatable_example : create custom_budget 9 50 tables ≡ (
  ok (created_row custom_budget 9 50),
  record tables { budgets = tables.budgets ++ created_row custom_budget 9 50 ∷ [] },
)
create-Creatable_example =
    create-Creatable custom_budget 9 50 tables tables-IsConsistent.unique custom-Creatable

resolve_effective-Answers_example :
    Answers 7 (some 21) 110 tables.budgets (resolve_effective (some 7) (some 21) 110 110 tables)
resolve_effective-Answers_example =
    resolve_effective-Answers 7 (some 21) 110 tables tables-IsConsistent

-- The account's own budget serves, and the client's where the account has none.
effective_ids :
    map
      (λ (o : Option Budget). map_id o)
      (resolve_effective (some 7) (some 21) 110 110 tables
        ∷ resolve_effective (some 7) (some 23) 110 110 tables
        ∷ resolve_effective (some 7) (some 21) 140 140 tables
        ∷ [])
    ≡ some 2 ∷ some 1 ∷ none ∷ []
unfolding methods resolve_effective effective_account is_effective_account is_effective_client
effective_ids = refl

list_iff_example :
    ((b : Budget)
      → In b (list (some 7) none none (some 105) none tables)
        ↔ (In b tables.budgets × IsSelected (some 7) none none (some 105) none b))
    × NewestFirst (list (some 7) none none (some 105) none tables)
list_iff_example = list_iff (some 7) none none (some 105) none tables

-- -0.125 rounds to -0.13.
q_money-RoundsTo_example :
    RoundsTo
      (record { value = negsuc 124; places = 3 })
      (q_money (record { value = negsuc 124; places = 3 }))
q_money-RoundsTo_example = q_money-RoundsTo (record { value = negsuc 124; places = 3 })

q_money-run : q_money (record { value = negsuc 124; places = 3 }) ≡ negsuc 12
unfolding q_money cents_of half_up
q_money-run = refl
