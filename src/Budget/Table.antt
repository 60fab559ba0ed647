-- ===== src/Budget/Table.antt =====
-- The statements on the tables: SELECT by id, INSERT and UPDATE with the primary key and the
-- CHECKs of the table `budgets` (app/db.py), and the INSERTs of the two logs.
use Prim.Native.String.{String}
use client_dash_up.Base.{
  ℕ, ◌+◌, Bool, true, false, not, ◌&&◌, ◌||◌, Option, List, [], ◌∷◌, ◌++◌, ◌==◌, if◌then◌else◌,
  is_some, first, any,
}
use client_dash_up.Base.Int.{ℤ, pos, ltb_ℤ}
use client_dash_up.Base.Outcome.{Outcome, ok, ◌>>◌, raise_if}
use client_dash_up.Budget.Types.{
  Scope, client, account, BudgetStatus, active, archived, Budget, Client, AdAccount, Db,
  BudgetError, integrity_error,
}

abbrev pub Fallible : Type 0 → Type 0
Fallible A = Outcome BudgetError A

abbrev pub is_client : Scope → Bool
is_client client = true
is_client account = false

abbrev pub is_account : Scope → Bool
is_account client = false
is_account account = true

abbrev pub is_active : BudgetStatus → Bool
is_active active = true
is_active archived = false

-- `SELECT * FROM budgets WHERE id=?`
unfoldable pub find_budget : ℕ → List Budget → Option Budget
find_budget id = first (λ b. b.id == id)

-- `SELECT id, status, default_currency FROM clients WHERE id=?`
unfoldable pub find_client : ℕ → Db → Option Client
find_client id db = first (λ c. c.id == id) db.clients

-- `SELECT id, client_id, status, currency FROM ad_accounts WHERE id=?`
unfoldable pub find_account : ℕ → Db → Option AdAccount
find_account id db = first (λ a. a.id == id) db.ad_accounts

-- The CHECKs: `amount >= 0`, and an account id exactly at the account scope.
unfoldable pub row_allowed : Budget → Bool
row_allowed b =
    not (ltb_ℤ b.amount (pos 0))
    && (is_client b.scope && not (is_some b.account_id)
        || is_account b.scope && is_some b.account_id)

-- `INSERT INTO budgets`
unfoldable pub insert_budget : Budget → Db → Fallible Db
insert_budget b db = do
  raise_if (any (λ o. o.id == b.id) db.budgets || not (row_allowed b)) integrity_error
  ok (record db { budgets = db.budgets ++ b ∷ [] })

-- The rows after an `UPDATE ... WHERE id=?` that leaves `b` at its own id.
abbrev pub replace_budget : Budget → List Budget → List Budget
replace_budget b [] = []
replace_budget b (o ∷ rows) = (if o.id == b.id then b else o) ∷ replace_budget b rows

-- `UPDATE budgets SET ... WHERE id=?`
unfoldable pub update_budget : Budget → Db → Fallible Db
update_budget b db = do
  raise_if (not (row_allowed b)) integrity_error
  ok (record db { budgets = replace_budget b db.budgets })

-- `INSERT INTO budget_history`
unfoldable pub insert_history : ℕ → Option ℕ → Budget → Budget → Db → Db
insert_history now by old new db = record db {
  history =
      db.history
      ++ record {
        id = db.next_history_id;
        budget_id = old.id;
        changed_at = now;
        changed_by = by;
        previous_values = old;
        new_values = new;
      }
        ∷ [];
  next_history_id = db.next_history_id + 1;
}

-- `INSERT INTO budget_transfers`
unfoldable pub insert_transfer : ℕ → ℕ → ℤ → Option String → Option ℕ → ℕ → Db → Db
insert_transfer source target amount note by now db = record db {
  transfers =
      db.transfers
      ++ record {
        id = db.next_transfer_id;
        source_budget_id = source;
        target_budget_id = target;
        amount = amount;
        note = note;
        changed_by = by;
        created_at = now;
      }
        ∷ [];
  next_transfer_id = db.next_transfer_id + 1;
}
