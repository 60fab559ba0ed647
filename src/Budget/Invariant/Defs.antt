-- ===== src/Budget/Invariant/Defs.antt =====
-- The invariant of the table `budgets` of app/services/budgets.py.
use client_dash_up.Base.{ℕ, ◌≤◌, ◌≡◌, ◌≢◌, Option, none, some, List, [], ◌∷◌, In}
use client_dash_up.Base.Int.{ℤ, pos, ◌≤ℤ◌}
use client_dash_up.Budget.Types.{Scope, client, account, active, Budget}
use client_dash_up.Budget.Checks.{allocated_total}

-- No row has the id.
abbrev pub IsFresh : ℕ → List Budget → Type 0
IsFresh id [] = Unit
IsFresh id (b ∷ rows) = (b.id ≢ id) × IsFresh id rows

abbrev pub IsUnique : List Budget → Type 0
IsUnique [] = Unit
IsUnique (b ∷ rows) = IsFresh b.id rows × IsUnique rows

-- An account id belongs to the account scope and to no other.
abbrev pub Fits : Scope → Option ℕ → Type 0
Fits client none = Unit
Fits client (some _) = ⊥
Fits account none = ⊥
Fits account (some _) = Unit

pub record IsRow (b : Budget) : Type 0 where
  pub nonnegative : pos 0 ≤ℤ b.amount
  pub fits : Fits b.scope b.account_id
  pub in_order : b.start_date ≤ b.end_date

-- Two budgets of one owner: of one client at the client scope, of one account at the account scope.
abbrev pub SameOwner : Scope → Budget → Budget → Type 0
SameOwner client a b = a.client_id ≡ b.client_id
SameOwner account a b = a.account_id ≡ b.account_id

-- Two active budgets of one owner whose periods share a day.
pub record Clash (a b : Budget) : Type 0 where
  pub active_left : a.status ≡ active
  pub active_right : b.status ≡ active
  pub one_scope : a.scope ≡ b.scope
  pub one_owner : SameOwner b.scope a b
  pub from_left : a.start_date ≤ b.end_date
  pub from_right : b.start_date ≤ a.end_date

-- What is allocated to the accounts of the client in the period of `c`.
abbrev pub allocated_under : Budget → List Budget → ℤ
allocated_under c rows = allocated_total c.client_id c.start_date c.end_date none rows

pub record IsConsistent (rows : List Budget) : Type 0 where
  pub unique : IsUnique rows
  pub row : (b : Budget) → In b rows → IsRow b
  pub disjoint : (a b : Budget) → In a rows → In b rows → a.id ≢ b.id → ¬ Clash a b
  pub capped :
      (c : Budget)
      → In c rows
      → c.status ≡ active
      → c.scope ≡ client
      → allocated_under c rows ≤ℤ c.amount
