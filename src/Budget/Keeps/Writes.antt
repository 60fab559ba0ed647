-- ===== src/Budget/Keeps/Writes.antt =====
-- What an INSERT and an UPDATE of the table `budgets` did, when they returned.
use client_dash_up.Base.{
  ℕ, ◌≤◌, ◌≡◌, refl, sym, subst, Bool, true, false, not, ◌&&◌, ◌||◌, is_some, Option, none, some,
  [], ◌∷◌, ◌++◌, arith, In,
}
use client_dash_up.Base.Int.{pos, ◌≤ℤ◌, ltb_ℤ, ltb_ℤ-false}
use client_dash_up.Base.Outcome.{ok, ◌>>=◌, raise_if}
use client_dash_up.Budget.Types.{Scope, client, account, Budget, Db}
use client_dash_up.Budget.Table.{
  is_client, is_account, find_budget, row_allowed, insert_budget, update_budget, replace_budget,
}
use client_dash_up.Budget.Invariant.Defs.{IsFresh, IsUnique, Fits, IsRow, IsConsistent}
use client_dash_up.Budget.Invariant.Rows.{
  any-IsFresh, find_budget-eq, replace_budget-IsUnique, In-replace_budget, append-IsUnique,
  In-append,
}
use client_dash_up.Budget.Invariant.Puts.{Admitted, append-Puts, replace-Puts, Puts-IsConsistent}

Fits-of :
    (s : Scope) (o : Option ℕ)
    → (is_client s && not (is_some o) || is_account s && is_some o) ≡ true
    → Fits s o
Fits-of client none h = tt
Fits-of client (some a) h = cc
Fits-of account none h = cc
Fits-of account (some a) h = tt

and_both : (a b : Bool) → (a && b) ≡ true → (a ≡ true) × (b ≡ true)
and_both true b h = (refl, h)
and_both false b h = absurd (cc)

-- What the CHECKs of the table leave through.
pub row_allowed-facts :
    (b : Budget) → row_allowed b ≡ true → (pos 0 ≤ℤ b.amount) × Fits b.scope b.account_id
unfolding row_allowed
row_allowed-facts b h =
    let parts = and_both (not (ltb_ℤ b.amount (pos 0))) _ h in
    (ltb_ℤ-false b.amount (pos 0) (ground arith), Fits-of b.scope b.account_id parts.1)

pub IsRow-of_allowed : (b : Budget) → row_allowed b ≡ true → b.start_date ≤ b.end_date → IsRow b
IsRow-of_allowed b h le =
    let f = row_allowed-facts b h in record { nonnegative = f.0; fits = f.1; in_order = le }

pub insert_budget-ok :
    (b : Budget) (db db' : Db)
    → insert_budget b db ≡ ok db'
    → IsFresh b.id db.budgets × (row_allowed b ≡ true) × (db'.budgets ≡ db.budgets ++ b ∷ [])
unfolding insert_budget ◌>>=◌ raise_if
insert_budget-ok b db db' h =
    (any-IsFresh b.id db.budgets (ground arith), ground arith, ground arith)

pub update_budget-ok :
    (b : Budget) (db db' : Db)
    → update_budget b db ≡ ok db'
    → (row_allowed b ≡ true) × (db'.budgets ≡ replace_budget b db.budgets)
unfolding update_budget ◌>>=◌ raise_if
update_budget-ok b db db' h = (ground arith, ground arith)

-- An inserted row that the others admit keeps the invariant.
pub insert_budget-IsConsistent :
    (b : Budget) (db db' : Db)
    → IsConsistent db.budgets
    → b.start_date ≤ b.end_date
    → (IsFresh b.id db.budgets → Admitted b db.budgets)
    → insert_budget b db ≡ ok db'
    → IsConsistent db'.budgets
insert_budget-IsConsistent b db db' h le a e =
    let f = insert_budget-ok b db db' e in
    subst IsConsistent (sym f.2) (
      Puts-IsConsistent b db.budgets (db.budgets ++ b ∷ []) h
        (append-Puts b db.budgets h.unique f.0) (IsRow-of_allowed b f.1 le) (a f.0))

-- An updated row that the others admit keeps the invariant.
pub update_budget-IsConsistent :
    (o b : Budget) (db db' : Db)
    → IsConsistent db.budgets
    → In o db.budgets
    → o.id ≡ b.id
    → b.start_date ≤ b.end_date
    → Admitted b db.budgets
    → update_budget b db ≡ ok db'
    → IsConsistent db'.budgets
update_budget-IsConsistent o b db db' h i e le a w =
    let f = update_budget-ok b db db' w in
    subst IsConsistent (sym f.1) (
      Puts-IsConsistent b db.budgets (replace_budget b db.budgets) h
        (replace-Puts o b db.budgets h.unique i e) (IsRow-of_allowed b f.0 le) a)

-- The updated row is read back.
pub update_budget-read :
    (o b : Budget) (db db' : Db)
    → IsUnique db.budgets
    → In o db.budgets
    → o.id ≡ b.id
    → update_budget b db ≡ ok db'
    → find_budget b.id db'.budgets ≡ some b
update_budget-read o b db db' u i e w =
    let rows = (update_budget-ok b db db' w).1 in
    subst (λ rs. find_budget b.id rs ≡ some b) (sym rows)
      (find_budget-eq (replace_budget b db.budgets) b (replace_budget-IsUnique b db.budgets u)
        (In-replace_budget o b db.budgets i e))

-- The inserted row is read back.
pub insert_budget-read :
    (b : Budget) (db db' : Db)
    → IsUnique db.budgets
    → insert_budget b db ≡ ok db'
    → find_budget b.id db'.budgets ≡ some b
insert_budget-read b db db' u w =
    let f = insert_budget-ok b db db' w in
    subst (λ rs. find_budget b.id rs ≡ some b) (sym f.2)
      (find_budget-eq (db.budgets ++ b ∷ []) b (append-IsUnique b db.budgets f.0 u)
        (In-append b db.budgets))
