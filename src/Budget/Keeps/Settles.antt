-- ===== src/Budget/Keeps/Settles.antt =====
-- How a transaction of the budget store ends.
use client_dash_up.Base.{◌≡◌, refl}
use client_dash_up.Base.Outcome.{Outcome, ok, err, Ensures}
use client_dash_up.Budget.Types.{Db, BudgetError}
use client_dash_up.Budget.Store.{settled, transaction}
use client_dash_up.Budget.Invariant.Defs.{IsConsistent}

-- How a method ended: it returned with a table of which `Q` holds, or raised with the table as it
-- was.
abbrev pub Settles : {A : Type 0} → (A × Db → Type 0) → Db → Outcome BudgetError A × Db → Type 0
Settles Q db (ok a, db') = Q (a, db')
Settles Q db (err e, db') = db' ≡ db

settled-Settles :
    {A : Type 0} (Q : A × Db → Type 0) (db : Db) (r : Outcome BudgetError (A × Db))
    → Ensures Q r
    → Settles Q db (settled r db)
unfolding settled
settled-Settles Q db (ok r) h = h.at r refl
settled-Settles Q db (err e) h = refl

pub transaction-Settles :
    {A : Type 0} (Q : A × Db → Type 0) (db : Db) (body : Db → Outcome BudgetError (A × Db))
    → Ensures Q (body db)
    → Settles Q db (transaction body db)
unfolding transaction
transaction-Settles Q db body h = settled-Settles Q db (body db) h

-- A method that settles on consistent tables, from consistent ones, keeps them so.
pub Settles-IsConsistent :
    {A : Type 0} (Q : A × Db → Type 0) (db : Db) (r : Outcome BudgetError A × Db)
    → ((x : A × Db) → Q x → IsConsistent x.1.budgets)
    → IsConsistent db.budgets
    → Settles Q db r
    → IsConsistent r.1.budgets
Settles-IsConsistent Q db (ok a, db') k h q = k (a, db') q
Settles-IsConsistent Q db (err e, db') k h q = rw q h
