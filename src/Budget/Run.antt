-- ===== src/Budget/Run.antt =====
-- Any sequence of requests to the budget store (app/services/budgets.py). The transactions are
-- serialised by `BEGIN IMMEDIATE`, so concurrent requests are a sequence too.
use Prim.Native.String.{String}
use client_dash_up.Base.{ℕ, List, [], ◌∷◌}
use client_dash_up.Budget.Money.{q_money}
use client_dash_up.Budget.Types.{BudgetCreate, BudgetPatch, BudgetTransferRequest, Db}
use client_dash_up.Budget.Store.{create, patch, archive}
use client_dash_up.Budget.Transfer.{transfer}
use client_dash_up.Budget.Invariant.Defs.{IsConsistent}
use client_dash_up.Budget.Keeps.Settles.{Settles-IsConsistent}
use client_dash_up.Budget.Keeps.Create.{Creates, create-Creates}
use client_dash_up.Budget.Keeps.Patch.{
  PatchesAt, patch-Settles, Archives, archive-Archives, Patches-IsConsistent,
}
use client_dash_up.Budget.Keeps.Transfer.{Transfers, transfer-Transfers}

-- A call of a writing method, with the id that it would draw and the instant at which it runs.
pub data Request : Type 0 where
  creates : BudgetCreate → ℕ → ℕ → Request
  patches : ℕ → BudgetPatch → ℕ → Request
  archives : ℕ → ℕ → Request
  transfers : ℕ → BudgetTransferRequest → ℕ → ℕ → Request

module _ (default_note : ℕ → String) where
  unfoldable pub serve : Request → Db → Db
  serve (creates p new_id now) db = (create p new_id now db).1
  serve (patches id p now) db = (patch id p now db).1
  serve (archives id now) db = (archive id now db).1
  serve (transfers id p new_id now) db = (transfer default_note id p new_id now db).1

  unfoldable pub run : List Request → Db → Db
  run [] db = db
  run (r ∷ rs) db = run rs (serve r db)

  serve-IsConsistent :
      (r : Request) (db : Db) → IsConsistent db.budgets → IsConsistent (serve r db).budgets
  unfolding serve
  serve-IsConsistent (creates p new_id now) db h =
      Settles-IsConsistent (Creates p new_id now db) db (create p new_id now db)
        (λ x q. q.consistent) h (create-Creates p new_id now db h)
  serve-IsConsistent (patches id p now) db h =
      Settles-IsConsistent (PatchesAt id p now db) db (patch id p now db)
        (λ x q. Patches-IsConsistent id p now db x h q) h (patch-Settles id p now db h)
  serve-IsConsistent (archives id now) db h =
      Settles-IsConsistent (Archives id now db) db (archive id now db) (λ x q. q.consistent) h
        (archive-Archives id now db h)
  serve-IsConsistent (transfers id p new_id now) db h =
      Settles-IsConsistent (Transfers id p.target_account_id (q_money p.amount) db) db
        (transfer default_note id p new_id now db) (λ x q. q.consistent) h
        (transfer-Transfers default_note id p new_id now db h)

  -- Whatever the requests are, in whatever order and whether they succeed or not: a table with unique
  -- ids, well-formed rows, no two active budgets of one owner in a common day, and no client budget
  -- below what is allocated under it, is such a table after them.
  pub run-IsConsistent :
      (rs : List Request) (db : Db) → IsConsistent db.budgets → IsConsistent (run rs db).budgets
  unfolding run
  run-IsConsistent [] db h = h
  run-IsConsistent (r ∷ rs) db h = run-IsConsistent rs (serve r db) (serve-IsConsistent r db h)
