-- ===== src/Command/Sqlite/Returns.antt =====
-- The offline recovery returns (app/db.py).
use client_dash_up.Base.{
  ℕ, ◌<◌, ◌≡◌, inl, inr, refl, ap, ◌∙◌, subst, arith, Bool, true, false, Option, none, some, List,
  [], ◌∷◌, ◌++◌, ◌==◌, leb, any, first, select, Bool-cases, In, In-cons, here, there, In-select,
}
use client_dash_up.Base.Outcome.{ok, raise_if_ok, bind_ok}
use client_dash_up.Base.Sorting.{order_by, insert_by, In-order_by, In-insert_by}
use client_dash_up.Command.Types.{ProviderBudgetCommand, BudgetCommandAttempt}
use client_dash_up.Command.Sqlite.Tables.{
  QuarantineRow, Tables, update_where, insert_attempt, insert_quarantine, upsert_target_quarantine,
}
use client_dash_up.Command.Sqlite.Recovery.{
  is_interrupted, count_interrupted_in_progress, last_attempt_no, next_attempt_no,
  interrupted_attempt, recover_row, recover_rows, recover_interrupted_in_progress_offline,
}
use client_dash_up.Command.Sqlite.Recovers.{
  Recovers, recover_interrupted_in_progress_offline-Recovers,
}

-- A quarantine that the command holds.
abbrev pub holds_quarantine : ℕ → QuarantineRow → Bool
holds_quarantine id q = q.command_id == id

-- The primary key of the commands.
abbrev pub HasUniqueIds : List ProviderBudgetCommand → Type 0
HasUniqueIds [] = Unit
HasUniqueIds (c ∷ cs) =
    ((d : ProviderBudgetCommand) → In d cs → (d.id == c.id) ≡ false) × HasUniqueIds cs

fresh_attempt_no :
    (n : ℕ) (attempts : List BudgetCommandAttempt)
    → last_attempt_no attempts < n
    → any (λ a. a.attempt_no == n) attempts ≡ false
fresh_attempt_no n [] h = refl
fresh_attempt_no n (a ∷ attempts) h =
    let rest = fresh_attempt_no n attempts (omega arith) in ground arith

insert_attempt_returns :
    (row : ProviderBudgetCommand) (now : ℕ)
    → (attempts : List BudgetCommandAttempt) × (insert_attempt
          (interrupted_attempt row now)
          row.attempts
        ≡ ok attempts)
unfolding insert_attempt interrupted_attempt next_attempt_no
insert_attempt_returns row now =
    let fresh = fresh_attempt_no (next_attempt_no row) row.attempts (omega arith) in
    (_, bind_ok _ _ (raise_if_ok _ _ (ground arith)) refl)

any-update_where :
    {A : Type 0} (p q : A → Bool) (f : A → A) (xs : List A)
    → ((x : A) → q (f x) ≡ q x)
    → any q (update_where p f xs) ≡ any q xs
any-update_where p q f [] h = refl
any-update_where p q f (x ∷ xs) h =
    let rest = any-update_where p q f xs h in
    elim (Bool-cases (p x)) [ inl e ↦ rw (e, h x, rest) refl | inr e ↦ rw (e, rest) refl ]

any-snoc :
    {A : Type 0} (q : A → Bool) (xs : List A) (x : A)
    → any q xs ≡ false
    → q x ≡ false
    → any q (xs ++ x ∷ []) ≡ false
any-snoc q [] x h e = ground arith
any-snoc q (y ∷ xs) x h e = let rest = any-snoc q xs x (ground arith) e in ground arith

-- An upsert returns, and gives no quarantine to another command.
insert_quarantine_returns :
    (row : ProviderBudgetCommand) (now : ℕ) (rows : List QuarantineRow)
    (found : Option QuarantineRow)
    → any (holds_quarantine row.id) rows ≡ false
    → (rows' : List QuarantineRow) × (insert_quarantine row now rows found ≡ ok rows')
      × ((id : ℕ)
          → (id == row.id) ≡ false
          → any (holds_quarantine id) rows ≡ false
          → any (holds_quarantine id) rows' ≡ false)
unfolding insert_quarantine
insert_quarantine_returns row now rows none free = (
  _,
  bind_ok _ _ (raise_if_ok _ _ free) refl,
  λ id other h. any-snoc (holds_quarantine id) rows _ h (ground arith),
)
insert_quarantine_returns row now rows (some q) free =
    (_, refl, λ id other h. any-update_where _ (holds_quarantine id) _ rows (λ x. refl) ∙ h)

recover_row_returns :
    (row : ProviderBudgetCommand) (now : ℕ) (db : Tables)
    → any (holds_quarantine row.id) db.quarantines ≡ false
    → (db' : Tables) × (recover_row row now db ≡ ok db')
      × ((id : ℕ)
          → (id == row.id) ≡ false
          → any (holds_quarantine id) db.quarantines ≡ false
          → any (holds_quarantine id) db'.quarantines ≡ false)
unfolding recover_row upsert_target_quarantine
recover_row_returns row now db free =
    let (attempts, inserted) = insert_attempt_returns row now in
    let (quarantines, upserted, kept) = insert_quarantine_returns row now db.quarantines _ free in
    (_, bind_ok _ _ inserted (bind_ok _ _ upserted refl), kept)

recover_rows_returns :
    (rows : List ProviderBudgetCommand) (now : ℕ) (db : Tables)
    → HasUniqueIds rows
    → ((r : ProviderBudgetCommand) → In r rows → any (holds_quarantine r.id) db.quarantines ≡ false)
    → (n : ℕ) × (db' : Tables) × (recover_rows rows now db ≡ ok (n, db'))
unfolding recover_rows
recover_rows_returns [] now db unique free = (_, _, refl)
recover_rows_returns (row ∷ rows) now db (first, unique) free =
    let (mid, one, kept) = recover_row_returns row now db (free row here) in
    let (n, db', rest) =
      recover_rows_returns rows now mid unique (λ r i. kept r.id (first r i) (free r (there i))) in
    (_, _, bind_ok _ _ one (bind_ok _ _ rest refl))

select-HasUniqueIds :
    (p : ProviderBudgetCommand → Bool) (cs : List ProviderBudgetCommand)
    → HasUniqueIds cs
    → HasUniqueIds (select p cs)
select-HasUniqueIds p [] h = tt
select-HasUniqueIds p (c ∷ cs) (first, rest) = elim (Bool-cases (p c)) [
  | inl e ↦ rw e (λ d i. first d (In-select p d cs i).0, select-HasUniqueIds p cs rest)
  | inr e ↦ rw e (select-HasUniqueIds p cs rest)
]

insert_by-HasUniqueIds :
    (before : ProviderBudgetCommand → ProviderBudgetCommand → Bool) (c : ProviderBudgetCommand)
    (cs : List ProviderBudgetCommand)
    → ((d : ProviderBudgetCommand) → In d cs → (d.id == c.id) ≡ false)
    → HasUniqueIds cs
    → HasUniqueIds (insert_by before c cs)
insert_by-HasUniqueIds before c [] new h = (λ d i. elim i [ ], tt)
insert_by-HasUniqueIds before c (x ∷ cs) new (first, rest) = elim (Bool-cases (before c x)) [
  | inl e ↦ rw e (new, (first, rest))
  | inr e ↦ rw e (
    λ d i. elim (In-cons (In-insert_by before c d cs i)) [
      | inl same ↦
          let x_new = new x here in let d_c : d.id ≡ c.id = ap (λ k. k.id) same in ground arith
      | inr j ↦ first d j
    ],
    insert_by-HasUniqueIds before c cs (λ d i. new d (there i)) rest,
  )
]

order_by-HasUniqueIds :
    (before : ProviderBudgetCommand → ProviderBudgetCommand → Bool)
    (cs : List ProviderBudgetCommand)
    → HasUniqueIds cs
    → HasUniqueIds (order_by before cs)
order_by-HasUniqueIds before [] h = tt
order_by-HasUniqueIds before (c ∷ cs) (first, rest) =
    insert_by-HasUniqueIds before c (order_by before cs)
      (λ d i. first d (In-order_by before d cs i)) (order_by-HasUniqueIds before cs rest)

-- The offline recovery returns, on tables where ids are unique and no command that is in progress holds
-- a quarantine, with the number of the commands that were in progress. Then no command is in progress,
-- the target of each one that was is quarantined and its locks are gone; all other commands are as they
-- were, no target lost its quarantine, and no lock is new.
pub recover_interrupted_in_progress_offline_returns :
    (now : ℕ) (db : Tables)
    → HasUniqueIds db.commands
    → ((c : ProviderBudgetCommand)
        → In c db.commands
        → is_interrupted c ≡ true
        → any (holds_quarantine c.id) db.quarantines ≡ false)
    → (db' : Tables) × (recover_interrupted_in_progress_offline true now db
        ≡ ok (count_interrupted_in_progress db, db'))
      × Recovers db db' (count_interrupted_in_progress db)
unfolding recover_interrupted_in_progress_offline
recover_interrupted_in_progress_offline_returns now db unique free =
    let before = λ (a b : ProviderBudgetCommand). leb a.updated_at b.updated_at in
    let rows = order_by before (select is_interrupted db.commands) in
    let (n, db', ran) =
      recover_rows_returns rows now db
        (order_by-HasUniqueIds before (select is_interrupted db.commands)
          (select-HasUniqueIds is_interrupted db.commands unique))
        (λ r i.
          let (j, running) =
            In-select is_interrupted r db.commands
              (In-order_by before r (select is_interrupted db.commands) i) in
          free r j running) in
    let returned : recover_interrupted_in_progress_offline true now db ≡ ok (n, db') =
      bind_ok _ _ (raise_if_ok _ _ refl) ran in
    let recovers =
      (recover_interrupted_in_progress_offline-Recovers true now db).at (n, db') returned in
    (
      db',
      subst (λ k. recover_interrupted_in_progress_offline true now db ≡ ok (k, db'))
          recovers.counted returned,
      subst (Recovers db db') recovers.counted recovers,
    )
