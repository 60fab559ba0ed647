-- ===== src/Command/Sqlite/Keeps.antt =====
-- What the methods of `SqliteProviderBudgetCommandStore` (app/db.py) leave as it is while a command is
-- in progress.
use Prim.Native.String.{String}
use client_dash_up.Base.{
  ℕ, ◌≡◌, ◌⊎◌, inl, inr, refl, sym, subst, arith, Bool, true, false, ◌&&◌, Option, none, some, List,
  [], ◌∷◌, ◌++◌, ◌==◌, Bool-cases, In, In-cons, here, there,
}
use client_dash_up.Base.Outcome.{Ensures, Ensures-ok, Ensures-bind}
use client_dash_up.Command.Types.{ProviderBudgetCommand}
use client_dash_up.Command.Store.{
  TargetKey, NewCommand, Finish, claimed, is_queued, is_in_progress, is_unknown,
}
use client_dash_up.Command.Sqlite.Tables.{LockRow, Tables, update_where, command_target, is_running}
use client_dash_up.Command.Sqlite.Commands.{
  insert_command, replay_command, submit_command, create_or_replay, claim_queued, finished_row,
  finish_execution, reconciled_row, record_reconciliation,
}

module _ {A : Type 0} (p : A → Bool) (f : A → A) where
  pub update_where-In : (x : A) (xs : List A) → In x xs → p x ≡ false → In x (update_where p f xs)
  update_where-In x [] i e = elim i [ ]
  update_where-In x (y ∷ xs) here e = rw e here
  update_where-In x (y ∷ xs) (there i) e = elim (Bool-cases (p y)) [
    | inl pass ↦ rw pass (there (update_where-In x xs i e))
    | inr fail ↦ rw fail (there (update_where-In x xs i e))
  ]

  pub update_where-In_updated :
      (x : A) (xs : List A) → In x xs → p x ≡ true → In (f x) (update_where p f xs)
  update_where-In_updated x [] i e = elim i [ ]
  update_where-In_updated x (y ∷ xs) here e = rw e here
  update_where-In_updated x (y ∷ xs) (there i) e = elim (Bool-cases (p y)) [
    | inl pass ↦ rw pass (there (update_where-In_updated x xs i e))
    | inr fail ↦ rw fail (there (update_where-In_updated x xs i e))
  ]

  pub In-update_where :
      (y : A) (xs : List A)
      → In y (update_where p f xs)
      → (In y xs × (p y ≡ false)) ⊎ ((x : A) × In x xs × (p x ≡ true) × (y ≡ f x))
  In-update_where y [] i = elim i [ ]
  In-update_where y (x ∷ xs) i = elim (Bool-cases (p x)) [
    | inl pass ↦ elim (In-cons (rw pass at i)) [
      | inl e ↦ inr (x, here, pass, e)
      | inr j ↦ elim (In-update_where y xs j) [
        | inl (k, q) ↦ inl (there k, q)
        | inr (z, k, q, e) ↦ inr (z, there k, q, e)
      ]
    ]
    | inr fail ↦ elim (In-cons (rw fail at i)) [
      | inl e ↦ inl (rw e here, rw e fail)
      | inr j ↦ elim (In-update_where y xs j) [
        | inl (k, q) ↦ inl (there k, q)
        | inr (z, k, q, e) ↦ inr (z, there k, q, e)
      ]
    ]
  ]

pub append-In : {A : Type 0} (x : A) (xs ys : List A) → In x xs → In x (xs ++ ys)
append-In x [] ys i = elim i [ ]
append-In x (y ∷ xs) ys here = here
append-In x (y ∷ xs) ys (there i) = there (append-In x xs ys i)

-- The command `holder` stays in progress on its target, and the locks of the target are of the
-- commands and the tokens that they were of.
pub record Keeps (holder : ℕ) (target : TargetKey) (db db' : Tables) : Type 0 where
  pub runs :
      (c : ProviderBudgetCommand)
      → In c db.commands
      → is_running holder c ≡ true
      → (d : ProviderBudgetCommand) × In d db'.commands
        × (is_running holder d ≡ true)
        × (command_target d ≡ command_target c)
  pub locks :
      (l : LockRow)
      → In l db'.locks
      → l.target ≡ target
      → (k : LockRow) × In k db.locks
        × (k.target ≡ target)
        × (k.command_id ≡ l.command_id)
        × (k.lease_token ≡ l.lease_token)

module _ (holder : ℕ) (target : TargetKey) where
  pub unchanged-Keeps : (db : Tables) → Keeps holder target db db
  unchanged-Keeps db = record {
    runs = λ c i e. (c, i, e, refl);
    locks = λ l i e. (l, i, e, refl, refl);
  }

  -- An update of the commands that passes the holder by.
  Keeps-update_where :
      (p : ProviderBudgetCommand → Bool) (f : ProviderBudgetCommand → ProviderBudgetCommand)
      (db db' : Tables)
      → db'.commands ≡ update_where p f db.commands
      → db'.locks ≡ db.locks
      → ((c : ProviderBudgetCommand) → is_running holder c ≡ true → p c ≡ false)
      → Keeps holder target db db'
  Keeps-update_where p f db db' commands locks passes = record {
    runs = λ c i e. (
      c,
      subst (In c) (sym commands) (update_where-In p f c db.commands i (passes c e)),
      e,
      refl,
    );
    locks = λ l i e. (l, subst (In l) locks i, e, refl, refl);
  }

  pub claim_queued-Keeps :
      (id now : ℕ) (db : Tables)
      → Ensures (λ r. Keeps holder target db r.1) (claim_queued id now db)
  unfolding claim_queued
  claim_queued-Keeps id now db = Ensures-bind λ command found. Ensures-bind λ _ fine. Ensures-ok (
      Keeps-update_where (λ c. c.id == id && is_queued c.status) (λ c. claimed c now) db _ refl refl
        (λ c e. ground arith))

  pub finish_execution-Keeps :
      (id : ℕ) (f : Finish) (now : ℕ) (db : Tables)
      → (id == holder) ≡ false
      → Ensures (λ r. Keeps holder target db r.1) (finish_execution id f now db)
  unfolding finish_execution
  finish_execution-Keeps id f now db other = Ensures-bind λ _ ends. Ensures-bind λ command found.
      Ensures-bind λ _ fine. Ensures-bind λ attempts inserted. Ensures-bind λ quarantines set.
        Ensures-ok (
          Keeps-update_where (λ c. c.id == id && is_in_progress c.status)
            (finished_row f attempts now) db _ refl refl (λ c e. ground arith))

  pub record_reconciliation-Keeps :
      (id : ℕ) (f : Finish) (now : ℕ) (db : Tables)
      → Ensures (λ r. Keeps holder target db r.1) (record_reconciliation id f now db)
  unfolding record_reconciliation
  record_reconciliation-Keeps id f now db = Ensures-bind λ _ ends. Ensures-bind λ command found.
      Ensures-bind λ _ fine. Ensures-bind λ attempts inserted. Ensures-bind λ quarantines set.
        Ensures-ok (
          Keeps-update_where (λ c. c.id == id && is_unknown c.status)
            (reconciled_row f attempts now) db _ refl refl (λ c e. ground arith))

  insert_command-Keeps :
      (n : NewCommand) (key : String) (new_id now : ℕ) (db : Tables)
      → Ensures (λ r. Keeps holder target db r.1) (insert_command n key new_id now db)
  unfolding insert_command
  insert_command-Keeps n key new_id now db = Ensures-bind λ _ a. Ensures-bind λ _ b.
      Ensures-bind λ _ c. Ensures-ok (record {
        runs = λ d i e. (d, append-In d db.commands _ i, e, refl);
        locks = λ l i e. (l, i, e, refl, refl);
      })

  replay_command-Keeps :
      (n : NewCommand) (existing : ProviderBudgetCommand) (db : Tables)
      → Ensures (λ r. Keeps holder target db r.1) (replay_command n existing db)
  unfolding replay_command
  replay_command-Keeps n existing db = Ensures-bind λ _ a. Ensures-ok (unchanged-Keeps db)

  submit_command-Keeps :
      (n : NewCommand) (key : String) (new_id now : ℕ) (db : Tables)
      (existing : Option ProviderBudgetCommand)
      → Ensures (λ r. Keeps holder target db r.1) (submit_command n key new_id now db existing)
  unfolding submit_command
  submit_command-Keeps n key new_id now db none = insert_command-Keeps n key new_id now db
  submit_command-Keeps n key new_id now db (some existing) = replay_command-Keeps n existing db

  pub create_or_replay-Keeps :
      (n : NewCommand) (new_id now : ℕ) (db : Tables)
      → Ensures (λ r. Keeps holder target db r.1) (create_or_replay n new_id now db)
  unfolding create_or_replay
  create_or_replay-Keeps n new_id now db =
      Ensures-bind λ key valid. submit_command-Keeps n key new_id now db _
