-- ===== src/Command/Sqlite/Excludes.antt =====
-- No two commands write to one target (app/db.py): what a renewal of a target's lock, which goes before
-- every write, excludes.
use client_dash_up.Base.{
  ℕ, ◌≡◌, inl, inr, refl, sym, ap, ◌∙◌, subst, arith, Bool, true, false, none, List, [], ◌∷◌, ◌==◌,
  select, length, if◌then◌else◌, In, In-cons, here, In-select, ==_iff-eq,
}
use client_dash_up.Base.Outcome.{ok}
use client_dash_up.Command.Types.{ProviderBudgetCommand}
use client_dash_up.Command.Store.{target_key}
use client_dash_up.Command.Steps.Updates.{same_target-eq}
use client_dash_up.Command.Sqlite.Tables.{LockRow, Tables, command_target, is_running}
use client_dash_up.Command.Sqlite.Locks.{is_renewable, acquire_target_lock, renew_target_lock}
use client_dash_up.Command.Sqlite.Beside.{StepsBeside, HasUniqueTargets}
use client_dash_up.Command.Sqlite.Fence.{
  Fenced, Fenced-Keeps, acquire_refused, renew-Keeps, steps-Fenced,
}

-- The stored row of the command has its request.
abbrev pub IsStored : ProviderBudgetCommand → Tables → Type 0
IsStored command db =
    (row : ProviderBudgetCommand)
    → In row db.commands
    → row.id ≡ command.id
    → row.request ≡ command.request

-- The target is closed to all but the command under its token, at any instant.
pub record Excludes (command : ProviderBudgetCommand) (token : ℕ) (db : Tables) : Type 0 where
  pub acquires :
      (other : ProviderBudgetCommand) (allow_quarantined : Bool) (other_token now : ℕ)
      → command_target other ≡ command_target command
      → acquire_target_lock other allow_quarantined other_token now db ≡ ok (none, db)
  pub renewals :
      (other : ProviderBudgetCommand) (other_token now : ℕ)
      → command_target other ≡ command_target command
      → (renew_target_lock other other_token now db).0 ≡ true
      → (other.id ≡ command.id) × (other_token ≡ token)

In-length-select :
    {A : Type 0} (p : A → Bool) (xs : List A)
    → (length (select p xs) == 1) ≡ true
    → (x : A) × In x xs × (p x ≡ true)
In-length-select {A = A} p xs h = go (select p xs) refl
  where
    go : (ys : List A) → select p xs ≡ ys → (x : A) × In x xs × (p x ≡ true)
    go [] e = absurd (cc (h, ap length e))
    go (y ∷ ys) e = let (i, passes) = In-select p y xs (subst (In y) (sym e) here) in (y, i, passes)

same_lock :
    (l k : LockRow) (ls : List LockRow)
    → HasUniqueTargets ls
    → In l ls
    → In k ls
    → l.target ≡ k.target
    → l ≡ k
same_lock l k [] h i j e = elim i [ ]
same_lock l k (x ∷ ls) (first, rest) i j e = elim (In-cons i) [
  | inl l_here ↦ elim (In-cons j) [
    | inl k_here ↦ l_here ∙ sym k_here
    | inr k_there ↦ absurd (first k k_there (sym e ∙ ap (λ r. r.target) l_here))
  ]
  | inr l_there ↦ elim (In-cons j) [
    | inl k_here ↦ absurd (first l l_there (e ∙ ap (λ r. r.target) k_here))
    | inr k_there ↦ same_lock l k ls rest l_there k_there e
  ]
]

-- What a renewal that succeeds has found.
record Renews (command : ProviderBudgetCommand) (token : ℕ) (db : Tables) : Type 0 where
  lock : LockRow
  held : In lock db.locks
  of_target : lock.target ≡ command_target command
  of_command : lock.command_id ≡ command.id
  with_token : lock.lease_token ≡ token
  row : ProviderBudgetCommand
  stored : In row db.commands
  running : is_running command.id row ≡ true

-- Both counts of the renewal were 1.
both_counted :
    (one_lock one_row : Bool) (x y z : Tables)
    → (if◌then◌else◌ {A = Bool × Tables} one_lock
        (if one_row then (true, x) else (false, y))
        (false, z)).0
      ≡ true
    → (one_lock ≡ true) × (one_row ≡ true)
both_counted true true x y z h = (refl, refl)
both_counted true false x y z h = absurd (cc (h))
both_counted false one_row x y z h = absurd (cc (h))

renew-Renews :
    (command : ProviderBudgetCommand) (token now : ℕ) (db : Tables)
    → (renew_target_lock command token now db).0 ≡ true
    → Renews command token db
unfolding renew_target_lock
renew-Renews command token now db h =
    let (one, some_row) =
      both_counted (length (select (is_renewable command token db) db.locks) == 1)
        (length (select (is_running command.id) db.commands) == 1) _ _ _ h in
    let (l, held, renewable) = In-length-select (is_renewable command token db) db.locks one in
    let (row, stored, running) = In-length-select (is_running command.id) db.commands some_row in
    record {
      lock = l;
      held = held;
      of_target = same_target-eq l.target (command_target command) (ground arith);
      of_command = ==_iff-eq l.command_id command.id (ground arith);
      with_token = ==_iff-eq l.lease_token token (ground arith);
      row = row;
      stored = stored;
      running = running;
    }

renew-Fenced :
    (command : ProviderBudgetCommand) (token now : ℕ) (db : Tables)
    → HasUniqueTargets db.locks
    → IsStored command db
    → (renew_target_lock command token now db).0 ≡ true
    → Fenced command.id token (command_target command) (renew_target_lock command token now db).1
renew-Fenced command token now db unique is_stored h =
    let r = renew-Renews command token now db h in
    let target = command_target command in
    let row = r.row in
    let running = r.running in
    let same_id = ==_iff-eq row.id command.id (ground arith) in
    let request = is_stored r.row r.stored same_id in
    Fenced-Keeps command.id token target db _
      (record {
        row = r.row;
        stored = r.stored;
        runs = r.running;
        on_target = ap target_key request;
        locks = λ l i e.
            let same = same_lock l r.lock db.locks unique i r.held (e ∙ sym r.of_target) in
            (
              ap (λ k. k.command_id) same ∙ r.of_command,
              ap (λ k. k.lease_token) same ∙ r.with_token,
            );
      })
      (renew-Keeps command.id token target command token now db)

Fenced-Excludes :
    (command : ProviderBudgetCommand) (token : ℕ) (db : Tables)
    → Fenced command.id token (command_target command) db
    → Excludes command token db
Fenced-Excludes command token db h = record {
  acquires = λ other allow_quarantined other_token now e.
      acquire_refused command.id token (command_target command) other allow_quarantined other_token
        now db h e;
  renewals = λ other other_token now e renewed.
      let r = renew-Renews other other_token now db renewed in
      let (of_holder, of_token) = h.locks r.lock r.held (r.of_target ∙ e) in
      (sym r.of_command ∙ of_holder, sym r.with_token ∙ of_token);
}

-- Once the lock of a target was renewed for a command, which goes before its write at the provider, and
-- until `finish_execution` is called for this command or the offline recovery runs, whatever other calls
-- are made in between and however long it takes: no caller acquires the lock of the target, and no
-- renewal of it succeeds but those for this command under this token. The table has one lock for a
-- target at most, and the command's row has its request.
pub renew-Excludes :
    (command : ProviderBudgetCommand) (token now : ℕ) (db db' : Tables)
    → HasUniqueTargets db.locks
    → IsStored command db
    → (renew_target_lock command token now db).0 ≡ true
    → StepsBeside command.id (renew_target_lock command token now db).1 db'
    → Excludes command token db'
renew-Excludes command token now db db' unique is_stored renewed steps =
    Fenced-Excludes command token db' (
      steps-Fenced command.id token (command_target command) _ db'
        (renew-Fenced command token now db unique is_stored renewed) steps)
