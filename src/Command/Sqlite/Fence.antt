-- ===== src/Command/Sqlite/Fence.antt =====
-- A command in progress that holds the lock of its target (app/db.py).
use client_dash_up.Base.{
  ℕ, ◌+◌, ◌≡◌, ◌≢◌, ◌⊎◌, inl, inr, refl, sym, ap, ◌∙◌, subst, arith, Bool, true, none, List, [],
  ◌∷◌, ◌==◌, any, select, length, Bool-cases, In, In-cons, here, there, any-In, In-select,
}
use client_dash_up.Base.Outcome.{
  ok, ok_eq, Ensures, Ensures-ok, Ensures-bind, Ensures-branch, branch,
}
use client_dash_up.Command.Types.{ProviderBudgetCommand}
use client_dash_up.Command.Store.{TargetKey, same_target}
use client_dash_up.Command.Steps.Updates.{same_target_refl, same_target-eq}
use client_dash_up.Command.Sqlite.Tables.{
  LockRow, Tables, update_where, find_quarantine, command_target, is_running, is_running_on,
  upsert_lock,
}
use client_dash_up.Command.Sqlite.Locks.{
  keeps_out, is_renewable, acquire_target_lock, release_target_lock, renew_target_lock,
}
use client_dash_up.Command.Sqlite.Beside.{
  StepBeside, creates, claims, finishes, reconciles, acquires, releases, renews, StepsBeside,
  no_step, then_step,
}
use client_dash_up.Command.Sqlite.Keeps.{
  update_where-In, update_where-In_updated, In-update_where, Keeps, unchanged-Keeps,
  claim_queued-Keeps, finish_execution-Keeps, record_reconciliation-Keeps, create_or_replay-Keeps,
}

-- The command is in progress on the target, and every lock of the target is its own, by its token.
pub record Fenced (holder token : ℕ) (target : TargetKey) (db : Tables) : Type 0 where
  pub row : ProviderBudgetCommand
  pub stored : In row db.commands
  pub runs : is_running holder row ≡ true
  pub on_target : command_target row ≡ target
  pub locks :
      (l : LockRow)
      → In l db.locks
      → l.target ≡ target
      → (l.command_id ≡ holder) × (l.lease_token ≡ token)

In-upsert_lock :
    (row l : LockRow) (rows : List LockRow) → In l (upsert_lock row rows) → (l ≡ row) ⊎ In l rows
unfolding upsert_lock
In-upsert_lock row l [] i = In-cons i
In-upsert_lock row l (r ∷ rows) i = elim (Bool-cases (same_target r.target row.target)) [
  | inl e ↦ elim (In-cons (rw e at i)) [ inl same ↦ inl same | inr j ↦ inr (there j) ]
  | inr e ↦ elim (In-cons (rw e at i)) [
    | inl same ↦ inr (rw same here)
    | inr j ↦ elim (In-upsert_lock row l rows j) [ inl same ↦ inl same | inr k ↦ inr (there k) ]
  ]
]

module _ (holder token : ℕ) (target : TargetKey) where
  pub Fenced-Keeps :
      (db db' : Tables)
      → Fenced holder token target db
      → Keeps holder target db db'
      → Fenced holder token target db'
  Fenced-Keeps db db' h k =
      let (d, stored, runs, same) = k.runs h.row h.stored h.runs in
      record {
        row = d;
        stored = stored;
        runs = runs;
        on_target = same ∙ h.on_target;
        locks = λ l i e.
            let (l₀, j, on, id, its_token) = k.locks l i e in
            let (of_holder, with_token) = h.locks l₀ j on in
            (sym id ∙ of_holder, sym its_token ∙ with_token);
      }

  pub acquire_refused :
      (command : ProviderBudgetCommand) (allow_quarantined : Bool) (t now : ℕ) (db : Tables)
      → Fenced holder token target db
      → command_target command ≡ target
      → acquire_target_lock command allow_quarantined t now db ≡ ok (none, db)
  unfolding acquire_target_lock branch
  acquire_refused command allow_quarantined t now db h e =
      let here_too : same_target (command_target h.row) (command_target command) ≡ true =
        rw (h.on_target, e) (same_target_refl target) in
      let runs = h.runs in
      let running : any (is_running_on (command_target command)) db.commands ≡ true =
        any-In (is_running_on (command_target command)) h.row db.commands h.stored (ground arith) in
      elim (Bool-cases
        (keeps_out command.id allow_quarantined (find_quarantine (command_target command) db))) [
          | inl out ↦ rw out refl
          | inr free ↦ rw (free, running) refl
        ]

  acquire-Keeps :
      (command : ProviderBudgetCommand) (allow_quarantined : Bool) (t now : ℕ) (db : Tables)
      → command_target command ≢ target
      → Ensures
          (λ r. Keeps holder target db r.1)
          (acquire_target_lock command allow_quarantined t now db)
  unfolding acquire_target_lock
  acquire-Keeps command allow_quarantined t now db other =
      let same : Ensures (λ r. Keeps holder target db r.1) (ok (none, db)) =
        Ensures-ok (unchanged-Keeps holder target db) in
      Ensures-branch (λ _. same)
        (λ _.
          Ensures-branch (λ _. same)
            (λ _.
              Ensures-branch (λ _. same)
                (λ _.
                  Ensures-branch (λ _. same)
                    (λ _. Ensures-bind λ _ exists. Ensures-ok (record {
                      runs = λ c i e. (c, i, e, refl);
                      locks = λ l i e. elim (In-upsert_lock _ l db.locks i) [
                        | inl new ↦ absurd (other (sym (ap (λ k. k.target) new) ∙ e))
                        | inr old ↦ (l, old, e, refl, refl)
                      ];
                    })))))

  release-Keeps :
      (command : ProviderBudgetCommand) (t : ℕ) (db : Tables)
      → Keeps holder target db (release_target_lock command t db)
  unfolding release_target_lock
  release-Keeps command t db = record {
    runs = λ c i e. (c, i, e, refl);
    locks = λ l i e. (l, (In-select _ l db.locks i).0, e, refl, refl);
  }

  renewed_commands-Keeps :
      (command : ProviderBudgetCommand) (t now : ℕ) (db : Tables) (locks : List LockRow)
      → ((l : LockRow)
          → In l locks
          → (k : LockRow) × In k db.locks
            × (k.target ≡ l.target)
            × (k.command_id ≡ l.command_id)
            × (k.lease_token ≡ l.lease_token))
      → Keeps holder target db (record db {
        commands =
            update_where (is_running command.id) (λ c. record c { updated_at = now }) db.commands;
        locks = locks;
      })
  renewed_commands-Keeps command t now db locks kept = record {
    runs = λ c i e. elim (Bool-cases (is_running command.id c)) [
      | inl hit ↦ (
        record c { updated_at = now },
        update_where-In_updated (is_running command.id) (λ d. record d { updated_at = now }) c
            db.commands i hit,
        e,
        refl,
      )
      | inr miss ↦ (
        c,
        update_where-In (is_running command.id) (λ d. record d { updated_at = now }) c db.commands i
            miss,
        e,
        refl,
      )
    ];
    locks = λ l i e. let (k, j, on, id, tok) = kept l i in (k, j, on ∙ e, id, tok);
  }

  pub renew-Keeps :
      (command : ProviderBudgetCommand) (t now : ℕ) (db : Tables)
      → Keeps holder target db (renew_target_lock command t now db).1
  unfolding renew_target_lock
  renew-Keeps command t now db =
      let extended =
        update_where (is_renewable command t db)
          (λ l. record l { lease_until = now + 600; updated_at = now }) db.locks in
      let kept : (l : LockRow)
          → In l extended
          → (k : LockRow) × In k db.locks
            × (k.target ≡ l.target)
            × (k.command_id ≡ l.command_id)
            × (k.lease_token ≡ l.lease_token) =
        (λ l i.
          elim (In-update_where (is_renewable command t db)
            (λ l. record l { lease_until = now + 600; updated_at = now }) l db.locks i) [
              | inl (old, _) ↦ (l, old, refl, refl, refl)
              | inr (k, j, _, e) ↦ (
                k,
                j,
                sym (ap (λ r. r.target) e),
                sym (ap (λ r. r.command_id) e),
                sym (ap (λ r. r.lease_token) e),
              )
            ]) in
      elim (Bool-cases (length (select (is_renewable command t db) db.locks) == 1)) [
        | inl one ↦ elim (Bool-cases (length (select (is_running command.id) db.commands) == 1)) [
          | inl running ↦ rw (one, running) (renewed_commands-Keeps command t now db extended kept)
          | inr lost ↦ rw (one, lost) (unchanged-Keeps holder target db)
        ]
        | inr none_or_more ↦ rw none_or_more (record {
          runs = λ c i e. (c, i, e, refl);
          locks = λ l i e. let (k, j, on, id, tok) = kept l i in (k, j, on ∙ e, id, tok);
        })
      ]

  step-Fenced :
      (db db' : Tables)
      → Fenced holder token target db
      → StepBeside holder db db'
      → Fenced holder token target db'
  step-Fenced db db' h (creates n new_id now e) =
      Fenced-Keeps db db' h ((create_or_replay-Keeps holder target n new_id now db).at _ e)
  step-Fenced db db' h (claims id now e) =
      Fenced-Keeps db db' h ((claim_queued-Keeps holder target id now db).at _ e)
  step-Fenced db db' h (finishes id f now other e) =
      Fenced-Keeps db db' h ((finish_execution-Keeps holder target id f now db other).at _ e)
  step-Fenced db db' h (reconciles id f now e) =
      Fenced-Keeps db db' h ((record_reconciliation-Keeps holder target id f now db).at _ e)
  step-Fenced db db' h (acquires {given = given} command allow_quarantined t now e) =
      elim (Bool-cases (same_target (command_target command) target)) [
        | inl same ↦
            let refused =
              acquire_refused command allow_quarantined t now db h (same_target-eq _ _ same) in
            let unchanged : db ≡ db' = ap (λ r. r.1) (ok_eq (sym refused ∙ e)) in
            subst (Fenced holder token target) unchanged h
        | inr other ↦
            let differs : command_target command ≢ target = (λ e. absurd (
              cc (
                other,
                subst (λ k. same_target k target ≡ true) (sym e) (same_target_refl target),
              ))) in
            Fenced-Keeps db db' h
              ((acquire-Keeps command allow_quarantined t now db differs).at _ e)
      ]
  step-Fenced db db' h (releases command t) = Fenced-Keeps db db' h (release-Keeps command t db)
  step-Fenced db db' h (renews command t now) = Fenced-Keeps db db' h (renew-Keeps command t now db)

  pub steps-Fenced :
      (db db' : Tables)
      → Fenced holder token target db
      → StepsBeside holder db db'
      → Fenced holder token target db'
  steps-Fenced db db' h no_step = h
  steps-Fenced db db' h (then_step {db₁ = mid} s rest) =
      steps-Fenced mid db' (step-Fenced db mid h s) rest
