-- ===== src/Command/Sqlite/Recovers.antt =====
-- What the offline recovery leaves (app/db.py).
use client_dash_up.Base.{
  ℕ, ◌≡◌, ◌≢◌, inl, inr, refl, sym, ap, ◌∙◌, subst, arith, Bool, true, false, not, ◌&&◌, Option,
  none, some, List, [], ◌∷◌, ◌++◌, ◌==◌, leb, first, select, length, Bool-cases, In, In-cons, here,
  there, In-select, select-In, first-In,
}
use client_dash_up.Base.Outcome.{Ensures, Ensures-ok, Ensures-bind}
use client_dash_up.Base.Sorting.{order_by, order_by-In, length-order_by}
use client_dash_up.Command.Types.{ProviderBudgetCommand}
use client_dash_up.Command.Store.{TargetKey, same_target}
use client_dash_up.Command.Steps.Updates.{same_target_refl}
use client_dash_up.Command.Sqlite.Tables.{
  LockRow, QuarantineRow, Tables, update_where, command_target, is_running, quarantines_target,
  insert_quarantine, upsert_target_quarantine,
}
use client_dash_up.Command.Sqlite.Keeps.{
  update_where-In, In-update_where, update_where-In_updated, append-In,
}
use client_dash_up.Command.Sqlite.Recovery.{
  is_interrupted, count_interrupted_in_progress, interrupted_row, next_attempt_no, recover_row,
  recover_rows, recover_interrupted_in_progress_offline,
}

-- The target is quarantined, by whichever command.
abbrev pub IsQuarantined : TargetKey → List QuarantineRow → Type 0
IsQuarantined target rows = (q : QuarantineRow) × In q rows × (same_target q.target target ≡ true)

last-In : {A : Type 0} (x : A) (xs : List A) → In x (xs ++ x ∷ [])
last-In x [] = here
last-In x (y ∷ xs) = there (last-In x xs)

-- The quarantines that an upsert leaves.
record Quarantines (row : ProviderBudgetCommand) (rows rows' : List QuarantineRow) : Type 0 where
  own : IsQuarantined (command_target row) rows'
  kept : (target : TargetKey) → IsQuarantined target rows → IsQuarantined target rows'

insert_quarantine-Quarantines :
    (row : ProviderBudgetCommand) (now : ℕ) (rows : List QuarantineRow)
    (found : Option QuarantineRow)
    → first (quarantines_target (command_target row)) rows ≡ found
    → Ensures (Quarantines row rows) (insert_quarantine row now rows found)
unfolding insert_quarantine
insert_quarantine-Quarantines row now rows none e = Ensures-bind λ _ unique. Ensures-ok (record {
  own = (_, last-In _ rows, same_target_refl (command_target row));
  kept = λ target (q, i, same). (q, append-In q rows _ i, same);
})
insert_quarantine-Quarantines row now rows (some found) e =
    let p =
      λ (q : QuarantineRow). quarantines_target (command_target row) q && q.command_id == row.id in
    let f = λ (q : QuarantineRow). record q { updated_at = now } in
    let kept : (target : TargetKey)
        → IsQuarantined target rows
        → IsQuarantined target (update_where p f rows) =
      (λ target (q, i, same). elim (Bool-cases (p q)) [
        | inl hit ↦ (f q, update_where-In_updated p f q rows i hit, same)
        | inr miss ↦ (q, update_where-In p f q rows i miss, same)
      ]) in
    let (i, same) = first-In (quarantines_target (command_target row)) found rows e in
    Ensures-ok (record { own = kept (command_target row) (found, i, same); kept = kept })

-- What the loop leaves after the rows.
record Leaves (rows : List ProviderBudgetCommand) (db db' : Tables) : Type 0 where
  interrupted :
      (c : ProviderBudgetCommand)
      → In c db'.commands
      → is_interrupted c ≡ true
      → In c db.commands × ((r : ProviderBudgetCommand) → In r rows → r.id ≢ c.id)
  others :
      (c : ProviderBudgetCommand) → In c db.commands → is_interrupted c ≡ false → In c db'.commands
  quarantined :
      (r : ProviderBudgetCommand) → In r rows → IsQuarantined (command_target r) db'.quarantines
  kept :
      (target : TargetKey)
      → IsQuarantined target db.quarantines
      → IsQuarantined target db'.quarantines
  unlocked :
      (l : LockRow)
      → In l db'.locks
      → In l db.locks × ((r : ProviderBudgetCommand) → In r rows → l.command_id ≢ r.id)

recover_row-Leaves :
    (row : ProviderBudgetCommand) (now : ℕ) (db : Tables)
    → Ensures (Leaves (row ∷ []) db) (recover_row row now db)
unfolding recover_row upsert_target_quarantine interrupted_row
recover_row-Leaves row now db = Ensures-bind λ attempts inserted.
    Ensures-bind λ quarantines upserted.
      let q =
        (insert_quarantine-Quarantines row now db.quarantines _ refl).at quarantines upserted in
      let f = interrupted_row (next_attempt_no row) attempts now in
      Ensures-ok (record {
        interrupted = λ c i e. elim (In-update_where (is_running row.id) f c db.commands i) [
          | inl (old, missed) ↦ (
            old,
            λ r j. elim (In-cons j) [
              | inl same ↦ λ h.
                  let same_id : c.id ≡ row.id = sym h ∙ ap (λ k. k.id) same in absurd (ground arith)
              | inr k ↦ elim k [ ]
            ],
          )
          | inr (x, j, hit, new) ↦ absurd (cc (new, e))
        ];
        others = λ c i e. update_where-In (is_running row.id) f c db.commands i (ground arith);
        quarantined = λ r i. elim (In-cons i) [
          | inl same ↦ subst (λ k. IsQuarantined (command_target k) quarantines) (sym same) q.own
          | inr k ↦ elim k [ ]
        ];
        kept = q.kept;
        unlocked = λ l i.
            let (old, free) = In-select (λ k. not (k.command_id == row.id)) l db.locks i in
            (
              old,
              λ r j. elim (In-cons j) [
                | inl same ↦ λ e.
                    let same_id : l.command_id ≡ row.id = e ∙ ap (λ k. k.id) same in
                    absurd (ground arith)
                | inr k ↦ elim k [ ]
              ],
            );
      })

Leaves-recover_rows :
    (rows : List ProviderBudgetCommand) (now : ℕ) (db : Tables)
    → Ensures (λ r. Leaves rows db r.1 × (r.0 ≡ length rows)) (recover_rows rows now db)
unfolding recover_rows
Leaves-recover_rows [] now db = Ensures-ok (
  record {
    interrupted = λ c i e. (i, λ r j. elim j [ ]);
    others = λ c i e. i;
    quarantined = λ r i. elim i [ ];
    kept = λ target h. h;
    unlocked = λ l i. (i, λ r j. elim j [ ]);
  },
  refl,
)
Leaves-recover_rows (row ∷ rows) now db = Ensures-bind λ mid first. Ensures-bind λ r rest.
    let one = (recover_row-Leaves row now db).at mid first in
    let (others, counted) = (Leaves-recover_rows rows now mid).at r rest in
    Ensures-ok (
      record {
        interrupted = λ c i e.
            let (in_mid, not_rest) = others.interrupted c i e in
            let (in_db, not_row) = one.interrupted c in_mid e in
            (
              in_db,
              λ x j. elim (In-cons j) [
                | inl same ↦ not_row x (subst (λ k. In k (row ∷ [])) (sym same) here)
                | inr k ↦ not_rest x k
              ],
            );
        others = λ c i e. others.others c (one.others c i e) e;
        quarantined = λ x j. elim (In-cons j) [
          | inl same ↦
              others.kept (command_target x)
                (one.quarantined x (subst (λ k. In k (row ∷ [])) (sym same) here))
          | inr k ↦ others.quarantined x k
        ];
        kept = λ target h. others.kept target (one.kept target h);
        unlocked = λ l i.
            let (in_mid, not_rest) = others.unlocked l i in
            let (in_db, not_row) = one.unlocked l in_mid in
            (
              in_db,
              λ x j. elim (In-cons j) [
                | inl same ↦ not_row x (subst (λ k. In k (row ∷ [])) (sym same) here)
                | inr k ↦ not_rest x k
              ],
            );
      },
      omega (arith, counted),
    )

-- What the recovery leaves, and the number that it returns.
pub record Recovers (db db' : Tables) (recovered : ℕ) : Type 0 where
  pub counted : recovered ≡ count_interrupted_in_progress db
  pub none_left : (c : ProviderBudgetCommand) → In c db'.commands → is_interrupted c ≡ false
  pub others_stay :
      (c : ProviderBudgetCommand) → In c db.commands → is_interrupted c ≡ false → In c db'.commands
  pub quarantined :
      (c : ProviderBudgetCommand)
      → In c db.commands
      → is_interrupted c ≡ true
      → IsQuarantined (command_target c) db'.quarantines
  pub quarantines_stay :
      (target : TargetKey)
      → IsQuarantined target db.quarantines
      → IsQuarantined target db'.quarantines
  pub unlocked :
      (l : LockRow)
      → In l db'.locks
      → In l db.locks
        × ((c : ProviderBudgetCommand)
            → In c db.commands
            → is_interrupted c ≡ true
            → l.command_id ≢ c.id)

-- When the offline recovery returns, no command is in progress. The target of each one that was is
-- quarantined and its locks are gone; all other commands are as they were, no target lost its
-- quarantine, no lock is new, and the number is that of the commands that were in progress.
pub recover_interrupted_in_progress_offline-Recovers :
    (stopped : Bool) (now : ℕ) (db : Tables)
    → Ensures (λ r. Recovers db r.1 r.0) (recover_interrupted_in_progress_offline stopped now db)
unfolding recover_interrupted_in_progress_offline count_interrupted_in_progress
recover_interrupted_in_progress_offline-Recovers stopped now db = Ensures-bind λ _ all_stopped.
    record {
      at = λ r e.
          let before = λ (a b : ProviderBudgetCommand). leb a.updated_at b.updated_at in
          let (leaves, counted) = (Leaves-recover_rows _ now db).at r e in
          let is_row : (c : ProviderBudgetCommand)
              → In c db.commands
              → is_interrupted c ≡ true
              → In c (order_by before (select is_interrupted db.commands)) =
            (λ c i running.
              order_by-In before c (select is_interrupted db.commands)
                (select-In is_interrupted c db.commands i running)) in
          record {
            counted = counted ∙ length-order_by before (select is_interrupted db.commands);
            none_left = λ c i. elim (Bool-cases (is_interrupted c)) [
              | inr stopped ↦ stopped
              | inl running ↦
                  let (in_db, no_row) = leaves.interrupted c i running in
                  absurd (no_row c (is_row c in_db running) refl)
            ];
            others_stay = leaves.others;
            quarantined = λ c i running. leaves.quarantined c (is_row c i running);
            quarantines_stay = leaves.kept;
            unlocked = λ l i.
                let (in_db, not_row) = leaves.unlocked l i in
                (in_db, λ c j running. not_row c (is_row c j running));
          };
    }
