-- ===== src/Command/Sqlite/Locks.antt =====
-- The locks of the targets: `acquire_target_lock`, `release_target_lock` and `renew_target_lock` of
-- `SqliteProviderBudgetCommandStore` (app/db.py). A token that `uuid4` draws is a number, an instant a
-- number of seconds.
use client_dash_up.Base.{
  ℕ, ◌+◌, Bool, true, false, not, ◌&&◌, Option, none, some, ◌==◌, ltb, any, first, select,
  if◌then◌else◌, length,
}
use client_dash_up.Base.Outcome.{ok, ◌>>◌, raise_if, branch}
use client_dash_up.Command.Types.{Fallible, other_exception, ProviderBudgetCommand}
use client_dash_up.Command.Store.{TargetKey}
use client_dash_up.Command.Sqlite.Tables.{
  LockRow, QuarantineRow, Tables, update_where, has_command_id, command_target, quarantines_target,
  locks_target, find_quarantine, is_running_on, is_running, upsert_lock,
}

-- A quarantine keeps everyone out, but the command that it names where this is allowed.
abbrev pub keeps_out : ℕ → Bool → Option QuarantineRow → Bool
keeps_out command_id allow_quarantined_command none = false
keeps_out command_id allow_quarantined_command (some q) =
    not (allow_quarantined_command && q.command_id == command_id)

-- The lock of the target, joined with its command.
abbrev pub joined_lock : TargetKey → Tables → Option LockRow
joined_lock target db =
    first (λ l. locks_target target l && any (has_command_id l.command_id) db.commands) db.locks

abbrev pub is_held : ℕ → Option LockRow → Bool
is_held now none = false
is_held now (some l) = ltb now l.lease_until

-- The defensive duplicate of the check of commands in progress.
abbrev pub is_owner_running : Tables → Option LockRow → Bool
is_owner_running db none = false
is_owner_running db (some l) = any (is_running l.command_id) db.commands

unfoldable pub acquire_target_lock :
    ProviderBudgetCommand → Bool → ℕ → ℕ → Tables → Fallible (Option ℕ × Tables)
acquire_target_lock command allow_quarantined_command token now db =
    let target = command_target command in
    branch (keeps_out command.id allow_quarantined_command (find_quarantine target db))
      (ok (none, db))
      (branch (any (is_running_on target) db.commands) (ok (none, db)) (
        branch (is_held now (joined_lock target db)) (ok (none, db)) (
          branch (is_owner_running db (joined_lock target db)) (ok (none, db)) (
            raise_if (not (any (has_command_id command.id) db.commands)) other_exception
            >> ok (
              some token,
              record db {
                locks =
                    upsert_lock
                      (record {
                        target = target;
                        command_id = command.id;
                        lease_token = token;
                        lease_until = now + 600;
                        updated_at = now;
                      })
                      db.locks;
              },
            )))))

-- `WHERE provider='meta' AND target_type=? AND ... AND command_id=? AND lease_token=?`
abbrev pub is_lock_of : ProviderBudgetCommand → ℕ → LockRow → Bool
is_lock_of command token l =
    locks_target (command_target command) l && l.command_id == command.id && l.lease_token == token

unfoldable pub release_target_lock : ProviderBudgetCommand → ℕ → Tables → Tables
release_target_lock command token db = record db {
  locks =
      select
        (λ l. not (is_lock_of command token l && not (any (is_running l.command_id) db.commands)))
        db.locks;
}

-- The rows that `renew_target_lock` renews.
abbrev pub is_renewable : ProviderBudgetCommand → ℕ → Tables → LockRow → Bool
is_renewable command token db l =
    is_lock_of command token l
    && any (is_running l.command_id) db.commands
    && not (any (quarantines_target l.target) db.quarantines)

unfoldable pub renew_target_lock : ProviderBudgetCommand → ℕ → ℕ → Tables → Bool × Tables
renew_target_lock command token now db =
    if length (select (is_renewable command token db) db.locks) == 1
    then (if length (select (is_running command.id) db.commands) == 1
        then (
          true,
          record db {
            commands =
                update_where (is_running command.id) (λ c. record c { updated_at = now })
                  db.commands;
            locks =
                update_where (is_renewable command token db)
                  (λ l. record l { lease_until = now + 600; updated_at = now }) db.locks;
          },
        )
        else (false, db))
    else (
      false,
      record db {
        locks =
            update_where (is_renewable command token db)
              (λ l. record l { lease_until = now + 600; updated_at = now }) db.locks;
      },
    )
