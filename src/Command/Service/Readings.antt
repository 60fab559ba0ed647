-- ===== src/Command/Service/Readings.antt =====
-- What the read of `reconcile` may show (app/services/provider_budget_commands.py).
use client_dash_up.Base.{
  ◌≡◌, ◌≢◌, inl, inr, refl, ap, true, false, Bool, Bool-cases, some, arith, ◌==◌, ==_iff-eq,
  if◌then◌else◌,
}
use client_dash_up.Base.Outcome.{ok, err}
use client_dash_up.Command.Types.{
  BudgetCommandStatus, applied, conflict, unknown, plain_error, Fallible, Failure, BudgetSnapshot,
  ProviderBudgetCommand,
}
use client_dash_up.Command.Store.{ends_reconciliation, or_text}
use client_dash_up.Command.Snapshots.{snapshot_matches_request}
use client_dash_up.Command.Service.Methods.{Reading, judge, unread, read_back}

-- What a reading may say.
pub record Sound (c : ProviderBudgetCommand) (finalize_mismatch : Bool)
    (answer : Fallible BudgetSnapshot) (r : Reading) : Type 0 where
  pub ends : ends_reconciliation r.status ≡ true
  pub settles :
      (snapshot : BudgetSnapshot)
      → answer ≡ ok snapshot
      → snapshot_matches_request snapshot c.request ≡ ok tt
      → ((snapshot.amount_minor ≡ c.request.amount_minor) → r.status ≡ applied)
        × ((snapshot.amount_minor ≢ c.request.amount_minor)
            → r.status ≡ (if finalize_mismatch then conflict else unknown))
  pub applied :
      r.status ≡ applied
      → (snapshot : BudgetSnapshot) × (answer ≡ ok snapshot)
        × (snapshot_matches_request snapshot c.request ≡ ok tt)
        × (snapshot.amount_minor ≡ c.request.amount_minor)
        × (r.after_minor ≡ some c.request.amount_minor)
  pub conflict :
      r.status ≡ conflict
      → (finalize_mismatch ≡ true)
        × ((snapshot : BudgetSnapshot) × (answer ≡ ok snapshot)
            × (snapshot_matches_request snapshot c.request ≡ ok tt)
            × (snapshot.amount_minor ≢ c.request.amount_minor)
            × (r.after_minor ≡ some snapshot.amount_minor))

unread-Sound :
    (c : ProviderBudgetCommand) (fm : Bool) (answer : Fallible BudgetSnapshot) (x : Failure)
    → ((b : BudgetSnapshot) → answer ≡ ok b → snapshot_matches_request b c.request ≢ ok tt)
    → Sound c fm answer (unread c x)
unfolding unread
unread-Sound c fm answer x differs = record {
  ends = ground arith;
  applied = λ e. absurd (not_applied x e);
  conflict = λ e. absurd (not_conflict x e);
  settles = λ b e matches. absurd (differs b e matches);
}
  where
    not_applied : (x : Failure) → (unread c x).status ≢ BudgetCommandStatus.applied
    not_applied x e = ground arith

    not_conflict : (x : Failure) → (unread c x).status ≢ BudgetCommandStatus.conflict
    not_conflict x e = ground arith

judge-Sound :
    (c : ProviderBudgetCommand) (fm : Bool) (b : BudgetSnapshot)
    → snapshot_matches_request b c.request ≡ ok tt
    → Sound c fm (ok b) (judge c fm b)
unfolding judge
judge-Sound c fm b matches = elim (Bool-cases (b.amount_minor == c.request.amount_minor)) [
  | inl same ↦
      let p = ==_iff-eq b.amount_minor c.request.amount_minor same in
      rw same (record {
        ends = refl;
        applied = λ _. (b, refl, matches, p, ap some p);
        conflict = λ e. cc (e);
        settles = λ snapshot e _. ((λ _. refl), (λ differs. absurd (differs (same_amount e p))));
      })
  | inr other ↦ rw other (mismatch (amounts_differ other) fm)
]
  where
    same_amount :
        {snapshot : BudgetSnapshot}
        → ◌≡◌ {A = Fallible BudgetSnapshot} (ok b) (ok snapshot)
        → b.amount_minor ≡ c.request.amount_minor
        → snapshot.amount_minor ≡ c.request.amount_minor
    same_amount e p = cc (e, p)

    amounts_differ :
        (b.amount_minor == c.request.amount_minor) ≡ false → b.amount_minor ≢ c.request.amount_minor
    amounts_differ other same = ground arith

    other_amount :
        {snapshot : BudgetSnapshot}
        → ◌≡◌ {A = Fallible BudgetSnapshot} (ok b) (ok snapshot)
        → snapshot.amount_minor ≡ c.request.amount_minor
        → b.amount_minor ≡ c.request.amount_minor
    other_amount e p = cc (e, p)

    mismatch :
        b.amount_minor ≢ c.request.amount_minor
        → (fm : Bool)
        → Sound c fm (ok b) (
            if fm
            then record {
              status = conflict;
              error = some (
                  plain_error "provider_reconciliation_mismatch"
                    (or_text b.provider_trace_id c.provider_trace_id));
              after_minor = some b.amount_minor;
              trace_id = or_text b.provider_trace_id c.provider_trace_id;
            }
            else record {
              status = unknown;
              error = some (
                  plain_error "provider_reconciliation_pending"
                    (or_text b.provider_trace_id c.provider_trace_id));
              after_minor = some b.amount_minor;
              trace_id = or_text b.provider_trace_id c.provider_trace_id;
            })
    mismatch differs true = record {
      ends = refl;
      applied = λ e. cc (e);
      conflict = λ _. (refl, (b, refl, matches, differs, refl));
      settles = λ snapshot e _. ((λ same. absurd (differs (other_amount e same))), (λ _. refl));
    }
    mismatch differs false = record {
      ends = refl;
      applied = λ e. cc (e);
      conflict = λ e. cc (e);
      settles = λ snapshot e _. ((λ same. absurd (differs (other_amount e same))), (λ _. refl));
    }

pub read_back-Sound :
    (c : ProviderBudgetCommand) (fm : Bool) (answer : Fallible BudgetSnapshot)
    → Sound c fm answer (read_back c fm answer)
unfolding read_back
read_back-Sound c fm (err x) = unread-Sound c fm (err x) x (λ b e. cc (e))
read_back-Sound c fm (ok b) = matched (snapshot_matches_request b c.request) refl
  where
    differs :
        {x : Failure} (d : BudgetSnapshot)
        → ◌≡◌ {A = Fallible BudgetSnapshot} (ok b) (ok d)
        → snapshot_matches_request d c.request ≡ ok tt
        → snapshot_matches_request b c.request ≢ err x
    differs d same matches e = cc (same, matches, e)

    matched :
        (m : Fallible Unit)
        → snapshot_matches_request b c.request ≡ m
        → Sound c fm (ok b) (elim m [ ok _ ↦ judge c fm b | err x ↦ unread c x ])
    matched (ok _) e = judge-Sound c fm b e
    matched (err x) e = unread-Sound c fm (ok b) x (λ d same matches. differs d same matches e)
