-- ===== src/Command/Service/Verdicts.antt =====
-- How an attempt of `execute` (app/services/provider_budget_commands.py) ends: its state, by what the
-- provider answered and what was sent.
use Prim.Native.String.{String}
use client_dash_up.Base.{
  ℕ, ◌≡◌, ◌≢◌, ◌⊎◌, inl, inr, sym, ap, ◌∙◌, subst, true, false, Bool, Option, some, List, arith,
}
use client_dash_up.Base.Outcome.{ok, err}
use client_dash_up.Command.Types.{
  applied, Fallible, Failure, BudgetChangeRequest, ProviderBudgetCommand,
}
use client_dash_up.Command.Store.{ends_execution}
use client_dash_up.Command.Snapshots.{Payload}
use client_dash_up.Command.Provider.{Adapter, Env}
use client_dash_up.Command.Service.Attempt.{Verdict, confirm, verdict}
use client_dash_up.Command.Service.Post.{Post}
use client_dash_up.Command.Service.Stages.{Quiet}
use client_dash_up.Command.Service.Replies.{StopsAs, verdict-StopsAs}
use client_dash_up.Command.Service.Sends.{Sent, Confirmed, Stopped}

confirm-ends :
    (c : ProviderBudgetCommand) (m : ℕ) (t : Option String)
    → ends_execution (confirm c m t).0 ≡ true
unfolding confirm
confirm-ends c m t = ground arith

confirm-applied :
    (c : ProviderBudgetCommand) (m : ℕ) (t : Option String)
    → (confirm c m t).0 ≡ applied
    → m ≡ c.request.amount_minor
unfolding confirm
confirm-applied c m t h = ground arith

raised-ends : (x : Failure) (b : Bool) → ends_execution (verdict (err x) b).0 ≡ true
unfolding verdict
raised-ends x b = ground arith

raised-not_applied : (x : Failure) (b : Bool) → (verdict (err x) b).0 ≢ applied
unfolding verdict
raised-not_applied x b h = ground arith

unsent-StopsAs : (x : Failure) (b : Bool) → b ≡ false → StopsAs false x (verdict (err x) b).0
unsent-StopsAs x b denied =
    subst (λ (a : Bool). StopsAs a x (verdict (err x) b).0) denied (verdict-StopsAs x b)

module _ {S : Type 0} (sha256_payload : Payload → String) (adapter : Adapter S)
    (c : ProviderBudgetCommand) (w : List BudgetChangeRequest) where
  -- Either nothing was sent and the state is the one that a failure calls for, or exactly its request
  -- was sent, after the provider showed the amount of the preview and the live gate was passed; then
  -- the state is the one that the answers call for, and an applied command has the amount asked for.
  pub record Written (v : Verdict) (e : Env S) : Type 0 where
    pub sent : Sent sha256_payload adapter c w v.0 e
    pub applied : v.0 ≡ applied → e.locals.after_minor ≡ some c.request.amount_minor

  pub record Unwritten (v : Verdict) (e : Env S) : Type 0 where
    pub writes : e.writes ≡ w
    pub failure : Failure
    pub stopped : StopsAs false failure v.0

  pub attempt-ends :
      (r : Fallible Verdict × Env S)
      → Post (Confirmed sha256_payload adapter c w) (Stopped sha256_payload adapter c w) r
      → ends_execution (verdict r.0 r.1.locals.write_accepted).0 ≡ true
  unfolding verdict
  attempt-ends (ok v, e) h =
      subst (λ (v : Verdict). ends_execution v.0 ≡ true) (sym h.at.verdict)
        (confirm-ends c h.at.after e.locals.trace_id)
  attempt-ends (err x, e) h = raised-ends x e.locals.write_accepted

  pub attempt-effect :
      (r : Fallible Verdict × Env S)
      → Post (Confirmed sha256_payload adapter c w) (Stopped sha256_payload adapter c w) r
      → Unwritten (verdict r.0 r.1.locals.write_accepted) r.1
        ⊎ Written (verdict r.0 r.1.locals.write_accepted) r.1
  unfolding verdict
  attempt-effect (ok v, e) h = inr record {
    sent = h.at.sent;
    applied = λ done.
        let q =
          confirm-applied c h.at.after e.locals.trace_id
            (ap (λ (v : Verdict). v.0) (sym h.at.verdict) ∙ done) in
        h.at.after_minor ∙ ap some q;
  }
  attempt-effect (err x, e) h = elim h.at [
    | inl quiet ↦ inl record {
      writes = quiet.writes;
      failure = x;
      stopped = unsent-StopsAs x e.locals.write_accepted quiet.not_accepted;
    }
    | inr sent ↦ inr record {
      sent = sent;
      applied = λ done. absurd (raised-not_applied x e.locals.write_accepted done);
    }
  ]

  -- An attempt that cannot have returned ends as its failure calls for.
  pub stopped-verdict :
      (r : Fallible Verdict × Env S) (x : Failure)
      → Post (λ _ _. ⊥) (λ y e'. (y ≡ x) × Quiet w e') r
      → (r.1.writes ≡ w) × StopsAs false x (verdict r.0 r.1.locals.write_accepted).0
  stopped-verdict (ok v, e) x h = absurd h.at
  stopped-verdict (err y, e) x h = (
    h.at.1.writes,
    subst (λ (z : Failure). StopsAs false z (verdict (err y) e.locals.write_accepted).0) h.at.0
        (unsent-StopsAs y e.locals.write_accepted h.at.1.not_accepted),
  )
