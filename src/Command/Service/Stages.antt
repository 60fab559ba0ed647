-- ===== src/Command/Service/Stages.antt =====
-- The stages of the `try` of `execute` before the write: what is known when each has passed, and that
-- none has sent anything (app/services/provider_budget_commands.py).
use Prim.Native.String.{String}
use client_dash_up.Base.{
  ℕ, ◌≡◌, ◌⊎◌, inl, inr, refl, ap, ◌∙◌, true, false, Option, none, some, List, [], ◌∷◌, ◌++◌, arith,
}
use client_dash_up.Base.Outcome.{ok, raise_if-false}
use client_dash_up.Command.Types.{
  BudgetField, BudgetChangeRequest, ProviderBudgetCommand, BudgetExecutionAuthorization, Fallible,
}
use client_dash_up.Command.Policy.{MayWrite, str_eq-eq}
use client_dash_up.Command.Policy.Decides.{authorize_budget_write_iff}
use client_dash_up.Command.Snapshots.{Payload, assert_context_matches}
use client_dash_up.Command.Provider.{Adapter, Locals, Env}
use client_dash_up.Command.Service.Attempt.{
  was_changed, preflight, run_before_write, check_authorization, final_gate,
}
use client_dash_up.Command.Service.Post.{
  Post, Post-ok, Post-lift, Post-bind, Post-lift-bind, Post-call-bind, Post-assign-bind,
  Post-assign, Post-call,
}

-- Nothing was sent yet.
pub record Quiet {S : Type 0} (w : List BudgetChangeRequest) (e : Env S) : Type 0 where
  pub writes : e.writes ≡ w
  pub not_accepted : e.locals.write_accepted ≡ false

-- The live authorization lets the command pass.
pub record Live (sha256_payload : Payload → String) (c : ProviderBudgetCommand)
    (a : BudgetExecutionAuthorization) : Type 0 where
  pub actor : a.actor.user_id ≡ c.actor_user_id
  pub feature : a.feature_enabled ≡ true
  pub rollout : a.client_rollout_allowed ≡ true
  pub binding : a.binding_verified ≡ true
  pub account : a.provider_account_id ≡ c.request.provider_account_id
  pub spend_cap : c.request.field ≡ BudgetField.spend_cap → a.spend_cap_enabled ≡ true
  pub may_write : MayWrite c.request a.actor a.tenant a.credential
  pub same_context : assert_context_matches sha256_payload c a.actor a.credential ≡ ok tt

-- The gate was passed, when there is one.
abbrev pub Gated :
    {S : Type 0} → (Payload → String) → Adapter S → ProviderBudgetCommand → Locals → Type 0
Gated sha256_payload adapter c l =
    (adapter.reauthorize_before_write ≡ none)
    ⊎ ((a : BudgetExecutionAuthorization) × (l.final_authorization ≡ some a)
        × (l.final_gate_verified ≡ true)
        × Live sha256_payload c a)

pub not_changed :
    (c : ProviderBudgetCommand) (m : ℕ) → was_changed m c ≡ false → m ≡ c.observed_before_minor
unfolding was_changed
not_changed c m h = ground arith

module _ {S : Type 0} (sha256_payload : Payload → String) (adapter : Adapter S)
    (c : ProviderBudgetCommand) (w : List BudgetChangeRequest) where
  -- The provider still shows the amount of the preview.
  pub record Checked (e : Env S) : Type 0 where
    pub quiet : Quiet w e
    pub before : e.locals.before_minor ≡ some c.observed_before_minor

  pub record Ready (e : Env S) : Type 0 where
    pub checked : Checked e
    pub gated : Gated sha256_payload adapter c e.locals

  -- The one write was sent, after all checks.
  pub record Sent (e : Env S) : Type 0 where
    pub writes : e.writes ≡ w ++ c.request ∷ []
    pub before : e.locals.before_minor ≡ some c.observed_before_minor
    pub gated : Gated sha256_payload adapter c e.locals

  -- Setting variables other than the amount before and the acceptance keeps it quiet.
  pub preflight-Checked :
      (e : Env S)
      → Quiet w e
      → Post (λ _ e'. Checked e') (λ _. Quiet w) (preflight sha256_payload adapter c e)
  unfolding preflight
  preflight-Checked e h =
      Post-call-bind _ _ e (λ _ p _. record { writes = h.writes; not_accepted = h.not_accepted })
        λ before p _.
          Post-lift-bind _ _ _ (λ _ _. record { writes = h.writes; not_accepted = h.not_accepted })
            λ _ _. Post-assign-bind _ _ _ (
              Post-lift _ _ (λ _ _. record { writes = h.writes; not_accepted = h.not_accepted })
                λ _ fine. record {
                  quiet = record { writes = h.writes; not_accepted = h.not_accepted };
                  before = ap some (not_changed c before.amount_minor (raise_if-false _ _ fine));
                })

  pub run_before_write-Checked :
      (o : Option (ProviderBudgetCommand → S → Fallible Unit × S)) (e : Env S)
      → Checked e
      → Post (λ _ e'. Checked e') (λ _. Quiet w) (run_before_write sha256_payload adapter o c e)
  unfolding run_before_write
  run_before_write-Checked none e h = Post-ok tt e h
  run_before_write-Checked (some f) e h =
      Post-call (f c) e
        (λ _ p. record { writes = h.quiet.writes; not_accepted = h.quiet.not_accepted })
        λ p. record {
          quiet = record { writes = h.quiet.writes; not_accepted = h.quiet.not_accepted };
          before = h.before;
        }

  check_authorization-Live :
      (a : BudgetExecutionAuthorization) (e : Env S)
      → Quiet w e
      → Post
          (λ _ e'. (e' ≡ e) × Live sha256_payload c a)
          (λ _. Quiet w)
          (check_authorization sha256_payload adapter c a e)
  unfolding check_authorization
  check_authorization-Live a e h =
      Post-lift-bind _ _ e (λ _ _. h)
        λ _ g1.
          Post-lift-bind _ _ e (λ _ _. h)
            λ _ g2.
              Post-lift-bind _ _ e (λ _ _. h)
                λ _ g3.
                  Post-lift-bind _ _ e (λ _ _. h)
                    λ _ g4.
                      Post-lift-bind _ _ e (λ _ _. h)
                        λ _ g5.
                          Post-lift-bind _ _ e (λ _ _. h)
                            λ _ g6.
                              Post-lift-bind _ _ e (λ _ _. h)
                                λ _ g7.
                                  Post-lift _ e (λ _ _. h)
                                    λ _ g8. (
                                      refl,
                                      record {
                                        actor = let b = raise_if-false _ _ g1 in ground arith;
                                        feature = let b = raise_if-false _ _ g2 in ground arith;
                                        rollout = let b = raise_if-false _ _ g3 in ground arith;
                                        binding = let b = raise_if-false _ _ g4 in ground arith;
                                        account =
                                            str_eq-eq _ _
                                              (let b = raise_if-false _ _ g5 in ground arith);
                                        spend_cap =
                                            λ capped. let b = raise_if-false _ _ g6 in ground arith;
                                        may_write =
                                            (authorize_budget_write_iff c.request a.actor a.tenant
                                                a.credential).0
                                              g7;
                                        same_context = g8;
                                      },
                                    )

  pub final_gate-Ready :
      (o : Option (ProviderBudgetCommand → S → Fallible BudgetExecutionAuthorization × S))
      (e : Env S)
      → adapter.reauthorize_before_write ≡ o
      → Checked e
      → Post (λ _ e'. Ready e') (λ _. Quiet w) (final_gate sha256_payload adapter o c e)
  unfolding final_gate
  final_gate-Ready none e same h = Post-ok tt e (record { checked = h; gated = inl same })
  final_gate-Ready (some f) e same h = Post-assign-bind _ _ e (
      Post-call-bind _ _ _
        (λ _ p _. record { writes = h.quiet.writes; not_accepted = h.quiet.not_accepted })
        λ a p _. Post-assign-bind _ _ _ (
          Post-bind _ _ _
            (check_authorization-Live a _
              (record { writes = h.quiet.writes; not_accepted = h.quiet.not_accepted }))
            λ _ e' k. Post-assign _ e' (record {
              checked = record {
                quiet = record {
                  writes = ap (λ x. x.writes) k.0 ∙ h.quiet.writes;
                  not_accepted = ap (λ x. x.locals.write_accepted) k.0 ∙ h.quiet.not_accepted;
                };
                before = ap (λ x. x.locals.before_minor) k.0 ∙ h.before;
              };
              gated = inr (a, ap (λ x. x.locals.final_authorization) k.0, refl, k.1);
            })))
