-- ===== src/Command/Service/Sends.antt =====
-- The write of `execute` and its read-back, after the stages before it
-- (app/services/provider_budget_commands.py).
use Prim.Native.String.{String}
use client_dash_up.Base.{
  ℕ, ◌≡◌, ◌≢◌, ◌⊎◌, inl, inr, refl, ap, ◌∙◌, subst, true, Bool, some, List, [], ◌∷◌, ◌++◌,
}
use client_dash_up.Base.Outcome.{ok, err, raise_if-false}
use client_dash_up.Command.Types.{
  BudgetCommandStatus, unknown, SanitizedProviderError, Failure, conflict_error,
  write_outcome_unknown, BudgetChangeRequest, BudgetSnapshot, ProviderBudgetCommand,
}
use client_dash_up.Command.Snapshots.{Payload, snapshot_matches_request}
use client_dash_up.Command.Provider.{Adapter, Env}
use client_dash_up.Command.Service.Attempt.{
  Verdict, confirm, verdict, preflight, write_and_confirm, attempt_write,
}
use client_dash_up.Command.Service.Post.{
  Post, Post-ok, Post-lift, Post-weaken, Post-bind, Post-lift-bind, Post-inspect, Post-inspect-bind,
  Post-call-bind, Post-send-bind, Post-assign-bind,
}
use client_dash_up.Command.Service.Stages.{
  Quiet, Gated, not_changed, Ready, preflight-Checked, run_before_write-Checked, final_gate-Ready,
}
use client_dash_up.Command.Service.Replies.{
  verdict-StopsAs, StopsAs, Replies, raised, unacknowledged, unread, mistaken, shown, confirm-cases,
  raised_by, stopped_by, acknowledged,
}

module _ {S : Type 0} (sha256_payload : Payload → String) (adapter : Adapter S)
    (c : ProviderBudgetCommand) (w : List BudgetChangeRequest) where
  -- The one write was sent, after all checks, and answered so.
  pub record Sent (status : BudgetCommandStatus) (e : Env S) : Type 0 where
    pub writes : e.writes ≡ w ++ c.request ∷ []
    pub before : e.locals.before_minor ≡ some c.observed_before_minor
    pub gated : Gated sha256_payload adapter c e.locals
    pub at : S
    pub replies : Replies adapter c at e.provider status

  -- A read-back after an accepted write.
  pub record Confirmed (v : Verdict) (e : Env S) : Type 0 where
    pub sent : Sent v.0 e
    pub after : ℕ
    pub after_minor : e.locals.after_minor ≡ some after
    pub verdict : v ≡ confirm c after e.locals.trace_id

  abbrev pub Broken : Failure → Env S → Type 0
  Broken x e = Sent (verdict (err x) e.locals.write_accepted).0 e

  module _ (e : Env S) (h : Ready sha256_payload adapter c w e) where
    log : e.writes ++ c.request ∷ [] ≡ w ++ c.request ∷ []
    log = ap (λ ws. ws ++ c.request ∷ []) h.checked.quiet.writes

    -- The failure of a read-back after a write that the provider accepted.
    after_accepted : (b : Bool) (x : Failure) → b ≡ true → StopsAs true x (verdict (err x) b).0
    after_accepted b x accepted =
        subst (λ (a : Bool). StopsAs a x (verdict (err x) b).0) accepted (verdict-StopsAs x b)

    unacknowledged_status :
        (b : Bool) (y : SanitizedProviderError) (x : Failure)
        → write_outcome_unknown y ≡ x
        → (verdict (err x) b).0 ≡ unknown
    unfolding verdict
    unacknowledged_status b y x same =
        subst (λ (x : Failure). (verdict (err x) b).0 ≡ unknown) same refl

    pub write_and_confirm-Confirmed :
        Post Confirmed Broken (write_and_confirm sha256_payload adapter c e)
    unfolding write_and_confirm
    write_and_confirm-Confirmed =
        Post-send-bind _ _ _ e
          (λ x p answer. record {
            writes = log;
            before = h.checked.before;
            gated = h.gated;
            at = e.provider;
            replies = raised x answer (
                subst (λ (a : Bool). StopsAs a x (verdict (err x) e.locals.write_accepted).0)
                  h.checked.quiet.not_accepted (verdict-StopsAs x e.locals.write_accepted));
          })
          λ receipt p answer. Post-assign-bind _ _ _ (
            Post-inspect-bind _ _ _
              (λ x denied. record {
                writes = log;
                before = h.checked.before;
                gated = h.gated;
                at = e.provider;
                replies =
                    let (not_accepted, same) = raised_by receipt.accepted _ x denied in
                    unacknowledged receipt answer not_accepted
                      (unacknowledged_status receipt.accepted _ x same);
              })
              λ _ granted.
                let accepted = acknowledged receipt.accepted _ granted in
                Post-call-bind _ _ _
                  (λ x q reading. record {
                    writes = log;
                    before = h.checked.before;
                    gated = h.gated;
                    at = e.provider;
                    replies =
                        unread receipt x p answer accepted reading
                          (after_accepted receipt.accepted x accepted);
                  })
                  λ snapshot q reading.
                    Post-lift-bind _ _ _
                      (λ x differs. record {
                        writes = log;
                        before = h.checked.before;
                        gated = h.gated;
                        at = e.provider;
                        replies =
                            mistaken receipt snapshot x p answer accepted reading differs
                              (after_accepted receipt.accepted x accepted);
                      })
                      λ _ matches. Post-assign-bind _ _ _ (
                        Post-inspect _ _ (
                          Post-ok _ _ (record {
                            sent = record {
                              writes = log;
                              before = h.checked.before;
                              gated = h.gated;
                              at = e.provider;
                              replies =
                                  shown receipt snapshot p answer accepted reading matches
                                    (confirm-cases c snapshot.amount_minor _);
                            };
                            after = snapshot.amount_minor;
                            after_minor = refl;
                            verdict = refl;
                          }))))

  -- Nothing was sent, or the one write was.
  abbrev pub Stopped : Failure → Env S → Type 0
  Stopped x e = Quiet w e ⊎ Broken x e

  pub attempt_write-Confirmed :
      (e : Env S) → Quiet w e → Post Confirmed Stopped (attempt_write sha256_payload adapter c e)
  unfolding attempt_write
  attempt_write-Confirmed e h =
      Post-bind _ _ e
        (Post-weaken _ (preflight-Checked sha256_payload adapter c w e h) (λ _ _ k. k)
          (λ _ _ k. inl k))
        λ _ e1 h1.
          Post-bind _ _ e1
            (Post-weaken _
              (run_before_write-Checked sha256_payload adapter c w adapter.before_provider_write e1
                h1)
              (λ _ _ k. k) (λ _ _ k. inl k))
            λ _ e2 h2.
              Post-bind _ _ e2
                (Post-weaken _
                  (final_gate-Ready sha256_payload adapter c w adapter.reauthorize_before_write e2
                    refl h2)
                  (λ _ _ k. k) (λ _ _ k. inl k))
                λ _ e3 h3.
                  Post-weaken _ (write_and_confirm-Confirmed e3 h3) (λ _ _ k. k) (λ _ _ k. inr k)

  module _ (e : Env S) (quiet : Quiet w e) where
    -- The first read failed.
    pub attempt_write-unread :
        (x : Failure) (p : S)
        → adapter.read_budget c.request e.provider ≡ (err x, p)
        → Post (λ _ _. ⊥) (λ y e'. (y ≡ x) × Quiet w e') (attempt_write sha256_payload adapter c e)
    unfolding attempt_write preflight
    attempt_write-unread x p reading =
        Post-bind _ _ e
          (Post-call-bind {R = λ _ _. ⊥} _ _ e
            (λ y q other. (
              cc (other, reading),
              record { writes = quiet.writes; not_accepted = quiet.not_accepted },
            ))
            λ b q other. absurd (cc (other, reading)))
          λ _ _ none. absurd none

    -- The provider shows another amount than the preview did.
    pub attempt_write-moved :
        (b : BudgetSnapshot) (p : S)
        → adapter.read_budget c.request e.provider ≡ (ok b, p)
        → snapshot_matches_request b c.request ≡ ok tt
        → b.amount_minor ≢ c.observed_before_minor
        → Post
            (λ _ _. ⊥)
            (λ y e'. (y ≡ conflict_error "provider_budget_changed") × Quiet w e')
            (attempt_write sha256_payload adapter c e)
    unfolding attempt_write preflight
    attempt_write-moved b p reading matches moved =
        Post-bind _ _ e
          (Post-call-bind {R = λ _ _. ⊥} _ _ e (λ y q other. absurd (cc (other, reading)))
            λ d q other.
              let same : b ≡ d = cc (other, reading) in
              Post-lift-bind _ _ _ (λ y differs. absurd (cc (same, differs, matches)))
                λ _ _. Post-assign-bind _ _ _ (
                  Post-lift _ _
                    (λ y raised. (
                      stopped_by _ _ _ raised,
                      record { writes = quiet.writes; not_accepted = quiet.not_accepted },
                    ))
                    λ _ fine. moved (
                      ap (λ (s : BudgetSnapshot). s.amount_minor) same
                      ∙ not_changed c d.amount_minor (raise_if-false _ _ fine))))
          λ _ _ none. absurd none
