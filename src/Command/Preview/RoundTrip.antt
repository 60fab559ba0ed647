-- ===== src/Command/Preview/RoundTrip.antt =====
-- When a token of `issue` passes `verify` (app/services/provider_budget_commands.py).
use Prim.Native.String.{String}
use client_dash_up.Base.{
  ℕ, ◌+◌, ◌*◌, ◌/◌, ◌≤◌, ◌<◌, ◌≡◌, ◌↔◌, refl, sym, ap, ◌∙◌, subst, arith, List,
}
use client_dash_up.Base.Outcome.{
  ok, ◌>>◌, ok_eq, raise_if-false, bind_eq, bind_ok, Ensures, Ensures-ok, Ensures-bind,
}
use client_dash_up.Command.Preview.Payloads.{flat, Context}
use client_dash_up.Command.Preview.Signer.{
  Primitives, BudgetPreview, VerifiedPreview, second, end_of_time, signed, token_payload, issue,
  check_payload, verify, request_proof, authorization_proof, credential_proof,
}
use client_dash_up.Command.Preview.Opening.{
  Laws, ReadsBack, open_token-signed, issued_payload, read_payload-token_payload,
}
use client_dash_up.Command.Preview.Verifies.{Checks, check_payload-Checks, check_payload-ok}

module _ (p : Primitives) (ttl_seconds : ℕ) where
  -- The preview of a context is verified in another one: the other has the same proofs, the time
  -- lies before the whole second in which the preview expires and at most a minute before the one in
  -- which it was issued, and the answer has the amount of the preview.
  pub record Redeems (c : Context) (preview : BudgetPreview) (c' : Context) (now : ℕ)
      (v : VerifiedPreview) : Type 0 where
    pub unexpired : now < preview.expires_at / second * second
    pub in_time : now + 60 * second < end_of_time
    pub not_early : preview.issued_at / second * second ≤ now + 60 * second
    pub same_authorization :
        authorization_proof p ttl_seconds c ≡ authorization_proof p ttl_seconds c'
    pub same_credential : credential_proof p ttl_seconds c ≡ credential_proof p ttl_seconds c'
    pub same_request : request_proof p ttl_seconds c ≡ request_proof p ttl_seconds c'
    pub answer : v ≡ record {
      request_hash = preview.request_hash;
      actor_user_id = c'.actor_user_id;
      observed_before_minor = preview.observed_before_minor;
      issued_at = preview.issued_at / second * second;
      expires_at = preview.expires_at / second * second;
      preview_hash = preview.preview_hash;
      authorization_snapshot_hash = authorization_proof p ttl_seconds c;
      credential_snapshot_hash = credential_proof p ttl_seconds c;
    }

  unfoldable issued_token : Context → ℕ → ℕ → String → List ℕ
  issued_token c observed now nonce =
      signed p ttl_seconds
        (p.canonical_json (flat (token_payload p ttl_seconds c observed now nonce)))

  unfoldable issued_preview : Context → ℕ → ℕ → String → BudgetPreview
  issued_preview c observed now nonce = record {
    request = c.request;
    observed_before_minor = observed;
    token = issued_token c observed now nonce;
    request_hash = request_proof p ttl_seconds c;
    preview_hash = p.sha256_hex (issued_token c observed now nonce);
    issued_at = now;
    expires_at = now + ttl_seconds * second;
  }

  issue-issued_preview :
      (c : Context) (observed now : ℕ) (nonce : String)
      → Ensures
          (λ preview.
            (now + ttl_seconds * second < end_of_time)
            × (issued_preview c observed now nonce ≡ preview))
          (issue p ttl_seconds c observed now nonce)
  unfolding issue issued_preview issued_token
  issue-issued_preview c observed now nonce =
      Ensures-bind λ _ fits. let early = raise_if-false _ _ fits in Ensures-ok (ground arith, refl)

  pub issue-observed :
      (c : Context) (observed now : ℕ) (nonce : String) (preview : BudgetPreview)
      → issue p ttl_seconds c observed now nonce ≡ ok preview
      → preview.observed_before_minor ≡ observed
  unfolding issued_preview
  issue-observed c observed now nonce preview issued =
      ap (λ q. q.observed_before_minor)
        (sym ((issue-issued_preview c observed now nonce).at preview issued).1)

  pub issue-times :
      (c : Context) (observed now : ℕ) (nonce : String) (preview : BudgetPreview)
      → issue p ttl_seconds c observed now nonce ≡ ok preview
      → (preview.issued_at ≡ now)
        × (preview.expires_at ≡ now + ttl_seconds * second)
        × (preview.observed_before_minor ≡ observed)
  unfolding issued_preview
  issue-times c observed now nonce preview issued =
      let e = sym ((issue-issued_preview c observed now nonce).at preview issued).1 in
      (ap (λ q. q.issued_at) e, ap (λ q. q.expires_at) e, ap (λ q. q.observed_before_minor) e)

module _ (p : Primitives) (ttl_seconds : ℕ) where
  module _ (l : Laws p) (c : Context) (observed now : ℕ) (nonce : String)
      (r : ReadsBack p (token_payload p ttl_seconds c observed now nonce))
      (in_time : now + ttl_seconds * second < end_of_time) (c' : Context) (now' : ℕ) where
    -- The answer of `verify`, once the times and the proofs are checked.
    abbrev redeemed : VerifiedPreview
    redeemed = record {
      request_hash = request_proof p ttl_seconds c;
      actor_user_id = c'.actor_user_id;
      observed_before_minor = observed;
      issued_at = now / second * second;
      expires_at = (now + ttl_seconds * second) / second * second;
      preview_hash = p.sha256_hex (issued_token p ttl_seconds c observed now nonce);
      authorization_snapshot_hash = authorization_proof p ttl_seconds c;
      credential_snapshot_hash = credential_proof p ttl_seconds c;
    }

    verify-issued_token :
        verify p ttl_seconds (issued_token p ttl_seconds c observed now nonce) c' now' ≡ (
          check_payload p ttl_seconds (issued_payload p ttl_seconds c observed now) c' now'
          >> ok redeemed)
    unfolding verify issued_token issued_payload
    verify-issued_token =
        let bytes = p.canonical_json (flat (token_payload p ttl_seconds c observed now nonce)) in
        bind_eq _ _ (open_token-signed p ttl_seconds l bytes (l.json_some _) (l.json_bytes _))
        ∙ bind_eq _ _ (read_payload-token_payload p ttl_seconds l c observed now nonce r in_time)

    Redeems-of_Checks :
        (v : VerifiedPreview)
        → redeemed ≡ v
        → Checks p ttl_seconds (issued_payload p ttl_seconds c observed now) c' now'
        → Redeems p ttl_seconds c (issued_preview p ttl_seconds c observed now nonce) c' now' v
    unfolding issued_preview issued_payload
    Redeems-of_Checks v e h = record {
      unexpired = h.unexpired;
      in_time = h.in_time;
      not_early = h.not_early;
      same_authorization = h.same_authorization;
      same_credential = h.same_credential;
      same_request = h.same_request;
      answer = sym e;
    }

    Checks-of_Redeems :
        (v : VerifiedPreview)
        → 1 ≤ ttl_seconds
        → Redeems p ttl_seconds c (issued_preview p ttl_seconds c observed now nonce) c' now' v
        → Checks p ttl_seconds (issued_payload p ttl_seconds c observed now) c' now'
    unfolding issued_preview issued_payload
    Checks-of_Redeems v lasts h = record {
      unexpired = h.unexpired;
      in_time = h.in_time;
      not_early = h.not_early;
      lasting = omega arith;
      same_authorization = h.same_authorization;
      same_credential = h.same_credential;
      same_request = h.same_request;
    }

    verify-Redeems :
        Ensures
          (Redeems p ttl_seconds c (issued_preview p ttl_seconds c observed now nonce) c' now')
          (verify p ttl_seconds (issued_token p ttl_seconds c observed now nonce) c' now')
    verify-Redeems = subst (Ensures _) (sym verify-issued_token) (
        Ensures-bind λ _ checked. record {
          at = λ v e.
              Redeems-of_Checks v (ok_eq e)
                ((check_payload-Checks p ttl_seconds _ c' now').at tt checked);
        })

    Redeems-verify :
        (v : VerifiedPreview)
        → 1 ≤ ttl_seconds
        → Redeems p ttl_seconds c (issued_preview p ttl_seconds c observed now nonce) c' now' v
        → verify p ttl_seconds (issued_token p ttl_seconds c observed now nonce) c' now' ≡ ok v
    Redeems-verify v lasts h =
        verify-issued_token
        ∙ bind_ok _ _ (check_payload-ok p ttl_seconds _ c' now' (Checks-of_Redeems v lasts h))
            (ap ok (unfold issued_preview in sym h.answer))

    issued_preview_iff :
        (v : VerifiedPreview)
        → 1 ≤ ttl_seconds
        → (verify p ttl_seconds (issued_preview p ttl_seconds c observed now nonce).token c' now'
            ≡ ok v)
          ↔ Redeems p ttl_seconds c (issued_preview p ttl_seconds c observed now nonce) c' now' v
    unfolding issued_preview
    issued_preview_iff v lasts = (verify-Redeems.at v, Redeems-verify v lasts)

-- A token that `issue` wrote passes `verify` at a later call exactly when the call's authorisation,
-- connection and request (with its actor) have the proofs of the preview and the time lies before the
-- whole second in which the preview expires and at most a minute before the one in which it was
-- issued; the answer then has the amount and the hashes of the preview. The JSON of the token reads
-- back as it was, digests and JSON texts are bytes, and a preview lasts a second at least.
pub issue-Redeems_iff :
    (p : Primitives) (ttl_seconds : ℕ) (c : Context) (observed now : ℕ) (nonce : String)
    (preview : BudgetPreview) (c' : Context) (now' : ℕ) (v : VerifiedPreview)
    → Laws p
    → ReadsBack p (token_payload p ttl_seconds c observed now nonce)
    → 1 ≤ ttl_seconds
    → issue p ttl_seconds c observed now nonce ≡ ok preview
    → (verify p ttl_seconds preview.token c' now' ≡ ok v)
      ↔ Redeems p ttl_seconds c preview c' now' v
issue-Redeems_iff p ttl_seconds c observed now nonce preview c' now' v l r lasts issued =
    let (in_time, e) =
      (issue-issued_preview p ttl_seconds c observed now nonce).at preview issued in
    subst
      (λ (q : BudgetPreview).
        (verify p ttl_seconds q.token c' now' ≡ ok v) ↔ Redeems p ttl_seconds c q c' now' v)
      e (issued_preview_iff p ttl_seconds l c observed now nonce r in_time c' now' v lasts)
