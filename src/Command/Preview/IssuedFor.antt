-- ===== src/Command/Preview/IssuedFor.antt =====
-- A token serves the context it was issued for, and no other
-- (app/services/provider_budget_commands.py).
use client_dash_up.Base.{ℕ, ◌+◌, ◌*◌, ◌/◌, ◌≤◌, ◌<◌, ◌≡◌, ◌↔◌, sym, ap, subst, ◌∷◌, ◌++◌}
use client_dash_up.Base.Text.{codes}
use client_dash_up.Base.Outcome.{ok}
use client_dash_up.Command.Preview.Payloads.{Context, context_document}
use client_dash_up.Command.Preview.Documents.{context_document-injective}
use client_dash_up.Command.Preview.Signer.{
  Primitives, BudgetPreview, VerifiedPreview, second, end_of_time, token_payload, issue, verify,
  context_proof, request_proof, authorization_proof, credential_proof,
}
use client_dash_up.Command.Preview.Opening.{Laws, ReadsBack}
use client_dash_up.Command.Preview.RoundTrip.{Redeems, issue-Redeems_iff, issue-times}
use Prim.Native.String.{String}

-- What the library must do to tell two contexts apart: the digests of their texts do not collide, and
-- JSON does not write their documents alike.
pub record NoCollision (p : Primitives) (c c' : Context) : Type 0 where
  pub digest :
      p.hex (p.hmac (codes "request" ++ 0 ∷ p.canonical_json (context_document c)))
        ≡ p.hex (p.hmac (codes "request" ++ 0 ∷ p.canonical_json (context_document c')))
      → p.canonical_json (context_document c) ≡ p.canonical_json (context_document c')
  pub json :
      p.canonical_json (context_document c) ≡ p.canonical_json (context_document c')
      → context_document c ≡ context_document c'

-- A call with the context of the preview, in its time, and the answer to it.
pub record Serves (p : Primitives) (ttl_seconds : ℕ) (c : Context) (observed now : ℕ)
    (preview : BudgetPreview) (c' : Context) (now' : ℕ) (v : VerifiedPreview) : Type 0 where
  pub request : c'.request ≡ c.request
  pub actor : c'.actor_user_id ≡ c.actor_user_id
  pub authorization : c'.authorization_snapshot ≡ c.authorization_snapshot
  pub credential : c'.credential_snapshot ≡ c.credential_snapshot
  pub unexpired : now' < (now + ttl_seconds * second) / second * second
  pub in_time : now' + 60 * second < end_of_time
  pub not_early : now / second * second ≤ now' + 60 * second
  pub answer : v ≡ record {
    request_hash = preview.request_hash;
    actor_user_id = c.actor_user_id;
    observed_before_minor = observed;
    issued_at = now / second * second;
    expires_at = (now + ttl_seconds * second) / second * second;
    preview_hash = preview.preview_hash;
    authorization_snapshot_hash = authorization_proof p ttl_seconds c;
    credential_snapshot_hash = credential_proof p ttl_seconds c;
  }

same_request_proof :
    (p : Primitives) (ttl_seconds : ℕ) (c c' : Context)
    → NoCollision p c c'
    → request_proof p ttl_seconds c ≡ request_proof p ttl_seconds c'
    → c ≡ c'
unfolding request_proof context_proof
same_request_proof p ttl_seconds c c' apart e =
    context_document-injective c c' (apart.json (apart.digest e))

module _ (p : Primitives) (ttl_seconds : ℕ) (c : Context) (observed now : ℕ) (nonce : String)
    (preview : BudgetPreview) (c' : Context) (now' : ℕ) (v : VerifiedPreview) where
  Redeems-Serves :
      NoCollision p c c'
      → issue p ttl_seconds c observed now nonce ≡ ok preview
      → Redeems p ttl_seconds c preview c' now' v
      → Serves p ttl_seconds c observed now preview c' now' v
  Redeems-Serves apart issued h =
      let same = same_request_proof p ttl_seconds c c' apart h.same_request in
      let (from, to, shown) = issue-times p ttl_seconds c observed now nonce preview issued in
      record {
        request = ap (λ (k : Context). k.request) (sym same);
        actor = ap (λ (k : Context). k.actor_user_id) (sym same);
        authorization = ap (λ (k : Context). k.authorization_snapshot) (sym same);
        credential = ap (λ (k : Context). k.credential_snapshot) (sym same);
        unexpired = subst (λ t. now' < t / second * second) to h.unexpired;
        in_time = h.in_time;
        not_early = subst (λ t. t / second * second ≤ now' + 60 * second) from h.not_early;
        answer = cc (h.answer, from, to, shown, same);
      }

  Serves-Redeems :
      issue p ttl_seconds c observed now nonce ≡ ok preview
      → Serves p ttl_seconds c observed now preview c' now' v
      → Redeems p ttl_seconds c preview c' now' v
  Serves-Redeems issued h =
      let same : c ≡ c' = λ i. record {
        request = sym h.request i;
        actor_user_id = sym h.actor i;
        authorization_snapshot = sym h.authorization i;
        credential_snapshot = sym h.credential i;
      } in
      let (from, to, shown) = issue-times p ttl_seconds c observed now nonce preview issued in
      record {
        unexpired = subst (λ t. now' < t / second * second) (sym to) h.unexpired;
        in_time = h.in_time;
        not_early = subst (λ t. t / second * second ≤ now' + 60 * second) (sym from) h.not_early;
        same_authorization = ap (authorization_proof p ttl_seconds) same;
        same_credential = ap (credential_proof p ttl_seconds) same;
        same_request = ap (request_proof p ttl_seconds) same;
        answer = cc (h.answer, from, to, shown, same);
      }

-- A token that `issue` wrote passes `verify` at a later call exactly when the call has the context it
-- was issued for (the same request in all its fields, the same actor, and the same snapshots of the
-- authorisation and of the connection), and its time lies before the whole second in which the preview
-- expires and at most a minute before the one in which it was issued; the answer then has the actor,
-- the amount, the times and the hashes of the preview. This holds where the digests of the two
-- contexts do not collide and JSON writes their documents apart; the JSON of the token reads back as
-- it was, digests and JSON texts are bytes, and a preview lasts a second at least.
pub issue-verify_iff :
    (p : Primitives) (ttl_seconds : ℕ) (c : Context) (observed now : ℕ) (nonce : String)
    (preview : BudgetPreview) (c' : Context) (now' : ℕ) (v : VerifiedPreview)
    → Laws p
    → NoCollision p c c'
    → ReadsBack p (token_payload p ttl_seconds c observed now nonce)
    → 1 ≤ ttl_seconds
    → issue p ttl_seconds c observed now nonce ≡ ok preview
    → (verify p ttl_seconds preview.token c' now' ≡ ok v)
      ↔ Serves p ttl_seconds c observed now preview c' now' v
issue-verify_iff p ttl_seconds c observed now nonce preview c' now' v l apart r lasts issued =
    let (to, back) =
      issue-Redeems_iff p ttl_seconds c observed now nonce preview c' now' v l r lasts issued in
    (
      λ h. Redeems-Serves p ttl_seconds c observed now nonce preview c' now' v apart issued (to h),
      λ h. back (Serves-Redeems p ttl_seconds c observed now nonce preview c' now' v issued h),
    )
