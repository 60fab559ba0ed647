-- ===== src/Command/Preview/Submits.antt =====
-- What `submit` of `ProviderBudgetCommandService` does with a previewed change
-- (app/services/provider_budget_commands.py).
use Prim.Native.String.{String}
use client_dash_up.Base.{ℕ, ◌≤◌, ◌≡◌, ap, ◌∙◌, subst, false, some, List}
use client_dash_up.Base.Outcome.{ok, Ensures, Ensures-bind}
use client_dash_up.Command.Types.{
  queued, BudgetChangeRequest, BudgetSnapshot, BudgetActorContext, BudgetTenantContext,
  BudgetCredentialContext, ProviderBudgetCommand, CommandSubmission,
}
use client_dash_up.Command.Policy.{MayWrite}
use client_dash_up.Command.Store.{CommandStore, NewCommand, queued_command}
use client_dash_up.Command.Steps.Effects.{Submits, enqueues, replays, create_or_replay-Submits}
use client_dash_up.Command.Provider.{Adapter}
use client_dash_up.Command.Preview.Payloads.{Context}
use client_dash_up.Command.Preview.Signer.{
  Primitives, BudgetPreview, VerifiedPreview, token_payload, issue, verify,
}
use client_dash_up.Command.Preview.Opening.{Laws, ReadsBack}
use client_dash_up.Command.Preview.RoundTrip.{Redeems, issue-Redeems_iff, issue-observed}
use client_dash_up.Command.Preview.Service.{Signer, context_of, preview, submitted_command, submit}
use client_dash_up.Command.Preview.Previews.{authorized_signer-Ensures, preview-Previews}

-- A submission that was taken: its token was accepted, and the store took its command.
pub record Taken (p : Primitives) (signer : Signer) (c : Context) (token : List ℕ) (new_id now : ℕ)
    (store : CommandStore) (r : CommandSubmission × CommandStore) : Type 0 where
  pub ttl_seconds : ℕ
  pub has_signer : signer ≡ some ttl_seconds
  pub verified : VerifiedPreview
  pub accepts : verify p ttl_seconds token c now ≡ ok verified
  pub key : String
  pub submits : Submits (submitted_command p c key verified) new_id now store r

module _ (p : Primitives) (signer : Signer) (request : BudgetChangeRequest) (token : List ℕ)
    (key : String) (actor : BudgetActorContext) (tenant : BudgetTenantContext)
    (credential : BudgetCredentialContext) (new_id now : ℕ) (store : CommandStore) where
  pub submit-Taken :
      Ensures
        (λ r.
          MayWrite request actor tenant credential
          × Taken p signer (context_of request actor credential) token new_id now store r)
        (submit p signer request token key actor tenant credential new_id now store)
  unfolding submit
  submit-Taken = Ensures-bind λ ttl signs. Ensures-bind λ v accepts. Ensures-bind λ k _. record {
    at = λ r taken.
        let (has, may) =
          (authorized_signer-Ensures p request actor credential signer tenant).at ttl signs in
        (
          may,
          record {
            ttl_seconds = ttl;
            has_signer = has;
            verified = v;
            accepts = accepts;
            key = k;
            submits = (create_or_replay-Submits _ new_id now store).at r taken;
          },
        );
  }

-- The command that a submission has queued, against the preview `q` of the context `c`, whose reading
-- showed `observed`.
pub record Follows (p : Primitives) (ttl_seconds : ℕ) (c : Context) (observed : ℕ)
    (q : BudgetPreview) (c' : Context) (now : ℕ) (command : ProviderBudgetCommand) : Type 0 where
  pub verified : VerifiedPreview
  pub redeems : Redeems p ttl_seconds c q c' now verified
  pub is_queued : command.status ≡ queued
  pub request : command.request ≡ c'.request
  pub actor : command.actor_user_id ≡ c'.actor_user_id
  pub observed_before : command.observed_before_minor ≡ observed
  pub consumes : command.preview_hash ≡ q.preview_hash

new_row :
    (n : NewCommand) (new_id now : ℕ) (store : CommandStore) (r : CommandSubmission × CommandStore)
    → Submits n new_id now store r
    → r.0.replayed ≡ false
    → (key : String) × (r.0.command ≡ queued_command n key new_id now)
new_row n new_id now store r (enqueues key _ _ e) new = (key, ap (λ row. row.command) e.row)
new_row n new_id now store r (replays _ _ _ _ e) new =
    absurd (cc (new, ap (λ row. row.replayed) e.row))

Taken-Follows :
    (p : Primitives) (ttl_seconds : ℕ) (c : Context) (observed then' : ℕ) (nonce : String)
    (q : BudgetPreview) (c' : Context) (new_id now : ℕ) (store : CommandStore)
    (r : CommandSubmission × CommandStore)
    → Laws p
    → ReadsBack p (token_payload p ttl_seconds c observed then' nonce)
    → 1 ≤ ttl_seconds
    → issue p ttl_seconds c observed then' nonce ≡ ok q
    → r.0.replayed ≡ false
    → Taken p (some ttl_seconds) c' q.token new_id now store r
    → Follows p ttl_seconds c observed q c' now r.0.command
unfolding submitted_command queued_command
Taken-Follows p ttl_seconds c observed then' nonce q c' new_id now store r l reads lasts issued new
      t =
    let same_ttl : t.ttl_seconds ≡ ttl_seconds = let e = t.has_signer in cc (e) in
    let accepts = subst (λ k. verify p k q.token c' now ≡ ok t.verified) same_ttl t.accepts in
    let redeems =
      (issue-Redeems_iff p ttl_seconds c observed then' nonce q c' now t.verified l reads lasts
          issued).0
        accepts in
    let amount = issue-observed p ttl_seconds c observed then' nonce q issued in
    let (key, row) = new_row _ new_id now store r t.submits new in
    record {
      verified = t.verified;
      redeems = redeems;
      is_queued = ap (λ k. k.status) row;
      request = ap (λ k. k.request) row;
      actor = ap (λ k. k.actor_user_id) row;
      observed_before =
          ap (λ k. k.observed_before_minor) row
          ∙ ap (λ v. v.observed_before_minor) redeems.answer
          ∙ amount;
      consumes = ap (λ k. k.preview_hash) row ∙ ap (λ v. v.preview_hash) redeems.answer;
    }

-- A change that was previewed with the reading `snapshot`, submitted by its token: the command that is
-- queued carries the request and the actor of the submission, which may write and have the proofs of
-- the preview, and the amount that the provider showed then; it consumes this preview. The library's
-- laws hold, the JSON of the token reads back, and a preview lasts a second at least.
pub submit-Follows :
    {S : Type 0} (p : Primitives) (ttl_seconds : ℕ) (adapter : Adapter S)
    (request : BudgetChangeRequest) (actor : BudgetActorContext) (tenant : BudgetTenantContext)
    (credential : BudgetCredentialContext) (then' : ℕ) (nonce : String) (s s' : S)
    (snapshot : BudgetSnapshot) (q : BudgetPreview) (request' : BudgetChangeRequest) (key : String)
    (actor' : BudgetActorContext) (tenant' : BudgetTenantContext)
    (credential' : BudgetCredentialContext) (new_id now : ℕ) (store : CommandStore)
    (r : CommandSubmission × CommandStore)
    → Laws p
    → ReadsBack p (
        token_payload p ttl_seconds
          (context_of request actor credential)
          snapshot.amount_minor
          then'
          nonce)
    → 1 ≤ ttl_seconds
    → adapter.read_budget request s ≡ (ok snapshot, s')
    → preview p (some ttl_seconds) adapter request actor tenant credential then' nonce s
      ≡ (ok q, s')
    → submit p (some ttl_seconds) request' q.token key actor' tenant' credential' new_id now store
      ≡ ok r
    → r.0.replayed ≡ false
    → MayWrite request' actor' tenant' credential'
      × Follows p ttl_seconds
          (context_of request actor credential)
          snapshot.amount_minor
          q
          (context_of request' actor' credential')
          now
          r.0.command
submit-Follows p ttl_seconds adapter request actor tenant credential then' nonce s s' snapshot q
      request' key actor' tenant' credential' new_id now store r l reads lasts read previewed
      submitted new =
    let pv =
      preview-Previews p (some ttl_seconds) adapter request actor tenant credential then' nonce s s'
        q previewed in
    let (may, taken) =
      (submit-Taken p (some ttl_seconds) request' q.token key actor' tenant' credential' new_id now
          store).at
        r submitted in
    let same_ttl : pv.ttl_seconds ≡ ttl_seconds = let e = pv.has_signer in cc (e) in
    let same_snapshot : pv.snapshot ≡ snapshot = let e = pv.read in cc (e, read) in
    let issued : issue p ttl_seconds (context_of request actor credential) snapshot.amount_minor
          then' nonce
        ≡ ok q =
      cc (pv.issued, same_ttl, same_snapshot) in
    (
      may,
      Taken-Follows p ttl_seconds (context_of request actor credential) snapshot.amount_minor then'
          nonce q (context_of request' actor' credential') new_id now store r l reads lasts issued
          new taken,
    )
