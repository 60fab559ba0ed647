-- ===== src/Command/Preview/Previews.antt =====
-- What `preview` of `ProviderBudgetCommandService` does
-- (app/services/provider_budget_commands.py).
use Prim.Native.String.{String}
use client_dash_up.Base.{ℕ, ◌≡◌, ◌≢◌, refl, ap, arith, false, Option, none, some}
use client_dash_up.Base.Outcome.{
  ok, err, raise_if-false, or_raise-some, Ensures, Ensures-ok, Ensures-bind, >>=-eq-ok,
}
use client_dash_up.Command.Types.{
  Fallible, BudgetChangeRequest, BudgetSnapshot, BudgetActorContext, BudgetTenantContext,
  BudgetCredentialContext,
}
use client_dash_up.Command.Policy.{MayWrite}
use client_dash_up.Command.Policy.Decides.{authorize_budget_write_iff}
use client_dash_up.Command.Snapshots.{snapshot_matches_request}
use client_dash_up.Command.Provider.{Adapter}
use client_dash_up.Command.Preview.Signer.{Primitives, BudgetPreview, issue}
use client_dash_up.Command.Preview.Service.{
  Signer, context_of, authorized_signer, is_expected, preview_reading, read_and_issue, preview,
}

-- A reading that can be previewed.
pub record CanPreview (request : BudgetChangeRequest) (snapshot : BudgetSnapshot) : Type 0 where
  pub matches : snapshot_matches_request snapshot request ≡ ok tt
  pub changes : snapshot.amount_minor ≢ request.amount_minor
  pub as_expected : (n : ℕ) → request.expected_current_minor ≡ some n → snapshot.amount_minor ≡ n

is_expected-eq :
    (o : Option ℕ) (amount n : ℕ) → is_expected o amount ≡ false → o ≡ some n → amount ≡ n
is_expected-eq none amount n h e = absurd (cc)
is_expected-eq (some m) amount n h e = ground arith

module _ (p : Primitives) (request : BudgetChangeRequest) (actor : BudgetActorContext)
    (credential : BudgetCredentialContext) where
  preview_reading-Ensures :
      (ttl_seconds now : ℕ) (nonce : String) (snapshot : BudgetSnapshot)
      → Ensures
          (λ q.
            CanPreview request snapshot
            × (issue p ttl_seconds
                  (context_of request actor credential)
                  snapshot.amount_minor
                  now
                  nonce
                ≡ ok q))
          (preview_reading p ttl_seconds request actor credential now nonce snapshot)
  unfolding preview_reading
  preview_reading-Ensures ttl_seconds now nonce snapshot = Ensures-bind λ _ matches.
      Ensures-bind λ _ changes. Ensures-bind λ _ expected. record {
        at = λ q issued. (
          record {
            matches = matches;
            changes = λ e. let same = raise_if-false _ _ changes in ground arith;
            as_expected = λ n e. is_expected-eq _ _ n (raise_if-false _ _ expected) e;
          },
          issued,
        );
      }

  pub authorized_signer-Ensures :
      (signer : Signer) (tenant : BudgetTenantContext)
      → Ensures
          (λ ttl. (signer ≡ some ttl) × MayWrite request actor tenant credential)
          (authorized_signer signer request actor tenant credential)
  unfolding authorized_signer
  authorized_signer-Ensures signer tenant = Ensures-bind λ ttl has. Ensures-bind λ _ allowed.
      Ensures-ok (
        or_raise-some _ _ _ has,
        (authorize_budget_write_iff request actor tenant credential).0 allowed,
      )

-- A preview that was given: the actor may write, and the provider was read once and written never.
pub record Previews {S : Type 0} (p : Primitives) (signer : Signer) (adapter : Adapter S)
    (request : BudgetChangeRequest) (actor : BudgetActorContext) (tenant : BudgetTenantContext)
    (credential : BudgetCredentialContext) (now : ℕ) (nonce : String) (s s' : S) (q : BudgetPreview)
    : Type 0 where
  pub ttl_seconds : ℕ
  pub has_signer : signer ≡ some ttl_seconds
  pub may_write : MayWrite request actor tenant credential
  pub snapshot : BudgetSnapshot
  pub read : adapter.read_budget request s ≡ (ok snapshot, s')
  pub can : CanPreview request snapshot
  pub issued :
      issue p ttl_seconds (context_of request actor credential) snapshot.amount_minor now nonce
      ≡ ok q

module _ {S : Type 0} (p : Primitives) (signer : Signer) (adapter : Adapter S)
    (request : BudgetChangeRequest) (actor : BudgetActorContext) (tenant : BudgetTenantContext)
    (credential : BudgetCredentialContext) (now : ℕ) (nonce : String) (s s' : S)
    (q : BudgetPreview) where
  Previews-of_signer :
      (r : Fallible ℕ)
      → authorized_signer signer request actor tenant credential ≡ r
      → read_and_issue p signer adapter request actor tenant credential now nonce s r ≡ (ok q, s')
      → Previews p signer adapter request actor tenant credential now nonce s s' q
  Previews-of_signer (err x) e h = absurd (cc (h))
  Previews-of_signer (ok ttl) e h =
      let (has, may) =
        (authorized_signer-Ensures p request actor credential signer tenant).at ttl e in
      let (snapshot, read, rest) = >>=-eq-ok _ _ (ap (λ r. r.0) h) in
      let (can, issued) =
        (preview_reading-Ensures p request actor credential ttl now nonce snapshot).at q rest in
      record {
        ttl_seconds = ttl;
        has_signer = has;
        may_write = may;
        snapshot = snapshot;
        read = cc (h, read);
        can = can;
        issued = issued;
      }

  -- `preview` gives a token only to an actor that may write, after one reading of the provider, which
  -- it does not write to; the reading is of the request's target, it differs from the amount asked
  -- for and is the one expected, where one is; the token is issued for it.
  pub preview-Previews :
      preview p signer adapter request actor tenant credential now nonce s ≡ (ok q, s')
      → Previews p signer adapter request actor tenant credential now nonce s s' q
  unfolding preview
  preview-Previews h = Previews-of_signer _ refl h
