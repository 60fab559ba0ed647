-- ===== src/Command/Preview/Examples.antt =====
-- Runs of the previews of app/services/provider_budget_commands.py on one change, and the theorems
-- at them.
use Prim.Native.String.{String}
use client_dash_up.Base.{
  ℕ, zero, suc, ◌+◌, ◌%◌, ◌≡◌, ◌≢◌, ◌↔◌, refl, arith, false, none, some, List, [], ◌∷◌, map, All,
  length,
}
use client_dash_up.Base.Text.{codes}
use client_dash_up.Base.Outcome.{ok, err, ◌>>=◌ as outcome_bind, raise_if, or_raise}
use client_dash_up.Command.Types.{CommandSubmission, ProviderBudgetCommand, preview_expired_error}
use client_dash_up.Command.Authorize.{
  authorize_budget_write, authorize_role, authorize_agency, budget_authorization_snapshot,
  budget_credential_audit_snapshot,
}
use client_dash_up.Command.Policy.{MayWrite}
use client_dash_up.Command.Store.{
  CommandStore, empty_store, create_or_replay, enqueue, validate_idempotency_key, queued_command,
  put_item, put_keys, same_target, is_space, is_key_code,
}
use client_dash_up.Command.Snapshots.{
  Json, Payload, authorization_payload, credential_payload, snapshot_matches_request,
}
use client_dash_up.Command.Fixtures.{request, actor, tenant, credential, shown, adapter}
use client_dash_up.Command.Preview.Base64.{b64_encode, b64_decode, char_of, bits_of, is_b64_code}
use client_dash_up.Command.Preview.Decoding.{IsByte, b64_decode_iff}
use client_dash_up.Command.Preview.Payloads.{
  Entry, plain, dict, Document, flat, Context, request_payload, context_document, command_document,
}
use client_dash_up.Command.Preview.Signer.{
  Primitives, BudgetPreview, VerifiedPreview, context_proof, authorization_proof, credential_proof,
  request_proof, token_payload, signed, issue, read_payload, open_token, check_payload, verify,
}
use client_dash_up.Command.Preview.Opening.{Laws, ReadsBack}
use client_dash_up.Command.Preview.Verifies.{Verifies, verify-Verifies}
use client_dash_up.Command.Preview.IssuedFor.{NoCollision, Serves, issue-verify_iff}
use client_dash_up.Command.Preview.Service.{
  context_of, authorized_signer, preview_reading, preview, command_idempotency_hash,
  submitted_command, submit,
}
use client_dash_up.Command.Preview.Previews.{Previews, preview-Previews}
use client_dash_up.Command.Preview.Submits.{Follows, submit-Follows}

abbrev two_bytes : List ℕ
two_bytes = 255 ∷ 1 ∷ []

b64_decode_iff_example :
    (b64_decode (codes "_wE") ≡ ok two_bytes)
    ↔ ((codes "_wE" ≡ b64_encode two_bytes) × (two_bytes ≢ []) × All IsByte two_bytes)
b64_decode_iff_example = b64_decode_iff (codes "_wE") two_bytes

decodes : b64_decode (codes "_wE") ≡ ok two_bytes
unfolding b64_decode b64_encode char_of bits_of is_b64_code outcome_bind raise_if
decodes = refl

-- The same byte with other spare bits is refused.
decodes_canonical_only : b64_decode (codes "_wF") ≢ ok two_bytes
unfolding b64_decode b64_encode char_of bits_of is_b64_code outcome_bind raise_if
decodes_canonical_only h = cc (h)

-- A library for the runs: a checksum for a digest, and JSON that keeps the sizes of the entries.
abbrev size_of : Json → ℕ
size_of (Json.number n) = n % 256
size_of (Json.text t) = length (codes t) % 256
size_of _ = 1

abbrev entry_size : String × Entry → ℕ
entry_size (k, plain j) = size_of j
entry_size (k, dict d) = length d % 256

abbrev sum : List ℕ → ℕ
sum [] = 0
sum (b ∷ bs) = b + sum bs

abbrev repeat : ℕ → String
repeat zero = ""
repeat (suc n) = String.◌∷◌ "f" (repeat n)

abbrev unread : Primitives
unread = record {
  hmac = λ m. (sum m % 16) ∷ 7 ∷ [];
  hex = λ m. repeat (sum m);
  sha256_hex = λ m. repeat (length m);
  canonical_json = λ d. 123 ∷ map (λ e. entry_size e % 256) d;
  json_loads = λ _. none;
  int_of = λ j. elim j [ Json.number n ↦ some n | _ ↦ none ];
  str_of = λ j. elim j [ Json.text t ↦ t | _ ↦ "" ];
}

abbrev context : Context
context = context_of request actor credential

abbrev nonce : String
nonce = "n"

abbrev payload : Payload
payload = token_payload unread 300 context 4000 10000000 nonce

-- It reads one text back.
abbrev library : Primitives
library = record unread { json_loads = λ _. some payload }

library_bytes : (d : Document) → All IsByte (map (λ e. entry_size e % 256) d)
library_bytes [] = tt
library_bytes (e ∷ d) = (omega arith, library_bytes d)

library-Laws : Laws library
library-Laws = record {
  hmac_bytes = λ m. omega arith;
  hmac_some = λ m e. cc (e);
  json_bytes = λ d. (omega arith, library_bytes d);
  json_some = λ d e. cc (e);
  int_of_number = λ n. refl;
  str_of_text = λ t. refl;
}

library-ReadsBack : ReadsBack library (token_payload library 300 context 4000 10000000 nonce)
unfolding token_payload context_proof authorization_proof credential_proof request_proof
library-ReadsBack = record { result = payload; loads = refl; same = λ k. refl }

-- Opens the previews in the tests.
previews : ℕ
unfolding context_proof authorization_proof credential_proof request_proof token_payload signed
    issue read_payload open_token check_payload verify b64_decode b64_encode char_of bits_of
    is_b64_code outcome_bind raise_if or_raise authorized_signer preview_reading preview
    command_idempotency_hash submitted_command submit request_payload context_document
    command_document authorization_payload credential_payload snapshot_matches_request
    authorize_budget_write authorize_role authorize_agency budget_authorization_snapshot
    budget_credential_audit_snapshot create_or_replay enqueue validate_idempotency_key
    queued_command put_item put_keys same_target is_space is_key_code
previews = 0

-- A preview at ten seconds of a budget that shows 4000.
abbrev previewed : BudgetPreview
previewed = record {
  request = request;
  observed_before_minor = 4000;
  token = signed library 300 (library.canonical_json (flat payload));
  request_hash = request_proof library 300 context;
  preview_hash = library.sha256_hex (signed library 300 (library.canonical_json (flat payload)));
  issued_at = 10000000;
  expires_at = 310000000;
}

preview_run :
    preview library (some 300) adapter request actor tenant credential 10000000 nonce 4000
    ≡ (ok previewed, 4000)
unfolding previews
preview_run = refl

issue_run : issue library 300 context 4000 10000000 nonce ≡ ok previewed
unfolding previews
issue_run = refl

preview-Previews_example :
    Previews library
      (some 300)
      adapter
      request
      actor
      tenant
      credential
      10000000
      nonce
      4000
      4000
      previewed
preview-Previews_example =
    preview-Previews library (some 300) adapter request actor tenant credential 10000000 nonce 4000
      4000 previewed preview_run

-- The answer of `verify` a minute later.
abbrev redeemed : VerifiedPreview
redeemed = record {
  request_hash = request_proof library 300 context;
  actor_user_id = 9;
  observed_before_minor = 4000;
  issued_at = 10000000;
  expires_at = 310000000;
  preview_hash = previewed.preview_hash;
  authorization_snapshot_hash = authorization_proof library 300 context;
  credential_snapshot_hash = credential_proof library 300 context;
}

verify_run : verify library 300 previewed.token context 70000000 ≡ ok redeemed
unfolding previews
verify_run = refl

-- Once the five minutes are over the token is refused.
verify_late :
    verify library 300 previewed.token context 310000000
    ≡ err (preview_expired_error "preview_expired")
unfolding previews
verify_late = refl

same_NoCollision : NoCollision library context context
same_NoCollision = record { digest = λ _. refl; json = λ _. refl }

issue-verify_iff_example :
    (verify library 300 previewed.token context 70000000 ≡ ok redeemed)
    ↔ Serves library 300 context 4000 10000000 previewed context 70000000 redeemed
issue-verify_iff_example =
    issue-verify_iff library 300 context 4000 10000000 nonce previewed context 70000000 redeemed
      library-Laws same_NoCollision library-ReadsBack (omega arith) issue_run

verify-Verifies_example : Verifies library 300 previewed.token context 70000000 redeemed
verify-Verifies_example =
    (verify-Verifies library 300 previewed.token context 70000000).at redeemed verify_run

abbrev first_command : ProviderBudgetCommand
first_command =
    queued_command (submitted_command library context "key-00001" redeemed) "key-00001" 1 70000000

abbrev submission : CommandSubmission × CommandStore
submission = (
  record { command = first_command; replayed = false },
  put_keys first_command (put_item 1 first_command empty_store),
)

submit_run :
    submit library
      (some 300)
      request
      previewed.token
      "key-00001"
      actor
      tenant
      credential
      1
      70000000
      empty_store
    ≡ ok submission
unfolding previews
submit_run = refl

submit-Follows_example :
    MayWrite request actor tenant credential
    × Follows library 300 context 4000 previewed context 70000000 first_command
submit-Follows_example =
    submit-Follows library 300 adapter request actor tenant credential 10000000 nonce 4000 4000
      (shown request 4000) previewed request "key-00001" actor tenant credential 1 70000000
      empty_store submission library-Laws library-ReadsBack (omega arith) refl preview_run
      submit_run refl
