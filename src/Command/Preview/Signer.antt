-- ===== src/Command/Preview/Signer.antt =====
-- `PreviewSigner` (app/services/provider_budget_commands.py). A text that is signed is a list of
-- code points, an instant is a number of microseconds.
use Prim.Native.String.{String}
use client_dash_up.Base.{
  ℕ, ◌+◌, ◌*◌, ◌/◌, Bool, true, false, not, ◌&&◌, ◌||◌, length, Option, none, some, List, [], ◌∷◌,
  ◌++◌, ◌==◌, leb, ltb, if◌then◌else◌,
}
use client_dash_up.Base.Int.{ℤ, pos, negsuc}
use client_dash_up.Base.Text.{codes, codes_eq, str_eq}
use client_dash_up.Base.Outcome.{ok, err, ◌>>=◌, ◌>>◌, raise_if, or_raise}
use client_dash_up.Command.Types.{
  Fallible, validation_error, preview_token_error, preview_expired_error, other_exception,
  BudgetChangeRequest,
}
use client_dash_up.Command.Snapshots.{Json, Payload, authorization_payload, credential_payload}
use client_dash_up.Command.Preview.Base64.{b64_encode, b64_decode}
use client_dash_up.Command.Preview.Payloads.{Document, flat, item, Context, context_document}

-- What the signer uses of the language's library: HMAC-SHA-256 under its secret, the hexadecimal
-- text of a digest, SHA-256, JSON (`none` where it raises or the text is no dictionary of plain
-- values), and `int` and `str` of a JSON value.
pub record Primitives : Type 0 where
  pub hmac : List ℕ → List ℕ
  pub hex : List ℕ → String
  pub sha256_hex : List ℕ → String
  pub canonical_json : Document → List ℕ
  pub json_loads : List ℕ → Option Payload
  pub int_of : Json → Option ℕ
  pub str_of : Json → String

pub record BudgetPreview : Type 0 where
  pub request : BudgetChangeRequest
  pub observed_before_minor : ℕ
  pub token : List ℕ
  pub request_hash : String
  pub preview_hash : String
  pub issued_at : ℕ
  pub expires_at : ℕ

pub record VerifiedPreview : Type 0 where
  pub request_hash : String
  pub actor_user_id : ℕ
  pub observed_before_minor : ℕ
  pub issued_at : ℕ
  pub expires_at : ℕ
  pub preview_hash : String
  pub authorization_snapshot_hash : String
  pub credential_snapshot_hash : String

-- `PreviewSigner.__init__`: the time to live of the signer of a secret.
unfoldable pub new_signer : List ℕ → ℤ → Fallible ℕ
new_signer secret ttl_seconds = do
  raise_if (ltb (length secret) 32) (validation_error "preview_secret_weak")
  elim ttl_seconds [
    | negsuc n ↦ err (validation_error "preview_ttl_invalid")
    | pos n ↦
        raise_if (not (leb 30 n && leb n 900)) (validation_error "preview_ttl_invalid") >> ok n
  ]

abbrev pub second : ℕ
second = 1000000

-- The first instant after the year 9999, which no `datetime` reaches.
abbrev pub end_of_time : ℕ
end_of_time = 253402300800 * second

-- `token.split(".", 1)`: the part before the first dot and the part after it.
abbrev pub split_dot : List ℕ → Option (List ℕ × List ℕ)
split_dot [] = none
split_dot (c ∷ cs) = elim (c == 46) [
  | true ↦ some ([], cs)
  | false ↦ elim (split_dot cs) [ none ↦ none | some (body, rest) ↦ some (c ∷ body, rest) ]
]

-- `_require_minor_units` of a JSON value; a bool is not an `int` there.
abbrev pub minor_units_of : Json → Option ℕ
minor_units_of (Json.number n) = some n
minor_units_of _ = none

-- `datetime.fromtimestamp(n, tz=utc)`
abbrev pub instant_of : ℕ → Option ℕ
instant_of n = if ltb (n * second) end_of_time then some (n * second) else none

abbrev pub is_version_2 : Json → Bool
is_version_2 (Json.number n) = n == 2
is_version_2 _ = false

-- What `verify` reads of the payload.
pub record TokenPayload : Type 0 where
  pub observed : ℕ
  pub issued_at : ℕ
  pub expires_at : ℕ
  pub request_digest : String
  pub authorization_hash : String
  pub credential_hash : String

abbrev invalid : {A : Type 0} → Option A → Fallible A
invalid o = or_raise o (preview_token_error "preview_invalid")

module _ (p : Primitives) (ttl_seconds : ℕ) where
  open p use {hmac, hex, sha256_hex, canonical_json, json_loads, int_of, str_of}

  -- `_context_proof`
  unfoldable pub context_proof : String → Document → String
  context_proof label payload = hex (hmac (codes label ++ 0 ∷ canonical_json payload))

  unfoldable pub authorization_proof : Context → String
  authorization_proof c =
      context_proof "authorization" (flat (authorization_payload c.authorization_snapshot))

  unfoldable pub credential_proof : Context → String
  credential_proof c = context_proof "credential" (flat (credential_payload c.credential_snapshot))

  unfoldable pub request_proof : Context → String
  request_proof c = context_proof "request" (context_document c)

  unfoldable pub token_payload : Context → ℕ → ℕ → String → Payload
  token_payload c observed now nonce =
      ("v", Json.number 2)
      ∷ ("request_hash", Json.text (request_proof c))
      ∷ ("authorization_snapshot_hash", Json.text (authorization_proof c))
      ∷ ("credential_snapshot_hash", Json.text (credential_proof c))
      ∷ ("observed_before_minor", Json.number observed)
      ∷ ("issued_at", Json.number (now / second))
      ∷ ("expires_at", Json.number ((now + ttl_seconds * second) / second))
      ∷ ("nonce", Json.text nonce)
      ∷ []

  -- `body` and its signature, with a dot between them.
  unfoldable pub signed : List ℕ → List ℕ
  signed bytes = b64_encode bytes ++ 46 ∷ b64_encode (hmac (b64_encode bytes))

  -- `issue`; `nonce` is `secrets.token_urlsafe(18)`.
  unfoldable pub issue : Context → ℕ → ℕ → String → Fallible BudgetPreview
  issue c observed now nonce = do
    let token = signed (canonical_json (flat (token_payload c observed now nonce)))
    raise_if (not (ltb (now + ttl_seconds * second) end_of_time)) other_exception
    ok record {
      request = c.request;
      observed_before_minor = observed;
      token = token;
      request_hash = request_proof c;
      preview_hash = sha256_hex token;
      issued_at = now;
      expires_at = now + ttl_seconds * second;
    }

  -- The `try` of `verify`, whose exceptions all become the same error.
  unfoldable pub read_payload : List ℕ → Fallible TokenPayload
  read_payload bytes = do
    payload ← invalid (json_loads bytes)
    version ← invalid (item "v" payload)
    raise_if (not (is_version_2 version)) (preview_token_error "preview_invalid")
    observed_value ← invalid (item "observed_before_minor" payload)
    observed ← invalid (minor_units_of observed_value)
    issued_value ← invalid (item "issued_at" payload)
    issued_seconds ← invalid (int_of issued_value)
    issued_at ← invalid (instant_of issued_seconds)
    expires_value ← invalid (item "expires_at" payload)
    expires_seconds ← invalid (int_of expires_value)
    expires_at ← invalid (instant_of expires_seconds)
    request_digest ← invalid (item "request_hash" payload)
    authorization_hash ← invalid (item "authorization_snapshot_hash" payload)
    credential_hash ← invalid (item "credential_snapshot_hash" payload)
    ok record {
      observed = observed;
      issued_at = issued_at;
      expires_at = expires_at;
      request_digest = str_of request_digest;
      authorization_hash = str_of authorization_hash;
      credential_hash = str_of credential_hash;
    }

  -- The signature of a token, and the bytes of its body.
  unfoldable pub open_token : List ℕ → Fallible (List ℕ)
  open_token token = do
    parts ← invalid (split_dot token)
    bytes ← b64_decode parts.0
    signature ← b64_decode parts.1
    raise_if (not (codes_eq parts.1 (b64_encode (hmac parts.0))))
        (preview_token_error "preview_tampered")
    ok bytes

  -- The times of a payload and its proofs.
  unfoldable pub check_payload : TokenPayload → Context → ℕ → Fallible Unit
  check_payload t c now = do
    raise_if (leb t.expires_at now) (preview_expired_error "preview_expired")
    raise_if (leb end_of_time (now + 60 * second)) other_exception
    raise_if (ltb (now + 60 * second) t.issued_at || leb t.expires_at t.issued_at)
        (preview_token_error "preview_invalid")
    raise_if (not (str_eq t.authorization_hash (authorization_proof c)))
        (preview_token_error "preview_authorization_changed")
    raise_if (not (str_eq t.credential_hash (credential_proof c)))
        (preview_token_error "preview_credential_changed")
    raise_if (not (str_eq t.request_digest (request_proof c)))
        (preview_token_error "preview_request_mismatch")

  unfoldable pub verify : List ℕ → Context → ℕ → Fallible VerifiedPreview
  verify token c now = do
    bytes ← open_token token
    t ← read_payload bytes
    check_payload t c now
    ok record {
      request_hash = t.request_digest;
      actor_user_id = c.actor_user_id;
      observed_before_minor = t.observed;
      issued_at = t.issued_at;
      expires_at = t.expires_at;
      preview_hash = sha256_hex token;
      authorization_snapshot_hash = t.authorization_hash;
      credential_snapshot_hash = t.credential_hash;
    }
