-- ===== src/Command/Preview/Opening.antt =====
-- What `verify` reads of a token that `issue` wrote
-- (app/services/provider_budget_commands.py).
use Prim.Native.String.{String}
use client_dash_up.Base.{
  ℕ, ◌+◌, ◌*◌, ◌/◌, ◌<◌, ◌≡◌, ◌≢◌, refl, arith, not-true, false, some, List, [], ◌∷◌, ◌++◌, map,
  ◌==◌, All,
}
use client_dash_up.Base.Text.{codes_eq_iff}
use client_dash_up.Base.Outcome.{ok, bind_ok, or_raise_ok, raise_if_ok}
use client_dash_up.Command.Snapshots.{Json, Payload}
use client_dash_up.Command.Preview.Base64.{char_of, sextets, b64_encode}
use client_dash_up.Command.Preview.Decoding.{IsByte, b64_decode_iff}
use client_dash_up.Command.Preview.Payloads.{Document, flat, item, Context}
use client_dash_up.Command.Preview.Signer.{
  Primitives, TokenPayload, split_dot, second, end_of_time, instant_of, signed, open_token,
  read_payload, token_payload, request_proof, authorization_proof, credential_proof,
}

-- What holds of the library: digests and JSON texts are bytes, of one at least, and `int` and `str`
-- leave an integer and a text as they are.
pub record Laws (p : Primitives) : Type 0 where
  pub hmac_bytes : (m : List ℕ) → All IsByte (p.hmac m)
  pub hmac_some : (m : List ℕ) → p.hmac m ≢ []
  pub json_bytes : (d : Document) → All IsByte (p.canonical_json d)
  pub json_some : (d : Document) → p.canonical_json d ≢ []
  pub int_of_number : (n : ℕ) → p.int_of (Json.number n) ≡ some n
  pub str_of_text : (t : String) → p.str_of (Json.text t) ≡ t

-- The dictionary that JSON reads back has the same values.
pub record ReadsBack (p : Primitives) (payload : Payload) : Type 0 where
  pub result : Payload
  pub loads : p.json_loads (p.canonical_json (flat payload)) ≡ some result
  pub same : (k : String) → item k result ≡ item k payload

char_of-ne_dot : (v : ℕ) → (char_of v == 46) ≡ false
unfolding char_of
char_of-ne_dot v = ground arith

split_dot-append :
    (vs rest : List ℕ) → split_dot (map char_of vs ++ 46 ∷ rest) ≡ some (map char_of vs, rest)
split_dot-append [] rest = refl
split_dot-append (v ∷ vs) rest = ground (arith, char_of-ne_dot v, split_dot-append vs rest)

split_dot-b64_encode :
    (bs rest : List ℕ) → split_dot (b64_encode bs ++ 46 ∷ rest) ≡ some (b64_encode bs, rest)
unfolding b64_encode
split_dot-b64_encode bs rest = split_dot-append (sextets bs) rest

instant_of-lt : (n : ℕ) → n < end_of_time → instant_of (n / second) ≡ some (n / second * second)
instant_of-lt n h = ground arith

module _ (p : Primitives) (ttl_seconds : ℕ) where
  -- What is read of the payload of `issue`: its instants lose their fractions of a second.
  unfoldable pub issued_payload : Context → ℕ → ℕ → TokenPayload
  issued_payload c observed now = record {
    observed = observed;
    issued_at = now / second * second;
    expires_at = (now + ttl_seconds * second) / second * second;
    request_digest = request_proof p ttl_seconds c;
    authorization_hash = authorization_proof p ttl_seconds c;
    credential_hash = credential_proof p ttl_seconds c;
  }

module _ (p : Primitives) (ttl_seconds : ℕ) (l : Laws p) where
  pub open_token-signed :
      (bytes : List ℕ)
      → bytes ≢ []
      → All IsByte bytes
      → open_token p ttl_seconds (signed p ttl_seconds bytes) ≡ ok bytes
  unfolding open_token signed
  open_token-signed bytes nonempty are_bytes =
      let body = b64_encode bytes in
      let signature = b64_encode (p.hmac body) in
      bind_ok _ _ (or_raise_ok _ _ (split_dot-b64_encode bytes signature)) (
        bind_ok _ _ ((b64_decode_iff body bytes).1 (refl, nonempty, are_bytes)) (
          bind_ok _ _
            ((b64_decode_iff signature (p.hmac body)).1 (refl, l.hmac_some body, l.hmac_bytes body))
            (bind_ok _ _ (raise_if_ok _ _ (not-true _ ((codes_eq_iff signature signature).1 refl)))
              refl)))

  pub read_payload-token_payload :
      (c : Context) (observed now : ℕ) (nonce : String)
      → ReadsBack p (token_payload p ttl_seconds c observed now nonce)
      → now + ttl_seconds * second < end_of_time
      → read_payload p ttl_seconds
          (p.canonical_json (flat (token_payload p ttl_seconds c observed now nonce)))
        ≡ ok (issued_payload p ttl_seconds c observed now)
  unfolding read_payload token_payload issued_payload
  read_payload-token_payload c observed now nonce r in_time =
      bind_ok _ _ (or_raise_ok _ _ r.loads) (
        bind_ok _ _ (or_raise_ok _ _ (r.same "v")) (
          bind_ok _ _ (raise_if_ok _ _ refl) (
            bind_ok _ _ (or_raise_ok _ _ (r.same "observed_before_minor")) (
              bind_ok _ _ (or_raise_ok _ _ refl) (
                bind_ok _ _ (or_raise_ok _ _ (r.same "issued_at")) (
                  bind_ok _ _ (or_raise_ok _ _ (l.int_of_number _)) (
                    bind_ok _ _ (or_raise_ok _ _ (instant_of-lt now (omega arith))) (
                      bind_ok _ _ (or_raise_ok _ _ (r.same "expires_at")) (
                        bind_ok _ _ (or_raise_ok _ _ (l.int_of_number _)) (
                          bind_ok _ _ (or_raise_ok _ _ (instant_of-lt _ in_time)) (
                            bind_ok _ _ (or_raise_ok _ _ (r.same "request_hash")) (
                              bind_ok _ _ (or_raise_ok _ _ (r.same "authorization_snapshot_hash")) (
                                bind_ok _ _ (or_raise_ok _ _ (r.same "credential_snapshot_hash")) (
                                  cc (
                                    l.str_of_text (request_proof p ttl_seconds c),
                                    l.str_of_text (authorization_proof p ttl_seconds c),
                                    l.str_of_text (credential_proof p ttl_seconds c),
                                  )))))))))))))))
