-- ===== src/Command/Preview/Verifies.antt =====
-- Which tokens `verify` accepts (app/services/provider_budget_commands.py).
use Prim.Native.String.{String}
use text.Mathlib.TextEquality.{eq_iff}
use client_dash_up.Base.{
  ℕ, ◌+◌, ◌*◌, ◌≤◌, ◌<◌, ◌≡◌, refl, ap, ◌∙◌, arith, not-true, not-false, false, not, some, List, [],
  ◌∷◌, ◌++◌, ◌==◌, ==_iff-eq, Bool-cases, inl, inr, Option-cases,
}
use client_dash_up.Base.Text.{codes_eq_iff, str_eq}
use client_dash_up.Base.Outcome.{
  ok, raise_if-false, or_raise-some, bind_ok, raise_if_ok, Ensures, Ensures-ok, Ensures-bind,
}
use client_dash_up.Command.Preview.Base64.{b64_encode}
use client_dash_up.Command.Preview.Decoding.{b64_decode_iff}
use client_dash_up.Command.Preview.Payloads.{Context}
use client_dash_up.Command.Preview.Signer.{
  Primitives, VerifiedPreview, TokenPayload, split_dot, second, end_of_time, signed, open_token,
  read_payload, check_payload, verify, request_proof, authorization_proof, credential_proof,
}

str_eq-of_not : (a b : String) → not (str_eq a b) ≡ false → a ≡ b
str_eq-of_not a b h = (eq_iff a b).0 (not-false _ h)

not-str_eq : (a b : String) → a ≡ b → not (str_eq a b) ≡ false
not-str_eq a b e = not-true _ ((eq_iff a b).1 e)

split_dot-append :
    (token body rest : List ℕ) → split_dot token ≡ some (body, rest) → token ≡ body ++ 46 ∷ rest
split_dot-append [] body rest h = absurd (cc)
split_dot-append (c ∷ cs) body rest h = elim (Bool-cases (c == 46)) [
  | inl dot ↦
      let empty : body ≡ [] = ground arith in
      let whole : rest ≡ cs = ground arith in rw (empty, whole, ==_iff-eq c 46 dot) refl
  | inr other ↦ elim (Option-cases (split_dot cs)) [
    | inl none_found ↦ absurd (ground arith)
    | inr ((b, r), found) ↦
        let longer : body ≡ c ∷ b = ground arith in
        let same : rest ≡ r = ground arith in
        rw (longer, same) (ap (λ k. c ∷ k) (split_dot-append cs b r found))
  ]
]

module _ (p : Primitives) (ttl_seconds : ℕ) where
  -- What the times and the proofs of a payload pass.
  pub record Checks (t : TokenPayload) (c : Context) (now : ℕ) : Type 0 where
    pub unexpired : now < t.expires_at
    pub in_time : now + 60 * second < end_of_time
    pub not_early : t.issued_at ≤ now + 60 * second
    pub lasting : t.issued_at < t.expires_at
    pub same_authorization : t.authorization_hash ≡ authorization_proof p ttl_seconds c
    pub same_credential : t.credential_hash ≡ credential_proof p ttl_seconds c
    pub same_request : t.request_digest ≡ request_proof p ttl_seconds c

  pub check_payload-Checks :
      (t : TokenPayload) (c : Context) (now : ℕ)
      → Ensures (λ _. Checks t c now) (check_payload p ttl_seconds t c now)
  unfolding check_payload
  check_payload-Checks t c now = Ensures-bind λ _ a. Ensures-bind λ _ b. Ensures-bind λ _ d.
      Ensures-bind λ _ e. Ensures-bind λ _ f. record {
        at = λ _ g.
            let unexpired = raise_if-false _ _ a in
            let in_time = raise_if-false _ _ b in
            let ordered = raise_if-false _ _ d in
            record {
              unexpired = ground arith;
              in_time = ground arith;
              not_early = ground arith;
              lasting = ground arith;
              same_authorization = str_eq-of_not _ _ (raise_if-false _ _ e);
              same_credential = str_eq-of_not _ _ (raise_if-false _ _ f);
              same_request = str_eq-of_not _ _ (raise_if-false _ _ g);
            };
      }

  pub check_payload-ok :
      (t : TokenPayload) (c : Context) (now : ℕ)
      → Checks t c now
      → check_payload p ttl_seconds t c now ≡ ok tt
  unfolding check_payload
  check_payload-ok t c now h = bind_ok _ _ (raise_if_ok _ _ (let u = h.unexpired in ground arith)) (
      bind_ok _ _ (raise_if_ok _ _ (let u = h.in_time in ground arith)) (
        bind_ok _ _ (raise_if_ok _ _ (let u = h.not_early in let w = h.lasting in ground arith)) (
          bind_ok _ _ (raise_if_ok _ _ (not-str_eq _ _ h.same_authorization)) (
            bind_ok _ _ (raise_if_ok _ _ (not-str_eq _ _ h.same_credential))
              (raise_if_ok _ _ (not-str_eq _ _ h.same_request))))))

  -- What `verify` answers for a token that it accepts.
  pub record Verifies (token : List ℕ) (c : Context) (now : ℕ) (v : VerifiedPreview) : Type 0 where
    pub bytes : List ℕ
    pub is_signed : token ≡ signed p ttl_seconds bytes
    pub payload : TokenPayload
    pub reads : read_payload p ttl_seconds bytes ≡ ok payload
    pub checks : Checks payload c now
    pub observed : v.observed_before_minor ≡ payload.observed
    pub actor : v.actor_user_id ≡ c.actor_user_id
    pub request_hash : v.request_hash ≡ request_proof p ttl_seconds c
    pub preview_hash : v.preview_hash ≡ p.sha256_hex token

  open_token-signed_eq :
      (token : List ℕ)
      → Ensures (λ bytes. token ≡ signed p ttl_seconds bytes) (open_token p ttl_seconds token)
  unfolding open_token signed
  open_token-signed_eq token = Ensures-bind λ parts split. Ensures-bind λ bytes body.
      Ensures-bind λ _ _. Ensures-bind λ _ same.
        let (first, _, _) = (b64_decode_iff parts.0 bytes).0 body in
        let second_part = (codes_eq_iff _ _).0 (not-false _ (raise_if-false _ _ same)) in
        let whole = split_dot-append token parts.0 parts.1 (or_raise-some _ _ _ split) in
        Ensures-ok (
          whole
          ∙ ap (λ k. parts.0 ++ 46 ∷ k) second_part
          ∙ ap (λ k. k ++ 46 ∷ b64_encode (p.hmac k)) first)

  -- `verify` accepts a token only if it is the signed form of a payload, which it can read, whose
  -- times cover `now`, and whose three proofs are those of the request, the actor, the authorisation
  -- and the connection at hand; it returns the amount of the payload.
  pub verify-Verifies :
      (token : List ℕ) (c : Context) (now : ℕ)
      → Ensures (Verifies token c now) (verify p ttl_seconds token c now)
  unfolding verify
  verify-Verifies token c now = Ensures-bind λ bytes opened. Ensures-bind λ t read.
      Ensures-bind λ _ checked.
        let checks = (check_payload-Checks t c now).at tt checked in
        Ensures-ok (record {
          bytes = bytes;
          is_signed = (open_token-signed_eq token).at bytes opened;
          payload = t;
          reads = read;
          checks = checks;
          observed = refl;
          actor = refl;
          request_hash = checks.same_request;
          preview_hash = refl;
        })
