-- ===== src/Sync/Failures/Retries.antt =====
-- Which failures are retried (app/services/ad_account_sync.py).
use Prim.Native.String.{String}
use text.Mathlib.TextEquality.{eq_iff}
use client_dash_up.Base.Text.{str_eq, codes}
use client_dash_up.Command.Snapshots.{lower}
use client_dash_up.Sync.Failures.Phrases.{AnyOccurs, AnyWord, contains_any_iff, has_word_iff}
use client_dash_up.Base.{
  ℕ, ◌≡◌, ◌≢◌, In, here, there, [], ◌∷◌, arith, ◌⊎◌, ◌↔◌, refl, Bool, true, false, ◌||◌, List, inl,
  inr, ◌==◌, if◌then◌else◌,
}
use client_dash_up.Sync.Failures.{
  SyncFailure, payload_invalid, credentials_missing, reconnect_required, http, other,
  Classification, classified, classify_text, classify_status, classify_error, contains_any,
  asks_manager_account, denies_access, denies_customer, limits_rate, is_outage, is_bad_request,
}

-- A rate limit or an outage of the provider.
abbrev pub IsTransient : Classification → Type 0
IsTransient c =
    ((c.error_code ≡ "rate_limited") × (c.category ≡ "rate_limit"))
    ⊎ ((c.error_code ≡ "provider_unavailable") × (c.category ≡ "provider"))

-- It is retried exactly when it is transient.
record IsRetriedRight (c : Classification) : Type 0 where
  transient_iff : (c.retryable ≡ true) ↔ IsTransient c

if_keeps :
    (b : Bool) {x y : Classification}
    → IsRetriedRight x
    → IsRetriedRight y
    → IsRetriedRight (if b then x else y)
if_keeps true p q = p
if_keeps false p q = q

permanent :
    (error_code category : String)
    → str_eq error_code "rate_limited" ≡ false
    → str_eq error_code "provider_unavailable" ≡ false
    → IsRetriedRight (classified error_code category false)
permanent error_code category no_limit no_outage = record {
  transient_iff = (
    (λ e. absurd (cc (e))),
    λ t. elim t [
      | inl (e, _) ↦ cc (no_limit, (eq_iff error_code "rate_limited").1 e)
      | inr (e, _) ↦ cc (no_outage, (eq_iff error_code "provider_unavailable").1 e)
    ],
  );
}

limited : IsRetriedRight (classified "rate_limited" "rate_limit" true)
limited = record { transient_iff = ((λ _. inl (refl, refl)), λ _. refl) }

down : IsRetriedRight (classified "provider_unavailable" "provider" true)
down = record { transient_iff = ((λ _. inr (refl, refl)), λ _. refl) }

classify_text-IsRetriedRight : (raw : List ℕ) → IsRetriedRight (classify_text raw)
unfolding classify_text
classify_text-IsRetriedRight raw =
    let invalid = permanent "invalid_request" "validation" refl refl in
    let auth = permanent "auth_failed" "auth" refl refl in
    if_keeps (asks_manager_account raw) invalid (
      if_keeps (denies_access raw) auth (
        if_keeps (denies_customer raw) auth (
          if_keeps (limits_rate raw) limited (
            if_keeps (is_outage raw) down (
              if_keeps (is_bad_request raw) invalid
                (permanent "unknown_error" "unknown" refl refl))))))

classify_status-IsRetriedRight :
    (status : ℕ) (raw : List ℕ) → IsRetriedRight (classify_status status raw)
unfolding classify_status
classify_status-IsRetriedRight status raw =
    if_keeps (status == 401 || status == 403) (permanent "auth_failed" "auth" refl refl) (
      if_keeps (status == 429) limited (
        if_keeps (status == 500 || status == 502 || status == 503 || status == 504) down (
          if_keeps (status == 400 || status == 404 || status == 422)
            (permanent "invalid_request" "validation" refl refl)
            (classify_text-IsRetriedRight raw))))

classify_error-IsRetriedRight : (x : SyncFailure) → IsRetriedRight (classify_error x)
unfolding classify_error
classify_error-IsRetriedRight payload_invalid =
    permanent "provider_payload_invalid" "validation" refl refl
classify_error-IsRetriedRight credentials_missing =
    permanent "provider_credentials_missing" "configuration" refl refl
classify_error-IsRetriedRight (reconnect_required reason) =
    permanent "provider_reconnect_required" "auth" refl refl
classify_error-IsRetriedRight (http status text) = classify_status-IsRetriedRight status _
classify_error-IsRetriedRight (other text) = classify_text-IsRetriedRight _

-- What a text must have to be retried: a phrase of a rate limit or a word of an outage, and none of
-- the phrases that tell of an account or a customer that cannot be asked, or of missing rights.
pub record IsRetriedText (raw : List ℕ) : Type 0 where
  pub no_manager :
      ¬ AnyOccurs
        ("requested_metrics_for_manager" ∷ "metrics cannot be requested for a manager account" ∷ [])
        raw
  pub access :
      ¬ AnyOccurs ("unauthorized" ∷ "forbidden" ∷ "scope" ∷ "permission" ∷ "token" ∷ []) raw
  pub customer : ¬ AnyOccurs ("user_permission_denied" ∷ "customer_not_enabled" ∷ []) raw
  pub transient :
      AnyOccurs
        ("rate limit" ∷ "rate-limited" ∷ "rate_limited" ∷ "quota" ∷ "throttl" ∷ "too many requests"
          ∷ "resource exhausted" ∷ [])
        raw
      ⊎ AnyWord
          ("timeout" ∷ "temporar" ∷ "temporary" ∷ "temporarily" ∷ "unavailable" ∷ "connection"
            ∷ "gateway" ∷ [])
          false
          raw

-- Which exceptions are retried: by the status of an HTTP error where that decides, or else by the
-- text in lower case; never a typed one.
abbrev pub IsRetried : SyncFailure → Type 0
IsRetried payload_invalid = ⊥
IsRetried credentials_missing = ⊥
IsRetried (reconnect_required reason) = ⊥
IsRetried (http status text) =
    (status ≡ 429)
    ⊎ ((status ≡ 500) ⊎ ((status ≡ 502) ⊎ ((status ≡ 503) ⊎ (status ≡ 504))))
    ⊎ ((status ≢ 401)
        × (status ≢ 403)
        × (status ≢ 400)
        × (status ≢ 404)
        × (status ≢ 422)
        × IsRetriedText (codes (lower text)))
IsRetried (other text) = IsRetriedText (codes (lower text))

-- A classification is retried exactly when `P` holds.
record Decides (c : Classification) (P : Type 0) : Type 0 where
  iff : (c.retryable ≡ true) ↔ P

if_decides :
    (b : Bool) {x y : Classification} {P : Type 0}
    → (b ≡ true → Decides x P)
    → (b ≡ false → Decides y P)
    → Decides (if b then x else y) P
if_decides true p q = p refl
if_decides false p q = q refl

never :
    {error_code category : String} {P : Type 0}
    → ¬ P
    → Decides (classified error_code category false) P
never n = record { iff = ((λ e. absurd (cc (e))), λ p. absurd (n p)) }

always :
    {error_code category : String} {P : Type 0}
    → P
    → Decides (classified error_code category true) P
always p = record { iff = ((λ _. p), λ _. refl) }

absent :
    (phrases : List String) (raw : List ℕ)
    → contains_any phrases raw ≡ false
    → ¬ AnyOccurs phrases raw
absent phrases raw e i = let h = (contains_any_iff phrases raw).1 i in cc (e, h)

outage_words :
    (n : String)
    → In n (
        "timeout" ∷ "temporar" ∷ "temporary" ∷ "temporarily" ∷ "unavailable" ∷ "connection"
        ∷ "gateway" ∷ [])
    → codes n ≢ []
outage_words n here = λ e. cc (e)
outage_words n (there here) = λ e. cc (e)
outage_words n (there (there here)) = λ e. cc (e)
outage_words n (there (there (there here))) = λ e. cc (e)
outage_words n (there (there (there (there here)))) = λ e. cc (e)
outage_words n (there (there (there (there (there here))))) = λ e. cc (e)
outage_words n (there (there (there (there (there (there here)))))) = λ e. cc (e)
outage_words n (there (there (there (there (there (there (there i))))))) = elim i [ ]

classify_text-Decides : (raw : List ℕ) → Decides (classify_text raw) (IsRetriedText raw)
unfolding classify_text asks_manager_account denies_access denies_customer limits_rate is_outage
classify_text-Decides raw =
    if_decides _ (λ e. never λ t. t.no_manager ((contains_any_iff _ raw).0 e))
      λ manager.
        if_decides _ (λ e. never λ t. t.access ((contains_any_iff _ raw).0 e))
          λ access.
            if_decides _ (λ e. never λ t. t.customer ((contains_any_iff _ raw).0 e))
              λ customer.
                if_decides _
                  (λ e. always (record {
                    no_manager = absent _ raw manager;
                    access = absent _ raw access;
                    customer = absent _ raw customer;
                    transient = inl ((contains_any_iff _ raw).0 e);
                  }))
                  λ unlimited.
                    if_decides _
                      (λ e. always (record {
                        no_manager = absent _ raw manager;
                        access = absent _ raw access;
                        customer = absent _ raw customer;
                        transient = inr ((has_word_iff _ false raw outage_words).0 e);
                      }))
                      λ up.
                        let stays : ¬ IsRetriedText raw = λ t. elim t.transient [
                          | inl limit ↦ absent _ raw unlimited limit
                          | inr word ↦
                              let h = (has_word_iff _ false raw outage_words).1 word in cc (up, h)
                        ] in
                        if_decides (is_bad_request raw) (λ _. never stays) (λ _. never stays)

classify_status-Decides :
    (status : ℕ) (text : String)
    → Decides (classify_status status (codes (lower text))) (IsRetried (http status text))
unfolding classify_status
classify_status-Decides status text =
    if_decides (status == 401 || status == 403)
      (λ e. never λ p. elim p [
        | inl limit ↦ ground arith
        | inr (inl out) ↦ ground arith
        | inr (inr (a, b, c, d, f, _)) ↦ ground arith
      ])
      λ known.
        if_decides (status == 429) (λ e. always (inl (ground arith)))
          λ unlimited.
            if_decides (status == 500 || status == 502 || status == 503 || status == 504)
              (λ e. always (inr (inl (ground arith))))
              λ up.
                if_decides (status == 400 || status == 404 || status == 422)
                  (λ e. never λ p. elim p [
                    | inl limit ↦ ground arith
                    | inr (inl out) ↦ ground arith
                    | inr (inr (a, b, c, d, f, _)) ↦ ground arith
                  ])
                  λ fine.
                    let (to, back) = (classify_text-Decides (codes (lower text))).iff in
                    record {
                      iff = (
                        (λ h. inr (
                            inr (
                              ground arith,
                              ground arith,
                              ground arith,
                              ground arith,
                              ground arith,
                              to h,
                            ))),
                        λ p. elim p [
                          | inl limit ↦ absurd (ground arith)
                          | inr (inl out) ↦ absurd (ground arith)
                          | inr (inr (_, _, _, _, _, t)) ↦ back t
                        ],
                      );
                    }

classify_error-Decides : (x : SyncFailure) → Decides (classify_error x) (IsRetried x)
unfolding classify_error
classify_error-Decides payload_invalid = never λ p. p
classify_error-Decides credentials_missing = never λ p. p
classify_error-Decides (reconnect_required reason) = never λ p. p
classify_error-Decides (http status text) = classify_status-Decides status text
classify_error-Decides (other text) = classify_text-Decides (codes (lower text))

-- An exception of a synchronisation is retried exactly when it is an HTTP error of status 429, 500,
-- 502, 503 or 504, or else an error without a class of its own, and not of status 400, 401, 403, 404
-- or 422, whose text in lower case has a phrase of a rate limit or a whole word of an outage and none
-- of the phrases of a manager account, of missing rights or of a customer that cannot be asked. It is
-- then, and only then, classified as a rate limit or as an outage of the provider, with the category
-- of these.
pub classify_error-IsTransient_iff :
    (x : SyncFailure)
    → (((classify_error x).retryable ≡ true) ↔ IsRetried x)
      × (((classify_error x).retryable ≡ true) ↔ IsTransient (classify_error x))
classify_error-IsTransient_iff x =
    ((classify_error-Decides x).iff, (classify_error-IsRetriedRight x).transient_iff)
