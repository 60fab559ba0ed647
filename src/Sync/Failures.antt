-- ===== src/Sync/Failures.antt =====
-- `_classify_error` (app/services/ad_account_sync.py): what an exception of a synchronisation means.
pub mod Phrases
pub mod Retries
use Prim.Native.Char.{code}
use Prim.Native.String.{String}
use client_dash_up.Base.{
  ℕ, Bool, true, false, not, ◌&&◌, ◌||◌, List, [], ◌∷◌, ◌==◌, leb, if◌then◌else◌,
}
use client_dash_up.Base.Text.{codes}
use client_dash_up.Command.Snapshots.{lower}

-- The exceptions by class; the text is the one that `_classification_text` takes.
pub data SyncFailure : Type 0 where
  payload_invalid : SyncFailure
  credentials_missing : SyncFailure
  reconnect_required : String → SyncFailure
  http : ℕ → String → SyncFailure
  other : String → SyncFailure

pub record Classification : Type 0 where
  pub error_code : String
  pub category : String
  pub retryable : Bool

abbrev pub classified : String → String → Bool → Classification
classified error_code category retryable = record {
  error_code = error_code;
  category = category;
  retryable = retryable;
}

abbrev pub starts_with : List ℕ → List ℕ → Bool
starts_with [] text = true
starts_with (n ∷ ns) [] = false
starts_with (n ∷ ns) (c ∷ cs) = n == c && starts_with ns cs

-- `needle in text`
abbrev pub contains : List ℕ → List ℕ → Bool
contains needle [] = starts_with needle []
contains needle (c ∷ cs) = starts_with needle (c ∷ cs) || contains needle cs

abbrev pub contains_any : List String → List ℕ → Bool
contains_any [] text = false
contains_any (n ∷ ns) text = contains (codes n) text || contains_any ns text

-- `\w` on ASCII text.
unfoldable pub is_word_code : ℕ → Bool
is_word_code c =
    leb b'a' c && leb c b'z' || leb b'A' c && leb c b'Z' || leb b'0' c && leb c b'9' || c == b'_'

abbrev pub at_word_end : List ℕ → Bool
at_word_end [] = true
at_word_end (c ∷ cs) = not (is_word_code c)

-- A word that stands at the head of a text, up to a word boundary.
abbrev pub is_word_at : List ℕ → List ℕ → Bool
is_word_at [] text = at_word_end text
is_word_at (n ∷ ns) [] = false
is_word_at (n ∷ ns) (c ∷ cs) = n == c && is_word_at ns cs

abbrev pub any_word_at : List String → List ℕ → Bool
any_word_at [] text = false
any_word_at (n ∷ ns) text = is_word_at (codes n) text || any_word_at ns text

-- `re.search(r"\b(...)\b", text)`; `inside` tells that the character before belongs to a word.
abbrev pub has_word : List String → Bool → List ℕ → Bool
has_word words inside [] = false
has_word words inside (c ∷ cs) =
    not inside && any_word_at words (c ∷ cs) || has_word words (is_word_code c) cs

-- The tests of the text, in their order.
unfoldable pub asks_manager_account : List ℕ → Bool
asks_manager_account raw =
    contains_any
      ("requested_metrics_for_manager" ∷ "metrics cannot be requested for a manager account" ∷ [])
      raw

unfoldable pub denies_access : List ℕ → Bool
denies_access raw =
    contains_any ("unauthorized" ∷ "forbidden" ∷ "scope" ∷ "permission" ∷ "token" ∷ []) raw

unfoldable pub denies_customer : List ℕ → Bool
denies_customer raw = contains_any ("user_permission_denied" ∷ "customer_not_enabled" ∷ []) raw

unfoldable pub limits_rate : List ℕ → Bool
limits_rate raw =
    contains_any
      ("rate limit" ∷ "rate-limited" ∷ "rate_limited" ∷ "quota" ∷ "throttl" ∷ "too many requests"
        ∷ "resource exhausted" ∷ [])
      raw

unfoldable pub is_outage : List ℕ → Bool
is_outage raw =
    has_word
      ("timeout" ∷ "temporar" ∷ "temporary" ∷ "temporarily" ∷ "unavailable" ∷ "connection"
        ∷ "gateway" ∷ [])
      false raw

unfoldable pub is_bad_request : List ℕ → Bool
is_bad_request raw = contains_any ("invalid" ∷ "bad request" ∷ "missing" ∷ []) raw

unfoldable pub classify_text : List ℕ → Classification
classify_text raw =
    if asks_manager_account raw
    then classified "invalid_request" "validation" false
    else if denies_access raw
    then classified "auth_failed" "auth" false
    else if denies_customer raw
    then classified "auth_failed" "auth" false
    else if limits_rate raw
    then classified "rate_limited" "rate_limit" true
    else if is_outage raw
    then classified "provider_unavailable" "provider" true
    else if is_bad_request raw
    then classified "invalid_request" "validation" false
    else classified "unknown_error" "unknown" false

unfoldable pub classify_status : ℕ → List ℕ → Classification
classify_status status raw =
    if status == 401 || status == 403
    then classified "auth_failed" "auth" false
    else if status == 429
    then classified "rate_limited" "rate_limit" true
    else if status == 500 || status == 502 || status == 503 || status == 504
    then classified "provider_unavailable" "provider" true
    else if status == 400 || status == 404 || status == 422
    then classified "invalid_request" "validation" false
    else classify_text raw

unfoldable pub classify_error : SyncFailure → Classification
classify_error payload_invalid = classified "provider_payload_invalid" "validation" false
classify_error credentials_missing = classified "provider_credentials_missing" "configuration" false
classify_error (reconnect_required reason) = classified "provider_reconnect_required" "auth" false
classify_error (http status text) = classify_status status (codes (lower text))
classify_error (other text) = classify_text (codes (lower text))
