-- ===== src/Command/Store/Key.antt =====
-- `validate_idempotency_key` (app/services/provider_budget_commands.py).
use Prim.Native.Char.{code}
use Prim.Native.String.{String}
use client_dash_up.Base.{
  ℕ, Bool, true, not, ◌&&◌, ◌||◌, List, [], ◌∷◌, ◌==◌, leb, if◌then◌else◌, length,
}
use client_dash_up.Base.Text.{codes, str_eq}
use client_dash_up.Base.Outcome.{ok, ◌>>◌, raise_if}
use client_dash_up.Command.Types.{Fallible, validation_error}

-- The code points that `str.strip` removes.
unfoldable pub is_space : ℕ → Bool
is_space c =
    leb 9 c && leb c 13
    || leb 28 c && leb c 32
    || c == 133
    || c == 160
    || c == 5760
    || leb 8192 c && leb c 8202
    || c == 8232
    || c == 8233
    || c == 8239
    || c == 8287
    || c == 12288

abbrev pub strip_left : String → String
strip_left String.[] = ""
strip_left (String.◌∷◌ c s) =
    let rest = strip_left s in if is_space (code c) then rest else String.◌∷◌ c s

abbrev pub strip_right : String → String
strip_right String.[] = ""
strip_right (String.◌∷◌ c s) =
    let rest = strip_right s in
    if is_space (code c) && str_eq rest "" then "" else String.◌∷◌ c rest

-- `str(value or "").strip()`
abbrev pub strip : String → String
strip s = strip_right (strip_left s)

-- `[A-Za-z0-9._:-]`
unfoldable pub is_key_code : ℕ → Bool
is_key_code c =
    leb b'A' c && leb c b'Z'
    || leb b'a' c && leb c b'z'
    || leb b'0' c && leb c b'9'
    || c == b'.'
    || c == b'_'
    || c == b':'
    || c == b'-'

abbrev pub all_codes : (ℕ → Bool) → List ℕ → Bool
all_codes p [] = true
all_codes p (c ∷ cs) = p c && all_codes p cs

unfoldable pub validate_idempotency_key : String → Fallible String
unfolding is_key_code is_space
validate_idempotency_key value =
    raise_if
      (not (leb 8 (length (codes (strip value))) && leb (length (codes (strip value))) 128)
        || not (all_codes is_key_code (codes (strip value))))
      (validation_error "idempotency_key_invalid")
    >> ok (strip value)
