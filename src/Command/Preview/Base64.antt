-- ===== src/Command/Preview/Base64.antt =====
-- `_b64encode` and `_b64decode` (app/services/provider_budget_commands.py) over the base64 of the
-- language's library, with the alphabet of URLs. A text is a list of code points.
use client_dash_up.Base.{
  ℕ, ◌+◌, ◌-◌, ◌*◌, ◌/◌, ◌%◌, Bool, true, not, ◌&&◌, ◌||◌, List, [], ◌∷◌, map, ◌==◌, leb, ltb,
  if◌then◌else◌, length,
}
use client_dash_up.Base.Text.{codes_eq}
use client_dash_up.Base.Outcome.{ok, ◌>>◌, raise_if}
use client_dash_up.Command.Types.{Fallible, preview_token_error}

-- The character of six bits.
unfoldable pub char_of : ℕ → ℕ
char_of v =
    if ltb v 26
    then v + 65
    else if ltb v 52
    then v + 71
    else if ltb v 62
    then v - 52 + 48
    else if v == 62
    then 45
    else 95

-- The six bits of a character.
unfoldable pub bits_of : ℕ → ℕ
bits_of c =
    if leb b'A' c && leb c b'Z'
    then c - 65
    else if leb b'a' c && leb c b'z'
    then c - 71
    else if leb b'0' c && leb c b'9'
    then c - 48 + 52
    else if c == 45
    then 62
    else 63

-- `[A-Za-z0-9_-]`
unfoldable pub is_b64_code : ℕ → Bool
is_b64_code c =
    leb b'A' c && leb c b'Z'
    || leb b'a' c && leb c b'z'
    || leb b'0' c && leb c b'9'
    || c == 45
    || c == 95

-- Three bytes are four groups of six bits; the groups of a shorter end stand without padding.
abbrev pub sextets : List ℕ → List ℕ
sextets [] = []
sextets (a ∷ []) = (a / 4) ∷ (a % 4 * 16) ∷ []
sextets (a ∷ b ∷ []) = (a / 4) ∷ (a % 4 * 16 + b / 16) ∷ (b % 16 * 4) ∷ []
sextets (a ∷ b ∷ c ∷ r) =
    (a / 4) ∷ (a % 4 * 16 + b / 16) ∷ (b % 16 * 4 + c / 64) ∷ (c % 64) ∷ sextets r

-- The bytes of groups; what is left of the last group is dropped.
abbrev pub octets : List ℕ → List ℕ
octets [] = []
octets (w ∷ []) = []
octets (w ∷ x ∷ []) = (w * 4 + x / 16) ∷ []
octets (w ∷ x ∷ y ∷ []) = (w * 4 + x / 16) ∷ (x % 16 * 16 + y / 4) ∷ []
octets (w ∷ x ∷ y ∷ z ∷ r) = (w * 4 + x / 16) ∷ (x % 16 * 16 + y / 4) ∷ (y % 4 * 64 + z) ∷ octets r

-- `_b64encode`
unfoldable pub b64_encode : List ℕ → List ℕ
b64_encode bytes = map char_of (sextets bytes)

abbrev pub all_b64 : List ℕ → Bool
all_b64 [] = true
all_b64 (c ∷ cs) = is_b64_code c && all_b64 cs

abbrev pub is_b64_text : List ℕ → Bool
is_b64_text value = leb 1 (length value) && all_b64 value && not (length value % 4 == 1)

-- `_b64decode`: the alphabet and the length are checked first, so the library's decoder, which is
-- given the padding, does not raise; a text that another encoder would not write is refused.
unfoldable pub b64_decode : List ℕ → Fallible (List ℕ)
b64_decode value = do
  let decoded = octets (map bits_of value)
  raise_if (not (is_b64_text value)) (preview_token_error "preview_invalid")
  raise_if (not (codes_eq (b64_encode decoded) value)) (preview_token_error "preview_invalid")
  ok decoded
