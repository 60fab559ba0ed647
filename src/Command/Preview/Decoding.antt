-- ===== src/Command/Preview/Decoding.antt =====
-- `_b64decode` takes exactly what `_b64encode` writes
-- (app/services/provider_budget_commands.py).
use client_dash_up.Base.{
  not-false, ℕ, ◌%◌, ◌≤◌, ◌<◌, ◌≡◌, ◌≢◌, ◌↔◌, refl, sym, ap, ◌∙◌, subst, arith, true, false, List,
  [], ◌∷◌, map, ◌==◌, length, All,
}
use client_dash_up.Base.Text.{codes_eq_iff}
use client_dash_up.Base.Outcome.{
  ok, ◌>>=◌, raise_if, raise_if-false, Ensures, Ensures-ok, Ensures-bind,
}
use client_dash_up.Command.Preview.Base64.{
  char_of, bits_of, is_b64_code, sextets, octets, b64_encode, all_b64, is_b64_text, b64_decode,
}

abbrev pub IsByte : ℕ → Type 0
IsByte b = b < 256

abbrev IsSextet : ℕ → Type 0
IsSextet v = v < 64

bits_of-char_of : (v : ℕ) → IsSextet v → bits_of (char_of v) ≡ v
unfolding bits_of char_of
bits_of-char_of v h = ground arith

bits_of-lt : (c : ℕ) → bits_of c < 64
unfolding bits_of
bits_of-lt c = ground arith

is_b64_code-char_of : (v : ℕ) → is_b64_code (char_of v) ≡ true
unfolding is_b64_code char_of
is_b64_code-char_of v = ground arith

all_b64-char_of : (vs : List ℕ) → all_b64 (map char_of vs) ≡ true
all_b64-char_of [] = refl
all_b64-char_of (v ∷ vs) = rw (is_b64_code-char_of v, all_b64-char_of vs)

map-bits_of-char_of : (vs : List ℕ) → All IsSextet vs → map bits_of (map char_of vs) ≡ vs
map-bits_of-char_of [] h = refl
map-bits_of-char_of (v ∷ vs) (h, hs) = rw (bits_of-char_of v h, map-bits_of-char_of vs hs)

sextets-All : (bs : List ℕ) → All IsByte bs → All IsSextet (sextets bs)
sextets-All [] h = tt
sextets-All (a ∷ []) h = omega arith
sextets-All (a ∷ b ∷ []) h = omega arith
sextets-All (a ∷ b ∷ c ∷ r) (ha, (hb, (hc, hr))) =
    (omega arith, (omega arith, (omega arith, (omega arith, sextets-All r hr))))

octets-sextets : (bs : List ℕ) → All IsByte bs → octets (sextets bs) ≡ bs
octets-sextets [] h = refl
octets-sextets (a ∷ []) h = ground arith
octets-sextets (a ∷ b ∷ []) h = ground arith
octets-sextets (a ∷ b ∷ c ∷ r) (ha, (hb, (hc, hr))) = ground (arith, octets-sextets r hr)

octets-All : (vs : List ℕ) → All IsSextet vs → All IsByte (octets vs)
octets-All [] h = tt
octets-All (w ∷ []) h = tt
octets-All (w ∷ x ∷ []) h = omega arith
octets-All (w ∷ x ∷ y ∷ []) h = omega arith
octets-All (w ∷ x ∷ y ∷ z ∷ r) (hw, (hx, (hy, (hz, hr)))) =
    (omega arith, (omega arith, (omega arith, octets-All r hr)))

map-bits_of-All : (cs : List ℕ) → All IsSextet (map bits_of cs)
map-bits_of-All [] = tt
map-bits_of-All (c ∷ cs) = (bits_of-lt c, map-bits_of-All cs)

length-map : (f : ℕ → ℕ) (vs : List ℕ) → length (map f vs) ≡ length vs
length-map f [] = refl
length-map f (v ∷ vs) = omega (arith, length-map f vs)

length-sextets : (bs : List ℕ) → (length (sextets bs) % 4 == 1) ≡ false
length-sextets [] = refl
length-sextets (a ∷ []) = refl
length-sextets (a ∷ b ∷ []) = refl
length-sextets (a ∷ b ∷ c ∷ r) = ground (arith, length-sextets r)

sextets_nonempty : (bs : List ℕ) → bs ≢ [] → 1 ≤ length (sextets bs)
sextets_nonempty [] h = absurd (h refl)
sextets_nonempty (a ∷ []) h = omega arith
sextets_nonempty (a ∷ b ∷ []) h = omega arith
sextets_nonempty (a ∷ b ∷ c ∷ r) h = omega arith

octets-b64_encode : (bs : List ℕ) → All IsByte bs → octets (map bits_of (b64_encode bs)) ≡ bs
unfolding b64_encode
octets-b64_encode bs h =
    ap octets (map-bits_of-char_of (sextets bs) (sextets-All bs h)) ∙ octets-sextets bs h

is_b64_text-b64_encode : (bs : List ℕ) → bs ≢ [] → is_b64_text (b64_encode bs) ≡ true
unfolding b64_encode
is_b64_text-b64_encode bs h =
    let nonempty = sextets_nonempty bs h in
    let size = length-sextets bs in
    let alphabet = all_b64-char_of (sextets bs) in
    rw (length-map char_of (sextets bs), alphabet, size) (ground arith)

b64_encode_empty : (v b : List ℕ) → v ≡ b64_encode b → b ≡ [] → is_b64_text v ≢ true
unfolding b64_encode
b64_encode_empty v b e empty text =
    let v_empty : v ≡ [] = e ∙ ap (λ c. map char_of (sextets c)) empty in
    cc (sym text ∙ ap is_b64_text v_empty)

b64_decode-Ensures :
    (v : List ℕ) → Ensures (λ b. (v ≡ b64_encode b) × (b ≢ []) × All IsByte b) (b64_decode v)
unfolding b64_decode
b64_decode-Ensures v =
    let decoded = octets (map bits_of v) in
    Ensures-bind λ _ text. Ensures-bind λ _ canonical.
      let same : v ≡ b64_encode decoded =
        sym ((codes_eq_iff _ v).0 (not-false _ (raise_if-false _ _ canonical))) in
      Ensures-ok (
        same,
        (λ e. b64_encode_empty v decoded same e (not-false _ (raise_if-false _ _ text))),
        octets-All (map bits_of v) (map-bits_of-All v),
      )

b64_decode-b64_encode : (b : List ℕ) → b ≢ [] → All IsByte b → b64_decode (b64_encode b) ≡ ok b
unfolding b64_decode
b64_decode-b64_encode b nonempty bytes =
    rw
      (
        octets-b64_encode b bytes,
        is_b64_text-b64_encode b nonempty,
        (codes_eq_iff (b64_encode b) (b64_encode b)).1 refl,
      )
      (unfold raise_if ◌>>=◌ in refl)

-- `_b64decode` takes a text exactly when `_b64encode` writes it for some bytes, of one at least, and
-- it returns these bytes.
pub b64_decode_iff :
    (v b : List ℕ) → (b64_decode v ≡ ok b) ↔ ((v ≡ b64_encode b) × (b ≢ []) × All IsByte b)
b64_decode_iff v b = (
  (b64_decode-Ensures v).at b,
  λ (e, nonempty, bytes).
      subst (λ t. b64_decode t ≡ ok b) (sym e) (b64_decode-b64_encode b nonempty bytes),
)
