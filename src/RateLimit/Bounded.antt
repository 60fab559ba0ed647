-- ===== src/RateLimit/Bounded.antt =====
-- How many requests the limiter lets through (app/services/rate_limit.py).
use Prim.Native.String.{String}
use mathlib.Core.List.{append_assoc, append-nil}
use text.Mathlib.TextEquality.{eq_iff}
use client_dash_up.Base.{
  ℕ, ◌+◌, ◌≤◌, ◌<◌, ◌≡◌, inl, inr, refl, sym, ap, ◌∙◌, subst, arith, Bool, true, false, ◌&&◌, List,
  [], ◌∷◌, ◌++◌, leb, length, select, if◌then◌else◌, Bool-cases,
}
use client_dash_up.Base.Text.{str_eq}
use client_dash_up.RateLimit.{Decision, Buckets, no_buckets, set_bucket, Call, decisions}
use client_dash_up.RateLimit.Windows.{counts, in_window, decisions_by_log, InOrder, select-append}
use client_dash_up.RateLimit.Refines.{decisions-log}

-- The instants at which calls of the key were allowed.
abbrev pub granted_at : String → List Call → List Decision → List ℕ
granted_at key [] ds = []
granted_at key (c ∷ calls) [] = []
granted_at key (c ∷ calls) (d ∷ ds) =
    let rest = granted_at key calls ds in
    if str_eq key c.key && d.allowed then c.now ∷ rest else rest

-- Of the instants those that lie in the window which ends at `end`.
abbrev pub within : ℕ → ℕ → List ℕ → List ℕ
within window_seconds end instants = select (λ t. counts window_seconds end t && leb t end) instants

-- No call of the key may go over the limit.
abbrev pub IsLimited : String → ℕ → List Call → Type 0
IsLimited key limit [] = Unit
IsLimited key limit (c ∷ calls) =
    (str_eq key c.key ≡ true → c.max_requests ≤ limit) × IsLimited key limit calls

length-select_mono :
    (p q : ℕ → Bool) (xs : List ℕ)
    → ((x : ℕ) → p x ≡ true → q x ≡ true)
    → length (select p xs) ≤ length (select q xs)
length-select_mono p q [] h = omega arith
length-select_mono p q (x ∷ xs) h =
    let rest = length-select_mono p q xs h in
    elim (Bool-cases (p x)) [
      | inl e ↦ rw (e, h x e) (omega (arith, rest))
      | inr e ↦ elim (Bool-cases (q x)) [
        | inl f ↦ rw (e, f) (omega (arith, rest))
        | inr f ↦ rw (e, f) rest
      ]
    ]

length-append : (xs ys : List ℕ) → length (xs ++ ys) ≡ length xs + length ys
length-append [] ys = omega arith
length-append (x ∷ xs) ys = omega (arith, length-append xs ys)

-- One more request, where the window that ends at it has room.
within-snoc :
    (window_seconds now end limit : ℕ) (granted : List ℕ)
    → length (in_window window_seconds now granted) < limit
    → length (within window_seconds end granted) ≤ limit
    → length (within window_seconds end (granted ++ now ∷ [])) ≤ limit
within-snoc window_seconds now end limit granted room h =
    let p = λ (t : ℕ). counts window_seconds end t && leb t end in
    let both : length (within window_seconds end (granted ++ now ∷ []))
        ≡ length (within window_seconds end granted)
          + length (within window_seconds end (now ∷ [])) =
      ap length (select-append p granted (now ∷ [])) ∙ length-append _ _ in
    elim (Bool-cases (p now)) [
      | inl e ↦
          let fewer =
            length-select_mono p (counts window_seconds now) granted (λ t f. ground arith) in
          let one : length (within window_seconds end (now ∷ [])) ≡ 1 = rw e refl in
          omega (arith, both, fewer, one)
      | inr e ↦
          let zero_more : length (within window_seconds end (now ∷ [])) ≡ 0 = rw e refl in
          omega (arith, both, zero_more)
    ]

module _ (window_seconds : ℕ) (key : String) (end limit : ℕ) where
  abbrev IsBounded : List ℕ → Type 0
  IsBounded instants = length (within window_seconds end instants) ≤ limit

  IsBounded-by_log :
      (calls : List Call) (granted : Buckets)
      → IsLimited key limit calls
      → IsBounded (granted key)
      → IsBounded
          (granted key ++ granted_at key calls (decisions_by_log window_seconds calls granted))
  unfolding set_bucket
  IsBounded-by_log [] granted limited h = rw (append-nil (granted key)) h
  IsBounded-by_log (c ∷ calls) granted (here_limited, limited) h =
      let full = leb c.max_requests (length (in_window window_seconds c.now (granted c.key))) in
      let granted' = set_bucket c.key (granted c.key ++ c.now ∷ []) granted in
      let rest = granted_at key calls (decisions_by_log window_seconds calls granted') in
      elim (Bool-cases full) [
        | inl refused ↦
            let no_more : (str_eq key c.key && false) ≡ false = ground arith in
            rw (refused, no_more) (IsBounded-by_log calls granted limited h)
        | inr free ↦ elim (Bool-cases (str_eq key c.key)) [
          | inl mine ↦
              let same : granted c.key ≡ granted key =
                ap granted (sym ((eq_iff key c.key).0 mine)) in
              let one_more : granted' key ≡ granted key ++ c.now ∷ [] = rw (mine, same) refl in
              let allowed = here_limited mine in
              let room : length (in_window window_seconds c.now (granted key)) < limit =
                subst (λ l. length (in_window window_seconds c.now l) < limit) same
                  (ground arith) in
              let bounded =
                subst IsBounded (sym one_more)
                  (within-snoc window_seconds c.now end limit (granted key) room h) in
              rw (free, mine)
                (subst IsBounded
                  (ap (λ l. l ++ rest) one_more ∙ append_assoc (granted key) (c.now ∷ []) rest)
                  (IsBounded-by_log calls granted' limited bounded))
          | inr other ↦
              let same : granted' key ≡ granted key = rw other refl in
              rw (free, other)
                (subst (λ l. IsBounded (l ++ rest)) same
                  (IsBounded-by_log calls granted' limited (subst IsBounded (sym same) h)))
        ]
      ]

-- Of calls that are made one after the other, with one window and no limit over `limit` for a key, no
-- more than `limit` of this key are allowed in any window, wherever it ends.
pub decisions_bounded :
    (window_seconds : ℕ) (key : String) (end limit : ℕ) (calls : List Call)
    → InOrder 0 calls
    → IsLimited key limit calls
    → length (
        within window_seconds end
          (granted_at key calls (decisions window_seconds calls no_buckets)))
      ≤ limit
decisions_bounded window_seconds key end limit calls in_order limited =
    rw (decisions-log window_seconds calls in_order)
      (IsBounded-by_log window_seconds key end limit calls no_buckets limited (omega arith))
