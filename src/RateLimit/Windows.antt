-- ===== src/RateLimit/Windows.antt =====
-- The sliding window of the limiter, on the instants that it keeps (app/services/rate_limit.py).
use Prim.Native.String.{String}
use client_dash_up.Base.{
  ℕ, ◌+◌, ◌≤◌, ◌≡◌, ◌⊎◌, inl, inr, refl, ap, arith, Bool, true, false, List, [], ◌∷◌, ◌++◌, leb,
  ltb, length, select, if◌then◌else◌, Bool-cases, In, In-cons, here, there, In-select,
}
use client_dash_up.Base.Sorting.{IsOrdered}
use client_dash_up.RateLimit.{Decision, Buckets, ticks, drop_expired, set_bucket, retry_after, Call}

-- A request of the instant `t` counts at the instant `now`.
abbrev pub counts : ℕ → ℕ → ℕ → Bool
counts window_seconds now t = ltb now (t + ticks window_seconds)

-- The sliding window: of the requests that were granted, all of them kept, those count that lie in the
-- window which ends now.
abbrev pub in_window : ℕ → ℕ → List ℕ → List ℕ
in_window window_seconds now granted = select (counts window_seconds now) granted

-- A limiter that keeps them all.
abbrev pub allow_by_log : String → ℕ → ℕ → ℕ → Buckets → Decision × Buckets
allow_by_log key now max_requests window_seconds granted =
    if leb max_requests (length (in_window window_seconds now (granted key)))
    then (
      record {
        allowed = false;
        retry_after_seconds =
            retry_after now window_seconds (in_window window_seconds now (granted key));
      },
      granted,
    )
    else (
      record { allowed = true; retry_after_seconds = 0 },
      set_bucket key (granted key ++ now ∷ []) granted,
    )

abbrev pub decisions_by_log : ℕ → List Call → Buckets → List Decision
decisions_by_log window_seconds [] granted = []
decisions_by_log window_seconds (c ∷ calls) granted =
    let r = allow_by_log c.key c.now c.max_requests window_seconds granted in
    r.0 ∷ decisions_by_log window_seconds calls r.1

-- The calls are made one after the other, from the instant `now` on.
abbrev pub InOrder : ℕ → List Call → Type 0
InOrder now [] = Unit
InOrder now (c ∷ calls) = (now ≤ c.now) × InOrder c.now calls

pub select_all : (p : ℕ → Bool) (xs : List ℕ) → ((x : ℕ) → In x xs → p x ≡ true) → select p xs ≡ xs
select_all p [] h = refl
select_all p (x ∷ xs) h = rw (h x here) (ap (λ k. x ∷ k) (select_all p xs (λ y i. h y (there i))))

-- On instants in their order the loop is a filter.
pub drop_expired-select :
    (now window_seconds : ℕ) (bucket : List ℕ)
    → IsOrdered leb bucket
    → drop_expired now window_seconds bucket ≡ in_window window_seconds now bucket
unfolding drop_expired
drop_expired-select now window_seconds [] h = refl
drop_expired-select now window_seconds (t ∷ bucket) (first, rest) =
    elim (Bool-cases (leb (t + ticks window_seconds) now)) [
      | inl gone ↦
          let out : counts window_seconds now t ≡ false = ground arith in
          rw (gone, out) (drop_expired-select now window_seconds bucket rest)
      | inr stays ↦
          let here_too : counts window_seconds now t ≡ true = ground arith in
          let all : select (counts window_seconds now) bucket ≡ bucket =
            select_all (counts window_seconds now) bucket
              (λ y i. let after = first y i in ground arith) in
          rw (stays, here_too, all) refl
    ]

pub select-append :
    (p : ℕ → Bool) (xs ys : List ℕ) → select p (xs ++ ys) ≡ select p xs ++ select p ys
select-append p [] ys = refl
select-append p (x ∷ xs) ys = elim (Bool-cases (p x)) [
  | inl e ↦ rw (e, select-append p xs ys) refl
  | inr e ↦ rw (e, select-append p xs ys) refl
]

pub select-IsOrdered : (p : ℕ → Bool) (xs : List ℕ) → IsOrdered leb xs → IsOrdered leb (select p xs)
select-IsOrdered p [] h = tt
select-IsOrdered p (x ∷ xs) (first, rest) = elim (Bool-cases (p x)) [
  | inl e ↦ rw e (λ y i. first y (In-select p y xs i).0, select-IsOrdered p xs rest)
  | inr e ↦ rw e (select-IsOrdered p xs rest)
]

pub In-snoc : (t now : ℕ) (xs : List ℕ) → In t (xs ++ now ∷ []) → In t xs ⊎ (t ≡ now)
In-snoc t now [] i = elim (In-cons i) [ inl e ↦ inr e | inr j ↦ inl j ]
In-snoc t now (x ∷ xs) i = elim (In-cons i) [
  | inl e ↦ inl (rw e here)
  | inr j ↦ elim (In-snoc t now xs j) [ inl k ↦ inl (there k) | inr e ↦ inr e ]
]

pub snoc-IsOrdered :
    (now : ℕ) (xs : List ℕ)
    → IsOrdered leb xs
    → ((t : ℕ) → In t xs → t ≤ now)
    → IsOrdered leb (xs ++ now ∷ [])
snoc-IsOrdered now [] h past = (λ y i. elim i [ ], tt)
snoc-IsOrdered now (x ∷ xs) (first, rest) past = (
  λ y i. elim (In-snoc y now xs i) [
    | inl j ↦ first y j
    | inr e ↦ let before = past x here in ground arith
  ],
  snoc-IsOrdered now xs rest (λ t i. past t (there i)),
)

-- What has left the window does not come back.
pub in_window_later :
    (window_seconds now later : ℕ) (xs : List ℕ)
    → now ≤ later
    → in_window window_seconds later (in_window window_seconds now xs)
      ≡ in_window window_seconds later xs
in_window_later window_seconds now later [] h = refl
in_window_later window_seconds now later (x ∷ xs) h =
    let rest = in_window_later window_seconds now later xs h in
    elim (Bool-cases (counts window_seconds now x)) [
      | inl e ↦ elim (Bool-cases (counts window_seconds later x)) [
        | inl f ↦ rw (e, f, rest) refl
        | inr f ↦ rw (e, f, rest) refl
      ]
      | inr e ↦ let f : counts window_seconds later x ≡ false = ground arith in rw (e, f, rest) refl
    ]
