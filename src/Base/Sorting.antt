-- ===== src/Base/Sorting.antt =====
-- A stable sort by a test of which element may stand before which.
use Prim.Native.Nat.{ℕ, zero, suc, ◌≤◌}
use native.Mathlib.Omega.{arith}
use mathlib.Core.Path.{◌≡◌, refl, ap, ◌∙◌}
use mathlib.Core.Logic.{◌⊎◌, inl, inr}
use mathlib.Core.Bool.{Bool, true, false}
use mathlib.Core.List.{List, [], ◌∷◌}
use client_dash_up.Base.Tests.{Bool-cases, if◌then◌else◌}
use client_dash_up.Base.Lists.{length, take, In, In-cons, here, there}

-- `ORDER BY` by a test of whether one row may stand before another.
abbrev pub insert_by {ℓ} : {A : Type ℓ} → (A → A → Bool) → A → List A → List A
insert_by before x [] = x ∷ []
insert_by before x (y ∷ ys) =
    let rest = insert_by before x ys in if before x y then x ∷ y ∷ ys else y ∷ rest

abbrev pub order_by {ℓ} : {A : Type ℓ} → (A → A → Bool) → List A → List A
order_by before [] = []
order_by before (x ∷ xs) = insert_by before x (order_by before xs)

module _ {A : Type 0} (before : A → A → Bool) where
  pub insert_true :
      (x y : A) (ys : List A) → before x y ≡ true → insert_by before x (y ∷ ys) ≡ x ∷ y ∷ ys
  insert_true x y ys e = rw e refl

  pub insert_false :
      (x y : A) (ys : List A)
      → before x y ≡ false
      → insert_by before x (y ∷ ys) ≡ y ∷ insert_by before x ys
  insert_false x y ys e = rw e refl

  pub insert_by-In : (x z : A) (ys : List A) → In z (x ∷ ys) → In z (insert_by before x ys)
  insert_by-In x z [] i = i
  insert_by-In x z (y ∷ ys) i = elim (Bool-cases (before x y)) [
    | inl e ↦ rw (insert_true x y ys e) i
    | inr e ↦ rw (insert_false x y ys e) (elim (In-cons i) [
      | inl same ↦ there (insert_by-In x z ys (rw same here))
      | inr j ↦ elim (In-cons j) [
        | inl same ↦ rw same here
        | inr k ↦ there (insert_by-In x z ys (there k))
      ]
    ])
  ]

  pub In-insert_by : (x z : A) (ys : List A) → In z (insert_by before x ys) → In z (x ∷ ys)
  In-insert_by x z [] i = i
  In-insert_by x z (y ∷ ys) i = elim (Bool-cases (before x y)) [
    | inl e ↦ rw (insert_true x y ys e) at i
    | inr e ↦ elim (In-cons (rw (insert_false x y ys e) at i)) [
      | inl same ↦ there (rw same here)
      | inr j ↦ elim (In-cons (In-insert_by x z ys j)) [
        | inl same ↦ rw same here
        | inr k ↦ there (there k)
      ]
    ]
  ]

  pub order_by-In : (z : A) (xs : List A) → In z xs → In z (order_by before xs)
  order_by-In z [] i = i
  order_by-In z (x ∷ xs) i =
      insert_by-In x z (order_by before xs)
        (elim (In-cons i) [ inl same ↦ rw same here | inr j ↦ there (order_by-In z xs j) ])

  pub In-order_by : (z : A) (xs : List A) → In z (order_by before xs) → In z xs
  In-order_by z [] i = i
  In-order_by z (x ∷ xs) i = elim (In-cons (In-insert_by x z (order_by before xs) i)) [
    | inl same ↦ rw same here
    | inr j ↦ there (In-order_by z xs j)
  ]

  length-insert_by : (x : A) (xs : List A) → length (insert_by before x xs) ≡ suc (length xs)
  length-insert_by x [] = refl
  length-insert_by x (y ∷ ys) = elim (Bool-cases (before x y)) [
    | inl e ↦ rw (insert_true x y ys e) refl
    | inr e ↦ rw (insert_false x y ys e) (ap suc (length-insert_by x ys))
  ]

  pub length-order_by : (xs : List A) → length (order_by before xs) ≡ length xs
  length-order_by [] = refl
  length-order_by (x ∷ xs) = length-insert_by x (order_by before xs) ∙ ap suc (length-order_by xs)

  -- Every element may stand before each that follows.
  abbrev pub IsOrdered : List A → Type 0
  IsOrdered [] = Unit
  IsOrdered (x ∷ xs) = ((y : A) → In y xs → before x y ≡ true) × IsOrdered xs

  module _ (total : (x y : A) → before x y ≡ false → before y x ≡ true)
      (trans : (x y z : A) → before x y ≡ true → before y z ≡ true → before x z ≡ true) where
    insert_by-IsOrdered : (x : A) (ys : List A) → IsOrdered ys → IsOrdered (insert_by before x ys)
    insert_by-IsOrdered x [] h = (λ y i. elim i [ ], tt)
    insert_by-IsOrdered x (y ∷ ys) (first, rest) = elim (Bool-cases (before x y)) [
      | inl e ↦ rw (insert_true x y ys e) (
        λ z i. elim (In-cons i) [ inl same ↦ rw same e | inr j ↦ trans x y z e (first z j) ],
        (first, rest),
      )
      | inr e ↦ rw (insert_false x y ys e) (
        λ z i. elim (In-cons (In-insert_by x z ys i)) [
          | inl same ↦ rw same (total x y e)
          | inr j ↦ first z j
        ],
        insert_by-IsOrdered x ys rest,
      )
    ]

    pub order_by-IsOrdered : (xs : List A) → IsOrdered (order_by before xs)
    order_by-IsOrdered [] = tt
    order_by-IsOrdered (x ∷ xs) = insert_by-IsOrdered x (order_by before xs) (order_by-IsOrdered xs)

  pub In-take : (n : ℕ) (z : A) (xs : List A) → In z (take n xs) → In z xs
  In-take zero z xs i = elim i [ ]
  In-take (suc n) z [] i = i
  In-take (suc n) z (x ∷ xs) here = here
  In-take (suc n) z (x ∷ xs) (there i) = there (In-take n z xs i)

  pub length-take-le : (n : ℕ) (xs : List A) → length (take n xs) ≤ n
  length-take-le zero xs = omega arith
  length-take-le (suc n) [] = omega arith
  length-take-le (suc n) (x ∷ xs) = omega (arith, length-take-le n xs)

  pub take-IsOrdered : (n : ℕ) (xs : List A) → IsOrdered xs → IsOrdered (take n xs)
  take-IsOrdered zero xs h = tt
  take-IsOrdered (suc n) [] h = tt
  take-IsOrdered (suc n) (x ∷ xs) (first, rest) =
      (λ y i. first y (In-take n y xs i), take-IsOrdered n xs rest)

  -- What an ordered list loses when it is cut stands behind all that it keeps.
  pub cut_off :
      (n : ℕ) (z : A) (xs : List A)
      → IsOrdered xs
      → In z xs
      → In z (take n xs)
        ⊎ ((length (take n xs) ≡ n) × ((y : A) → In y (take n xs) → before y z ≡ true))
  cut_off zero z xs h i = inr (refl, λ y j. elim j [ ])
  cut_off (suc n) z [] h i = inl i
  cut_off (suc n) z (x ∷ xs) (first, rest) here = inl here
  cut_off (suc n) z (x ∷ xs) (first, rest) (there i) = elim (cut_off n z xs rest i) [
    | inl kept ↦ inl (there kept)
    | inr (full, behind) ↦ inr (
      omega arith,
      λ y j. elim (In-cons j) [ inl same ↦ rw same (first z i) | inr k ↦ behind y k ],
    )
  ]
