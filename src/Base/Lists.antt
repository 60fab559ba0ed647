-- ===== src/Base/Lists.antt =====
-- Lists measured by native numbers, filters by Boolean tests, and membership as a family.
use Prim.Native.Nat.{ℕ, zero, suc, ◌+◌}
use mathlib.Core.Path.{◌≡◌, refl, sym, subst}
use mathlib.Core.Logic.{◌⊎◌, inl, inr}
use mathlib.Core.Bool.{Bool, true, false, ◌||◌}
use mathlib.Core.Option.{Option, none, some}
use mathlib.Core.List.{List, [], ◌∷◌, ◌++◌}
use native.Mathlib.Omega.{arith}
use client_dash_up.Base.Tests.{if◌then◌else◌, Bool-cases}

module _ {ℓ} {A : Type ℓ} where
  abbrev pub length : List A → ℕ
  length [] = 0
  length (x ∷ xs) = suc (length xs)

  abbrev pub take : ℕ → List A → List A
  take zero xs = []
  take (suc n) [] = []
  take (suc n) (x ∷ xs) = x ∷ take n xs

  -- `[x for x in xs if p(x)]`
  abbrev pub select : (A → Bool) → List A → List A
  select p [] = []
  select p (x ∷ xs) = let rest = select p xs in if p x then x ∷ rest else rest

  -- `any(p(x) for x in xs)`
  abbrev pub any : (A → Bool) → List A → Bool
  any p [] = false
  any p (x ∷ xs) = p x || any p xs

  -- The first element that passes.
  abbrev pub first : (A → Bool) → List A → Option A
  first p [] = none
  first p (x ∷ xs) = let rest = first p xs in if p x then some x else rest

  -- `In x xs` holds a position of `x` in `xs`.
  pub data In (x : A) : List A → Type ℓ where
    here : {xs : List A} → In x (x ∷ xs)
    there : {y : A} {xs : List A} → In x xs → In x (y ∷ xs)

  pub In-cons : {x y : A} {xs : List A} → In x (y ∷ xs) → (x ≡ y) ⊎ In x xs
  In-cons here = inl refl
  In-cons (there i) = inr i

  -- No element passes a test that fails on the whole list.
  pub any-false : (p : A → Bool) (x : A) (xs : List A) → any p xs ≡ false → In x xs → p x ≡ false
  any-false p x [] h i = elim i [ ]
  any-false p x (y ∷ xs) h here = ground arith
  any-false p x (y ∷ xs) h (there i) = any-false p x xs (ground arith) i

  pub any-In : (p : A → Bool) (x : A) (xs : List A) → In x xs → p x ≡ true → any p xs ≡ true
  any-In p x [] i e = elim i [ ]
  any-In p x (y ∷ xs) here e = ground arith
  any-In p x (y ∷ xs) (there i) e = let rest = any-In p x xs i e in ground arith

  pub In-any : (p : A → Bool) (xs : List A) → any p xs ≡ true → (x : A) × In x xs × (p x ≡ true)
  In-any p [] e = absurd (cc (e))
  In-any p (y ∷ xs) e = elim (Bool-cases (p y)) [
    | inl pass ↦ (y, here, pass)
    | inr fail ↦ let (x, i, q) = In-any p xs (ground arith) in (x, there i, q)
  ]

  select-true :
      (p : A → Bool) (y : A) (xs : List A) → p y ≡ true → select p (y ∷ xs) ≡ y ∷ select p xs
  select-true p y xs e = rw e

  select-false :
      (p : A → Bool) (y : A) (xs : List A) → p y ≡ false → select p (y ∷ xs) ≡ select p xs
  select-false p y xs e = rw e

  -- What a filter keeps stood in the list and passes.
  pub select-In : (p : A → Bool) (x : A) (xs : List A) → In x xs → p x ≡ true → In x (select p xs)
  select-In p x [] i e = elim i [ ]
  select-In p x (y ∷ xs) here e = rw (select-true p x xs e) here
  select-In p x (y ∷ xs) (there i) e = elim (Bool-cases (p y)) [
    | inl pass ↦ rw (select-true p y xs pass) (there (select-In p x xs i e))
    | inr fail ↦ rw (select-false p y xs fail) (select-In p x xs i e)
  ]

  pub In-select : (p : A → Bool) (x : A) (xs : List A) → In x (select p xs) → In x xs × (p x ≡ true)
  In-select p x [] i = elim i [ ]
  In-select p x (y ∷ xs) i = elim (Bool-cases (p y)) [
    | inl pass ↦ elim (In-cons (rw (select-true p y xs pass) at i)) [
      | inl e ↦ (subst (λ z. In z (y ∷ xs)) (sym e) here, rw e pass)
      | inr j ↦ let (k, e) = In-select p x xs j in (there k, e)
    ]
    | inr fail ↦ let (k, e) = In-select p x xs (rw (select-false p y xs fail) at i) in (there k, e)
  ]

  -- What a search finds stands in the list and passes.
  pub first-In : (p : A → Bool) (x : A) (xs : List A) → first p xs ≡ some x → In x xs × (p x ≡ true)
  first-In p x [] e = absurd (cc)
  first-In p x (y ∷ xs) e = elim (Bool-cases (p y)) [
    | inl pass ↦
        let found : y ≡ x = ground arith in
        (subst (λ z. In z (y ∷ xs)) found here, rw (← found) pass)
    | inr fail ↦ let (i, e') = first-In p x xs (ground arith) in (there i, e')
  ]

  -- What holds of every element holds of each.
  abbrev pub All {κ} : (A → Type κ) → List A → Type κ
  All P [] = Unit
  All P (x ∷ xs) = P x × All P xs

  pub All-In {κ} : (P : A → Type κ) (xs : List A) → All P xs → (x : A) → In x xs → P x
  All-In P [] h x i = elim i [ ]
  All-In P (y ∷ xs) h x here = h.0
  All-In P (y ∷ xs) h x (there i) = All-In P xs h.1 x i

  pub length-append : (xs ys : List A) → length (xs ++ ys) ≡ length xs + length ys
  length-append [] ys = omega arith
  length-append (x ∷ xs) ys = omega (arith, length-append xs ys)
