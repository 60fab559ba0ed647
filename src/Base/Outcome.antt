-- ===== src/Base/Outcome.antt =====
-- Fallible code over any type of errors: `ok` with a value, or the error that was raised; and what
-- a computation ensures of the value that it returns.
use mathlib.Core.Path.{◌≡◌, refl, sym, subst}
use mathlib.Core.Bool.{Bool, true, false}
use mathlib.Core.Option.{Option, none, some}
use native.Mathlib.Omega.{arith}

pub data Outcome {ℓ} (E A : Type ℓ) : Type ℓ where
  ok : A → Outcome E A
  err : E → Outcome E A

infixl 5 ◌>>=◌ ◌>>◌
unfoldable pub ◌>>=◌ {ℓ} : {E A B : Type ℓ} → Outcome E A → (A → Outcome E B) → Outcome E B
ok a >>= f = f a
err e >>= f = err e

abbrev pub ◌>>◌ {ℓ} : {E B : Type ℓ} → Outcome E (Unit {ℓ}) → Outcome E B → Outcome E B
m >> k = m >>= λ _. k

-- `if bad: raise e`
unfoldable pub raise_if {ℓ} : {E : Type ℓ} → Bool → E → Outcome E (Unit {ℓ})
raise_if true e = err e
raise_if false e = ok tt

-- `if x is None: raise e`
unfoldable pub or_raise {ℓ} : {E A : Type ℓ} → Option A → E → Outcome E A
or_raise none e = err e
or_raise (some a) e = ok a

-- `if b: m` and `else: n`, where the arms may raise.
unfoldable pub branch {ℓ} : {E A : Type ℓ} → Bool → Outcome E A → Outcome E A → Outcome E A
branch true m n = m
branch false m n = n

pub raise_if-false {ℓ} :
    {E : Type ℓ} (b : Bool) (e : E) {u : Unit {ℓ}} → raise_if b e ≡ ok u → b ≡ false
unfolding raise_if
raise_if-false true e h = cc
raise_if-false false e h = refl

pub or_raise-some {ℓ} :
    {E A : Type ℓ} (o : Option A) (e : E) (a : A) → or_raise o e ≡ ok a → o ≡ some a
unfolding or_raise
or_raise-some none e a h = cc
or_raise-some (some b) e a h = cc

pub ok_eq {ℓ} : {E A : Type ℓ} {a b : A} → ◌≡◌ {A = Outcome E A} (ok a) (ok b) → a ≡ b
ok_eq h = cc (h)

-- A chain returned: its first step did, and the rest from there.
pub >>=-eq-ok {ℓ} :
    {E A B : Type ℓ} (m : Outcome E A) (f : A → Outcome E B) {b : B}
    → (m >>= f) ≡ ok b
    → (a : A) × (m ≡ ok a) × (f a ≡ ok b)
unfolding ◌>>=◌
>>=-eq-ok (ok a) f h = (a, refl, h)
>>=-eq-ok (err e) f h = cc

-- A step returns, and the rest goes on with its value.
pub bind_eq {ℓ} :
    {E A B : Type ℓ} (m : Outcome E A) (f : A → Outcome E B) {a : A} → m ≡ ok a → (m >>= f) ≡ f a
unfolding ◌>>=◌
bind_eq m f {a} first = subst (λ k. (k >>= f) ≡ f a) (sym first) refl

-- A step returns, and then the rest.
pub bind_ok {ℓ} :
    {E A B : Type ℓ} (m : Outcome E A) (f : A → Outcome E B) {a : A} {b : B}
    → m ≡ ok a
    → f a ≡ ok b
    → (m >>= f) ≡ ok b
unfolding ◌>>=◌
bind_ok m f {a} {b} first rest = subst (λ k. (k >>= f) ≡ ok b) (sym first) rest

pub or_raise_ok {ℓ} :
    {E A : Type ℓ} (o : Option A) (e : E) {a : A} → o ≡ some a → or_raise o e ≡ ok a
unfolding or_raise
or_raise_ok o e h = rw h

pub raise_if_ok {ℓ} : {E : Type ℓ} (b : Bool) (e : E) → b ≡ false → raise_if b e ≡ ok tt
unfolding raise_if
raise_if_ok b e h = rw h

-- When `r` returns, its value has the property `Q`.
pub record Ensures {ℓ κ} {E A : Type ℓ} (Q : A → Type κ) (r : Outcome E A) : Type (ℓ ⊔ κ) where
  pub at : (a : A) → r ≡ ok a → Q a

module _ {ℓ κ} {E A : Type ℓ} {Q : A → Type κ} where
  pub Ensures-ok : {a : A} → Q a → Ensures {E = E} Q (ok a)
  Ensures-ok h = record { at = λ b e. subst Q (ground arith) h }

  pub Ensures-err : (e : E) → Ensures Q (err e)
  Ensures-err e = record { at = λ b h. absurd (cc) }

  pub Ensures-branch :
      {b : Bool} {m n : Outcome E A}
      → (b ≡ true → Ensures Q m)
      → (b ≡ false → Ensures Q n)
      → Ensures Q (branch b m n)
  unfolding branch
  Ensures-branch {b} {m} {n} km kn = go b refl
    where
      go : (c : Bool) → b ≡ c → Ensures Q (branch c m n)
      go true e = km e
      go false e = kn e

module _ {ℓ κ} {E A B : Type ℓ} {Q : B → Type κ} where
  pub Ensures-bind :
      {r : Outcome E A} {f : A → Outcome E B}
      → ((a : A) → r ≡ ok a → Ensures Q (f a))
      → Ensures Q (r >>= f)
  Ensures-bind {r} {f} h = record {
    at = λ b e. let (a, first, rest) = >>=-eq-ok r f e in (h a first).at b rest;
  }
