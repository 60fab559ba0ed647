-- ===== src/Base/Text.antt =====
-- Currency codes and notes are texts. `str.upper` is the one text operation that the budgets use;
-- it is modelled on ASCII letters, which is all that a normalised currency code holds.
use Prim.Native.Nat.{ℕ, ◌-◌}
use Prim.Native.Char.{code}
use Prim.Native.String.{String}
use mathlib.Core.Bool.{Bool, true, false, ◌&&◌}
use mathlib.Core.Option.{Option, none, some}
use mathlib.Core.Path.{◌≡◌, refl, subst}
use mathlib.Core.Logic.{◌↔◌}
use native.Mathlib.Omega.{arith}
use mathlib.Core.List.{List, [], ◌∷◌, map}
pub use text.Mathlib.Text.{◌==◌ as str_eq}
use client_dash_up.Base.Tests.{==_self, ==_iff-eq, leb, ◌==◌, if◌then◌else◌}

abbrev pub codes : String → List ℕ
codes String.[] = []
codes (String.◌∷◌ c s) = code c ∷ codes s

unfoldable pub upper_code : ℕ → ℕ
upper_code c = if leb b'a' c && leb c b'z' then c - 32 else c

-- `s.upper()`
unfoldable pub upper : String → List ℕ
unfolding upper_code
upper s = map upper_code (codes s)

abbrev pub codes_eq : List ℕ → List ℕ → Bool
codes_eq [] [] = true
codes_eq (a ∷ s) (b ∷ t) = a == b && codes_eq s t
codes_eq _ _ = false

pub codes_eq_iff : (s t : List ℕ) → (codes_eq s t ≡ true) ↔ (s ≡ t)
codes_eq_iff s t = (to s t, λ e. subst (λ k. codes_eq s k ≡ true) e (self s))
  where
    self : (s : List ℕ) → codes_eq s s ≡ true
    self [] = refl
    self (c ∷ s) = rw (==_self c, self s)

    to : (s t : List ℕ) → codes_eq s t ≡ true → s ≡ t
    to [] [] h = refl
    to [] (b ∷ t) h = absurd (cc)
    to (a ∷ s) [] h = absurd (cc)
    to (a ∷ s) (b ∷ t) h = ground (arith, to s t, ==_iff-eq a b)

-- `a.upper() == b.upper()`
unfoldable pub same_currency : String → String → Bool
unfolding upper
same_currency a b = codes_eq (upper a) (upper b)

-- Equality of optional texts, as Python's `==` on `Optional[str]`.
abbrev pub opt_str_eq : Option String → Option String → Bool
opt_str_eq none none = true
opt_str_eq (some a) (some b) = str_eq a b
opt_str_eq _ _ = false
