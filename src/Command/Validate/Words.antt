-- ===== src/Command/Validate/Words.antt =====
-- `" ".join(text.split())` of app/services/provider_budget_commands.py, apart from the loop that
-- computes it: the words of a text, and their line.
use Prim.Native.Char.{Char, code}
use Prim.Native.String.{String}
use client_dash_up.Base.{
  ◌≡◌, refl, ap, ◌∙◌, sym, Bool, true, false, Bool-cases, inl, inr, List, [], ◌∷◌, if◌then◌else◌,
}
use client_dash_up.Command.Store.Key.{is_space}
use client_dash_up.Command.Validate.{squeeze, one_line}

-- Whether a text ends or a space comes next.
abbrev pub at_break : String → Bool
at_break String.[] = true
at_break (String.◌∷◌ c s) = is_space (code c)

-- A character at the head of the first word.
abbrev pub onto : Char → List String → List String
onto c [] = String.◌∷◌ c "" ∷ []
onto c (w ∷ ws) = String.◌∷◌ c w ∷ ws

-- `text.split()`: the longest parts without a space, in their order.
abbrev pub words : String → List String
words String.[] = []
words (String.◌∷◌ c s) =
    let rest = words s in
    if is_space (code c) then rest else if at_break s then String.◌∷◌ c "" ∷ rest else onto c rest

abbrev pub append : String → String → String
append String.[] t = t
append (String.◌∷◌ c s) t = String.◌∷◌ c (append s t)

-- The words, each after a space.
abbrev pub spaced : List String → String
spaced [] = ""
spaced (w ∷ ws) = String.◌∷◌ " " (append w (spaced ws))

-- `" ".join(words)`
abbrev pub joined : List String → String
joined [] = ""
joined (w ∷ ws) = append w (spaced ws)

joined-onto : (c : Char) (ws : List String) → joined (onto c ws) ≡ String.◌∷◌ c (joined ws)
joined-onto c [] = refl
joined-onto c (w ∷ ws) = refl

spaced-onto :
    (c : Char) (ws : List String) → spaced (onto c ws) ≡ String.◌∷◌ " " (joined (onto c ws))
spaced-onto c [] = refl
spaced-onto c (w ∷ ws) = refl

-- A text that begins with a word.
spaced-words :
    (c : Char) (s : String)
    → is_space (code c) ≡ false
    → spaced (words (String.◌∷◌ c s)) ≡ String.◌∷◌ " " (joined (words (String.◌∷◌ c s)))
spaced-words c s word = elim (Bool-cases (at_break s)) [
  | inl ends ↦ rw (word, ends) refl
  | inr goes_on ↦ rw (word, goes_on) (spaced-onto c (words s))
]

words_next :
    (c : Char) (s : String)
    → is_space (code c) ≡ false
    → at_break s ≡ false
    → words (String.◌∷◌ c s) ≡ onto c (words s)
words_next c s word goes_on = rw (word, goes_on) refl

squeeze_after :
    (d : Char) (s : String)
    → is_space (code d) ≡ false
    → squeeze true true (String.◌∷◌ d s) ≡ String.◌∷◌ " " (String.◌∷◌ d (squeeze false true s))
squeeze_after d s letter = rw letter refl

squeeze_inside :
    (d : Char) (s : String)
    → is_space (code d) ≡ false
    → squeeze false true (String.◌∷◌ d s) ≡ String.◌∷◌ d (squeeze false true s)
squeeze_inside d s letter = rw letter refl

squeeze_first :
    (pending : Bool) (d : Char) (s : String)
    → is_space (code d) ≡ false
    → squeeze pending false (String.◌∷◌ d s) ≡ String.◌∷◌ d (squeeze false true s)
squeeze_first true d s letter = rw letter refl
squeeze_first false d s letter = rw letter refl

-- The loop after a space, and inside of a word.
squeeze-words :
    (s : String)
    → (squeeze true true s ≡ spaced (words s))
      × ((c : Char)
          → is_space (code c) ≡ false
          → joined (words (String.◌∷◌ c s)) ≡ String.◌∷◌ c (squeeze false true s))
squeeze-words String.[] = (refl, λ c word. rw word refl)
squeeze-words (String.◌∷◌ d s) =
    let (after_space, in_word) = squeeze-words s in
    elim (Bool-cases (is_space (code d))) [
      | inl space ↦
          (rw space after_space, λ c word. rw (word, space) (ap (String.◌∷◌ c) (sym after_space)))
      | inr letter ↦ (
        squeeze_after d s letter
            ∙ ap (String.◌∷◌ " ") (sym (in_word d letter))
            ∙ sym (spaced-words d s letter),
        λ c word.
            ap joined (words_next c (String.◌∷◌ d s) word letter)
            ∙ joined-onto c (words (String.◌∷◌ d s))
            ∙ ap (String.◌∷◌ c) (in_word d letter ∙ sym (squeeze_inside d s letter)),
      )
    ]

before_word : (pending : Bool) (s : String) → squeeze pending false s ≡ joined (words s)
before_word pending String.[] = refl
before_word pending (String.◌∷◌ d s) = elim (Bool-cases (is_space (code d))) [
  | inl space ↦ rw space (before_word true s)
  | inr letter ↦ squeeze_first pending d s letter ∙ sym ((squeeze-words s).1 d letter)
]

-- The loop computes the line of the words.
pub one_line-joined : (s : String) → one_line s ≡ joined (words s)
one_line-joined s = before_word false s
