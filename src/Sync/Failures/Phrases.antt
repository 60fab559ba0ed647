-- ===== src/Sync/Failures/Phrases.antt =====
-- Phrases and words in a text, apart from the tests of `_classification_text`
-- (app/services/ad_account_sync.py).
use Prim.Native.String.{String}
use client_dash_up.Base.Text.{codes}
use client_dash_up.Base.{
  ℕ, ◌≡◌, ◌≢◌, ◌↔◌, refl, ap, sym, subst, Bool, true, false, not, ◌&&◌, ◌||◌, List, [], ◌∷◌, ◌++◌,
  In, In-cons, here, there, inl, inr, Bool-cases, ==_iff-eq, ==_self, ◌==◌,
}
use client_dash_up.Sync.Failures.{
  starts_with, contains, contains_any, is_word_code, at_word_end, is_word_at, any_word_at, has_word,
}

-- A phrase stands somewhere in a text.
abbrev pub Occurs : List ℕ → List ℕ → Type 0
Occurs needle text = (before : List ℕ) × (after : List ℕ) × (text ≡ before ++ (needle ++ after))

abbrev pub AnyOccurs : List String → List ℕ → Type 0
AnyOccurs phrases text = (n : String) × In n phrases × Occurs (codes n) text

-- A text ends, or a character that belongs to no word comes next.
abbrev pub StartsOutside : List ℕ → Type 0
StartsOutside [] = Unit
StartsOutside (c ∷ cs) = is_word_code c ≡ false

-- The last character of a text belongs to no word; `inside` is that of the character before it.
abbrev pub EndsOutside : Bool → List ℕ → Type 0
EndsOutside inside [] = inside ≡ false
EndsOutside inside (c ∷ cs) = EndsOutside (is_word_code c) cs

-- One of the words stands in a text, with no letter, digit or underscore on either side.
pub record AnyWord (words : List String) (inside : Bool) (text : List ℕ) : Type 0 where
  pub word : String
  pub listed : In word words
  pub before : List ℕ
  pub after : List ℕ
  pub at : text ≡ before ++ (codes word ++ after)
  pub starts : EndsOutside inside before
  pub ends : StartsOutside after

and_parts : (a b : Bool) → (a && b) ≡ true → (a ≡ true) × (b ≡ true)
and_parts true b h = (refl, h)
and_parts false b h = absurd (cc (h))

or_right : (a : Bool) {b : Bool} → b ≡ true → (a || b) ≡ true
or_right true h = refl
or_right false h = h

or_rest : (a b : Bool) → (a || b) ≡ true → a ≡ false → b ≡ true
or_rest true b h e = absurd (cc (e))
or_rest false b h e = h

falsified : (b : Bool) → not b ≡ true → b ≡ false
falsified true h = absurd (cc (h))
falsified false h = refl

starts_with-split : (n t : List ℕ) → starts_with n t ≡ true → (after : List ℕ) × (t ≡ n ++ after)
starts_with-split [] t h = (t, refl)
starts_with-split (x ∷ ns) [] h = absurd (cc (h))
starts_with-split (x ∷ ns) (c ∷ cs) h =
    let (same, others) = and_parts (x == c) (starts_with ns cs) h in
    let (after, e) = starts_with-split ns cs others in (after, cc (==_iff-eq x c same, e))

starts_with-append : (n after : List ℕ) → starts_with n (n ++ after) ≡ true
starts_with-append [] after = refl
starts_with-append (x ∷ ns) after = rw (==_self x, starts_with-append ns after) refl

contains-starts : (n t : List ℕ) → starts_with n t ≡ true → contains n t ≡ true
contains-starts n [] h = h
contains-starts n (c ∷ cs) h = rw h refl

contains-Occurs : (n t : List ℕ) → contains n t ≡ true → Occurs n t
contains-Occurs n [] h = let (after, e) = starts_with-split n [] h in ([], after, e)
contains-Occurs n (c ∷ cs) h = elim (Bool-cases (starts_with n (c ∷ cs))) [
  | inl head ↦ let (after, e) = starts_with-split n (c ∷ cs) head in ([], after, e)
  | inr other ↦
      let (before, after, e) = contains-Occurs n cs (or_rest _ _ h other) in
      (c ∷ before, after, ap (λ t. c ∷ t) e)
]

contains-append : (n before after : List ℕ) → contains n (before ++ (n ++ after)) ≡ true
contains-append n [] after = contains-starts n (n ++ after) (starts_with-append n after)
contains-append n (c ∷ before) after = or_right _ (contains-append n before after)

contains_any-to :
    (phrases : List String) (t : List ℕ) → contains_any phrases t ≡ true → AnyOccurs phrases t
contains_any-to [] t h = absurd (cc (h))
contains_any-to (n ∷ ns) t h = elim (Bool-cases (contains (codes n) t)) [
  | inl head ↦ (n, here, contains-Occurs (codes n) t head)
  | inr other ↦ let (m, i, at) = contains_any-to ns t (or_rest _ _ h other) in (m, there i, at)
]

contains_any-In :
    (phrases : List String) (n : String) (t : List ℕ)
    → In n phrases
    → contains (codes n) t ≡ true
    → contains_any phrases t ≡ true
contains_any-In [] n t i h = elim i [ ]
contains_any-In (m ∷ ns) n t i h = elim (In-cons i) [
  | inl same ↦ rw (subst (λ k. contains (codes k) t ≡ true) same h) refl
  | inr j ↦ or_right _ (contains_any-In ns n t j h)
]

pub contains_any_iff :
    (phrases : List String) (t : List ℕ) → (contains_any phrases t ≡ true) ↔ AnyOccurs phrases t
contains_any_iff phrases t = (
  contains_any-to phrases t,
  λ (n, i, (before, after, e)).
      contains_any-In phrases n t i
        (subst (λ k. contains (codes n) k ≡ true) (sym e) (contains-append (codes n) before after)),
)

at_word_end_iff : (t : List ℕ) → (at_word_end t ≡ true) ↔ StartsOutside t
at_word_end_iff [] = (λ _. tt, λ _. refl)
at_word_end_iff (c ∷ cs) = (λ h. falsified _ h, λ h. rw h refl)

is_word_at-split :
    (n t : List ℕ)
    → is_word_at n t ≡ true
    → (after : List ℕ) × (t ≡ n ++ after) × StartsOutside after
is_word_at-split [] t h = (t, refl, (at_word_end_iff t).0 h)
is_word_at-split (x ∷ ns) [] h = absurd (cc (h))
is_word_at-split (x ∷ ns) (c ∷ cs) h =
    let (same, others) = and_parts (x == c) (is_word_at ns cs) h in
    let (after, e, ends) = is_word_at-split ns cs others in
    (after, cc (==_iff-eq x c same, e), ends)

is_word_at-append : (n after : List ℕ) → StartsOutside after → is_word_at n (n ++ after) ≡ true
is_word_at-append [] after h = (at_word_end_iff after).1 h
is_word_at-append (x ∷ ns) after h = rw (==_self x, is_word_at-append ns after h) refl

any_word_at-split :
    (words : List String) (t : List ℕ)
    → any_word_at words t ≡ true
    → (n : String) × In n words × ((after : List ℕ) × (t ≡ codes n ++ after) × StartsOutside after)
any_word_at-split [] t h = absurd (cc (h))
any_word_at-split (n ∷ ns) t h = elim (Bool-cases (is_word_at (codes n) t)) [
  | inl head ↦ (n, here, is_word_at-split (codes n) t head)
  | inr other ↦ let (m, i, at) = any_word_at-split ns t (or_rest _ _ h other) in (m, there i, at)
]

any_word_at-In :
    (words : List String) (n : String) (t : List ℕ)
    → In n words
    → is_word_at (codes n) t ≡ true
    → any_word_at words t ≡ true
any_word_at-In [] n t i h = elim i [ ]
any_word_at-In (m ∷ ns) n t i h = elim (In-cons i) [
  | inl same ↦ rw (subst (λ k. is_word_at (codes k) t ≡ true) same h) refl
  | inr j ↦ or_right _ (any_word_at-In ns n t j h)
]

has_word-to :
    (words : List String) (inside : Bool) (t : List ℕ)
    → has_word words inside t ≡ true
    → AnyWord words inside t
has_word-to words inside [] h = absurd (cc (h))
has_word-to words inside (c ∷ cs) h = elim (Bool-cases (not inside && any_word_at words (c ∷ cs))) [
  | inl head ↦
      let (outside, found) = and_parts (not inside) _ head in
      let (n, i, (after, e, ends)) = any_word_at-split words (c ∷ cs) found in
      record {
        word = n;
        listed = i;
        before = [];
        after = after;
        at = e;
        starts = falsified inside outside;
        ends = ends;
      }
  | inr other ↦
      let w = has_word-to words (is_word_code c) cs (or_rest _ _ h other) in
      record {
        word = w.word;
        listed = w.listed;
        before = c ∷ w.before;
        after = w.after;
        at = ap (λ t. c ∷ t) w.at;
        starts = w.starts;
        ends = w.ends;
      }
]

-- A word that stands at the head.
has_word_here :
    (words : List String) (inside : Bool) (t : List ℕ)
    → inside ≡ false
    → t ≢ []
    → any_word_at words t ≡ true
    → has_word words inside t ≡ true
has_word_here words inside [] outside some_char h = absurd (some_char refl)
has_word_here words inside (c ∷ cs) outside some_char h = rw (outside, h) refl

append_nonempty : (n after : List ℕ) → n ≢ [] → n ++ after ≢ []
append_nonempty [] after h e = h refl
append_nonempty (x ∷ ns) after h e = cc (e)

has_word-append :
    (words : List String) (inside : Bool) (n : String) (before after : List ℕ)
    → In n words
    → codes n ≢ []
    → EndsOutside inside before
    → StartsOutside after
    → has_word words inside (before ++ (codes n ++ after)) ≡ true
has_word-append words inside n [] after i some_char starts ends =
    has_word_here words inside (codes n ++ after) starts (append_nonempty (codes n) after some_char)
      (any_word_at-In words n (codes n ++ after) i (is_word_at-append (codes n) after ends))
has_word-append words inside n (c ∷ before) after i some_char starts ends =
    or_right _ (has_word-append words (is_word_code c) n before after i some_char starts ends)

pub has_word_iff :
    (words : List String) (inside : Bool) (t : List ℕ)
    → ((n : String) → In n words → codes n ≢ [])
    → (has_word words inside t ≡ true) ↔ AnyWord words inside t
has_word_iff words inside t nonempty = (
  has_word-to words inside t,
  λ w.
      subst (λ k. has_word words inside k ≡ true) (sym w.at)
        (has_word-append words inside w.word w.before w.after w.listed (nonempty w.word w.listed)
          w.starts w.ends),
)
