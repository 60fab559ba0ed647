-- ===== src/Budget/Invariant/Rows.antt =====
-- Which rows the table holds after an INSERT or an UPDATE, and that ids stay unique.
use client_dash_up.Base.{
  ℕ, ◌≡◌, ◌≢◌, ◌⊎◌, inl, inr, refl, sym, subst, ap, true, false, none, some, List, [], ◌∷◌, ◌++◌,
  ◌==◌, arith, Bool-cases, any, first-In, In, here, there, In-cons,
}
use client_dash_up.Budget.Types.{Budget}
use client_dash_up.Budget.Table.{find_budget, replace_budget}
use client_dash_up.Budget.Invariant.Defs.{IsFresh, IsUnique}

pub find_budget-In :
    (id : ℕ) (rows : List Budget) (b : Budget)
    → find_budget id rows ≡ some b
    → In b rows × (b.id ≡ id)
unfolding find_budget
find_budget-In id rows b h = let (i, e) = first-In (λ b. b.id == id) b rows h in (i, ground arith)

pub IsFresh-ne :
    (id : ℕ) (rows : List Budget) (b : Budget) → IsFresh id rows → In b rows → b.id ≢ id
IsFresh-ne id [] b f i = elim i [ ]
IsFresh-ne id (o ∷ rows) b f here = f.0
IsFresh-ne id (o ∷ rows) b f (there i) = IsFresh-ne id rows b f.1 i

pub any-IsFresh :
    (id : ℕ) (rows : List Budget) → any (λ (o : Budget). o.id == id) rows ≡ false → IsFresh id rows
any-IsFresh id [] h = tt
any-IsFresh id (o ∷ rows) h = (ground arith, any-IsFresh id rows (ground arith))

pub append-In : (b x : Budget) (rows : List Budget) → In x (rows ++ b ∷ []) → (x ≡ b) ⊎ In x rows
append-In b x [] here = inl refl
append-In b x [] (there i) = elim i [ ]
append-In b x (o ∷ rows) here = inr here
append-In b x (o ∷ rows) (there i) = elim (append-In b x rows i) [
  | inl e ↦ inl e
  | inr j ↦ inr (there j)
]

append-IsFresh :
    (id : ℕ) (b : Budget) (rows : List Budget)
    → IsFresh id rows
    → b.id ≢ id
    → IsFresh id (rows ++ b ∷ [])
append-IsFresh id b [] f ne = (ne, tt)
append-IsFresh id b (o ∷ rows) f ne = (f.0, append-IsFresh id b rows f.1 ne)

pub append-IsUnique :
    (b : Budget) (rows : List Budget)
    → IsFresh b.id rows
    → IsUnique rows
    → IsUnique (rows ++ b ∷ [])
append-IsUnique b [] f u = (tt, tt)
append-IsUnique b (o ∷ rows) f u =
    (append-IsFresh o.id b rows u.0 (λ e. f.0 (sym e)), append-IsUnique b rows f.1 u.1)

replace_IsFresh :
    (id : ℕ) (b : Budget) (rows : List Budget)
    → IsFresh id rows
    → IsFresh id (replace_budget b rows)
replace_IsFresh id b [] f = tt
replace_IsFresh id b (o ∷ rows) f = elim (Bool-cases (o.id == b.id)) [
  | inl e ↦ rw e (ground arith, replace_IsFresh id b rows f.1)
  | inr e ↦ rw e (f.0, replace_IsFresh id b rows f.1)
]

pub replace_budget-IsUnique :
    (b : Budget) (rows : List Budget) → IsUnique rows → IsUnique (replace_budget b rows)
replace_budget-IsUnique b [] u = tt
replace_budget-IsUnique b (o ∷ rows) u = elim (Bool-cases (o.id == b.id)) [
  | inl e ↦
      let same : o.id ≡ b.id = ground arith in
      rw e (
        replace_IsFresh b.id b rows (subst (λ k. IsFresh k rows) same u.0),
        replace_budget-IsUnique b rows u.1,
      )
  | inr e ↦ rw e (replace_IsFresh o.id b rows u.0, replace_budget-IsUnique b rows u.1)
]

pub replace_fresh :
    (b : Budget) (rows : List Budget) → IsFresh b.id rows → replace_budget b rows ≡ rows
replace_fresh b [] f = refl
replace_fresh b (o ∷ rows) f =
    let e : (o.id == b.id) ≡ false = ground arith in rw (e, replace_fresh b rows f.1)

pub replace_budget-In :
    (b x : Budget) (rows : List Budget)
    → IsUnique rows
    → In x (replace_budget b rows)
    → (x ≡ b) ⊎ (In x rows × (x.id ≢ b.id))
replace_budget-In b x [] u i = elim i [ ]
replace_budget-In b x (o ∷ rows) u i = elim (Bool-cases (o.id == b.id)) [
  | inl e ↦
      let same : o.id ≡ b.id = ground arith in
      let f : IsFresh b.id rows = subst (λ k. IsFresh k rows) same u.0 in
      elim (In-cons (rw (e, replace_fresh b rows f) at i)) [
        | inl p ↦ inl p
        | inr j ↦ inr (there j, IsFresh-ne b.id rows x f j)
      ]
  | inr e ↦ elim (In-cons (rw e at i)) [
    | inl p ↦ inr (subst (λ y. In y (o ∷ rows)) (sym p) here, rw p (ground arith))
    | inr j ↦ elim (replace_budget-In b x rows u.1 j) [
      | inl p ↦ inl p
      | inr (k, ne) ↦ inr (there k, ne)
    ]
  ]
]

-- The updated row is in the table, if its id was.
pub In-replace_budget :
    (o b : Budget) (rows : List Budget) → In o rows → o.id ≡ b.id → In b (replace_budget b rows)
In-replace_budget o b [] i e = elim i [ ]
In-replace_budget o b (p ∷ rows) here e = let t : (p.id == b.id) ≡ true = ground arith in rw t here
In-replace_budget o b (p ∷ rows) (there i) e = there (In-replace_budget o b rows i e)

-- A search by the id of a row finds that row.
pub find_budget-eq :
    (rows : List Budget) (b : Budget) → IsUnique rows → In b rows → find_budget b.id rows ≡ some b
unfolding find_budget
find_budget-eq [] b u i = elim i [ ]
find_budget-eq (o ∷ rows) b u here = ground arith
find_budget-eq (o ∷ rows) b u (there i) =
    let e : (o.id == b.id) ≡ false = ground (arith, IsFresh-ne o.id rows b u.0 i) in
    rw e (find_budget-eq rows b u.1 i)

-- The rows with other ids stay.
pub In-replace_other :
    (b x : Budget) (rows : List Budget) → In x rows → x.id ≢ b.id → In x (replace_budget b rows)
In-replace_other b x [] i ne = elim i [ ]
In-replace_other b x (o ∷ rows) here ne = let t : (o.id == b.id) ≡ false = ground arith in rw t here
In-replace_other b x (o ∷ rows) (there i) ne = there (In-replace_other b x rows i ne)

-- A search by another id gives what it gave before.
pub find_budget-replace_other :
    (id : ℕ) (b : Budget) (rows : List Budget)
    → id ≢ b.id
    → find_budget id (replace_budget b rows) ≡ find_budget id rows
unfolding find_budget
find_budget-replace_other id b [] ne = refl
find_budget-replace_other id b (o ∷ rows) ne =
    ground (arith, find_budget-replace_other id b rows ne)

pub find_budget-append_other :
    (id : ℕ) (b : Budget) (rows : List Budget)
    → id ≢ b.id
    → find_budget id (rows ++ b ∷ []) ≡ find_budget id rows
unfolding find_budget
find_budget-append_other id b [] ne = ground arith
find_budget-append_other id b (o ∷ rows) ne = ground (arith, find_budget-append_other id b rows ne)

pub In-append : (b : Budget) (rows : List Budget) → In b (rows ++ b ∷ [])
In-append b [] = here
In-append b (o ∷ rows) = there (In-append b rows)

-- Two rows with one id are one row.
pub IsUnique-eq :
    (rows : List Budget) (a b : Budget)
    → IsUnique rows
    → In a rows
    → In b rows
    → a.id ≡ b.id
    → a ≡ b
IsUnique-eq rows a b u i j e =
    let same = ap (λ k. find_budget k rows) e in
    cc (find_budget-eq rows a u i, find_budget-eq rows b u j)

pub find_budget-fresh : (id : ℕ) (rows : List Budget) → IsFresh id rows → find_budget id rows ≡ none
unfolding find_budget
find_budget-fresh id [] f = refl
find_budget-fresh id (o ∷ rows) f = ground (arith, find_budget-fresh id rows f.1)
