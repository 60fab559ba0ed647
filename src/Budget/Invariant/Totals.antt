-- ===== src/Budget/Invariant/Totals.antt =====
-- How an allocated total splits into the amount of one row and that of the others.
use client_dash_up.Base.{
  ℕ, ◌≡◌, ◌≢◌, refl, sym, ap, subst, ◌∙◌, true, false, Option, none, some, List, [], ◌∷◌, ◌++◌,
  ◌==◌, if◌then◌else◌, arith, Bool-cases, inl, inr, In, here, there,
}
use native.Mathlib.Decide.{ℕ_discrete}
use client_dash_up.Base.Int.{ℤ, pos, pos_part, neg_part, ◌+ℤ◌, ◌≤ℤ◌, int_laws}
use client_dash_up.Budget.Types.{Budget}
use client_dash_up.Budget.Table.{replace_budget}
use client_dash_up.Budget.Checks.{is_allocated, sum_amounts, allocated_total}
use client_dash_up.Budget.Invariant.Rows.{IsFresh-ne, replace_fresh}
use client_dash_up.Budget.Invariant.Defs.{IsFresh, IsUnique}

add_to_both : (d a b a' b' : ℤ) → a +ℤ b ≡ a' +ℤ b' → (d +ℤ a) +ℤ b ≡ (d +ℤ a') +ℤ b'
add_to_both d a b a' b' h = omega (int_laws, ap pos_part h, ap neg_part h)

module _ (client_id start_date end_date : ℕ) where
  -- What one row adds to the total.
  abbrev pub part : Option ℕ → Budget → ℤ
  part exclude b = if is_allocated client_id start_date end_date exclude b then b.amount else pos 0

  abbrev pub total : Option ℕ → List Budget → ℤ
  total = allocated_total client_id start_date end_date

  pub total_empty : (exclude : Option ℕ) → total exclude [] ≡ pos 0
  unfolding allocated_total
  total_empty exclude = refl

  pub total_cons :
      (exclude : Option ℕ) (b : Budget) (rows : List Budget)
      → total exclude (b ∷ rows) ≡ part exclude b +ℤ total exclude rows
  unfolding allocated_total
  total_cons exclude b rows =
      elim (Bool-cases (is_allocated client_id start_date end_date exclude b)) [
        | inl e ↦ rw e
        | inr e ↦ rw e (omega int_laws)
      ]

  -- A row is left out by its own id and by no other.
  pub part_self : (id : ℕ) (b : Budget) → b.id ≡ id → part (some id) b ≡ pos 0
  unfolding is_allocated
  part_self id b e = ground arith

  pub part_other : (id : ℕ) (b : Budget) → b.id ≢ id → part (some id) b ≡ part none b
  unfolding is_allocated
  part_other id b ne = ground arith

  pub part_nonneg : (b : Budget) → pos 0 ≤ℤ b.amount → pos 0 ≤ℤ part none b
  part_nonneg b h = ground arith

  pub total_fresh :
      (id : ℕ) (rows : List Budget) → IsFresh id rows → total (some id) rows ≡ total none rows
  total_fresh id [] f = rw (total_empty (some id), total_empty none)
  total_fresh id (b ∷ rows) f = cc (
    total_cons (some id) b rows,
    total_cons none b rows,
    part_other id b f.0,
    total_fresh id rows f.1,
  )

  -- The whole is the part of one row and the total of the others.
  pub total_split :
      (rows : List Budget) (b : Budget)
      → IsUnique rows
      → In b rows
      → total none rows ≡ part none b +ℤ total (some b.id) rows
  total_split [] b u i = elim i [ ]
  total_split (o ∷ rows) b u here =
      rw
        (
          total_cons none o rows,
          total_cons (some o.id) o rows,
          part_self o.id o refl,
          total_fresh o.id rows u.0,
        )
        (omega int_laws)
  total_split (o ∷ rows) b u (there i) =
      let ne : o.id ≢ b.id = λ e. IsFresh-ne o.id rows b u.0 i (sym e) in
      rw
        (
          total_cons none o rows,
          total_cons (some b.id) o rows,
          part_other b.id o ne,
          total_split rows b u.1 i,
        )
        (omega int_laws)

  -- The others do not add up to more than the whole.
  pub total_others-le :
      (id : ℕ) (rows : List Budget)
      → ((b : Budget) → In b rows → pos 0 ≤ℤ b.amount)
      → total (some id) rows ≤ℤ total none rows
  total_others-le id [] h = rw (total_empty (some id), total_empty none) (omega arith)
  total_others-le id (b ∷ rows) h =
      let rest = total_others-le id rows (λ o i. h o (there i)) in
      let nonneg = part_nonneg b (h b here) in
      elim (ℕ_discrete b.id id) [
        | yes e ↦
            rw (total_cons (some id) b rows, total_cons none b rows, part_self id b e)
              (omega int_laws)
        | no ne ↦
            rw (total_cons (some id) b rows, total_cons none b rows, part_other id b ne)
              (omega int_laws)
      ]

  -- A new row adds its part.
  pub total-append :
      (b : Budget) (rows : List Budget)
      → IsFresh b.id rows
      → total none (rows ++ b ∷ []) ≡ part none b +ℤ total (some b.id) rows
  total-append b [] f =
      rw (total_cons none b [], total_empty none, total_empty (some b.id)) (omega int_laws)
  total-append b (o ∷ rows) f =
      rw
        (
          total_cons none o (rows ++ b ∷ []),
          total-append b rows f.1,
          total_cons (some b.id) o rows,
          part_other b.id o f.0,
        )
        (omega int_laws)

  -- An updated row changes its part and nothing else.
  pub total-replace :
      (o b : Budget) (rows : List Budget)
      → IsUnique rows
      → In o rows
      → o.id ≡ b.id
      → total none (replace_budget b rows) ≡ part none b +ℤ total (some b.id) rows
  total-replace o b [] u i e = elim i [ ]
  total-replace o b (p ∷ rows) u here e =
      let t : (p.id == b.id) ≡ true = ground arith in
      let f : IsFresh b.id rows = subst (λ k. IsFresh k rows) e u.0 in
      rw
        (
          t,
          replace_fresh b rows f,
          total_cons none b rows,
          total_cons (some b.id) p rows,
          part_self b.id p e,
          total_fresh b.id rows f,
        )
        (omega int_laws)
  total-replace o b (p ∷ rows) u (there i) e =
      let ne : p.id ≢ b.id = λ q. IsFresh-ne p.id rows o u.0 i (e ∙ sym q) in
      let t : (p.id == b.id) ≡ false = ground arith in
      rw
        (
          t,
          total_cons none p (replace_budget b rows),
          total-replace o b rows u.1 i e,
          total_cons (some b.id) p rows,
          part_other b.id p ne,
        )
        (omega int_laws)

-- The sum of all amounts under an update and an insertion.
pub sum_amounts-replace :
    (o b : Budget) (rows : List Budget)
    → IsUnique rows
    → In o rows
    → o.id ≡ b.id
    → sum_amounts (replace_budget b rows) +ℤ o.amount ≡ sum_amounts rows +ℤ b.amount
sum_amounts-replace o b [] u i e = elim i [ ]
sum_amounts-replace o b (p ∷ rows) u here e =
    let t : (p.id == b.id) ≡ true = ground arith in
    let f : IsFresh b.id rows = subst (λ k. IsFresh k rows) e u.0 in
    rw (t, replace_fresh b rows f) (omega int_laws)
sum_amounts-replace o b (p ∷ rows) u (there i) e =
    let ne : p.id ≢ b.id = λ q. IsFresh-ne p.id rows o u.0 i (e ∙ sym q) in
    let t : (p.id == b.id) ≡ false = ground arith in
    let ih = sum_amounts-replace o b rows u.1 i e in
    rw t (
      add_to_both p.amount (sum_amounts (replace_budget b rows)) o.amount (sum_amounts rows)
        b.amount ih)

pub sum_amounts-append :
    (b : Budget) (rows : List Budget) → sum_amounts (rows ++ b ∷ []) ≡ sum_amounts rows +ℤ b.amount
sum_amounts-append b [] = omega int_laws
sum_amounts-append b (o ∷ rows) = rw (sum_amounts-append b rows) (omega int_laws)
