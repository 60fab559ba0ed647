-- ===== src/Budget/Invariant/Puts.antt =====
-- Writing one row keeps the invariant, if the row is well formed and admitted by the others.
use client_dash_up.Base.{
  ℕ, ◌≤◌, ◌≡◌, ◌≢◌, ◌⊎◌, sym, subst, ap, ◌∙◌, true, none, some, List, [], ◌∷◌, ◌++◌, arith,
  Bool-cases, inl, inr, In,
}
use client_dash_up.Base.Int.{pos, ◌+ℤ◌, ◌≤ℤ◌, int_laws}
use client_dash_up.Budget.Types.{Scope, client, account, active, Budget}
use client_dash_up.Budget.Table.{replace_budget}
use client_dash_up.Budget.Checks.{is_allocated}
use client_dash_up.Budget.Invariant.Defs.{
  IsFresh, IsUnique, IsRow, SameOwner, Clash, IsConsistent, allocated_under,
}
use client_dash_up.Budget.Invariant.Rows.{
  IsFresh-ne, append-In, append-IsUnique, replace_budget-In, replace_budget-IsUnique,
}
use client_dash_up.Budget.Invariant.Totals.{
  part, total, total_others-le, total-append, total-replace,
}

-- `new` is `old` with the row `b` put at its id.
pub record Puts (b : Budget) (old new : List Budget) : Type 0 where
  pub unique : IsUnique new
  pub member : (x : Budget) → In x new → (x ≡ b) ⊎ (In x old × (x.id ≢ b.id))
  pub totals : (c s e : ℕ) → total c s e none new ≡ part c s e none b +ℤ total c s e (some b.id) old

-- The other rows leave room for `b`.
pub record Admitted (b : Budget) (rows : List Budget) : Type 0 where
  pub no_clash : (x : Budget) → In x rows → x.id ≢ b.id → ¬ Clash x b
  pub covers :
      b.status ≡ active
      → b.scope ≡ client
      → total b.client_id b.start_date b.end_date (some b.id) rows ≤ℤ b.amount
  pub under :
      b.status ≡ active
      → b.scope ≡ account
      → (c : Budget) → In c rows
      → c.id ≢ b.id
      → c.status ≡ active
      → c.scope ≡ client
      → c.client_id ≡ b.client_id
      → c.start_date ≤ b.end_date
      → b.start_date ≤ c.end_date
      → total c.client_id c.start_date c.end_date (some b.id) rows +ℤ b.amount ≤ℤ c.amount

pub append-Puts :
    (b : Budget) (rows : List Budget)
    → IsUnique rows
    → IsFresh b.id rows
    → Puts b rows (rows ++ b ∷ [])
append-Puts b rows u f = record {
  unique = append-IsUnique b rows f u;
  member = λ x i. elim (append-In b x rows i) [
    | inl e ↦ inl e
    | inr j ↦ inr (j, IsFresh-ne b.id rows x f j)
  ];
  totals = λ c s e. total-append c s e b rows f;
}

pub replace-Puts :
    (o b : Budget) (rows : List Budget)
    → IsUnique rows
    → In o rows
    → o.id ≡ b.id
    → Puts b rows (replace_budget b rows)
replace-Puts o b rows u i e = record {
  unique = replace_budget-IsUnique b rows u;
  member = λ x j. replace_budget-In b x rows u j;
  totals = λ c s t. total-replace c s t o b rows u i e;
}

-- What the WHERE clause of an allocation says of a row.
pub is_allocated-facts :
    (c s e : ℕ) (b : Budget)
    → is_allocated c s e none b ≡ true
    → (b.status ≡ active)
      × (b.scope ≡ account)
      × (b.client_id ≡ c)
      × (b.start_date ≤ e)
      × (s ≤ b.end_date)
unfolding is_allocated
is_allocated-facts c s e b h = ground arith

pub client-part : (c s e : ℕ) (b : Budget) → b.scope ≡ client → part c s e none b ≡ pos 0
unfolding is_allocated
client-part c s e b h = ground arith

owner_sym : (s : Scope) (a b : Budget) → SameOwner s a b → SameOwner s b a
owner_sym client a b h = sym h
owner_sym account a b h = sym h

Clash-sym : {a b : Budget} → Clash a b → Clash b a
Clash-sym {a} {b} c = record {
  active_left = c.active_right;
  active_right = c.active_left;
  one_scope = sym c.one_scope;
  one_owner = subst (λ s. SameOwner s b a) (sym c.one_scope) (owner_sym b.scope a b c.one_owner);
  from_left = c.from_right;
  from_right = c.from_left;
}

module _ (b : Budget) (rows new : List Budget) (h : IsConsistent rows) (p : Puts b rows new)
    (r : IsRow b) (a : Admitted b rows) where
  put-IsRow : (x : Budget) → In x new → IsRow x
  put-IsRow x i = elim (p.member x i) [ inl e ↦ subst IsRow (sym e) r | inr (j, _) ↦ h.row x j ]

  put_disjoint : (x y : Budget) → In x new → In y new → x.id ≢ y.id → ¬ Clash x y
  put_disjoint x y i j ne k = elim (p.member x i) [
    | inl e ↦ elim (p.member y j) [
      | inl e' ↦ absurd (ne (ap (λ (z : Budget). z.id) (e ∙ sym e')))
      | inr (j', ne') ↦ a.no_clash y j' ne' (Clash-sym (subst (λ z. Clash z y) e k))
    ]
    | inr (i', ne') ↦ elim (p.member y j) [
      | inl e' ↦ a.no_clash x i' ne' (subst (Clash x) e' k)
      | inr (j', _) ↦ h.disjoint x y i' j' ne k
    ]
  ]

  cap_of_new : b.status ≡ active → b.scope ≡ client → allocated_under b new ≤ℤ b.amount
  cap_of_new act cl =
      rw
        (
          p.totals b.client_id b.start_date b.end_date,
          client-part b.client_id b.start_date b.end_date b cl,
        )
        (omega (int_laws, a.covers act cl))

  cap_of_old :
      (c : Budget)
      → In c rows
      → c.id ≢ b.id
      → c.status ≡ active
      → c.scope ≡ client
      → allocated_under c new ≤ℤ c.amount
  cap_of_old c i ne act cl =
      elim (Bool-cases (is_allocated c.client_id c.start_date c.end_date none b)) [
        | inl t ↦
            let f = is_allocated-facts c.client_id c.start_date c.end_date b t in
            let room = a.under f.0 f.1 c i ne act cl (sym f.2) f.4 f.3 in
            rw (p.totals c.client_id c.start_date c.end_date, t) (omega int_laws)
        | inr t ↦
            let others =
              total_others-le c.client_id c.start_date c.end_date b.id rows
                (λ o j. (h.row o j).nonnegative) in
            let old = h.capped c i act cl in
            rw (p.totals c.client_id c.start_date c.end_date, t) (omega int_laws)
      ]

  put_capped :
      (c : Budget)
      → In c new
      → c.status ≡ active
      → c.scope ≡ client
      → allocated_under c new ≤ℤ c.amount
  put_capped c i act cl = elim (p.member c i) [
    | inl e ↦
        subst (λ z. allocated_under z new ≤ℤ z.amount) (sym e)
          (cap_of_new (subst (λ z. z.status ≡ active) e act) (subst (λ z. z.scope ≡ client) e cl))
    | inr (j, ne) ↦ cap_of_old c j ne act cl
  ]

  pub Puts-IsConsistent : IsConsistent new
  Puts-IsConsistent = record {
    unique = p.unique;
    row = put-IsRow;
    disjoint = put_disjoint;
    capped = put_capped;
  }
