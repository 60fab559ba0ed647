-- ===== src/Budget/Keeps/Complete.antt =====
-- `SqliteBudgetStore.create` (app/services/budgets.py) accepts every budget that the invariant of the
-- table has room for.
use client_dash_up.Base.{
  ℕ, ◌≤◌, ◌≡◌, refl, sym, ap, ◌∙◌, subst, true, false, Bool, Bool-cases, inl, inr, Option, none,
  some, List, [], ◌∷◌, ◌++◌, arith, In, here, there, any, select, In-select, ltb, ◌==◌, opt_eq,
}
use client_dash_up.Base.Int.{ℤ, pos, ◌+ℤ◌, ◌≤ℤ◌, ltb_ℤ}
use client_dash_up.Base.Outcome.{ok, ◌>>=◌, raise_if, or_raise}
use client_dash_up.Budget.Money.{q_money}
use client_dash_up.Budget.Types.{Scope, client, account, active, Budget, BudgetCreate, Db}
use client_dash_up.Budget.Table.{find_budget, row_allowed, insert_budget}
use client_dash_up.Budget.Checks.{
  validate_period, validate_scope, collides, assert_no_overlap, allocated_total, is_cap, assert_cap,
  assert_caps, assert_allocation_limit,
}
use client_dash_up.Budget.Store.{settled, transaction, created_row, create_body, create}
use client_dash_up.Budget.Invariant.Defs.{
  IsFresh, IsUnique, Fits, Clash, SameOwner, allocated_under,
}
use client_dash_up.Budget.Keeps.Writes.{insert_budget-read}

-- The table has room for the budget: no active budget of its owner shares a day with it, and it
-- breaks no cap.
pub record Creatable (p : BudgetCreate) (new_id now : ℕ) (rows : List Budget) : Type 0 where
  pub in_order : p.start_date ≤ p.end_date
  pub nonnegative : pos 0 ≤ℤ q_money p.amount
  pub fits : Fits p.scope p.account_id
  pub fresh : IsFresh new_id rows
  pub no_clash : (x : Budget) → In x rows → ¬ Clash x (created_row p new_id now)
  pub covers :
      p.scope ≡ client
      → allocated_total p.client_id p.start_date p.end_date none rows ≤ℤ q_money p.amount
  pub under :
      (c : Budget)
      → p.scope ≡ account
      → In c rows
      → c.status ≡ active
      → c.scope ≡ client
      → c.client_id ≡ p.client_id
      → c.start_date ≤ p.end_date
      → p.start_date ≤ c.end_date
      → allocated_under c rows +ℤ q_money p.amount ≤ℤ c.amount

not_ltb : (a b : ℤ) → b ≤ℤ a → ltb_ℤ a b ≡ false
unfolding ltb_ℤ
not_ltb a b h = ground arith

none_passes :
    (f : Budget → Bool) (rows : List Budget)
    → ((x : Budget) → In x rows → f x ≡ true → ⊥)
    → any f rows ≡ false
none_passes f [] h = refl
none_passes f (x ∷ rows) h = elim (Bool-cases (f x)) [
  | inl pass ↦ absurd (h x here pass)
  | inr fail ↦ let rest = none_passes f rows (λ y i. h y (there i)) in ground arith
]

opt_eq-eq : (a b : Option ℕ) → opt_eq a b ≡ true → a ≡ b
opt_eq-eq a b h = ground arith

collides-Clash :
    (s : Scope) (p : BudgetCreate) (new_id now : ℕ) (x : Budget)
    → p.scope ≡ s
    → collides s p.client_id p.account_id p.start_date p.end_date none x ≡ true
    → Clash x (created_row p new_id now)
unfolding collides created_row
collides-Clash client p new_id now x e h = record {
  active_left = ground arith;
  active_right = refl;
  one_scope = ground arith;
  one_owner =
      let own : x.client_id ≡ p.client_id = ground arith in
      subst (λ s. SameOwner s x (created_row p new_id now)) (sym e) own;
  from_left = ground arith;
  from_right = ground arith;
}
collides-Clash account p new_id now x e h = record {
  active_left = ground arith;
  active_right = refl;
  one_scope = ground arith;
  one_owner =
      let own : opt_eq x.account_id p.account_id ≡ true = ground arith in
      subst (λ s. SameOwner s x (created_row p new_id now)) (sym e)
        (opt_eq-eq x.account_id p.account_id own);
  from_left = ground arith;
  from_right = ground arith;
}

caps_pass :
    (caps rows : List Budget) (client_id : ℕ) (amount : ℤ)
    → ((c : Budget)
        → In c caps
        → allocated_total client_id c.start_date c.end_date none rows +ℤ amount ≤ℤ c.amount)
    → assert_caps caps client_id amount none rows ≡ ok tt
unfolding assert_caps assert_cap raise_if ◌>>=◌
caps_pass [] rows client_id amount h = refl
caps_pass (c ∷ caps) rows client_id amount h =
    rw
      (not_ltb c.amount (allocated_total client_id c.start_date c.end_date none rows +ℤ amount)
        (h c here))
      (caps_pass caps rows client_id amount (λ d i. h d (there i)))

cap_facts :
    (client_id s e : ℕ) (c : Budget)
    → is_cap client_id s e c ≡ true
    → (c.status ≡ active)
      × (c.scope ≡ client)
      × (c.client_id ≡ client_id)
      × (c.start_date ≤ e)
      × (s ≤ c.end_date)
unfolding is_cap
cap_facts client_id s e c h = (ground arith, ground arith, ground arith, ground arith, ground arith)

limit_passes :
    (s : Scope) (p : BudgetCreate) (new_id now : ℕ) (rows : List Budget)
    → p.scope ≡ s
    → Creatable p new_id now rows
    → assert_allocation_limit s p.client_id
        (q_money p.amount)
        p.start_date
        p.end_date
        active
        none
        rows
      ≡ ok tt
unfolding assert_allocation_limit raise_if
limit_passes client p new_id now rows e h = rw (not_ltb (q_money p.amount) _ (h.covers e)) refl
limit_passes account p new_id now rows e h =
    caps_pass (select (is_cap p.client_id p.start_date p.end_date) rows) rows p.client_id
      (q_money p.amount)
      λ c i.
        let (j, cap) = In-select (is_cap p.client_id p.start_date p.end_date) c rows i in
        let (act, sc, own, from, to) = cap_facts p.client_id p.start_date p.end_date c cap in
        subst
          (λ k. allocated_total k c.start_date c.end_date none rows +ℤ q_money p.amount ≤ℤ c.amount)
          own (h.under c e j act sc own from to)

overlap_passes :
    (s : Scope) (p : BudgetCreate) (new_id now : ℕ) (rows : List Budget)
    → p.scope ≡ s
    → Creatable p new_id now rows
    → assert_no_overlap s p.client_id p.account_id p.start_date p.end_date none rows ≡ ok tt
unfolding assert_no_overlap raise_if
overlap_passes s p new_id now rows e h =
    rw
      (none_passes (collides s p.client_id p.account_id p.start_date p.end_date none) rows
        (λ x i t. h.no_clash x i (collides-Clash s p new_id now x e t)))
      refl

period_passes : (s e : ℕ) → s ≤ e → validate_period s e ≡ ok tt
unfolding validate_period raise_if
period_passes s e h = let fine : ltb e s ≡ false = ground arith in rw fine refl

scope_passes : (s : Scope) (a : Option ℕ) → Fits s a → validate_scope s a ≡ ok tt
unfolding validate_scope raise_if
scope_passes client none h = refl
scope_passes client (some a) h = absurd h
scope_passes account none h = absurd h
scope_passes account (some a) h = refl

any_id-fresh :
    (id : ℕ) (rows : List Budget) → IsFresh id rows → any (λ (o : Budget). o.id == id) rows ≡ false
any_id-fresh id [] f = refl
any_id-fresh id (o ∷ rows) f = let ne = f.0 in let rest = any_id-fresh id rows f.1 in ground arith

row_passes :
    (s : Scope) (a : Option ℕ) (b : Budget)
    → b.scope ≡ s
    → b.account_id ≡ a
    → Fits s a
    → pos 0 ≤ℤ b.amount
    → row_allowed b ≡ true
unfolding row_allowed
row_passes client none b e f fits h = let le = not_ltb b.amount (pos 0) h in ground arith
row_passes client (some a) b e f fits h = absurd fits
row_passes account none b e f fits h = absurd fits
row_passes account (some a) b e f fits h = let le = not_ltb b.amount (pos 0) h in ground arith

insert_passes :
    (b : Budget) (db : Db)
    → IsFresh b.id db.budgets
    → row_allowed b ≡ true
    → insert_budget b db ≡ ok (record db { budgets = db.budgets ++ b ∷ [] })
unfolding insert_budget raise_if ◌>>=◌
insert_passes b db f a = rw (any_id-fresh b.id db.budgets f, a) refl

created_row_allowed :
    (p : BudgetCreate) (new_id now : ℕ) (rows : List Budget)
    → Creatable p new_id now rows
    → row_allowed (created_row p new_id now) ≡ true
unfolding created_row
created_row_allowed p new_id now rows h =
    row_passes p.scope p.account_id (created_row p new_id now) refl refl h.fits h.nonnegative

created_row-id : (p : BudgetCreate) (new_id now : ℕ) → (created_row p new_id now).id ≡ new_id
unfolding created_row
created_row-id p new_id now = refl

-- When the table has room for the budget of the payload, in a table with unique ids, `create` returns:
-- it appends the row of the payload and answers with it.
pub create-Creatable :
    (p : BudgetCreate) (new_id now : ℕ) (db : Db)
    → IsUnique db.budgets
    → Creatable p new_id now db.budgets
    → create p new_id now db ≡ (
      ok (created_row p new_id now),
      record db { budgets = db.budgets ++ created_row p new_id now ∷ [] },
    )
unfolding create transaction settled create_body ◌>>=◌ or_raise
create-Creatable p new_id now db u h =
    let b = created_row p new_id now in
    let fresh : IsFresh b.id db.budgets =
      subst (λ i. IsFresh i db.budgets) (sym (created_row-id p new_id now)) h.fresh in
    let inserted = insert_passes b db fresh (created_row_allowed p new_id now db.budgets h) in
    let read : find_budget new_id (db.budgets ++ b ∷ []) ≡ some b =
      ap (λ i. find_budget i (db.budgets ++ b ∷ [])) (sym (created_row-id p new_id now))
      ∙ insert_budget-read b db (record db { budgets = db.budgets ++ b ∷ [] }) u inserted in
    rw
      (
        period_passes p.start_date p.end_date h.in_order,
        scope_passes p.scope p.account_id h.fits,
        overlap_passes p.scope p new_id now db.budgets refl h,
        limit_passes p.scope p new_id now db.budgets refl h,
        inserted,
        read,
      )
      refl
