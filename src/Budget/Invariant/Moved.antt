-- ===== src/Budget/Invariant/Moved.antt =====
-- A transfer changes the amounts of account budgets and nothing that the overlap checks read.
use client_dash_up.Base.{◌≤◌, ◌≡◌, ◌≢◌, refl, sym, subst, ◌∙◌, true, none, some, List, arith, In}
use client_dash_up.Base.Int.{◌+ℤ◌, ◌≤ℤ◌, int_laws}
use client_dash_up.Base.Outcome.{ok}
use client_dash_up.Budget.Types.{client, account, active, Budget}
use client_dash_up.Budget.Checks.{is_allocated, assert_allocation_limit}
use client_dash_up.Budget.Invariant.Defs.{IsConsistent, Clash, SameOwner}
use client_dash_up.Budget.Invariant.Totals.{total, total_split}
use client_dash_up.Budget.Invariant.Puts.{Admitted}
use client_dash_up.Budget.Invariant.Admission.{under_of_check}

-- `b` is the active account budget `o` with another amount, version, instant or note.
pub record Reissues (b o : Budget) : Type 0 where
  pub id : b.id ≡ o.id
  pub client_id : b.client_id ≡ o.client_id
  pub scope : b.scope ≡ account
  pub old_scope : o.scope ≡ account
  pub account_id : b.account_id ≡ o.account_id
  pub start_date : b.start_date ≡ o.start_date
  pub end_date : b.end_date ≡ o.end_date
  pub status : b.status ≡ active
  pub old_status : o.status ≡ active

-- An active account budget counts under every client budget whose period meets its own.
is_allocated_of :
    (o c : Budget)
    → o.status ≡ active
    → o.scope ≡ account
    → c.client_id ≡ o.client_id
    → c.start_date ≤ o.end_date
    → o.start_date ≤ c.end_date
    → is_allocated c.client_id c.start_date c.end_date none o ≡ true
unfolding is_allocated
is_allocated_of o c act ac same from to = ground arith

module _ (b o : Budget) (rows : List Budget) (h : IsConsistent rows) (i : In o rows)
    (r : Reissues b o) where
  Reissues-Clash : (x : Budget) → Clash x b → Clash x o
  Reissues-Clash x c = record {
    active_left = c.active_left;
    active_right = r.old_status;
    one_scope = c.one_scope ∙ r.scope ∙ sym r.old_scope;
    one_owner =
        subst (λ s. SameOwner s x o) (sym r.old_scope)
          (subst (λ s. SameOwner s x b) r.scope c.one_owner ∙ r.account_id);
    from_left = omega (arith, r.end_date, c.from_left);
    from_right = omega (arith, r.start_date, c.from_right);
  }

  Reissues_no-Clash : (x : Budget) → In x rows → x.id ≢ b.id → ¬ Clash x b
  Reissues_no-Clash x j ne c = h.disjoint x o j i (λ e. ne (e ∙ sym r.id)) (Reissues-Clash x c)

  lowered_under :
      b.amount ≤ℤ o.amount
      → (c : Budget) → In c rows
      → c.status ≡ active
      → c.scope ≡ client
      → c.client_id ≡ b.client_id
      → c.start_date ≤ b.end_date
      → b.start_date ≤ c.end_date
      → total c.client_id c.start_date c.end_date (some o.id) rows +ℤ b.amount ≤ℤ c.amount
  lowered_under le c j cact ccl same from to =
      let counted =
        is_allocated_of o c r.old_status r.old_scope (same ∙ r.client_id)
          (omega (arith, r.end_date)) (omega (arith, r.start_date)) in
      let whole = total_split c.client_id c.start_date c.end_date rows o h.unique i in
      let room = rw (whole, counted) at (h.capped c j cact ccl) in omega int_laws

  -- A lower amount is always admitted.
  pub Admitted-lowered : b.amount ≤ℤ o.amount → Admitted b rows
  Admitted-lowered le = record {
    no_clash = Reissues_no-Clash;
    covers = λ act cl. absurd (cc (r.scope));
    under = λ act ac c j ne cact ccl same from to.
        subst (λ k. total c.client_id c.start_date c.end_date (some k) rows +ℤ b.amount ≤ℤ c.amount)
          (sym r.id) (lowered_under le c j cact ccl same from to);
  }

  -- Any amount is admitted that the limit check passes.
  pub Admitted-limited :
      assert_allocation_limit account b.client_id b.amount b.start_date b.end_date active
          (some b.id)
          rows
        ≡ ok tt
      → Admitted b rows
  Admitted-limited limit = record {
    no_clash = Reissues_no-Clash;
    covers = λ act cl. absurd (cc (r.scope));
    under = λ act ac c j ne cact ccl same from to.
        under_of_check b (some b.id) rows refl
          (subst
            (λ s.
              assert_allocation_limit s b.client_id b.amount b.start_date b.end_date active
                (some b.id) rows
              ≡ ok tt)
            (sym r.scope) limit)
          ac c j cact ccl same from to;
  }
