-- ===== src/Budget/Invariant/Admission.antt =====
-- The checks of app/services/budgets.py admit exactly what the invariant needs.
use client_dash_up.Base.{
  ℕ, ◌≤◌, ◌≡◌, ◌≢◌, refl, sym, subst, true, Option, none, some, List, [], ◌∷◌, arith, inl, inr,
  opt_eq, any-false, select-In, In, In-cons,
}
use client_dash_up.Base.Int.{ℤ, ◌+ℤ◌, ◌≤ℤ◌, ltb_ℤ-false}
use client_dash_up.Base.Outcome.{ok, raise_if-false, >>=-eq-ok}
use client_dash_up.Budget.Types.{
  Scope, client, account, active, archived, Budget, account_over_cap, client_below_allocated,
}
use client_dash_up.Budget.Checks.{
  is_other, collides, assert_no_overlap, is_cap, assert_cap, assert_caps, assert_allocation_limit,
}
use client_dash_up.Budget.Invariant.Defs.{IsFresh, Clash, SameOwner}
use client_dash_up.Budget.Invariant.Totals.{total, total_fresh}
use client_dash_up.Budget.Invariant.Puts.{Admitted}

-- The id that the checks leave out: the row's own, or none where no row has it yet.
abbrev pub LeavesOut : ℕ → Option ℕ → List Budget → Type 0
LeavesOut id none rows = IsFresh id rows
LeavesOut id (some k) rows = k ≡ id

opt_eq_self : (o : Option ℕ) → opt_eq o o ≡ true
opt_eq_self none = refl
opt_eq_self (some a) = ground arith

-- An active budget of the same owner in a common day is found by the overlap query.
owner_collides :
    (s : Scope) (x b : Budget) (exclude : Option ℕ)
    → x.status ≡ active
    → x.scope ≡ s
    → SameOwner s x b
    → x.start_date ≤ b.end_date
    → b.start_date ≤ x.end_date
    → is_other exclude x ≡ true
    → collides s b.client_id b.account_id b.start_date b.end_date exclude x ≡ true
unfolding collides
owner_collides client x b exclude act sc own from to other = ground arith
owner_collides account x b exclude act sc own from to other =
    let same : opt_eq x.account_id b.account_id ≡ true =
      subst (λ o. opt_eq x.account_id o ≡ true) own (opt_eq_self x.account_id) in
    ground arith

other_of_ne :
    (id : ℕ) (exclude : Option ℕ) (rows : List Budget) (x : Budget)
    → LeavesOut id exclude rows
    → x.id ≢ id
    → is_other exclude x ≡ true
other_of_ne id none rows x l ne = refl
other_of_ne id (some k) rows x l ne = ground arith

pub no-Clash_of_check :
    (b : Budget) (exclude : Option ℕ) (rows : List Budget)
    → LeavesOut b.id exclude rows
    → assert_no_overlap b.scope b.client_id b.account_id b.start_date b.end_date exclude rows
      ≡ ok tt
    → (x : Budget) → In x rows
    → x.id ≢ b.id
    → ¬ Clash x b
unfolding assert_no_overlap
no-Clash_of_check b exclude rows l h x i ne c =
    let found =
      owner_collides b.scope x b exclude c.active_left c.one_scope c.one_owner c.from_left
        c.from_right (other_of_ne b.id exclude rows x l ne) in
    let none_found =
      any-false (collides b.scope b.client_id b.account_id b.start_date b.end_date exclude) x rows
        (raise_if-false _ _ h) i in
    cc

total_left_out :
    (b : Budget) (exclude : Option ℕ) (rows : List Budget) (c s e : ℕ)
    → LeavesOut b.id exclude rows
    → total c s e exclude rows ≡ total c s e (some b.id) rows
total_left_out b none rows c s e l = sym (total_fresh c s e b.id rows l)
total_left_out b (some k) rows c s e l = rw l

assert_cap-le :
    (k : Budget) (client_id : ℕ) (amount : ℤ) (exclude : Option ℕ) (rows : List Budget)
    → assert_cap k client_id amount exclude rows ≡ ok tt
    → total client_id k.start_date k.end_date exclude rows +ℤ amount ≤ℤ k.amount
unfolding assert_cap
assert_cap-le k client_id amount exclude rows h =
    ltb_ℤ-false k.amount (total client_id k.start_date k.end_date exclude rows +ℤ amount)
      (raise_if-false _ account_over_cap h)

-- Every cap in the list leaves room for the amount.
assert_caps-In :
    (caps : List Budget) (client_id : ℕ) (amount : ℤ) (exclude : Option ℕ) (rows : List Budget)
    → assert_caps caps client_id amount exclude rows ≡ ok tt
    → (c : Budget) → In c caps
    → total client_id c.start_date c.end_date exclude rows +ℤ amount ≤ℤ c.amount
unfolding assert_caps
assert_caps-In [] client_id amount exclude rows h c i = elim i [ ]
assert_caps-In (k ∷ caps) client_id amount exclude rows h c i =
    let (_, passed, rest) =
      >>=-eq-ok (assert_cap k client_id amount exclude rows)
        (λ _. assert_caps caps client_id amount exclude rows) h in
    elim (In-cons i) [
      | inl e ↦
          subst (λ z. total client_id z.start_date z.end_date exclude rows +ℤ amount ≤ℤ z.amount)
            (sym e) (assert_cap-le k client_id amount exclude rows passed)
      | inr j ↦ assert_caps-In caps client_id amount exclude rows rest c j
    ]

is_cap-true :
    (c b : Budget)
    → c.status ≡ active
    → c.scope ≡ client
    → c.client_id ≡ b.client_id
    → c.start_date ≤ b.end_date
    → b.start_date ≤ c.end_date
    → is_cap b.client_id b.start_date b.end_date c ≡ true
unfolding is_cap
is_cap-true c b p q r s t = ground arith

pub covers_of_check :
    (b : Budget) (exclude : Option ℕ) (rows : List Budget)
    → LeavesOut b.id exclude rows
    → assert_allocation_limit b.scope b.client_id b.amount b.start_date b.end_date active exclude
        rows
      ≡ ok tt
    → b.scope ≡ client
    → total b.client_id b.start_date b.end_date (some b.id) rows ≤ℤ b.amount
unfolding assert_allocation_limit
covers_of_check b exclude rows l h cl =
    rw (← total_left_out b exclude rows b.client_id b.start_date b.end_date l) (
      ltb_ℤ-false _ _
        (raise_if-false _ client_below_allocated (rw (cl, assert_allocation_limit) at h)))

pub under_of_check :
    (b : Budget) (exclude : Option ℕ) (rows : List Budget)
    → LeavesOut b.id exclude rows
    → assert_allocation_limit b.scope b.client_id b.amount b.start_date b.end_date active exclude
        rows
      ≡ ok tt
    → b.scope ≡ account
    → (c : Budget) → In c rows
    → c.status ≡ active
    → c.scope ≡ client
    → c.client_id ≡ b.client_id
    → c.start_date ≤ b.end_date
    → b.start_date ≤ c.end_date
    → total c.client_id c.start_date c.end_date (some b.id) rows +ℤ b.amount ≤ℤ c.amount
unfolding assert_allocation_limit
under_of_check b exclude rows l h ac c i act cl same from to =
    let caps = rw (ac, assert_allocation_limit) at h in
    let kept =
      select-In (is_cap b.client_id b.start_date b.end_date) c rows i
        (is_cap-true c b act cl same from to) in
    rw (same, ← total_left_out b exclude rows b.client_id c.start_date c.end_date l)
      (assert_caps-In _ b.client_id b.amount exclude rows caps c kept)

-- Both checks passed: the row is admitted.
pub Admitted-of_checks :
    (b : Budget) (exclude : Option ℕ) (rows : List Budget)
    → LeavesOut b.id exclude rows
    → assert_no_overlap b.scope b.client_id b.account_id b.start_date b.end_date exclude rows
      ≡ ok tt
    → assert_allocation_limit b.scope b.client_id b.amount b.start_date b.end_date active exclude
        rows
      ≡ ok tt
    → Admitted b rows
Admitted-of_checks b exclude rows l no_overlap limit = record {
  no_clash = no-Clash_of_check b exclude rows l no_overlap;
  covers = λ act cl. covers_of_check b exclude rows l limit cl;
  under = λ act ac c i ne cact ccl same from to.
      under_of_check b exclude rows l limit ac c i cact ccl same from to;
}

-- A row that is not active stands in nobody's way.
pub Admitted-archived : (b : Budget) (rows : List Budget) → b.status ≡ archived → Admitted b rows
Admitted-archived b rows h = record {
  no_clash = λ x i ne c. cc (c.active_right);
  covers = λ act. absurd (cc);
  under = λ act. absurd (cc);
}
