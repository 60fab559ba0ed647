-- ===== src/Budget/Keeps/Source.antt =====
-- What the checks of a transfer have found out about the source and the target's budget.
use client_dash_up.Base.{
  ℕ, ◌≡◌, ◌≢◌, ap, subst, ◌∙◌, true, some, List, [], ◌∷◌, arith, In, here, there, Option-cases,
  Bool-cases, inl, inr, ==_iff-eq, ◌==◌, not, ◌≤◌, leb, ◌&&◌, not-false,
}
use client_dash_up.Base.Int.{ℤ, ◌≤ℤ◌, ltb_ℤ, ltb_ℤ-false}
use client_dash_up.Base.Outcome.{raise_if-false, or_raise-some, Ensures, Ensures-ok, Ensures-bind}
use client_dash_up.Base.Text.{same_currency}
use client_dash_up.Budget.Types.{account, active, Budget, Client, AdAccount, Db}
use client_dash_up.Budget.Table.{is_account, is_active, find_client, find_account}
use client_dash_up.Budget.Transfer.{
  check_source, check_client, check_source_account, check_target_account, comes_before, is_target,
  newest,
}
use client_dash_up.Budget.Checks.{overlaps}

-- What `check_source` has found out.
pub record IsSource (s : Budget) (amount : ℤ) (target_account_id source_account_id : ℕ)
    : Type 0 where
  pub at_account : s.scope ≡ account
  pub is_live : s.status ≡ active
  pub has_account : s.account_id ≡ some source_account_id
  pub other_account : s.account_id ≢ some target_account_id
  pub covered : amount ≤ℤ s.amount

pub check_source-IsSource :
    (s : Budget) (amount : ℤ) (target_account_id : ℕ)
    → Ensures (IsSource s amount target_account_id) (check_source s amount target_account_id)
unfolding check_source
check_source-IsSource s amount target_account_id = Ensures-bind λ _ at_account.
    Ensures-bind λ source_account_id has_account. Ensures-bind λ _ is_live.
      Ensures-bind λ _ differs. Ensures-bind λ _ nonnegative. Ensures-bind λ _ covered.
        let e1 = raise_if-false (not (is_account s.scope)) _ at_account in
        let e2 = or_raise-some s.account_id _ _ has_account in
        let e3 = raise_if-false (not (is_active s.status)) _ is_live in
        let e4 = raise_if-false (source_account_id == target_account_id) _ differs in
        Ensures-ok (record {
          at_account = ground arith;
          is_live = ground arith;
          has_account = e2;
          other_account = λ e. ground arith;
          covered = ltb_ℤ-false s.amount amount (raise_if-false (ltb_ℤ s.amount amount) _ covered);
        })

-- An active row of the client with the currency of the budget.
pub record IsAccountOf (s : Budget) (a : AdAccount) : Type 0 where
  pub is_live : a.is_active ≡ true
  pub of_client : a.client_id ≡ s.client_id
  pub in_currency : same_currency a.currency s.currency ≡ true

pub check_client-facts :
    (s : Budget) (db : Db)
    → Ensures
        (λ _.
          (c : Client) × (find_client s.client_id db ≡ some c)
          × (c.is_active ≡ true)
          × (same_currency c.default_currency s.currency ≡ true))
        (check_client s db)
unfolding check_client
check_client-facts s db = Ensures-bind λ c found. Ensures-bind λ _ live. record {
  at = λ _ currency. (
    c,
    or_raise-some _ _ c found,
    not-false _ (raise_if-false _ _ live),
    not-false _ (raise_if-false _ _ currency),
  );
}

pub check_source_account-facts :
    (s : Budget) (k : ℕ) (db : Db)
    → Ensures
        (λ _. (a : AdAccount) × (find_account k db ≡ some a) × IsAccountOf s a)
        (check_source_account s k db)
unfolding check_source_account
check_source_account-facts s k db = Ensures-bind λ a found. Ensures-bind λ _ live.
    Ensures-bind λ _ own. record {
      at = λ _ currency. (
        a,
        or_raise-some _ _ a found,
        record {
          is_live = not-false _ (raise_if-false _ _ live);
          of_client = ==_iff-eq a.client_id s.client_id (not-false _ (raise_if-false _ _ own));
          in_currency = not-false _ (raise_if-false _ _ currency);
        },
      );
    }

pub check_target_account-facts :
    (s : Budget) (k : ℕ) (db : Db)
    → Ensures
        (λ _. (a : AdAccount) × (find_account k db ≡ some a) × IsAccountOf s a)
        (check_target_account s k db)
unfolding check_target_account
check_target_account-facts s k db = Ensures-bind λ a found. Ensures-bind λ _ own.
    Ensures-bind λ _ live. record {
      at = λ _ currency. (
        a,
        or_raise-some _ _ a found,
        record {
          is_live = not-false _ (raise_if-false _ _ live);
          of_client = ==_iff-eq a.client_id s.client_id (not-false _ (raise_if-false _ _ own));
          in_currency = not-false _ (raise_if-false _ _ currency);
        },
      );
    }

-- Between whom an amount may move: from an active account budget of one account that covers it, to
-- another account; the client of the budget and both accounts are active and in its currency, and the
-- accounts are of the client.
pub record MayMove (s : Budget) (amount : ℤ) (target_account_id : ℕ) (db : Db) : Type 0 where
  pub source_account_id : ℕ
  pub is_source : IsSource s amount target_account_id source_account_id
  pub client :
      (c : Client) × (find_client s.client_id db ≡ some c)
      × (c.is_active ≡ true)
      × (same_currency c.default_currency s.currency ≡ true)
  pub source_account :
      (a : AdAccount) × (find_account source_account_id db ≡ some a) × IsAccountOf s a
  pub target_account :
      (a : AdAccount) × (find_account target_account_id db ≡ some a) × IsAccountOf s a

-- What the search for the target's budget has found out.
pub is_target-facts :
    (s : Budget) (target_account_id : ℕ) (t : Budget)
    → is_target s target_account_id t ≡ true
    → (t.status ≡ active)
      × (t.scope ≡ account)
      × (t.client_id ≡ s.client_id)
      × (t.account_id ≡ some target_account_id)
      × (t.start_date ≤ s.end_date)
      × (s.start_date ≤ t.end_date)
unfolding is_target overlaps
is_target-facts s target_account_id t h =
    let inside : (leb t.start_date s.end_date && leb s.start_date t.end_date) ≡ true =
      ground arith in
    (ground arith, ground arith, ground arith, ground arith, ground arith, ground arith)

pub newest-In : (rows : List Budget) (t : Budget) → newest rows ≡ some t → In t rows
unfolding newest
newest-In [] t h = absurd (cc)
newest-In (b ∷ rows) t h = elim (Option-cases (newest rows)) [
  | inl e ↦ let same : b ≡ t = ground arith in subst (λ z. In z (b ∷ rows)) same here
  | inr (o, e) ↦ elim (Bool-cases (comes_before o b)) [
    | inl older ↦ let same : o ≡ t = ground arith in there (newest-In rows t (e ∙ ap some same))
    | inr newer ↦ let same : b ≡ t = ground arith in subst (λ z. In z (b ∷ rows)) same here
  ]
]
