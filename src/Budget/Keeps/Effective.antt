-- ===== src/Budget/Keeps/Effective.antt =====
-- `SqliteBudgetStore.resolve_effective` (app/services/budgets.py) on one day of a consistent table.
use client_dash_up.Base.{
  ℕ, ◌≤◌, ◌≡◌, ◌≢◌, ◌⊎◌, refl, sym, ◌∙◌, subst, true, Bool, Bool-cases, Option-cases, inl, inr,
  Option, none, some, List, [], ◌∷◌, arith, In, select, select-In, In-select, ◌==◌, ==_iff-eq,
  opt_eq,
}
use client_dash_up.Budget.Types.{client, account, active, Budget, Db}
use client_dash_up.Budget.Transfer.{newest}
use client_dash_up.Budget.Queries.{
  is_effective_account, is_effective_client, effective_account, resolve_effective,
}
use client_dash_up.Budget.Invariant.Defs.{IsConsistent, Clash, SameOwner}
use client_dash_up.Budget.Keeps.Source.{newest-In}

-- An active budget of the account, under the client, that covers the day.
pub record CoversAccount (client_id account_id day : ℕ) (b : Budget) : Type 0 where
  pub active : b.status ≡ active
  pub scope : b.scope ≡ account
  pub client : b.client_id ≡ client_id
  pub account : b.account_id ≡ some account_id
  pub from : b.start_date ≤ day
  pub to : day ≤ b.end_date

pub record CoversClient (client_id day : ℕ) (b : Budget) : Type 0 where
  pub active : b.status ≡ active
  pub scope : b.scope ≡ client
  pub client : b.client_id ≡ client_id
  pub from : b.start_date ≤ day
  pub to : day ≤ b.end_date

-- The budget that serves: it is the only one of its kind.
pub record Only (P : Budget → Type 0) (rows : List Budget) (b : Budget) : Type 0 where
  pub in_rows : In b rows
  pub holds : P b
  pub only : (x : Budget) → In x rows → P x → x.id ≡ b.id

abbrev pub NoneOf : (Budget → Type 0) → List Budget → Type 0
NoneOf P rows = (x : Budget) → In x rows → ¬ P x

-- What `resolve_effective` answers for a day: the account's budget, or else the client's, or none.
abbrev pub Answers : ℕ → Option ℕ → ℕ → List Budget → Option Budget → Type 0
Answers client_id none day rows none = NoneOf (CoversClient client_id day) rows
Answers client_id none day rows (some b) = Only (CoversClient client_id day) rows b
Answers client_id (some a) day rows none =
    NoneOf (CoversAccount client_id a day) rows × NoneOf (CoversClient client_id day) rows
Answers client_id (some a) day rows (some b) =
    Only (CoversAccount client_id a day) rows b
    ⊎ (NoneOf (CoversAccount client_id a day) rows × Only (CoversClient client_id day) rows b)

opt_eq-eq : (a b : Option ℕ) → opt_eq a b ≡ true → a ≡ b
opt_eq-eq a b h = ground arith

covers_account :
    (c a d : ℕ) (b : Budget) → is_effective_account c a d d b ≡ true → CoversAccount c a d b
unfolding is_effective_account
covers_account c a d b h = record {
  active = ground arith;
  scope = ground arith;
  client = ground arith;
  account =
      let e : opt_eq b.account_id (some a) ≡ true = ground arith in
      opt_eq-eq b.account_id (some a) e;
  from = ground arith;
  to = ground arith;
}

is_covered_account :
    (c a d : ℕ) (b : Budget) → CoversAccount c a d b → is_effective_account c a d d b ≡ true
unfolding is_effective_account
is_covered_account c a d b h =
    let e1 = h.active in
    let e2 = h.scope in
    let e3 = h.client in let e4 = h.account in let e5 = h.from in let e6 = h.to in ground arith

covers_client : (c d : ℕ) (b : Budget) → is_effective_client c d d b ≡ true → CoversClient c d b
unfolding is_effective_client
covers_client c d b h = record {
  active = ground arith;
  scope = ground arith;
  client = ground arith;
  from = ground arith;
  to = ground arith;
}

is_covered_client : (c d : ℕ) (b : Budget) → CoversClient c d b → is_effective_client c d d b ≡ true
unfolding is_effective_client
is_covered_client c d b h =
    let e1 = h.active in
    let e2 = h.scope in let e3 = h.client in let e5 = h.from in let e6 = h.to in ground arith

newest-nil : (rows : List Budget) → newest rows ≡ none → rows ≡ []
unfolding newest
newest-nil [] h = refl
newest-nil (b ∷ rows) h = elim (Option-cases (newest rows)) [
  | inl e ↦ absurd (ground (arith, e, h))
  | inr (o, e) ↦ absurd (ground (arith, e, h))
]

-- Two budgets of one owner that cover a day are one.
same_id :
    (rows : List Budget) (x b : Budget)
    → IsConsistent rows
    → In x rows
    → In b rows
    → (x.id ≢ b.id → Clash x b)
    → x.id ≡ b.id
same_id rows x b h i j clash = elim (Bool-cases (x.id == b.id)) [
  | inl e ↦ ==_iff-eq x.id b.id e
  | inr e ↦
      let ne : x.id ≢ b.id = λ p. ground (arith, e, p) in absurd (h.disjoint x b i j ne (clash ne))
]

account-Clash :
    (c a d : ℕ) (x b : Budget) → CoversAccount c a d x → CoversAccount c a d b → Clash x b
account-Clash c a d x b p q = record {
  active_left = p.active;
  active_right = q.active;
  one_scope = p.scope ∙ sym q.scope;
  one_owner = subst (λ s. SameOwner s x b) (sym q.scope) (p.account ∙ sym q.account);
  from_left = let e1 = p.from in let e2 = q.to in omega arith;
  from_right = let e1 = q.from in let e2 = p.to in omega arith;
}

client-Clash : (c d : ℕ) (x b : Budget) → CoversClient c d x → CoversClient c d b → Clash x b
client-Clash c d x b p q = record {
  active_left = p.active;
  active_right = q.active;
  one_scope = p.scope ∙ sym q.scope;
  one_owner = subst (λ s. SameOwner s x b) (sym q.scope) (p.client ∙ sym q.client);
  from_left = let e1 = p.from in let e2 = q.to in omega arith;
  from_right = let e1 = q.from in let e2 = p.to in omega arith;
}

module _ (P : Budget → Type 0) (test : Budget → Bool) (rows : List Budget)
    (passes : (x : Budget) → P x → test x ≡ true) where
  nothing_found : newest (select test rows) ≡ none → NoneOf P rows
  nothing_found e x i h =
      elim (subst (In x) (newest-nil (select test rows) e)
        (select-In test x rows i (passes x h))) [ ]

  module _ (holds : (x : Budget) → test x ≡ true → P x)
      (clash : (x b : Budget) → P x → P b → Clash x b) (ok : IsConsistent rows) where
    Only-found : (b : Budget) → newest (select test rows) ≡ some b → Only P rows b
    Only-found b e =
        let (i, t) = In-select test b rows (newest-In (select test rows) b e) in
        record {
          in_rows = i;
          holds = holds b t;
          only = λ x j h. same_id rows x b ok j i (λ _. clash x b h (holds b t));
        }

client_Answers :
    (c d : ℕ) (rows : List Budget) (o : Option Budget)
    → IsConsistent rows
    → newest (select (is_effective_client c d d) rows) ≡ o
    → Answers c none d rows o
client_Answers c d rows none h e =
    nothing_found (CoversClient c d) (is_effective_client c d d) rows (is_covered_client c d) e
client_Answers c d rows (some b) h e =
    Only-found (CoversClient c d) (is_effective_client c d d) rows (is_covered_client c d)
      (covers_client c d) (client-Clash c d) h b e

account_Answers :
    (c a d : ℕ) (rows : List Budget) (o q : Option Budget)
    → IsConsistent rows
    → newest (select (is_effective_account c a d d) rows) ≡ o
    → newest (select (is_effective_client c d d) rows) ≡ q
    → Answers c (some a) d rows (elim o [ some b ↦ some b | none ↦ q ])
account_Answers c a d rows (some b) q h e f = inl (
    Only-found (CoversAccount c a d) (is_effective_account c a d d) rows (is_covered_account c a d)
      (covers_account c a d) (account-Clash c a d) h b e)
account_Answers c a d rows none none h e f = (
  nothing_found (CoversAccount c a d) (is_effective_account c a d d) rows (is_covered_account c a d)
      e,
  client_Answers c d rows none h f,
)
account_Answers c a d rows none (some b) h e f = inr (
  nothing_found (CoversAccount c a d) (is_effective_account c a d d) rows (is_covered_account c a d)
      e,
  client_Answers c d rows (some b) h f,
)

-- On a consistent table `resolve_effective` for one day of a client answers with the account's active
-- budget that covers the day, when an account is given and has one, or else with the client's, or with
-- none when there is neither; the budget that it answers with is the only one of its kind, so that the
-- order of the rows does not matter.
pub resolve_effective-Answers :
    (client_id : ℕ) (account_id : Option ℕ) (day : ℕ) (db : Db)
    → IsConsistent db.budgets
    → Answers client_id account_id day db.budgets
        (resolve_effective (some client_id) account_id day day db)
unfolding resolve_effective effective_account
resolve_effective-Answers c none d db h = client_Answers c d db.budgets _ h refl
resolve_effective-Answers c (some a) d db h = account_Answers c a d db.budgets _ _ h refl refl
