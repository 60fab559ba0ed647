-- ===== src/Budget/Keeps/Listed.antt =====
-- `SqliteBudgetStore.list` (app/services/budgets.py): which budgets it answers with, and their order.
use Prim.Native.String.{String}
use client_dash_up.Base.{
  ℕ, ◌≤◌, ◌≡◌, ◌↔◌, none, some, refl, sym, subst, true, false, ◌&&◌, opt_eq, ◌==◌, ==_iff-eq, Bool,
  Bool-cases, inl, inr, Option, List, [], ◌∷◌, arith, In, In-cons, select, select-In, In-select,
  leb,
}
use text.Mathlib.TextEquality.{eq_iff}
use client_dash_up.Base.Text.{str_eq}
use client_dash_up.Budget.Types.{Budget, BudgetStatus, active, archived, Db}
use client_dash_up.Budget.Table.{is_active}
use client_dash_up.Base.Sorting.{
  insert_by, order_by, insert_true, insert_false, In-insert_by, order_by-In, In-order_by,
}
use client_dash_up.Budget.Queries.{is_listed, list, has_status, matches, status_text_eq}

-- Each budget was updated no earlier than any that follows.
abbrev pub NewestFirst : List Budget → Type 0
NewestFirst [] = Unit
NewestFirst (b ∷ rows) = ((o : Budget) → In o rows → o.updated_at ≤ b.updated_at) × NewestFirst rows

abbrev updated_before : Budget → Budget → Bool
updated_before a b = leb b.updated_at a.updated_at

insert-NewestFirst :
    (b : Budget) (rows : List Budget)
    → NewestFirst rows
    → NewestFirst (insert_by updated_before b rows)
insert-NewestFirst b [] h = (λ o i. elim i [ ], tt)
insert-NewestFirst b (y ∷ rows) h = elim (Bool-cases (updated_before b y)) [
  | inl e ↦ rw (insert_true updated_before b y rows e) (
    λ o i. elim (In-cons i) [
      | inl same ↦ rw same (ground arith)
      | inr j ↦ let le = h.0 o j in ground arith
    ],
    h,
  )
  | inr e ↦ rw (insert_false updated_before b y rows e) (
    λ o i. elim (In-cons (In-insert_by updated_before b o rows i)) [
      | inl same ↦ rw same (ground arith)
      | inr j ↦ h.0 o j
    ],
    insert-NewestFirst b rows h.1,
  )
]

order-NewestFirst : (rows : List Budget) → NewestFirst (order_by updated_before rows)
order-NewestFirst [] = tt
order-NewestFirst (b ∷ rows) =
    insert-NewestFirst b (order_by updated_before rows) (order-NewestFirst rows)

-- The budgets that the `status` argument asks for: the active ones when it is missing or empty, all
-- of them, or those of the status that it names.
pub data AsksFor : Option String → BudgetStatus → Type 0 where
  when_missing : AsksFor none active
  when_empty : AsksFor (some "") active
  for_all : (status : BudgetStatus) → AsksFor (some "all") status
  for_active : AsksFor (some "active") active
  for_archived : AsksFor (some "archived") archived

-- The budgets that the arguments of `list` select; an argument that is missing asks for nothing.
pub record IsSelected (client_id account_id : Option ℕ) (status : Option String)
    (date_from date_to : Option ℕ) (b : Budget) : Type 0 where
  pub client : (c : ℕ) → client_id ≡ some c → b.client_id ≡ c
  pub account : (a : ℕ) → account_id ≡ some a → b.account_id ≡ some a
  pub asked : AsksFor status b.status
  pub from : (d : ℕ) → date_from ≡ some d → d ≤ b.end_date
  pub to : (d : ℕ) → date_to ≡ some d → b.start_date ≤ d

module _ {P : ℕ → Type 0} (test : ℕ → Bool) (test_iff : (a : ℕ) → (test a ≡ true) ↔ P a) where
  matches-to : (o : Option ℕ) → matches test o ≡ true → (a : ℕ) → o ≡ some a → P a
  matches-to none h a e = absurd (cc (e))
  matches-to (some x) h a e = (test_iff a).0 (subst (λ k. test k ≡ true) (some_injective e) h)
    where
      some_injective : {x a : ℕ} → some x ≡ some a → x ≡ a
      some_injective e = cc (e)

  to-matches : (o : Option ℕ) → ((a : ℕ) → o ≡ some a → P a) → matches test o ≡ true
  to-matches none h = refl
  to-matches (some x) h = (test_iff x).1 (h x refl)

has_status-AsksFor : (o : Option String) (st : BudgetStatus) → has_status o st ≡ true → AsksFor o st
unfolding has_status
has_status-AsksFor none active h = when_missing
has_status-AsksFor none archived h = absurd (cc (h))
has_status-AsksFor (some t) st h = elim (Bool-cases (str_eq t "all")) [
  | inl all ↦ subst (λ k. AsksFor (some k) st) (sym ((eq_iff t "all").0 all)) (for_all st)
  | inr not_all ↦ elim (Bool-cases (str_eq t "")) [
    | inl empty ↦
        subst (λ k. AsksFor (some k) st) (sym ((eq_iff t "").0 empty))
          (when_active st (rw (not_all, empty) at h))
    | inr not_empty ↦ named st (rw (not_all, not_empty) at h)
  ]
]
  where
    when_active : (st : BudgetStatus) → is_active st ≡ true → AsksFor (some "") st
    when_active active h = when_empty
    when_active archived h = absurd (cc (h))

    named : (st : BudgetStatus) → status_text_eq t st ≡ true → AsksFor (some t) st
    named active h = subst (λ k. AsksFor (some k) active) (sym ((eq_iff t "active").0 h)) for_active
    named archived h =
        subst (λ k. AsksFor (some k) archived) (sym ((eq_iff t "archived").0 h)) for_archived

AsksFor-has_status : {o : Option String} {st : BudgetStatus} → AsksFor o st → has_status o st ≡ true
unfolding has_status
AsksFor-has_status when_missing = refl
AsksFor-has_status when_empty = refl
AsksFor-has_status (for_all st) = refl
AsksFor-has_status for_active = refl
AsksFor-has_status for_archived = refl

and_parts : (a b : Bool) → (a && b) ≡ true → (a ≡ true) × (b ≡ true)
and_parts true b h = (refl, h)
and_parts false b h = absurd (cc (h))

and_of : {a b : Bool} → a ≡ true → b ≡ true → (a && b) ≡ true
and_of h k = cc (h, k)

is_listed_iff :
    (client_id account_id : Option ℕ) (status : Option String) (date_from date_to : Option ℕ)
    (b : Budget)
    → (is_listed client_id account_id status date_from date_to b ≡ true)
      ↔ IsSelected client_id account_id status date_from date_to b
unfolding is_listed
is_listed_iff client_id account_id status date_from date_to b =
    let of_client : (c : ℕ) → ((b.client_id == c) ≡ true) ↔ (b.client_id ≡ c) =
      λ c. ((λ h. ==_iff-eq b.client_id c h), λ e. ground arith) in
    let of_account : (a : ℕ) → (opt_eq b.account_id (some a) ≡ true) ↔ (b.account_id ≡ some a) =
      λ a. ((λ h. ground arith), λ e. ground arith) in
    let ends : (d : ℕ) → (leb d b.end_date ≡ true) ↔ (d ≤ b.end_date) =
      λ d. ((λ h. ground arith), λ e. ground arith) in
    let starts : (d : ℕ) → (leb b.start_date d ≡ true) ↔ (b.start_date ≤ d) =
      λ d. ((λ h. ground arith), λ e. ground arith) in
    (
      λ h.
          let (h4, to_ok) = and_parts _ (matches (λ d. leb b.start_date d) date_to) h in
          let (h3, from_ok) = and_parts _ (matches (λ d. leb d b.end_date) date_from) h4 in
          let (h2, status_ok) = and_parts _ (has_status status b.status) h3 in
          let (client_ok, account_ok) =
            and_parts (matches (λ c. b.client_id == c) client_id)
              (matches (λ a. opt_eq b.account_id (some a)) account_id) h2 in
          record {
            client = matches-to _ of_client client_id client_ok;
            account = matches-to _ of_account account_id account_ok;
            asked = has_status-AsksFor status b.status status_ok;
            from = matches-to _ ends date_from from_ok;
            to = matches-to _ starts date_to to_ok;
          },
      λ s.
          and_of
            (and_of
              (and_of
                (and_of (to-matches _ of_client client_id s.client)
                  (to-matches _ of_account account_id s.account))
                (AsksFor-has_status s.asked))
              (to-matches _ ends date_from s.from))
            (to-matches _ starts date_to s.to),
    )

-- `list` answers with exactly the budgets of the table that its arguments select, the one that was
-- updated last first: those of the client and of the account that are given, that end no earlier than
-- the first date and start no later than the last, where these are given, and that have the status
-- that is asked for: active where none is given or the empty text, any for "all", or the one that is
-- named.
pub list_iff :
    (client_id account_id : Option ℕ) (status : Option String) (date_from date_to : Option ℕ)
    (db : Db)
    → ((b : Budget)
        → In b (list client_id account_id status date_from date_to db)
          ↔ (In b db.budgets × IsSelected client_id account_id status date_from date_to b))
      × NewestFirst (list client_id account_id status date_from date_to db)
unfolding list
list_iff client_id account_id status date_from date_to db =
    let test = is_listed client_id account_id status date_from date_to in
    (
      λ b. (
        (λ i.
            let (j, pass) =
              In-select test b db.budgets
                (In-order_by updated_before b (select test db.budgets) i) in
            (j, (is_listed_iff client_id account_id status date_from date_to b).0 pass)),
        (λ h. order_by-In updated_before b (select test db.budgets) (
            select-In test b db.budgets h.0
              ((is_listed_iff client_id account_id status date_from date_to b).1 h.1))),
      ),
      order-NewestFirst (select test db.budgets),
    )
