-- ===== src/Sync/Schedule/Selects.antt =====
-- Which accounts `run_due_sync` selects (app/services/ad_account_sync.py).
use client_dash_up.Base.{
  ℕ, ◌+◌, ◌*◌, ◌<◌, ◌≤◌, ◌≡◌, ◌⊎◌, refl, arith, true, false, ◌&&◌, Option, none, some, List, [],
  ◌∷◌, leb, min, max, In, In-cons, here, there, inl, inr, length, get_or, Option-cases, Bool-cases,
}
use client_dash_up.Base.Sorting.{
  order_by, IsOrdered, order_by-IsOrdered, order_by-In, In-order_by, In-take, length-take-le,
  take-IsOrdered, cut_off,
}
use client_dash_up.Sync.Types.{success, error, SyncStatus-cases, Account, SyncJob}
use client_dash_up.Sync.Schedule.{
  latest_job, has_passed, Due, due_of, all_due, goes_before, batch_limit, select_due,
}

-- An account is due at an instant, by its latest job, with the rank of its kind and the instant that
-- it has been due since: a retry comes first, then an account without a job, then a stale success.
pub data IsDue (started_at stale_after_hours : ℕ) (job : Option SyncJob) (rank since : ℕ)
    : Type 0 where
  may_retry :
      (j : SyncJob)
      → job ≡ some j
      → j.status ≡ error
      → j.retryable ≡ true
      → ((t : ℕ) → j.next_retry_at ≡ some t → t ≤ started_at)
      → rank ≡ 0
      → since ≡ get_or j.next_retry_at j.started_at
      → IsDue started_at stale_after_hours job rank since
  never_synced :
      job ≡ none → rank ≡ 1 → since ≡ 0 → IsDue started_at stale_after_hours job rank since
  is_stale :
      (j : SyncJob)
      → job ≡ some j
      → j.status ≡ success
      → get_or j.finished_at j.started_at + 3600 * max 1 stale_after_hours ≤ started_at
      → rank ≡ 2
      → since ≡ get_or j.finished_at j.started_at
      → IsDue started_at stale_after_hours job rank since

-- One place in the queue comes no later than another: by rank, then by instant, then by id.
abbrev pub Precedes : Due → Due → Type 0
Precedes a b =
    (a.rank < b.rank)
    ⊎ ((a.rank ≡ b.rank)
        × ((a.since < b.since) ⊎ ((a.since ≡ b.since) × (a.account_id ≤ b.account_id))))

goes_before-Precedes : (a b : Due) → goes_before a b ≡ true → Precedes a b
goes_before-Precedes a b h = ground arith

has_passed-le : (o : Option ℕ) (now t : ℕ) → has_passed o now ≡ true → o ≡ some t → t ≤ now
has_passed-le none now t h e = absurd (cc)
has_passed-le (some s) now t h e = ground arith

has_passed_holds :
    (o : Option ℕ) (now : ℕ) → ((t : ℕ) → o ≡ some t → t ≤ now) → has_passed o now ≡ true
has_passed_holds none now h = refl
has_passed_holds (some s) now h = let le = h s refl in ground arith

module _ (started_at hours account_id : ℕ) where
  due_of-IsDue :
      (job : Option SyncJob) (d : Due)
      → due_of started_at hours account_id job ≡ some d
      → IsDue started_at hours job d.rank d.since × (d.account_id ≡ account_id)
  unfolding due_of
  due_of-IsDue none d h = (never_synced refl (ground arith) (ground arith), ground arith)
  due_of-IsDue (some j) d h = elim (SyncStatus-cases j.status) [
    | inl failed ↦ elim (Bool-cases (j.retryable && has_passed j.next_retry_at started_at)) [
      | inl yes_due ↦
          let passed : has_passed j.next_retry_at started_at ≡ true = ground arith in
          (
            may_retry j refl failed (ground arith)
                (λ t e. has_passed-le j.next_retry_at started_at t passed e) (ground arith)
                (ground arith),
            ground arith,
          )
      | inr not_due ↦ absurd (ground arith)
    ]
    | inr done ↦
        elim (Bool-cases
          (leb (get_or j.finished_at j.started_at + 3600 * max 1 hours) started_at)) [
            | inl yes_due ↦
                (is_stale j refl done (ground arith) (ground arith) (ground arith), ground arith)
            | inr not_due ↦ absurd (ground arith)
          ]
  ]

  IsDue-due_of :
      (job : Option SyncJob) (rank since : ℕ)
      → IsDue started_at hours job rank since
      → due_of started_at hours account_id job
        ≡ some (record { rank = rank; since = since; account_id = account_id })
  unfolding due_of
  IsDue-due_of job rank since (never_synced e first from) = rw (e, first, from) refl
  IsDue-due_of job rank since (may_retry j e status retryable passed first from) =
      let holds = has_passed_holds j.next_retry_at started_at passed in
      rw (e, first, from) (ground arith)
  IsDue-due_of job rank since (is_stale j e status old first from) =
      rw (e, first, from) (ground arith)

module _ (started_at hours : ℕ) (jobs : List SyncJob) where
  all_due-cons :
      (a : Account) (accounts : List Account) (d : Due)
      → due_of started_at hours a.id (latest_job a.id jobs) ≡ some d
      → all_due started_at hours jobs (a ∷ accounts) ≡ d ∷ all_due started_at hours jobs accounts
  unfolding all_due
  all_due-cons a accounts d e = ground arith

  all_due-skip :
      (a : Account) (accounts : List Account)
      → due_of started_at hours a.id (latest_job a.id jobs) ≡ none
      → all_due started_at hours jobs (a ∷ accounts) ≡ all_due started_at hours jobs accounts
  unfolding all_due
  all_due-skip a accounts e = ground arith

  all_due-In :
      (a : Account) (accounts : List Account) (d : Due)
      → In a accounts
      → due_of started_at hours a.id (latest_job a.id jobs) ≡ some d
      → In d (all_due started_at hours jobs accounts)
  all_due-In a [] d i e = elim i [ ]
  all_due-In a (b ∷ accounts) d here e = rw (all_due-cons a accounts d e) here
  all_due-In a (b ∷ accounts) d (there i) e =
      elim (Option-cases (due_of started_at hours b.id (latest_job b.id jobs))) [
        | inl skipped ↦ rw (all_due-skip b accounts skipped) (all_due-In a accounts d i e)
        | inr (c, taken) ↦
            rw (all_due-cons b accounts c taken) (there (all_due-In a accounts d i e))
      ]

  In-all_due :
      (accounts : List Account) (d : Due)
      → In d (all_due started_at hours jobs accounts)
      → (a : Account) × In a accounts
        × (due_of started_at hours a.id (latest_job a.id jobs) ≡ some d)
  unfolding all_due
  In-all_due [] d i = elim i [ ]
  In-all_due (b ∷ accounts) d i =
      elim (Option-cases (due_of started_at hours b.id (latest_job b.id jobs))) [
        | inl skipped ↦
            let (a, j, e) = In-all_due accounts d (rw (all_due-skip b accounts skipped) at i) in
            (a, there j, e)
        | inr (c, taken) ↦ elim (In-cons (rw (all_due-cons b accounts c taken) at i)) [
          | inl same ↦ (b, here, rw same taken)
          | inr k ↦ let (a, j, e) = In-all_due accounts d k in (a, there j, e)
        ]
      ]

goes_before_total : (a b : Due) → goes_before a b ≡ false → goes_before b a ≡ true
goes_before_total a b h = ground arith

goes_before_trans :
    (a b c : Due) → goes_before a b ≡ true → goes_before b c ≡ true → goes_before a c ≡ true
goes_before_trans a b c h k = ground arith

-- What `run_due_sync` selects: due accounts only, in the order of the queue, no more than the limit;
-- and of the due accounts each one, unless the batch is full of such as go before it.
pub record SelectsDue (batch_size hours started_at : ℕ) (jobs : List SyncJob)
    (accounts : List Account) (selected : List Due) : Type 0 where
  pub only_due :
      (d : Due)
      → In d selected
      → (a : Account) × In a accounts
        × (d.account_id ≡ a.id)
        × IsDue started_at hours (latest_job a.id jobs) d.rank d.since
  pub ordered : IsOrdered goes_before selected
  pub order : (d e : Due) → goes_before d e ≡ true → Precedes d e
  pub bounded : length selected ≤ max 1 (min batch_size 100)
  pub all_due_served :
      (a : Account) (rank since : ℕ)
      → In a accounts
      → IsDue started_at hours (latest_job a.id jobs) rank since
      → In (record { rank = rank; since = since; account_id = a.id }) selected
        ⊎ ((length selected ≡ max 1 (min batch_size 100))
            × ((e : Due)
                → In e selected
                → Precedes e (record { rank = rank; since = since; account_id = a.id })))

-- `run_due_sync` selects only accounts that are due: one whose latest job is a retryable error whose
-- retry time has passed (never another error), one without a job, or one whose latest job is a
-- success that is stale. Each is selected at the rank of its kind (0, 1 and 2 in this order) and the
-- instant it has been due since: the time of the retry, 0, or the end of the job. The selection is
-- ordered by rank, then instant, then id, and holds 1 to 100 accounts at most; an account that is due
-- is left out only when the batch is full of accounts that go before it in that order.
pub select_due-SelectsDue :
    (batch_size hours started_at : ℕ) (jobs : List SyncJob) (accounts : List Account)
    → SelectsDue batch_size hours started_at jobs accounts
        (select_due batch_size hours started_at jobs accounts)
unfolding select_due
select_due-SelectsDue batch_size hours started_at jobs accounts =
    let queue = all_due started_at hours jobs accounts in
    let sorted = order_by goes_before queue in
    let is_sorted = order_by-IsOrdered goes_before goes_before_total goes_before_trans queue in
    let n = batch_limit batch_size in
    record {
      only_due = λ d i.
          let (a, j, e) =
            In-all_due started_at hours jobs accounts d
              (In-order_by goes_before d queue (In-take goes_before n d sorted i)) in
          let (due, same) = due_of-IsDue started_at hours a.id (latest_job a.id jobs) d e in
          (a, j, same, due);
      ordered = take-IsOrdered goes_before n sorted is_sorted;
      order = goes_before-Precedes;
      bounded = length-take-le goes_before n sorted;
      all_due_served = λ a rank since i due.
          let d : Due = record { rank = rank; since = since; account_id = a.id } in
          let e = IsDue-due_of started_at hours a.id (latest_job a.id jobs) rank since due in
          elim (cut_off goes_before n d sorted is_sorted
            (order_by-In goes_before d queue (all_due-In started_at hours jobs a accounts d i e))) [
              | inl chosen ↦ inl chosen
              | inr (full, before) ↦ inr (full, λ f k. goes_before-Precedes f d (before f k))
            ];
    }
