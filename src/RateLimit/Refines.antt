-- ===== src/RateLimit/Refines.antt =====
-- The limiter answers as one that keeps every request (app/services/rate_limit.py).
use Prim.Native.String.{String}
use text.Mathlib.TextEquality.{eq_iff}
use client_dash_up.Base.{
  ℕ, ◌≤◌, ◌≡◌, inl, inr, refl, sym, ap, ◌∙◌, arith, true, false, List, [], ◌∷◌, ◌++◌, leb, length,
  Bool-cases, In, In-select, subst,
}
use client_dash_up.Base.Sorting.{IsOrdered}
use client_dash_up.Base.Text.{str_eq}
use client_dash_up.RateLimit.Windows.{
  counts, in_window, allow_by_log, decisions_by_log, InOrder, drop_expired-select, select-append,
  select-IsOrdered, In-snoc, snoc-IsOrdered, in_window_later,
}
use client_dash_up.RateLimit.{
  Decision, Buckets, no_buckets, drop_expired, set_bucket, decide, allow, Call, decisions,
}

-- The buckets show, from the instant `now` on, what the log shows.
pub record Shows (window_seconds now : ℕ) (buckets granted : Buckets) : Type 0 where
  pub ordered : (k : String) → IsOrdered leb (buckets k)
  pub past : (k : String) (t : ℕ) → In t (buckets k) → t ≤ now
  pub same :
      (k : String) (later : ℕ)
      → now ≤ later
      → in_window window_seconds later (buckets k) ≡ in_window window_seconds later (granted k)

-- One call on both.
pub record Agrees (window_seconds now : ℕ) (r q : Decision × Buckets) : Type 0 where
  pub decision : r.0 ≡ q.0
  pub shows : Shows window_seconds now r.1 q.1

module _ (window_seconds earlier : ℕ) (buckets granted : Buckets)
    (h : Shows window_seconds earlier buckets granted) (key : String) (now max_requests : ℕ)
    (later : earlier ≤ now) where
  abbrev kept : List ℕ
  kept = in_window window_seconds now (granted key)

  kept_eq : drop_expired now window_seconds (buckets key) ≡ kept
  kept_eq =
      drop_expired-select now window_seconds (buckets key) (h.ordered key) ∙ h.same key now later

  kept-IsOrdered : IsOrdered leb kept
  kept-IsOrdered =
      subst (IsOrdered leb) (h.same key now later)
        (select-IsOrdered (counts window_seconds now) (buckets key) (h.ordered key))

  kept_past : (t : ℕ) → In t kept → t ≤ now
  kept_past t i =
      let j = subst (In t) (sym (h.same key now later)) i in
      omega (arith, h.past key t (In-select (counts window_seconds now) t (buckets key) j).0)

  -- A bucket is put in the place of the one of the key.
  set_bucket-Shows :
      (bucket : List ℕ) (granted' : Buckets)
      → IsOrdered leb bucket
      → ((t : ℕ) → In t bucket → t ≤ now)
      → ((k : String) (at : ℕ)
          → str_eq k key ≡ true
          → now ≤ at
          → in_window window_seconds at bucket ≡ in_window window_seconds at (granted' k))
      → ((k : String) → str_eq k key ≡ false → granted' k ≡ granted k)
      → Shows window_seconds now (set_bucket key bucket buckets) granted'
  unfolding set_bucket
  set_bucket-Shows bucket granted' is_ordered past same others = record {
    ordered = λ k. elim (Bool-cases (str_eq k key)) [
      | inl e ↦ rw e is_ordered
      | inr e ↦ rw e (h.ordered k)
    ];
    past = λ k t. elim (Bool-cases (str_eq k key)) [
      | inl e ↦ rw e (past t)
      | inr e ↦ rw e (λ i. omega (arith, h.past k t i))
    ];
    same = λ k at after. elim (Bool-cases (str_eq k key)) [
      | inl e ↦ rw e (same k at e after)
      | inr e ↦ rw (e, others k e) (h.same k at (omega arith))
    ];
  }

  refused-Agrees :
      leb max_requests (length kept) ≡ true
      → Agrees window_seconds now
          (allow key now max_requests window_seconds buckets)
          (allow_by_log key now max_requests window_seconds granted)
  unfolding allow decide
  refused-Agrees full =
      rw (kept_eq, full)
        (record {
          decision = refl;
          shows =
              set_bucket-Shows kept granted kept-IsOrdered kept_past
                (λ k at e after.
                  subst
                    (λ j.
                      in_window window_seconds at kept ≡ in_window window_seconds at (granted j))
                    (sym ((eq_iff k key).0 e))
                    (in_window_later window_seconds now at (granted key) after))
                (λ k e. refl);
        })

  granted-Agrees :
      leb max_requests (length kept) ≡ false
      → Agrees window_seconds now
          (allow key now max_requests window_seconds buckets)
          (allow_by_log key now max_requests window_seconds granted)
  unfolding allow decide set_bucket
  granted-Agrees free =
      rw (kept_eq, free)
        (record {
          decision = refl;
          shows =
              set_bucket-Shows (kept ++ now ∷ []) (set_bucket key (granted key ++ now ∷ []) granted)
                (snoc-IsOrdered now kept kept-IsOrdered kept_past)
                (λ t i. elim (In-snoc t now kept i) [
                  | inl j ↦ kept_past t j
                  | inr e ↦ omega (arith, e)
                ])
                (λ k at e after. rw e (
                  select-append (counts window_seconds at) kept (now ∷ [])
                  ∙ ap (λ l. l ++ in_window window_seconds at (now ∷ []))
                      (in_window_later window_seconds now at (granted key) after)
                  ∙ sym (select-append (counts window_seconds at) (granted key) (now ∷ []))))
                (λ k e. rw e refl);
        })

  pub allow-Agrees :
      Agrees window_seconds now
        (allow key now max_requests window_seconds buckets)
        (allow_by_log key now max_requests window_seconds granted)
  allow-Agrees = elim (Bool-cases (leb max_requests (length kept))) [
    | inl full ↦ refused-Agrees full
    | inr free ↦ granted-Agrees free
  ]

decisions-Shows :
    (window_seconds now : ℕ) (calls : List Call) (buckets granted : Buckets)
    → InOrder now calls
    → Shows window_seconds now buckets granted
    → decisions window_seconds calls buckets ≡ decisions_by_log window_seconds calls granted
unfolding decisions
decisions-Shows window_seconds now [] buckets granted in_order h = refl
decisions-Shows window_seconds now (c ∷ calls) buckets granted (later, in_order) h =
    let one = allow-Agrees window_seconds now buckets granted h c.key c.now c.max_requests later in
    let rest = decisions-Shows window_seconds c.now calls _ _ in_order one.shows in
    cc (one.decision, rest)

-- The limiter answers a sequence of calls, which are made one after the other and have one window, as
-- one that keeps every granted request and counts those of the last window: the same calls are refused,
-- with the same time to wait.
pub decisions-log :
    (window_seconds : ℕ) (calls : List Call)
    → InOrder 0 calls
    → decisions window_seconds calls no_buckets ≡ decisions_by_log window_seconds calls no_buckets
decisions-log window_seconds calls in_order =
    decisions-Shows window_seconds 0 calls no_buckets no_buckets in_order
      (record { ordered = λ k. tt; past = λ k t i. elim i [ ]; same = λ k later h. refl })
