-- ===== src/Sync/ProviderRows/Accepts.antt =====
-- Which rows of a provider are ingested (app/services/ad_account_sync.py).
use client_dash_up.Base.{
  ℕ, ◌≤◌, ◌≡◌, ◌⊎◌, refl, arith, Bool, true, false, not, Option, none, some, List, [], ◌∷◌, ◌==◌,
  any-false, In, In-cons, here, there, inl, inr, ==_iff-eq, not-false, ap, ◌∙◌,
}
use client_dash_up.Base.Outcome.{raise_if-false, Ensures, Ensures-ok, Ensures-err, Ensures-bind}
use client_dash_up.Sync.ProviderRows.{
  DateField, absent, not_a_date, on_day, Metric, missing, refused, parsed, ProviderRow, MetricRow,
  parsed_dates, row_date, required_metric, optional_metric, validated_row, validated_rows,
}

-- The number of a metric: the parsed one, or 0 for a missing one where that is allowed.
pub data IsRead (require_metrics : Bool) : Metric → ℕ → Type 0 where
  as_parsed : (n : ℕ) → IsRead require_metrics (parsed n) n
  as_zero : require_metrics ≡ false → IsRead require_metrics missing 0

pub data IsReadOptional : Metric → Option ℕ → Type 0 where
  as_parsed : (n : ℕ) → IsReadOptional (parsed n) (some n)
  as_none : IsReadOptional missing none

-- A row that was taken: it has a date, all its dates are this one, it lies in the range, and no number
-- was made up.
pub record IsTaken (require_metrics : Bool) (from to : ℕ) (row : ProviderRow) (r : MetricRow)
    : Type 0 where
  pub dated : In (on_day r.day) row.date_fields
  pub one_date : (f : DateField) → In f row.date_fields → (f ≡ absent) ⊎ (f ≡ on_day r.day)
  pub in_range : (from ≤ r.day) × (r.day ≤ to)
  pub impressions : IsRead require_metrics row.impressions r.impressions
  pub clicks : IsRead require_metrics row.clicks r.clicks
  pub spend : IsRead require_metrics row.spend r.spend
  pub conversions : IsReadOptional row.conversions r.conversions

-- Row by row, in their order, with none left out.
pub data AreTaken (require_metrics : Bool) (from to : ℕ)
    : List ProviderRow → List MetricRow → Type 0 where
  no_row : AreTaken require_metrics from to [] []
  next_row :
      {row : ProviderRow} {rows : List ProviderRow} {r : MetricRow} {rs : List MetricRow}
      → IsTaken require_metrics from to row r
      → AreTaken require_metrics from to rows rs
      → AreTaken require_metrics from to (row ∷ rows) (r ∷ rs)

required_metric-IsRead :
    (require_metrics : Bool) (m : Metric)
    → Ensures (IsRead require_metrics m) (required_metric require_metrics m)
unfolding required_metric
required_metric-IsRead true missing = Ensures-err _
required_metric-IsRead false missing = Ensures-ok (as_zero refl)
required_metric-IsRead require_metrics refused = Ensures-err _
required_metric-IsRead require_metrics (parsed n) = Ensures-ok (IsRead.as_parsed n)

optional_metric-IsRead : (m : Metric) → Ensures (IsReadOptional m) (optional_metric m)
unfolding optional_metric
optional_metric-IsRead missing = Ensures-ok as_none
optional_metric-IsRead refused = Ensures-err _
optional_metric-IsRead (parsed n) = Ensures-ok (IsReadOptional.as_parsed n)

-- What the parsed dates say of the fields.
record AreDates (fields : List DateField) (ds : List ℕ) : Type 0 where
  from_field : (d : ℕ) → In d ds → In (on_day d) fields
  of_field : (f : DateField) → In f fields → (f ≡ absent) ⊎ ((d : ℕ) × (f ≡ on_day d) × In d ds)

parsed_dates-AreDates : (fields : List DateField) → Ensures (AreDates fields) (parsed_dates fields)
unfolding parsed_dates
parsed_dates-AreDates [] =
    Ensures-ok (record { from_field = λ d i. elim i [ ]; of_field = λ f i. elim i [ ] })
parsed_dates-AreDates (absent ∷ fields) = record {
  at = λ ds e.
      let h = (parsed_dates-AreDates fields).at ds e in
      record {
        from_field = λ d i. there (h.from_field d i);
        of_field = λ f i. elim (In-cons i) [ inl same ↦ inl same | inr j ↦ h.of_field f j ];
      };
}
parsed_dates-AreDates (not_a_date ∷ fields) = Ensures-err _
parsed_dates-AreDates (on_day d ∷ fields) = Ensures-bind λ ds e.
    let h = (parsed_dates-AreDates fields).at ds e in
    Ensures-ok (record {
      from_field =
          λ c i. elim (In-cons i) [ inl same ↦ rw same here | inr j ↦ there (h.from_field c j) ];
      of_field = λ f i. elim (In-cons i) [
        | inl same ↦ inr (d, same, here)
        | inr j ↦ elim (h.of_field f j) [
          | inl blank ↦ inl blank
          | inr (c, is_c, k) ↦ inr (c, is_c, there k)
        ]
      ];
    })

row_date-Ensures :
    (from to : ℕ) (ds : List ℕ)
    → Ensures
        (λ d. In d ds × ((c : ℕ) → In c ds → c ≡ d) × (from ≤ d) × (d ≤ to))
        (row_date from to ds)
unfolding row_date
row_date-Ensures from to [] = Ensures-err _
row_date-Ensures from to (d ∷ ds) = Ensures-bind λ _ same. Ensures-bind λ _ within.
    let agree = raise_if-false _ _ same in
    let inside = raise_if-false _ _ within in
    Ensures-ok (
      here,
      (λ c i. elim (In-cons i) [
        | inl e ↦ e
        | inr j ↦ ==_iff-eq c d (not-false _ (any-false (λ k. not (k == d)) c ds agree j))
      ]),
      ground arith,
      ground arith,
    )

validated_row-IsTaken :
    (require_metrics : Bool) (from to : ℕ) (row : ProviderRow)
    → Ensures (IsTaken require_metrics from to row) (validated_row require_metrics from to row)
unfolding validated_row
validated_row-IsTaken require_metrics from to row = Ensures-bind λ dates dated.
    Ensures-bind λ d day. Ensures-bind λ i impressions. Ensures-bind λ c clicks.
      Ensures-bind λ s spend. Ensures-bind λ v conversions.
        let h = (parsed_dates-AreDates row.date_fields).at dates dated in
        let (among, agree, after, before) = (row_date-Ensures from to dates).at d day in
        Ensures-ok (record {
          dated = h.from_field d among;
          one_date = λ f j. elim (h.of_field f j) [
            | inl blank ↦ inl blank
            | inr (k, is_k, in_dates) ↦ inr (is_k ∙ ap on_day (agree k in_dates))
          ];
          in_range = (after, before);
          impressions = (required_metric-IsRead require_metrics row.impressions).at i impressions;
          clicks = (required_metric-IsRead require_metrics row.clicks).at c clicks;
          spend = (required_metric-IsRead require_metrics row.spend).at s spend;
          conversions = (optional_metric-IsRead row.conversions).at v conversions;
        })

-- The rows of a provider are taken all or none: where they are, each has one date, in the range that
-- was asked for, and its own numbers; a missing metric counts as 0 only where that is allowed.
pub validated_rows-AreTaken :
    (require_metrics : Bool) (from to : ℕ) (rows : List ProviderRow)
    → Ensures (AreTaken require_metrics from to rows) (validated_rows require_metrics from to rows)
unfolding validated_rows
validated_rows-AreTaken require_metrics from to [] = Ensures-ok no_row
validated_rows-AreTaken require_metrics from to (row ∷ rows) = Ensures-bind λ r one.
    Ensures-bind λ rs rest. Ensures-ok (
      next_row ((validated_row-IsTaken require_metrics from to row).at r one)
        ((validated_rows-AreTaken require_metrics from to rows).at rs rest))
