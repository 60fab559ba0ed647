-- ===== src/Sync/ProviderRows.antt =====
-- `_validated_provider_rows` (app/services/ad_account_sync.py). What `date.fromisoformat`,
-- `provider_count` and `provider_money` make of a value is part of a row; a row is an object.
pub mod Accepts
use client_dash_up.Base.{
  ℕ, Bool, true, false, not, ◌||◌, Option, none, some, List, [], ◌∷◌, ◌==◌, ltb, any, if◌then◌else◌,
}
use client_dash_up.Base.Outcome.{Outcome, ok, err, ◌>>=◌, ◌>>◌, raise_if, or_raise}
use client_dash_up.Sync.Failures.{SyncFailure, payload_invalid}

-- The value of one of the fields "date", "date_start", "day" and "stat_time_day": missing or blank,
-- no ISO date, or a day.
pub data DateField : Type 0 where
  absent not_a_date : DateField
  on_day : ℕ → DateField

-- The value of a metric: missing, one that the parser refuses, or a number (hundredths for money).
pub data Metric : Type 0 where
  missing refused : Metric
  parsed : ℕ → Metric

pub record ProviderRow : Type 0 where
  pub date_fields : List DateField
  pub impressions : Metric
  pub clicks : Metric
  pub spend : Metric
  pub conversions : Metric

pub record MetricRow : Type 0 where
  pub day : ℕ
  pub impressions : ℕ
  pub clicks : ℕ
  pub spend : ℕ
  pub conversions : Option ℕ

abbrev pub Checked : Type 0 → Type 0
Checked A = Outcome SyncFailure A

-- `parsed_fields`
unfoldable pub parsed_dates : List DateField → Checked (List ℕ)
parsed_dates [] = ok []
parsed_dates (absent ∷ fields) = parsed_dates fields
parsed_dates (not_a_date ∷ fields) = err payload_invalid
parsed_dates (on_day d ∷ fields) = do ds ← parsed_dates fields; ok (d ∷ ds)

-- The date of a row: the first one, which no other contradicts and which lies in the range.
unfoldable pub row_date : ℕ → ℕ → List ℕ → Checked ℕ
row_date from to [] = err payload_invalid
row_date from to (d ∷ ds) = do
  raise_if (any (λ c. not (c == d)) ds) payload_invalid
  raise_if (ltb d from || ltb to d) payload_invalid
  ok d

unfoldable pub required_metric : Bool → Metric → Checked ℕ
required_metric require_metrics missing = if require_metrics then err payload_invalid else ok 0
required_metric require_metrics refused = err payload_invalid
required_metric require_metrics (parsed n) = ok n

-- `conversions`, which may be missing.
unfoldable pub optional_metric : Metric → Checked (Option ℕ)
optional_metric missing = ok none
optional_metric refused = err payload_invalid
optional_metric (parsed n) = ok (some n)

unfoldable pub validated_row : Bool → ℕ → ℕ → ProviderRow → Checked MetricRow
validated_row require_metrics from to row = do
  dates ← parsed_dates row.date_fields
  day ← row_date from to dates
  impressions ← required_metric require_metrics row.impressions
  clicks ← required_metric require_metrics row.clicks
  spend ← required_metric require_metrics row.spend
  conversions ← optional_metric row.conversions
  ok record {
    day = day;
    impressions = impressions;
    clicks = clicks;
    spend = spend;
    conversions = conversions;
  }

unfoldable pub validated_rows : Bool → ℕ → ℕ → List ProviderRow → Checked (List MetricRow)
validated_rows require_metrics from to [] = ok []
validated_rows require_metrics from to (row ∷ rows) = do
  r ← validated_row require_metrics from to row
  rs ← validated_rows require_metrics from to rows
  ok (r ∷ rs)
