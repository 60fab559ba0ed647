-- ===== src/Sync/Run/Dated.antt =====
-- The newest date of what an account received (app/services/ad_account_sync.py).
use Prim.Native.String.{String}
use client_dash_up.Base.{
  ℕ, ◌≤◌, ◌≡◌, ◌⊎◌, refl, arith, Bool, ◌&&◌, Option, none, some, List, max, inl, inr, length,
  Bool-cases,
}
use client_dash_up.Base.Text.{str_eq}
use client_dash_up.Base.Outcome.{Outcome, ok, err, Ensures, Ensures-ok, Ensures-err}
use client_dash_up.Sync.Types.{Account}
use client_dash_up.Sync.Failures.{SyncFailure}
use client_dash_up.Sync.ProviderRows.{ProviderRow, MetricRow, validated_rows}
use client_dash_up.Sync.ProviderRows.Accepts.{AreTaken, no_row, next_row, validated_rows-AreTaken}
use client_dash_up.Sync.Run.{
  Candidate, Services, RunArgs, latest_day, Tried, ingested, take_rows, take_valid, try_chosen,
  try_account,
}

-- No row and no date, or a date in the range that was asked for.
abbrev pub IsDated : ℕ → ℕ → ℕ → Option ℕ → Type 0
IsDated from to received newest =
    (received ≡ 0) × (newest ≡ none)
    ⊎ ((d : ℕ) × (1 ≤ received) × (newest ≡ some d) × (from ≤ d) × (d ≤ to))

AreTaken-IsDated :
    {require_metrics : Bool} {from to : ℕ} {rows : List ProviderRow} {rs : List MetricRow}
    → AreTaken require_metrics from to rows rs
    → IsDated from to (length rows) (latest_day rs)
AreTaken-IsDated no_row = inl (refl, refl)
AreTaken-IsDated (next_row {r = r} {rs = rs} one rest) = elim (AreTaken-IsDated rest) [
  | inl (_, e) ↦
      let (from_r, to_r) = one.in_range in inr (r.day, omega arith, rw e refl, from_r, to_r)
  | inr (d, _, e, after, before) ↦
      let (from_r, to_r) = one.in_range in
      inr (max r.day d, omega arith, rw e refl, omega arith, omega arith)
]

abbrev pub IsDatedTry : ℕ → ℕ → Tried → Type 0
IsDatedTry from to t = Ensures (λ i. IsDated from to t.rows_received i.latest_data_date) t.result

ingested-Ensures :
    (from to : ℕ) (rows : List ProviderRow) (rs : List MetricRow) (credential_id : Option ℕ)
    (o : Outcome SyncFailure ℕ)
    → IsDated from to (length rows) (latest_day rs)
    → Ensures (λ i. IsDated from to (length rows) i.latest_data_date) (ingested rs credential_id o)
ingested-Ensures from to rows rs credential_id (err x) h = Ensures-err x
ingested-Ensures from to rows rs credential_id (ok n) h = Ensures-ok h

module _ {S : Type 0} (services : Services S) (args : RunArgs) where
  take_rows-IsDatedTry :
      (id : ℕ) (provider : String) (from to : ℕ)
      (o : Outcome SyncFailure (List ProviderRow × Option ℕ)) (s : S)
      → IsDatedTry from to (take_rows services args id provider from to o s).0
  unfolding take_rows take_valid
  take_rows-IsDatedTry id provider from to (err x) s = Ensures-err x
  take_rows-IsDatedTry id provider from to (ok (rows, credential_id)) s = go _ refl
    where
      go :
          (valid : Outcome SyncFailure (List MetricRow))
          → validated_rows (services.requires_metrics provider) from to rows ≡ valid
          → IsDatedTry from to
              (take_valid services args id provider (length rows) credential_id valid s).0
      go (err x) e = Ensures-err x
      go (ok rs) e =
          let taken = (validated_rows-AreTaken _ from to rows).at rs e in
          ingested-Ensures from to rows rs credential_id _ (AreTaken-IsDated taken)

  try_chosen-IsDatedTry :
      (a : Account) (provider : String) (from to : ℕ)
      (o : Outcome SyncFailure (List (Option Candidate))) (s : S)
      → IsDatedTry from to (try_chosen services args a provider from to o s).0
  unfolding try_chosen
  try_chosen-IsDatedTry a provider from to (err x) s = Ensures-err x
  try_chosen-IsDatedTry a provider from to (ok chosen) s =
      take_rows-IsDatedTry a.id provider from to _ _

  pub try_account-IsDatedTry :
      (a : Account) (provider : String) (from to : ℕ) (s : S)
      → IsDatedTry from to (try_account services args a provider from to s).0
  unfolding try_account
  try_account-IsDatedTry a provider from to s =
      elim (Bool-cases (str_eq provider "meta" && a.metadata.meta_rediscovery_required)) [
        | inl moved ↦ rw moved (Ensures-err _)
        | inr stays ↦ rw stays (try_chosen-IsDatedTry a provider from to _ _)
      ]
