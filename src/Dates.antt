-- ===== src/Dates.antt =====
-- The splitting of a range of dates, `date_chunks` (app/services/date_utils.py). A date is the number
-- of its day, as `date.toordinal` counts it.
pub mod Covers
mod Examples
use client_dash_up.Base.{
  ℕ, suc, zero, ◌+◌, ◌-◌, Bool, true, false, Option, none, some, List, [], ◌∷◌, leb, ltb, min,
  if◌then◌else◌,
}

abbrev pub with_chunk : ℕ × ℕ → Option (List (ℕ × ℕ)) → Option (List (ℕ × ℕ))
with_chunk chunk none = none
with_chunk chunk (some chunks) = some (chunk ∷ chunks)

-- The loop, with fuel: `none` when the fuel is used up while a date is left.
unfoldable pub chunks_from : ℕ → ℕ → ℕ → ℕ → Option (List (ℕ × ℕ))
chunks_from zero max_days cur to = if leb cur to then none else some []
chunks_from (suc fuel) max_days cur to =
    let chunk_end = min (cur + max_days - 1) to in
    let rest = chunks_from fuel max_days (chunk_end + 1) to in
    if leb cur to then with_chunk (cur, chunk_end) rest else some []

-- One turn of the loop for each date is enough where a chunk has a day.
unfoldable pub date_chunks : ℕ → ℕ → ℕ → Option (List (ℕ × ℕ))
date_chunks from to max_days =
    if ltb to from then some [] else chunks_from (to + 1 - from) max_days from to
