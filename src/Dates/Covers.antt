-- ===== src/Dates/Covers.antt =====
-- `date_chunks` ends, and its chunks cover the range (app/services/date_utils.py).
use client_dash_up.Base.{
  ℕ, suc, zero, ◌+◌, ◌-◌, ◌≤◌, ◌<◌, ◌≡◌, ◌⊎◌, inl, inr, refl, arith, false, some, List, [], ◌∷◌,
  leb, ltb, min, Bool-cases,
}
use client_dash_up.Dates.{chunks_from, date_chunks}

-- The chunks follow each other from `from` to `to` without a gap, and each but the last has
-- `max_days` days.
pub data Covers (max_days : ℕ) : ℕ → ℕ → List (ℕ × ℕ) → Type 0 where
  none_left : {from to : ℕ} → to < from → Covers max_days from to []
  next_chunk :
      {from to end : ℕ} {chunks : List (ℕ × ℕ)}
      → from ≤ end
      → end ≤ to
      → (end + 1 ≡ from + max_days) ⊎ ((end ≡ to) × (end + 1 ≤ from + max_days))
      → Covers max_days (end + 1) to chunks
      → Covers max_days from to ((from, end) ∷ chunks)

module _ (max_days : ℕ) (has_days : 1 ≤ max_days) where
  chunks_from-Covers :
      (fuel cur to : ℕ)
      → to < cur + fuel
      → (chunks : List (ℕ × ℕ)) × (chunks_from fuel max_days cur to ≡ some chunks)
        × Covers max_days cur to chunks
  unfolding chunks_from
  chunks_from-Covers zero cur to enough =
      let past : leb cur to ≡ false = ground arith in ([], rw past refl, none_left (omega arith))
  chunks_from-Covers (suc fuel) cur to enough = elim (Bool-cases (leb cur to)) [
    | inr past ↦ ([], rw past refl, none_left (ground arith))
    | inl left ↦
        let end = min (cur + max_days - 1) to in
        let before : cur ≤ to = ground arith in
        let (chunks, e, covers) = chunks_from-Covers fuel (end + 1) to (omega arith) in
        (
          (cur, end) ∷ chunks,
          rw (left, e) refl,
          next_chunk (omega arith) (omega arith) (end_cases cur to before) covers,
        )
  ]
    where
      end_cases :
          (cur to : ℕ)
          → cur ≤ to
          → (min (cur + max_days - 1) to + 1 ≡ cur + max_days)
            ⊎ ((min (cur + max_days - 1) to ≡ to)
                × (min (cur + max_days - 1) to + 1 ≤ cur + max_days))
      end_cases cur to before = elim (Bool-cases (leb (cur + max_days - 1) to)) [
        | inl fits ↦ let h : cur + max_days - 1 ≤ to = ground arith in inl (omega arith)
        | inr over ↦
            let h : to < cur + max_days - 1 = ground arith in inr (omega arith, omega arith)
      ]

-- `date_chunks` ends where a chunk may have a day: its chunks follow each other without a gap from the
-- first date to the last one, and each has `max_days` days, but for a last one that may be shorter;
-- a range that ends before it begins has none.
pub date_chunks-Covers :
    (from to max_days : ℕ)
    → 1 ≤ max_days
    → (chunks : List (ℕ × ℕ)) × (date_chunks from to max_days ≡ some chunks)
      × Covers max_days from to chunks
unfolding date_chunks
date_chunks-Covers from to max_days has_days = elim (Bool-cases (ltb to from)) [
  | inl empty ↦ ([], rw empty refl, none_left (ground arith))
  | inr some_day ↦
      let before : from ≤ to = ground arith in
      let (chunks, e, covers) =
        chunks_from-Covers max_days has_days (to + 1 - from) from to (omega arith) in
      (chunks, rw some_day e, covers)
]
