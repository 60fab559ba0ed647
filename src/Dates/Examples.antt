-- ===== src/Dates/Examples.antt =====
-- Runs of the splitting of dates (app/services/date_utils.py), and the theorem at one.
use client_dash_up.Base.{ℕ, ◌≡◌, refl, arith, some, List, [], ◌∷◌}
use client_dash_up.Dates.{chunks_from, date_chunks}
use client_dash_up.Dates.Covers.{Covers, date_chunks-Covers}

abbrev two_chunks : List (ℕ × ℕ)
two_chunks = (738000, 738029) ∷ (738030, 738044) ∷ []

date_chunks_run : date_chunks 738000 738044 30 ≡ some two_chunks
unfolding date_chunks chunks_from
date_chunks_run = refl

date_chunks-Covers_example :
    (chunks : List (ℕ × ℕ)) × (date_chunks 738000 738044 30 ≡ some chunks)
    × Covers 30 738000 738044 chunks
date_chunks-Covers_example = date_chunks-Covers 738000 738044 30 (omega arith)
