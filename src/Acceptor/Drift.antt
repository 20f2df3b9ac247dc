-- ===== src/Acceptor/Drift.antt =====
-- The clock of the statistics fiber.
use cxx_conet.Prelude.{ℕ, ◌+◌, ◌*◌, ◌≡◌, refl, ap, List, [], ◌∷◌}
use cxx_conet.Acceptor.Loops.{Tick, statistics_times}

-- a start and the sums of the lengths behind it, in milliseconds
unfoldable pub elapsed : List ℕ → ℕ → List ℕ
elapsed [] start = []
elapsed (seconds ∷ rest) start = (start + seconds * 1000) ∷ elapsed rest (start + seconds * 1000)

abbrev pub lengths : List Tick → List ℕ
lengths [] = []
lengths (t ∷ ts) = t.seconds ∷ lengths ts

-- The times that the statistics are computed for are the time at the start and the sums of the
-- intervals slept since, whatever the clock shows: it is never looked at again.
pub statistics_times-elapsed :
    (ts : List Tick) (start : ℕ) → statistics_times ts 0 start ≡ elapsed (lengths ts) start
unfolding statistics_times elapsed
statistics_times-elapsed [] start = refl
statistics_times-elapsed (t ∷ ts) start =
    ap (λ l. (start + t.seconds * 1000) ∷ l)
      (statistics_times-elapsed ts (start + t.seconds * 1000))
