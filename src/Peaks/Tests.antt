-- ===== src/Peaks/Tests.antt =====
-- The busiest window at concrete times.
use spectrum_knx.Prelude.{ℕ, ◌≡◌, refl, some, List, [], ◌∷◌, sort, arith}
use spectrum_knx.Peaks.{PeakRate, peak_rate}
use spectrum_knx.Peaks.Busiest.{IsPeak, peak_rate_lem}

abbrev mixed_times : List ℕ
mixed_times = 5000 ∷ 100 ∷ 4300 ∷ 900 ∷ 5200 ∷ []

burst : peak_rate mixed_times 1000 ≡ some (record { count = 3; start_idx = 2 })
unfolding peak_rate sort
burst = refl

peak_rate_lem_example :
    (p : PeakRate) × (peak_rate mixed_times 1000 ≡ some p) × IsPeak mixed_times 1000 p
peak_rate_lem_example = peak_rate_lem 1000 mixed_times (omega arith) (omega arith)
