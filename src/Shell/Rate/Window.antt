-- ===== src/Shell/Rate/Window.antt =====
-- Forgetting what is older than an hour and the bus rate, in frontend/src/App.tsx.
use mathlib.Core.List.{append_assoc, append-nil}
use spectrum_knx.Prelude.{
  ℕ, ◌+◌, ◌≤◌, ◌≡◌, refl, sym, ap, ◌∙◌, Bool, true, false, List, [], ◌∷◌, ◌++◌, map, arith, ltb,
  length, filter, All, Bool-cases, inl, inr, filter-append, ltb→lt,
}
use spectrum_knx.Telegram.{Telegram}
use spectrum_knx.Shell.Rate.{
  Arrivals, RateMode, per_second, per_minute, per_hour, one_hour, drop_old, handle_telegram,
  handle_all, window_ms, bus_rate, divisor,
}

window_ms_le : (mode : RateMode) → window_ms mode ≤ one_hour
unfolding window_ms
window_ms_le per_second = omega arith
window_ms_le per_minute = omega arith
window_ms_le per_hour = omega arith

module _ (mode : RateMode) (now : ℕ) where
  abbrev counted : ℕ → Bool
  counted t = ltb now (t + window_ms mode)

  old_is_not_counted : (at t : ℕ) → at ≤ now → ltb (t + one_hour) at ≡ true → counted t ≡ false
  old_is_not_counted at t h e = elim (Bool-cases (counted t)) [
    | inl c ↦ absurd (omega (arith, h, ltb→lt _ _ e, ltb→lt _ _ c, window_ms_le mode))
    | inr c ↦ c
  ]

  filter-drop_old :
      (at : ℕ) (times : List ℕ)
      → at ≤ now
      → filter counted (drop_old at times) ≡ filter counted times
  unfolding drop_old
  filter-drop_old at [] h = refl
  filter-drop_old at (t ∷ times) h = elim (Bool-cases (ltb (t + one_hour) at)) [
    | inl e ↦ rw (e, old_is_not_counted at t h e) (filter-drop_old at times h)
    | inr e ↦ rw e refl
  ]

  filter-handle_all :
      (calls : List (ℕ × Telegram)) (s : Arrivals)
      → All (λ c. c.0 ≤ now) calls
      → filter counted (handle_all calls s).arrival_times
        ≡ filter counted (s.arrival_times ++ map (λ c. c.0) calls)
  unfolding handle_all handle_telegram
  filter-handle_all [] s h = ap (filter counted) (sym (append-nil s.arrival_times))
  filter-handle_all (c ∷ calls) s h =
      filter-handle_all calls (handle_telegram c.0 c.1 s) h.1
      ∙ filter-append counted (drop_old c.0 (s.arrival_times ++ c.0 ∷ [])) (map (λ d. d.0) calls)
      ∙ ap (λ l. l ++ filter counted (map (λ d. d.0) calls))
          (filter-drop_old c.0 (s.arrival_times ++ c.0 ∷ []) h.0)
      ∙ sym (filter-append counted (s.arrival_times ++ c.0 ∷ []) (map (λ d. d.0) calls))
      ∙ ap (filter counted) (append_assoc s.arrival_times (c.0 ∷ []) (map (λ d. d.0) calls))

  -- The bus rate that is shown is that of all telegrams that have arrived: what has been forgotten
  -- by then would not count in any mode, as long as the clock of the arrivals is not ahead.
  pub bus_rate-handle_all :
      (calls : List (ℕ × Telegram)) (s : Arrivals)
      → All (λ c. c.0 ≤ now) calls
      → bus_rate mode now (handle_all calls s).arrival_times
        ≡ bus_rate mode now (s.arrival_times ++ map (λ c. c.0) calls)
  unfolding bus_rate
  bus_rate-handle_all calls s h =
      ap (λ l. record { count = length l; per = divisor mode }) (filter-handle_all calls s h)
