-- ===== src/Feed/Failing/Explained.antt =====
-- Why a load of frontend/src/hooks/useTelegramCache.ts shows an error, or none.
use spectrum_knx.Prelude.{
  ℕ, zero, suc, ◌-◌, ◌≡◌, refl, Bool, Option, none, some, List, [], ◌∷◌, ltb, ◌==◌, Bool-cases, inl,
  inr, Text,
}
use spectrum_knx.Telegram.{TelegramEntry}
use spectrum_knx.Coverage.{Interval}
use spectrum_knx.Feed.{Feed}
use spectrum_knx.Feed.Gap.{
  Load, Progress, onward, finished, next_limit, after_limit, go_on, round, fill_gap, prepend,
}
use spectrum_knx.Feed.Loads.{gap_load, with_cached, after_gap, gaps_loop}
use spectrum_knx.Feed.Failing.{
  returned, threw, Ended, turn_of, after_answer, try_round, with_taken, take_turn, try_gap,
  after_try, try_gaps,
}

module _ (fetch : ℕ → ℕ → ℕ → List TelegramEntry × Bool) (fails : ℕ → ℕ → ℕ → Option Text)
    (stores : List TelegramEntry → Bool) where
  -- a request that failed with the message
  abbrev pub Failed : Text → Type 0
  Failed message = (start : ℕ) × (end : ℕ) × (limit : ℕ) × (fails start end limit ≡ some message)

  -- a loop that threw had a request that failed so; one that returned did what the loop without
  -- failing requests does
  abbrev Explained : Option Ended → Option (ℕ × Feed × List TelegramEntry) → Type 0
  Explained none plain = Unit
  Explained (some (threw message, s, cached)) plain = Failed message
  Explained (some (returned n, s, cached)) plain = plain ≡ some (n, s, cached)

  with_taken-Explained :
      (cached : List TelegramEntry) (o : Option Ended)
      (plain : Option (ℕ × Feed × List TelegramEntry))
      → Explained o plain
      → Explained (with_taken fetch fails stores cached o) (prepend cached plain)
  unfolding with_taken prepend
  with_taken-Explained cached none plain h = tt
  with_taken-Explained cached (some (threw message, s, more)) plain h = h
  with_taken-Explained cached (some (returned n, s, more)) plain h = rw h

  take_turn-Explained :
      (p : Progress) (s : Feed) (cached : List TelegramEntry) (loop : Load → Feed → Option Ended)
      (plain : Load → Feed → Option (ℕ × Feed × List TelegramEntry))
      → ((l : Load) → Explained (loop l s) (plain l s))
      → Explained
          (take_turn fetch fails stores (turn_of p) s cached loop)
          (go_on fetch stores p s cached plain)
  unfolding take_turn turn_of go_on
  take_turn-Explained (onward l) s cached loop plain h =
      with_taken-Explained cached (loop l s) (plain l s) (h l)
  take_turn-Explained (finished n) s cached loop plain h = refl

  round-Explained :
      (limit : Option ℕ) (l : Load) (s : Feed) (loop : Load → Feed → Option Ended)
      (plain : Load → Feed → Option (ℕ × Feed × List TelegramEntry))
      → ((l' : Load) (t : Feed) → Explained (loop l' t) (plain l' t))
      → (let (turn, t, cached) = try_round fetch fails stores limit l s in
          let (progress, u, taken) = after_limit fetch stores limit l s in
          Explained
            (take_turn fetch fails stores turn t cached loop)
            (go_on fetch stores progress u taken plain))
  unfolding try_round
  round-Explained none l s loop plain h =
      unfold after_limit in unfold take_turn in unfold go_on in refl
  round-Explained (some limit) l s loop plain h = answer (fails l.gap_start l.cursor limit) refl
    where
      answer :
          (o : Option Text)
          → fails l.gap_start l.cursor limit ≡ o
          → (let (turn, t, cached) = after_answer fetch fails stores o limit l s in
              let (progress, u, taken) = after_limit fetch stores (some limit) l s in
              Explained
                (take_turn fetch fails stores turn t cached loop)
                (go_on fetch stores progress u taken plain))
      answer (some message) e =
          unfold after_answer in unfold take_turn in (l.gap_start, l.cursor, limit, e)
      answer none e =
          let (progress, u, taken) = after_limit fetch stores (some limit) l s in
          unfold after_answer in take_turn-Explained progress u taken loop plain (λ l'. h l' u)

  try_gap-Explained :
      (fuel : ℕ) (l : Load) (s : Feed)
      → Explained (try_gap fetch fails stores fuel l s) (fill_gap fetch stores fuel l s)
  unfolding try_gap fill_gap round
  try_gap-Explained zero l s = tt
  try_gap-Explained (suc fuel) l s =
      round-Explained (next_limit l s) l s (try_gap fetch fails stores fuel)
        (fill_gap fetch stores fuel) (try_gap-Explained fuel)

  -- the same of the loop over the gaps
  abbrev pub ExplainedAll : Option Ended → Option (Feed × List TelegramEntry) → Type 0
  ExplainedAll none plain = Unit
  ExplainedAll (some (threw message, s, cached)) plain = Failed message
  ExplainedAll (some (returned n, s, cached)) plain = plain ≡ some (s, cached)

  with_taken-ExplainedAll :
      (cached : List TelegramEntry) (o : Option Ended) (plain : Option (Feed × List TelegramEntry))
      → ExplainedAll o plain
      → ExplainedAll (with_taken fetch fails stores cached o) (with_cached cached plain)
  unfolding with_taken with_cached
  with_taken-ExplainedAll cached none plain h = tt
  with_taken-ExplainedAll cached (some (threw message, s, more)) plain h = h
  with_taken-ExplainedAll cached (some (returned n, s, more)) plain h = rw h

  module _ (max_size : ℕ) (skip : Bool) (generation : ℕ) where
    after_try-ExplainedAll :
        (remaining : ℕ) (o : Option Ended) (plain : Option (ℕ × Feed × List TelegramEntry))
        (loop : ℕ → Feed → Option Ended)
        (plain_loop : ℕ → Feed → Option (Feed × List TelegramEntry))
        → Explained o plain
        → ((n : ℕ) (t : Feed) → ExplainedAll (loop n t) (plain_loop n t))
        → ExplainedAll
            (after_try fetch fails stores generation remaining o loop)
            (after_gap fetch stores max_size skip generation remaining plain plain_loop)
    unfolding after_try after_gap
    after_try-ExplainedAll remaining none plain loop plain_loop h more = tt
    after_try-ExplainedAll remaining (some (threw message, s, cached)) plain loop plain_loop h
          more =
        h
    after_try-ExplainedAll remaining (some (returned n, s, cached)) plain loop plain_loop h more =
        elim (Bool-cases (s.generation == generation)) [
          | inl k ↦ rw (h, k) (with_taken-ExplainedAll cached _ _ (more (remaining - n) s))
          | inr k ↦ rw (h, k) refl
        ]

    pub try_gaps-ExplainedAll :
        (todo : List Interval) (remaining : ℕ) (s : Feed)
        → ExplainedAll
            (try_gaps fetch fails stores max_size skip generation todo remaining s)
            (gaps_loop fetch stores max_size skip generation todo remaining s)
    unfolding try_gaps gaps_loop
    try_gaps-ExplainedAll [] remaining s = refl
    try_gaps-ExplainedAll (gap ∷ rest) remaining s = elim (Bool-cases (ltb 0 remaining)) [
      | inr k ↦ rw k refl
      | inl k ↦ rw k (
          after_try-ExplainedAll remaining _ _ _ _
            (try_gap-Explained (suc gap.1) (gap_load max_size skip generation gap remaining) s)
            (try_gaps-ExplainedAll rest))
    ]
