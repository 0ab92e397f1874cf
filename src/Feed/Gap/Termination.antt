-- ===== src/Feed/Gap/Termination.antt =====
-- The paging loop of frontend/src/hooks/useTelegramCache.ts ends, whatever the backend answers.
use spectrum_knx.Prelude.{
  ℕ, zero, suc, ◌+◌, ◌<◌, ◌≡◌, refl, Bool, true, false, Option, none, some, List, ◌++◌, ltb, length,
  arith, Bool-cases, inl, inr,
}
use spectrum_knx.Telegram.{TelegramEntry}
use spectrum_knx.Feed.{Feed}
use spectrum_knx.Feed.Gap.{
  Load, Progress, onward, finished, Received, dropped, exhausted, chunk, received, step_back,
  chunk_stored, oldest_of, next_limit, after_limit, after_received, page_back, go_on, round,
  fill_gap, prepend,
}

-- the loop goes on only with a smaller cursor
abbrev pub Falls : Load → Progress → Type 0
Falls l (finished n) = Unit
Falls l (onward l') = l'.cursor < l.cursor

step_back-Falls : (oldest : ℕ) (l : Load) → Falls l (step_back oldest l)
unfolding step_back
step_back-Falls oldest l = elim (Bool-cases (ltb oldest l.cursor)) [
  | inl h ↦ rw h (ground arith)
  | inr h ↦ elim (Bool-cases (ltb 0 l.cursor)) [
    | inl k ↦ rw (h, k) (ground arith)
    | inr k ↦ rw (h, k) tt
  ]
]

page_back-Falls :
    (oldest : Option ℕ) (stored limit_reached : Bool) (l : Load) (s : Feed)
    → Falls l (page_back oldest stored limit_reached l s).0
unfolding page_back
page_back-Falls none stored limit_reached l s = tt
page_back-Falls (some oldest) stored true l s = step_back-Falls oldest l
page_back-Falls (some oldest) stored false l s = tt

-- the new load differs from the old in its cursor and its count
Falls-counted : (l : Load) (n : ℕ) (p : Progress) → Falls (record l { fetched = n }) p → Falls l p
Falls-counted l n (finished m) h = tt
Falls-counted l n (onward l') h = h

module _ (fetch : ℕ → ℕ → ℕ → List TelegramEntry × Bool) (stores : List TelegramEntry → Bool) where
  after_received-Falls :
      (r : Received) (entries : List TelegramEntry) (limit_reached : Bool) (l : Load) (s : Feed)
      → Falls l (after_received fetch stores r entries limit_reached l s).0
  unfolding after_received chunk_stored
  after_received-Falls dropped entries limit_reached l s = tt
  after_received-Falls (exhausted s') entries limit_reached l s = tt
  after_received-Falls (chunk s') entries limit_reached l s =
      Falls-counted l (l.fetched + length entries) _
        (page_back-Falls (oldest_of entries) (stores entries) limit_reached _ _)

  pub after_limit-Falls :
      (o : Option ℕ) (l : Load) (s : Feed) → Falls l (after_limit fetch stores o l s).0
  unfolding after_limit
  after_limit-Falls none l s = tt
  after_limit-Falls (some limit) l s =
      let (entries, limit_reached) = fetch l.gap_start l.cursor limit in
      after_received-Falls (received entries l s) entries limit_reached l s

  prepend_total :
      (cached : List TelegramEntry) (o : Option (ℕ × Feed × List TelegramEntry))
      → ((r : ℕ × Feed × List TelegramEntry) × (o ≡ some r))
      → (r : ℕ × Feed × List TelegramEntry) × (prepend cached o ≡ some r)
  unfolding prepend
  prepend_total cached none h = cc h.1
  prepend_total cached (some (n, s, more)) h = ((n, s, cached ++ more), refl)

  -- The loop ends: fuel above the cursor is enough, whatever the backend answers and whichever
  -- writes fail.
  pub fill_gap_total :
      (fuel : ℕ) (l : Load) (s : Feed)
      → l.cursor < fuel
      → (r : ℕ × Feed × List TelegramEntry) × (fill_gap fetch stores fuel l s ≡ some r)
  unfolding fill_gap round
  fill_gap_total zero l s h = absurd (omega arith)
  fill_gap_total (suc fuel) l s h =
      let (progress, s', cached) = after_limit fetch stores (next_limit l s) l s in
      onwards progress s' cached (after_limit-Falls (next_limit l s) l s)
        (λ l' below. fill_gap_total fuel l' s' (omega arith))
    where
      onwards :
          (progress : Progress) (s' : Feed) (cached : List TelegramEntry)
          → Falls l progress
          → ((l' : Load)
              → l'.cursor < l.cursor
              → (r : ℕ × Feed × List TelegramEntry) × (fill_gap fetch stores fuel l' s' ≡ some r))
          → (r : ℕ × Feed × List TelegramEntry) × (go_on fetch stores progress s' cached
                (fill_gap fetch stores fuel)
              ≡ some r)
      onwards (finished n) s' cached f loop = unfold go_on in ((n, s', cached), refl)
      onwards (onward l') s' cached f loop = unfold go_on in prepend_total cached _ (loop l' f)
