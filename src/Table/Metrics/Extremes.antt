-- ===== src/Table/Metrics/Extremes.antt =====
-- The rows that the quick info bar of frontend/src/components/TelegramTable.tsx jumps to.
use mathlib.Core.Path.{subst}
use native.Mathlib.Decide.{dec_lt}
use spectrum_knx.Prelude.{
  ℕ, zero, suc, ◌-◌, ◌≤◌, ◌<◌, ◌≡◌, refl, ap, sym, ◌∙◌, Bool, true, false, Option, none, some, List,
  ◌∷◌, arith, ltb, if◌then◌else◌, length, get_elem?, Text, Bool-cases, inl, inr, tests, not-ltb→le,
}
use spectrum_knx.Peaks.{at}
use spectrum_knx.Table.DeltaSort.{TelegramRow}
use spectrum_knx.Table.Metrics.{
  or_zero, Visited, better_delta, is_less, is_greater, visit_row, extremes, InfoMetrics, delta_of,
  times_of, metrics_of, info_metrics,
}

-- of the rows before `n` that have a difference, none is better than the one found
abbrev pub IsBest : (ℕ → ℕ → Bool) → (ℕ → Option ℕ) → ℕ → Option ℕ → Type 0
IsBest better delta n none = (j : ℕ) → j < n → delta j ≡ none
IsBest better delta n (some i) =
    (i < n)
    × ((d : ℕ) × (delta i ≡ some d)
        × ((j d' : ℕ) → j < n → delta j ≡ some d' → better d' d ≡ false))

last_or : (P : ℕ → Type 0) (n j : ℕ) → j < suc n → (j < n → P j) → P n → P j
last_or P n j h f p = elim (dec_lt j n) [
  | yes b ↦ f b
  | no b ↦ let same : n ≡ j = omega arith in subst P same p
]

module _ (better : ℕ → ℕ → Bool) (delta : ℕ → Option ℕ) (irrefl : (a : ℕ) → better a a ≡ false)
    (chain : (a b c : ℕ) → better a b ≡ true → better c b ≡ false → better c a ≡ false) where
  IsBest-better_delta :
      (n : ℕ) (o found : Option ℕ)
      → delta n ≡ o
      → IsBest better delta n found
      → IsBest better delta (suc n) (better_delta better delta n o found)
  unfolding better_delta or_zero
  IsBest-better_delta n none none e h = λ j b. last_or (λ j. delta j ≡ none) n j b (h j) e
  IsBest-better_delta n none (some i) e h = (
    omega (arith, h.0),
    (
      h.1.0,
      h.1.1,
      λ j d' b.
          last_or (λ j. delta j ≡ some d' → better d' h.1.0 ≡ false) n j b (λ c. h.1.2 j d' c)
            (λ q. cc),
    ),
  )
  IsBest-better_delta n (some d) none e h = (
    omega arith,
    (
      d,
      e,
      λ j d' b.
          last_or (λ j. delta j ≡ some d' → better d' d ≡ false) n j b (λ c q. cc (h j c))
            (λ q. let same : d' ≡ d = cc in rw same (irrefl d)),
    ),
  )
  IsBest-better_delta n (some d) (some i) e h = elim (Bool-cases (better d (or_zero (delta i)))) [
    | inl t ↦
        let t' : better d h.1.0 ≡ true = ap (λ x. better d (or_zero x)) (sym h.1.1) ∙ t in
        rw t (
          omega arith,
          (
            d,
            e,
            λ j d' b.
                last_or (λ j. delta j ≡ some d' → better d' d ≡ false) n j b
                  (λ c q. chain d h.1.0 d' t' (h.1.2 j d' c q))
                  (λ q. let same : d' ≡ d = cc in rw same (irrefl d)),
          ),
        )
    | inr t ↦
        let t' : better d h.1.0 ≡ false = ap (λ x. better d (or_zero x)) (sym h.1.1) ∙ t in
        rw t (
          omega (arith, h.0),
          (
            h.1.0,
            h.1.1,
            λ j d' b.
                last_or (λ j. delta j ≡ some d' → better d' h.1.0 ≡ false) n j b (λ c. h.1.2 j d' c)
                  (λ q. let same : d' ≡ d = cc in rw same t'),
          ),
        )
  ]

module _ (time : ℕ → ℕ) (delta : ℕ → Option ℕ) where
  -- what is known after the first `n` rows
  pub record Known (n : ℕ) (v : Visited) : Type 0 where
    pub oldest : (j : ℕ) → j < n → time v.oldest_idx ≤ time j
    pub newest : (j : ℕ) → j < n → time j ≤ time v.newest_idx
    pub oldest_in : v.oldest_idx ≤ n - 1
    pub newest_in : v.newest_idx ≤ n - 1
    pub least : IsBest is_less delta n v.min_delta_idx
    pub greatest : IsBest is_greater delta n v.max_delta_idx

  older :
      (n i : ℕ)
      → i ≤ n - 1
      → ((j : ℕ) → j < n → time i ≤ time j)
      → ((if ltb (time n) (time i) then n else i) ≤ n)
        × ((j : ℕ) → j < suc n → time (if ltb (time n) (time i) then n else i) ≤ time j)
  older n i b h = elim (Bool-cases (ltb (time n) (time i))) [
    | inl t ↦ rw t (
      omega arith,
      λ j c. last_or (λ j. time n ≤ time j) n j c (λ d. omega (tests, t, h j d)) (omega arith),
    )
    | inr t ↦
        rw t (omega arith, λ j c. last_or (λ j. time i ≤ time j) n j c (h j) (not-ltb→le _ _ t))
  ]

  newer :
      (n i : ℕ)
      → i ≤ n - 1
      → ((j : ℕ) → j < n → time j ≤ time i)
      → ((if ltb (time i) (time n) then n else i) ≤ n)
        × ((j : ℕ) → j < suc n → time j ≤ time (if ltb (time i) (time n) then n else i))
  newer n i b h = elim (Bool-cases (ltb (time i) (time n))) [
    | inl t ↦ rw t (
      omega arith,
      λ j c. last_or (λ j. time j ≤ time n) n j c (λ d. omega (tests, t, h j d)) (omega arith),
    )
    | inr t ↦
        rw t (omega arith, λ j c. last_or (λ j. time j ≤ time i) n j c (h j) (not-ltb→le _ _ t))
  ]

  Known-extremes : (n : ℕ) → Known n (extremes time delta n)
  unfolding extremes visit_row
  Known-extremes zero = record {
    oldest = λ j h. absurd (omega arith);
    newest = λ j h. absurd (omega arith);
    oldest_in = omega arith;
    newest_in = omega arith;
    least = λ j h. absurd (omega arith);
    greatest = λ j h. absurd (omega arith);
  }
  Known-extremes (suc n) =
      let k = Known-extremes n in
      let v = extremes time delta n in
      let old = older n v.oldest_idx k.oldest_in k.oldest in
      let new = newer n v.newest_idx k.newest_in k.newest in
      record {
        oldest = old.1;
        newest = new.1;
        oldest_in = omega (arith, old.0);
        newest_in = omega (arith, new.0);
        least =
            IsBest-better_delta is_less delta (λ a. ground arith)
              (λ a b c x y. ground (arith, x, y)) n (delta n) v.min_delta_idx refl k.least;
        greatest =
            IsBest-better_delta is_greater delta (λ a. ground arith)
              (λ a b c x y. ground (arith, x, y)) n (delta n) v.max_delta_idx refl k.greatest;
      }

-- The rows that the bar names, of any rows shown: none is older than the oldest or newer than the
-- newest; the differences named are the least and the greatest of the rows that have one, and none is
-- named exactly if no row has one. Each named row is one of the list.
pub info_metrics_lem :
    (get_time : Text → ℕ) (context_keys : List Text) (r : TelegramRow) (rows : List TelegramRow)
    → (m : InfoMetrics) × (info_metrics get_time context_keys (r ∷ rows) ≡ some m)
      × Known
          (at (times_of get_time context_keys (r ∷ rows)))
          (λ i. delta_of (get_elem? (r ∷ rows) i))
          (length (r ∷ rows))
          (record {
            oldest_idx = m.oldest_idx;
            newest_idx = m.newest_idx;
            min_delta_idx = m.min_delta_idx;
            max_delta_idx = m.max_delta_idx;
          })
unfolding info_metrics
info_metrics_lem get_time context_keys r rows = (
  metrics_of get_time context_keys (r ∷ rows),
  refl,
  unfold metrics_of in
      Known-extremes (at (times_of get_time context_keys (r ∷ rows)))
        (λ i. delta_of (get_elem? (r ∷ rows) i)) (length (r ∷ rows)),
)
