-- ===== src/Peaks/Scan.antt =====
-- The two pointers of frontend/src/utils/peakRate.ts, over times that do not fall.
use spectrum_knx.Prelude.{
  ℕ, zero, suc, ◌+◌, ◌-◌, ◌≤◌, ◌<◌, ◌≡◌, ap, arith, ltb, leb, Bool-cases, inl, inr, leb→le, ltb→lt,
  not-leb→lt, not-ltb→le,
}
use native.Mathlib.Decide.{dec_lt}
use spectrum_knx.Peaks.{Scanned, catch_up, keep_best, scan}

module _ (window : ℕ) (f : ℕ → ℕ) (total : ℕ) (positive : 0 < window)
    (mono : (i j : ℕ) → i ≤ j → j < total → f i ≤ f j) where
  -- The lower pointer stops at the first telegram inside the window that ends with telegram `hi`.
  record Caught (hi lo : ℕ) : Type 0 where
    pub within : lo ≤ hi
    pub left : (k : ℕ) → k < lo → f k + window ≤ f hi
    pub inside : f hi < f lo + window

  Caught-catch_up :
      (fuel lo hi : ℕ)
      → lo + fuel ≡ hi
      → ((k : ℕ) → k < lo → f k + window ≤ f hi)
      → Caught hi (catch_up window f fuel (f hi) lo)
  unfolding catch_up
  Caught-catch_up zero lo hi e h =
      let same : f lo ≡ f hi = ap f (omega arith) in
      record { within = omega arith; left = h; inside = omega arith }
  Caught-catch_up (suc fuel) lo hi e h = elim (Bool-cases (leb (f lo + window) (f hi))) [
    | inl a ↦
        let more : (k : ℕ) → k < suc lo → f k + window ≤ f hi = λ k b. elim (dec_lt k lo) [
          | yes c ↦ h k c
          | no c ↦
              let same : f k ≡ f lo = ap f (omega arith) in
              omega (arith, leb→le (f lo + window) (f hi) a)
        ] in
        rw a (Caught-catch_up fuel (suc lo) hi (omega arith) more)
    | inr a ↦
        rw a
          (record { within = omega arith; left = h; inside = not-leb→lt (f lo + window) (f hi) a })
  ]

  -- What is known after the first `n` telegrams.
  pub record Known (n : ℕ) (s : Scanned) : Type 0 where
    pub within : s.lo ≤ n
    pub left : (k j : ℕ) → k < s.lo → n ≤ suc j → j < total → f k + window ≤ f j
    pub fits : s.best_start + s.best ≤ n
    pub found : 0 < n → (0 < s.best) × (f (s.best_start + s.best - 1) < f s.best_start + window)
    pub most : (i j : ℕ) → i ≤ j → j < n → f j < f i + window → j + 1 - i ≤ s.best
    pub first :
        (i j : ℕ) → i ≤ j → j < n → f j < f i + window → j + 1 - i ≡ s.best → s.best_start ≤ i

  module _ (n lo : ℕ) (s : Scanned) (k : Known n s) (c : Caught n lo) (in_range : n < total) where
    left_after : (i j : ℕ) → i < lo → suc n ≤ suc j → j < total → f i + window ≤ f j
    left_after i j a b d = omega (arith, c.left i a, mono n j (omega arith) d)

    -- a window that ends with the new telegram starts at the lower pointer or later
    starts_later : (i : ℕ) → f n < f i + window → lo ≤ i
    starts_later i h = elim (dec_lt i lo) [
      | yes b ↦ absurd (omega (arith, c.left i b))
      | no b ↦ omega arith
    ]

    Known-better :
        s.best < n + 1 - lo → Known (suc n) (record { best = n + 1 - lo; best_start = lo; lo = lo })
    Known-better better = record {
      within = omega (arith, c.within);
      left = left_after;
      fits = omega (arith, c.within);
      found = λ a.
          let last : f (lo + (n + 1 - lo) - 1) ≡ f n = ap f (omega (arith, c.within)) in
          (omega arith, omega (arith, c.inside));
      most = λ i j a b d. elim (dec_lt j n) [
        | yes e ↦ omega (arith, k.most i j a e d)
        | no e ↦
            let same : f j ≡ f n = ap f (omega arith) in omega (arith, starts_later i (omega arith))
      ];
      first = λ i j a b d q. elim (dec_lt j n) [
        | yes e ↦ absurd (omega (arith, k.most i j a e d))
        | no e ↦ let same : f j ≡ f n = ap f (omega arith) in starts_later i (omega arith)
      ];
    }

    Known-kept : n + 1 - lo ≤ s.best → Known (suc n) (record s { lo = lo })
    Known-kept kept = record {
      within = omega (arith, c.within);
      left = left_after;
      fits = omega (arith, k.fits);
      found = λ a. k.found (omega (arith, k.fits, c.within));
      most = λ i j a b d. elim (dec_lt j n) [
        | yes e ↦ k.most i j a e d
        | no e ↦
            let same : f j ≡ f n = ap f (omega arith) in omega (arith, starts_later i (omega arith))
      ];
      first = λ i j a b d q. elim (dec_lt j n) [
        | yes e ↦ k.first i j a e d q
        | no e ↦ omega (arith, k.fits)
      ];
    }

    Known-keep_best : Known (suc n) (keep_best window f n lo s)
    unfolding keep_best
    Known-keep_best = elim (Bool-cases (ltb s.best (n + 1 - lo))) [
      | inl b ↦ rw b (Known-better (ltb→lt s.best (n + 1 - lo) b))
      | inr b ↦ rw b (Known-kept (not-ltb→le s.best (n + 1 - lo) b))
    ]

  pub Known-scan : (n : ℕ) → n ≤ total → Known n (scan window f n)
  unfolding scan
  Known-scan zero h = record {
    within = omega arith;
    left = λ k j a b c. absurd (omega arith);
    fits = omega arith;
    found = λ a. absurd (omega arith);
    most = λ i j a b c. absurd (omega arith);
    first = λ i j a b c d. absurd (omega arith);
  }
  Known-scan (suc n) h =
      let before = Known-scan n (omega arith) in
      let s = scan window f n in
      Known-keep_best n _ s before
        (Caught-catch_up (n - s.lo) s.lo n (omega (arith, before.within))
          (λ k a. before.left k n a (omega arith) (omega arith)))
        (omega arith)
