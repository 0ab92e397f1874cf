-- ===== src/Peaks/Frequency.antt =====
-- How many of the first `n` values of a function pass a test.
use spectrum_knx.Prelude.{
  ℕ, zero, suc, ◌+◌, ◌-◌, ◌≤◌, ◌<◌, ◌≡◌, refl, ap, ◌∙◌, Bool, true, List, [], ◌∷◌, arith, ltb, leb,
  ◌&&◌, if◌then◌else◌, length, filter, Bool-cases, inl, inr, tests,
}
use native.Mathlib.Decide.{dec_lt}
use spectrum_knx.Peaks.{at}

abbrev pub one : Bool → ℕ
one b = if b then 1 else 0

pub freq : (ℕ → Bool) → ℕ → ℕ
freq p zero = 0
freq p (suc n) = freq p n + one (p n)

freq-suc : (p : ℕ → Bool) (n : ℕ) → freq p (suc n) ≡ freq p n + one (p n)
unfolding freq
freq-suc p n = refl

pub freq_cong : (p q : ℕ → Bool) (n : ℕ) → ((k : ℕ) → k < n → p k ≡ q k) → freq p n ≡ freq q n
unfolding freq
freq_cong p q zero h = refl
freq_cong p q (suc n) h =
    let rest = freq_cong p q n (λ k l. h k (omega arith)) in
    let last = ap one (h n (omega arith)) in omega (arith, rest, last)

freq_front : (p : ℕ → Bool) (n : ℕ) → freq p (suc n) ≡ one (p 0) + freq (λ k. p (suc k)) n
unfolding freq
freq_front p zero = omega arith
freq_front p (suc n) = omega (arith, freq_front p n)

pub freq-list :
    (p : ℕ → Bool) (xs : List ℕ) → freq (λ k. p (at xs k)) (length xs) ≡ length (filter p xs)
unfolding at
freq-list p [] = unfold freq in refl
freq-list p (x ∷ xs) =
    freq_front (λ k. p (at (x ∷ xs) k)) (length xs) ∙ ground (arith, freq-list p xs)

pub freq_reverse : (p : ℕ → Bool) (n : ℕ) → freq (λ k. p (n - 1 - k)) n ≡ freq p n
freq_reverse p zero = unfold freq in refl
freq_reverse p (suc n) =
    let shifted =
      freq_cong (λ k. p (n - suc k)) (λ k. p (n - 1 - k)) n (λ k l. ap p (omega arith)) in
    let first : p (suc n - 1 - 0) ≡ p n = ap p (omega arith) in
    let inner =
      freq_cong (λ k. p (suc n - 1 - suc k)) (λ k. p (n - suc k)) n (λ k l. ap p (omega arith)) in
    let front = freq_front (λ k. p (suc n - 1 - k)) n in
    let one_first = ap one first in
    let last = freq-suc p n in
    omega (arith, front, shifted, inner, one_first, last, freq_reverse p n)

-- a test that some position passes, and back
pub freq_pos : (p : ℕ → Bool) (n k : ℕ) → k < n → p k ≡ true → 0 < freq p n
freq_pos p zero k h e = absurd (omega arith)
freq_pos p (suc n) k h e = elim (dec_lt k n) [
  | yes b ↦ omega (arith, freq-suc p n, freq_pos p n k b e)
  | no b ↦ let last : p n ≡ true = ap p (omega arith) ∙ e in rw freq-suc (rw last (omega arith))
]

pub position_of : (p : ℕ → Bool) (n : ℕ) → 0 < freq p n → (k : ℕ) × (k < n) × (p k ≡ true)
unfolding freq
position_of p zero h = absurd (omega arith)
position_of p (suc n) h = elim (Bool-cases (p n)) [
  | inl e ↦ (n, omega arith, e)
  | inr e ↦ let r = position_of p n (ground (arith, h, e)) in (r.0, omega (arith, r.1), r.2)
]

-- the window from `t` lies between those before `t` and those before its end
pub freq_window :
    (f : ℕ → ℕ) (t w n : ℕ)
    → freq (λ k. ltb (f k) (t + w)) n
      ≡ freq (λ k. ltb (f k) t) n + freq (λ k. leb t (f k) && ltb (f k) (t + w)) n
unfolding freq
freq_window f t w zero = omega arith
freq_window f t w (suc n) = ground (arith, freq_window f t w n)

pub freq-le : (p : ℕ → Bool) (n : ℕ) → freq p n ≤ n
unfolding freq
freq-le p zero = omega arith
freq-le p (suc n) = elim (Bool-cases (p n)) [
  | inl e ↦ rw e (omega (arith, freq-le p n))
  | inr e ↦ rw e (omega (arith, freq-le p n))
]

-- at times that do not fall, those before `t` come first
module _ (f : ℕ → ℕ) (t : ℕ) where
  freq_all : (n : ℕ) → ((k : ℕ) → k < n → f k < t) → freq (λ k. ltb (f k) t) n ≡ n
  unfolding freq
  freq_all zero h = refl
  freq_all (suc n) h = ground (arith, freq_all n (λ k l. h k (omega arith)), h n (omega arith))

  pub freq_first :
      (n : ℕ)
      → ((i j : ℕ) → i ≤ j → j < n → f i ≤ f j)
      → (k : ℕ) → k < n
      → (f k < t → k < freq (λ k. ltb (f k) t) n) × (t ≤ f k → freq (λ k. ltb (f k) t) n ≤ k)
  freq_first zero mono k l = absurd (omega arith)
  freq_first (suc n) mono k l =
      let below : (i j : ℕ) → i ≤ j → j < n → f i ≤ f j = λ i j a b. mono i j a (omega arith) in
      let to_last : f k ≤ f n = mono k n (omega arith) (omega arith) in
      rw freq-suc (elim (Bool-cases (ltb (f n) t)) [
        | inl e ↦
            let all_below : (i : ℕ) → i < n → f i < t =
              λ i b. omega (tests, mono i n (omega arith) (omega arith), e) in
            let full = freq_all n all_below in
            rw e (λ a. omega (arith, full), λ b. absurd (ground (arith, e)))
        | inr e ↦ rw e (elim (dec_lt k n) [
          | yes b ↦
              let ih = freq_first n below k b in
              (λ a. omega (arith, ih.0 a), λ a. omega (arith, ih.1 a))
          | no b ↦
              (λ a. absurd (ground (arith, e)), λ a. omega (arith, freq-le (λ i. ltb (f i) t) n))
        ])
      ])
