-- ===== src/Peaks/Sorted.antt =====
-- The order of the times in frontend/src/utils/peakRate.ts: rising, whichever way it was found, and
-- with the same times.
use spectrum_knx.Prelude.{
  ℕ, zero, suc, ◌+◌, ◌-◌, ◌≤◌, ◌<◌, ◌≡◌, refl, ap, sym, ◌∙◌, Bool, true, false, not, ◌&&◌, List, [],
  ◌∷◌, arith, ltb, leb, length, filter, insert, sort, All, Pairwise, IsOrder, sort-IsOrdered,
  length-sort, leb→le,
}
use spectrum_knx.Peaks.{
  at, directions, directions_of, indices_from, sorted_indices, order_for, order,
}
use spectrum_knx.Peaks.Frequency.{one, freq, freq_cong, freq-list, freq_reverse}

abbrev Rising : ℕ → List ℕ → Type 0
Rising x [] = Unit
Rising x (t ∷ rest) = x ≤ t × Rising t rest

abbrev Falling : ℕ → List ℕ → Type 0
Falling x [] = Unit
Falling x (t ∷ rest) = t ≤ x × Falling t rest

directions-Rising :
    (asc desc : Bool) (x : ℕ) (rest : List ℕ)
    → (directions asc desc x rest).0 ≡ true
    → (asc ≡ true) × Rising x rest
unfolding directions
directions-Rising asc desc x [] h = (h, tt)
directions-Rising true desc x (t ∷ rest) h =
    let r = directions-Rising (not (ltb t x)) (desc && not (ltb x t)) t rest h in
    (refl, (ground (arith, r.0), r.1))
directions-Rising false true x (t ∷ rest) h =
    let r = directions-Rising false (not (ltb x t)) t rest h in cc (r.0)
directions-Rising false false x (t ∷ rest) h = cc

directions-Falling :
    (asc desc : Bool) (x : ℕ) (rest : List ℕ)
    → (directions asc desc x rest).1 ≡ true
    → (desc ≡ true) × Falling x rest
unfolding directions
directions-Falling asc desc x [] h = (h, tt)
directions-Falling true true x (t ∷ rest) h =
    let r = directions-Falling (not (ltb t x)) (not (ltb x t)) t rest h in
    (refl, (ground (arith, r.0), r.1))
directions-Falling false true x (t ∷ rest) h =
    let r = directions-Falling false (not (ltb x t)) t rest h in (refl, (ground (arith, r.0), r.1))
directions-Falling true false x (t ∷ rest) h =
    let r = directions-Falling (not (ltb t x)) false t rest h in cc (r.0)
directions-Falling false false x (t ∷ rest) h = cc

at-Rising :
    (x : ℕ) (xs : List ℕ)
    → Rising x xs
    → (i j : ℕ) → i ≤ j
    → j < suc (length xs)
    → at (x ∷ xs) i ≤ at (x ∷ xs) j
unfolding at
at-Rising x xs r zero zero a b = omega arith
at-Rising x [] r i (suc j) a b = absurd (omega arith)
at-Rising x (t ∷ rest) r zero (suc j) a b =
    omega (arith, r.0, at-Rising t rest r.1 zero j (omega arith) (omega arith))
at-Rising x xs r (suc i) zero a b = absurd (omega arith)
at-Rising x (t ∷ rest) r (suc i) (suc j) a b = at-Rising t rest r.1 i j (omega arith) (omega arith)

at-Falling :
    (x : ℕ) (xs : List ℕ)
    → Falling x xs
    → (i j : ℕ) → i ≤ j
    → j < suc (length xs)
    → at (x ∷ xs) j ≤ at (x ∷ xs) i
unfolding at
at-Falling x xs r zero zero a b = omega arith
at-Falling x [] r i (suc j) a b = absurd (omega arith)
at-Falling x (t ∷ rest) r zero (suc j) a b =
    omega (arith, r.0, at-Falling t rest r.1 zero j (omega arith) (omega arith))
at-Falling x xs r (suc i) zero a b = absurd (omega arith)
at-Falling x (t ∷ rest) r (suc i) (suc j) a b =
    at-Falling t rest r.1 i j (omega arith) (omega arith)

module _ (g : ℕ → ℕ) where
  at-All :
      (x : ℕ) (xs : List ℕ)
      → All (λ y. leb (g x) (g y) ≡ true) xs
      → (j : ℕ) → j < length xs
      → g x ≤ g (at xs j)
  unfolding at
  at-All x [] h j b = absurd (omega arith)
  at-All x (y ∷ ys) h zero b = leb→le (g x) (g y) h.0
  at-All x (y ∷ ys) h (suc j) b = at-All x ys h.1 j (omega arith)

  at-Pairwise :
      (xs : List ℕ)
      → Pairwise (λ x y. leb (g x) (g y) ≡ true) xs
      → (i j : ℕ) → i ≤ j
      → j < length xs
      → g (at xs i) ≤ g (at xs j)
  at-Pairwise [] h i j a b = absurd (omega arith)
  at-Pairwise (x ∷ xs) h zero zero a b = omega arith
  at-Pairwise (x ∷ xs) h zero (suc j) a b = unfold at in at-All x xs h.0 j (omega arith)
  at-Pairwise (x ∷ xs) h (suc i) zero a b = absurd (omega arith)
  at-Pairwise (x ∷ xs) h (suc i) (suc j) a b =
      at_suc x xs i j (at-Pairwise xs h.1 i j (omega arith) (omega arith))
    where
      at_suc :
          (x : ℕ) (xs : List ℕ) (i j : ℕ)
          → g (at xs i) ≤ g (at xs j)
          → g (at (x ∷ xs) (suc i)) ≤ g (at (x ∷ xs) (suc j))
      at_suc x xs i j k = unfold at in k

  by_value : IsOrder (λ a b. leb (g a) (g b))
  by_value = record {
    total = λ x y h. ground (arith, h);
    trans = λ x y z h k. ground (arith, h, k);
  }

  length-filter-insert :
      (p : ℕ → Bool) (x : ℕ) (xs : List ℕ)
      → length (filter p (insert (λ a b. leb (g a) (g b)) x xs)) ≡ one (p x) + length (filter p xs)
  unfolding insert
  length-filter-insert p x [] = ground arith
  length-filter-insert p x (y ∷ ys) = ground (arith, length-filter-insert p x ys)

  length-filter-sort :
      (p : ℕ → Bool) (xs : List ℕ)
      → length (filter p (sort (λ a b. leb (g a) (g b)) xs)) ≡ length (filter p xs)
  unfolding sort
  length-filter-sort p [] = refl
  length-filter-sort p (x ∷ xs) =
      length-filter-insert p x (sort (λ a b. leb (g a) (g b)) xs)
      ∙ ground (arith, length-filter-sort p xs)

length-indices_from : (k n : ℕ) → length (indices_from k n) ≡ n
unfolding indices_from
length-indices_from k zero = refl
length-indices_from k (suc n) = ap suc (length-indices_from (suc k) n)

at-indices_from : (k n i : ℕ) → i < n → at (indices_from k n) i ≡ k + i
unfolding at indices_from
at-indices_from k zero i h = absurd (omega arith)
at-indices_from k (suc n) zero h = omega arith
at-indices_from k (suc n) (suc i) h = omega (arith, at-indices_from (suc k) n i (omega arith))

-- The times in their order.
abbrev pub by_time : List ℕ → ℕ → ℕ
by_time times k = at times (order times k)

-- what is shown of an order that some directions lead to
pub record Sorts (times : List ℕ) (f : ℕ → ℕ) : Type 0 where
  pub mono : (i j : ℕ) → i ≤ j → j < length times → f i ≤ f j
  pub same : (p : ℕ → Bool) → freq (λ k. p (f k)) (length times) ≡ length (filter p times)

rising_times : (times : List ℕ) → (directions_of times).0 ≡ true → Sorts times (at times)
unfolding directions_of
rising_times [] h = record { mono = λ i j a b. absurd (omega arith); same = λ p. freq-list p [] }
rising_times (t ∷ rest) h = record {
  mono = at-Rising t rest (directions-Rising true true t rest h).1;
  same = λ p. freq-list p (t ∷ rest);
}

falling_times :
    (times : List ℕ)
    → (directions_of times).1 ≡ true
    → Sorts times (λ k. at times (length times - 1 - k))
unfolding directions_of
falling_times [] h = record {
  mono = λ i j a b. absurd (omega arith);
  same = λ p. freq_reverse (λ k. p (at [] k)) 0 ∙ freq-list p [];
}
falling_times (t ∷ rest) h = record {
  mono = λ i j a b.
      at-Falling t rest (directions-Falling true true t rest h).1 (length (t ∷ rest) - 1 - j)
        (length (t ∷ rest) - 1 - i) (omega arith) (omega arith);
  same = λ p. freq_reverse (λ k. p (at (t ∷ rest) k)) (length (t ∷ rest)) ∙ freq-list p (t ∷ rest);
}

pub length-sorted_indices : (times : List ℕ) → length (sorted_indices times) ≡ length times
unfolding sorted_indices
length-sorted_indices times =
    length-sort (λ a b. leb (at times a) (at times b)) (indices_from 0 (length times))
    ∙ length-indices_from 0 (length times)

sorted_times : (times : List ℕ) → Sorts times (λ k. at times (at (sorted_indices times) k))
unfolding sorted_indices
sorted_times times = record {
  mono = λ i j a b.
      at-Pairwise (at times) (sorted_indices times)
        (sort-IsOrdered (by_value (at times)) (indices_from 0 (length times))) i j a
        (omega (arith, length-sorted_indices times));
  same = λ p.
      let q : ℕ → Bool = λ k. p (at times k) in
      let all_indices = indices_from 0 (length times) in
      ap (freq (λ k. q (at (sorted_indices times) k))) (sym (length-sorted_indices times))
      ∙ freq-list q (sorted_indices times)
      ∙ length-filter-sort (at times) q all_indices
      ∙ sym (freq-list q all_indices)
      ∙ ap (freq (λ k. q (at all_indices k))) (length-indices_from 0 (length times))
      ∙ freq_cong (λ k. q (at all_indices k)) q (length times)
          (λ k h. ap q (at-indices_from 0 (length times) k h ∙ omega arith))
      ∙ freq-list p times;
}

order_for-Sorts :
    (d : Bool × Bool) (times : List ℕ)
    → directions_of times ≡ d
    → Sorts times (λ k. at times (order_for d times k))
unfolding order_for
order_for-Sorts (true, desc) times e = rising_times times (ap (λ d. d.0) e)
order_for-Sorts (false, true) times e = falling_times times (ap (λ d. d.1) e)
order_for-Sorts (false, false) times e = sorted_times times

-- Whichever way the order was found, it does not fall, and a test selects as many times as before.
pub by_time-Sorts : (times : List ℕ) → Sorts times (by_time times)
unfolding order
by_time-Sorts times = order_for-Sorts (directions_of times) times refl
