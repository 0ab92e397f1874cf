-- ===== src/Prelude/Sums.antt =====
-- What the elements of a list weigh together.
use Prim.Native.Nat.{ℕ, ◌+◌}
use mathlib.Core.Path.{◌≡◌, refl}
use mathlib.Core.Bool.{Bool, false}
use mathlib.Core.List.{List, [], ◌∷◌, ◌++◌}
use native.Mathlib.Omega.{arith}
use spectrum_knx.Prelude.Lists.{filter, All}
use spectrum_knx.Prelude.Sort.{insert, sort}

module _ {ℓ} {A : Type ℓ} (weight : A → ℕ) where
  abbrev pub sum_of : List A → ℕ
  sum_of [] = 0
  sum_of (x ∷ xs) = weight x + sum_of xs

  pub sum_of-append : (xs ys : List A) → sum_of (xs ++ ys) ≡ sum_of xs + sum_of ys
  sum_of-append [] ys = omega arith
  sum_of-append (x ∷ xs) ys = omega (arith, sum_of-append xs ys)

  sum_of-insert :
      (le : A → A → Bool) (x : A) (xs : List A) → sum_of (insert le x xs) ≡ weight x + sum_of xs
  unfolding insert
  sum_of-insert le x [] = refl
  sum_of-insert le x (y ∷ ys) = ground (arith, sum_of-insert le x ys)

  pub sum_of-sort : (le : A → A → Bool) (xs : List A) → sum_of (sort le xs) ≡ sum_of xs
  unfolding sort
  sum_of-sort le [] = refl
  sum_of-sort le (x ∷ xs) = omega (arith, sum_of-insert le x (sort le xs), sum_of-sort le xs)

  pub sum_of-filter_none :
      (p : A → Bool) (xs : List A) → All (λ x. p x ≡ false) xs → sum_of (filter p xs) ≡ 0
  sum_of-filter_none p [] h = refl
  sum_of-filter_none p (x ∷ xs) h = rw h.0 (sum_of-filter_none p xs h.1)
