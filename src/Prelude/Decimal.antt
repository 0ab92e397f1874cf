-- ===== src/Prelude/Decimal.antt =====
-- `String(n)` of a natural number, and `padStart`.
use Prim.Native.Nat.{ℕ, zero, suc, ◌+◌, ◌-◌, ◌*◌, ◌/◌, ◌%◌, ◌<◌}
use mathlib.Core.Path.{◌≡◌, refl, ap, ◌∙◌}
use mathlib.Core.Logic.{inl, inr}
use native.Mathlib.Omega.{arith}
use mathlib.Core.Bool.{Bool, true, ◌&&◌}
use mathlib.Core.List.{[], ◌∷◌, ◌++◌}
use spectrum_knx.Prelude.Tests.{ltb, leb, if◌then◌else◌, Bool-cases}
use spectrum_knx.Prelude.Lists.{length, all}
use spectrum_knx.Prelude.Strings.{Text}

-- the digits of a number before those already written; fuel above the number is enough
digits : ℕ → ℕ → Text → Text
digits zero n written = written
digits (suc fuel) n written =
    let more = digits fuel (n / 10) ((b'0' + n % 10) ∷ written) in
    if ltb n 10 then (b'0' + n) ∷ written else more

unfoldable pub decimal : ℕ → Text
unfolding digits
decimal n = digits (suc n) n []

repeat : ℕ → ℕ → Text
repeat zero c = []
repeat (suc n) c = c ∷ repeat n c

unfoldable pub pad_start : Text → ℕ → ℕ → Text
unfolding repeat
pad_start s width c = repeat (width - length s) c ++ s

-- `Number` of a text of digits, from the digits before it
read_digits : ℕ → Text → ℕ
read_digits n [] = n
read_digits n (c ∷ s) = read_digits (n * 10 + (c - b'0')) s

unfoldable pub read_number : Text → ℕ
unfolding read_digits
read_number s = read_digits 0 s

read_digits-digits :
    (fuel n : ℕ) (written : Text)
    → n < fuel
    → read_digits 0 (digits fuel n written) ≡ read_digits n written
unfolding digits read_digits
read_digits-digits zero n written h = absurd (omega arith)
read_digits-digits (suc fuel) n written h = elim (Bool-cases (ltb n 10)) [
  | inl k ↦
      let same : 0 * 10 + (b'0' + n - b'0') ≡ n = omega arith in
      rw k (ap (λ m. read_digits m written) same)
  | inr k ↦
      let smaller : n / 10 < fuel = ground (arith, k, h) in
      let same : (n / 10) * 10 + (b'0' + n % 10 - b'0') ≡ n = omega arith in
      rw k (
        read_digits-digits fuel (n / 10) ((b'0' + n % 10) ∷ written) smaller
        ∙ ap (λ m. read_digits m written) same)
]

-- a number's text reads as the number
pub read_number-decimal : (n : ℕ) → read_number (decimal n) ≡ n
unfolding read_number decimal read_digits
read_number-decimal n = read_digits-digits (suc n) n [] (omega arith)

-- every character is a digit, and there is one
unfoldable pub is_digits : Text → Bool
is_digits s = ltb 0 (length s) && all (λ c. leb b'0' c && leb c b'9') s

all-digits :
    (fuel n : ℕ) (written : Text)
    → n < fuel
    → all (λ c. leb b'0' c && leb c b'9') written ≡ true
    → (ltb 0 (length (digits fuel n written)) ≡ true)
      × (all (λ c. leb b'0' c && leb c b'9') (digits fuel n written) ≡ true)
unfolding digits
all-digits zero n written h w = absurd (omega arith)
all-digits (suc fuel) n written h w = elim (Bool-cases (ltb n 10)) [
  | inl k ↦ rw k (ground arith, ground (arith, k, w))
  | inr k ↦
      let smaller : n / 10 < fuel = ground (arith, k, h) in
      let last : n % 10 < 10 = omega arith in
      let more : all (λ c. leb b'0' c && leb c b'9') ((b'0' + n % 10) ∷ written) ≡ true =
        ground (arith, last, w) in
      rw k (all-digits fuel (n / 10) ((b'0' + n % 10) ∷ written) smaller more)
]

pub is_digits-decimal : (n : ℕ) → is_digits (decimal n) ≡ true
unfolding is_digits decimal
is_digits-decimal n = let r = all-digits (suc n) n [] (omega arith) refl in ground (arith, r.0, r.1)
