-- ===== src/QuickFilter/Patterns/Addresses.antt =====
-- The order of addresses in the ranges of frontend/src/utils/addressPattern.ts.
use spectrum_knx.Prelude.{
  ℕ, ◌+◌, ◌*◌, ◌<◌, ◌≡◌, Bool, true, false, ◌&&◌, ◌||◌, List, [], ◌∷◌, ltb, ◌==◌, length, All,
  arith, Bool-cases, inl, inr,
}
use spectrum_knx.QuickFilter.Patterns.{comparable_from}

-- a smaller start stays smaller, whatever the later segments are
from_smaller :
    (a b : ℕ) (xs ys : List ℕ)
    → a < b
    → length xs ≡ length ys
    → All (λ x. x < 65536) xs
    → ltb (comparable_from a xs) (comparable_from b ys) ≡ true
unfolding comparable_from
from_smaller a b [] [] h e w = ground (arith, h)
from_smaller a b [] (y ∷ ys) h e w = absurd (omega arith)
from_smaller a b (x ∷ xs) [] h e w = absurd (omega arith)
from_smaller a b (x ∷ xs) (y ∷ ys) h e w =
    from_smaller (a * 65536 + x) (b * 65536 + y) xs ys (omega (arith, w.0)) (omega arith) w.1

-- the order segment by segment
unfoldable pub lex_lt : List ℕ → List ℕ → Bool
lex_lt (x ∷ xs) (y ∷ ys) = ltb x y || (x == y && lex_lt xs ys)
lex_lt _ _ = false

-- Addresses of as many segments, each below 65536, are compared segment by segment, the first one
-- first, whatever comes before them.
pub comparable_order :
    (before : ℕ) (xs ys : List ℕ)
    → length xs ≡ length ys
    → All (λ x. x < 65536) xs
    → All (λ y. y < 65536) ys
    → ltb (comparable_from before xs) (comparable_from before ys) ≡ lex_lt xs ys
unfolding lex_lt comparable_from
comparable_order before [] [] e v w = ground arith
comparable_order before [] (y ∷ ys) e v w = absurd (omega arith)
comparable_order before (x ∷ xs) [] e v w = absurd (omega arith)
comparable_order before (x ∷ xs) (y ∷ ys) e v w = elim (Bool-cases (ltb x y)) [
  | inl h ↦
      let smaller =
        from_smaller (before * 65536 + x) (before * 65536 + y) xs ys (ground (arith, h))
          (omega arith) v.1 in
      rw (smaller, h)
  | inr h ↦ elim (Bool-cases (x == y)) [
    | inl k ↦
        let same : x ≡ y = ground (arith, k) in
        let rest = comparable_order (before * 65536 + y) xs ys (omega arith) v.1 w.1 in
        let neither : ltb y y ≡ false = ground arith in
        let itself : (y == y) ≡ true = ground arith in rw (same, rest, neither, itself)
    | inr k ↦
        let larger =
          from_smaller (before * 65536 + y) (before * 65536 + x) ys xs (ground (arith, h, k))
            (omega arith) w.1 in
        rw (h, k) (ground (arith, larger))
  ]
]
