-- ===== src/Colors/Free.antt =====
-- Which colour frontend/src/utils/targetColors.ts offers.
use spectrum_knx.Prelude.{
  ◌≡◌, refl, true, false, not, Option, none, some, List, [], ◌∷◌, any, Text, text_eq_refl, includes,
  get, arith, Bool-cases, inl, inr,
}
use spectrum_knx.Colors.{
  palette, Colors, taken_loop, is_taken, first_free, or_first, next_of, next_target_color,
}

-- the first free colour is of the list and is not taken, unless all are taken
first_free_lem :
    (taken : List (Option Text)) (colors : List Text)
    → any (λ c. not (is_taken taken c)) colors ≡ true
    → (c : Text) × (first_free taken colors ≡ some c)
      × (is_taken taken c ≡ false)
      × (includes colors c ≡ true)
unfolding first_free includes
first_free_lem taken [] h = cc h
first_free_lem taken (c ∷ colors) h = elim (Bool-cases (is_taken taken c)) [
  | inr k ↦ rw k (c, refl, k, ground (arith, text_eq_refl c))
  | inl k ↦
      let (d, e, f, m) = first_free_lem taken colors (ground (arith, h, k)) in
      rw k (d, e, f, ground (arith, m))
]

-- An address without a colour is offered a colour of the palette that no other address in use
-- has, as long as there is one.
pub next_target_color_lem :
    (current : Colors) (address : Text) (in_use : List Text)
    → get current address ≡ none
    → any (λ c. not (is_taken (taken_loop current address in_use) c)) palette ≡ true
    → (c : Text) × (next_target_color current address in_use ≡ some c)
      × (is_taken (taken_loop current address in_use) c ≡ false)
      × (includes palette c ≡ true)
unfolding next_target_color next_of or_first
next_target_color_lem current address in_use new some_free =
    let (c, e, f, m) = first_free_lem (taken_loop current address in_use) palette some_free in
    (c, rw (new, e), f, m)
