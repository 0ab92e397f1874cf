-- ===== src/Table/Marks/Jumps.antt =====
-- The jumps between marked rows: frontend/src/utils/adjacentMark.ts, on the marks of
-- frontend/src/components/TelegramTable.tsx.
use mathlib.Core.Path.{subst}
use spectrum_knx.Prelude.{
  ℕ, suc, ◌≤◌, ◌<◌, ◌≡◌, refl, ap, sym, ◌∙◌, true, false, none, some, List, [], ◌∷◌, ◌++◌, arith,
  ltb, last?, Text, includes, All, All-map, Pairwise, Bool-cases, inl, inr,
}
use spectrum_knx.Selections.{find_after, find_last_before, first_of, or_number, adjacent_mark}
use spectrum_knx.Table.Marks.{indices_of, marked_indices}

abbrev Increasing : List ℕ → Type 0
Increasing = Pairwise ◌<◌

indices_of-above : (i : ℕ) (rows marked : List Text) → All (λ j. i ≤ j) (indices_of i rows marked)
unfolding indices_of
indices_of-above i [] marked = tt
indices_of-above i (k ∷ rows) marked =
    let later : All (λ j. i ≤ j) (indices_of (suc i) rows marked) =
      All-map (λ j. suc i ≤ j) (indices_of (suc i) rows marked) (λ j h. omega arith)
        (indices_of-above (suc i) rows marked) in
    elim (Bool-cases (includes marked k)) [ inl e ↦ rw e (omega arith, later) | inr e ↦ rw e later ]

indices_of-Increasing : (i : ℕ) (rows marked : List Text) → Increasing (indices_of i rows marked)
unfolding indices_of
indices_of-Increasing i [] marked = tt
indices_of-Increasing i (k ∷ rows) marked = elim (Bool-cases (includes marked k)) [
  | inl e ↦ rw e (indices_of-above (suc i) rows marked, indices_of-Increasing (suc i) rows marked)
  | inr e ↦ rw e (indices_of-Increasing (suc i) rows marked)
]

All-middle : (x start : ℕ) (pre post : List ℕ) → All (λ y. x < y) (pre ++ start ∷ post) → x < start
All-middle x start [] post h = h.0
All-middle x start (y ∷ pre) post h = All-middle x start pre post h.1

last?-cons : (y : ℕ) (ys : List ℕ) → (z : ℕ) × (last? (y ∷ ys) ≡ some z)
last?-cons y [] = (y, refl)
last?-cons y (x ∷ ys) = last?-cons x ys

find_last_before-some :
    (start x z : ℕ) (xs : List ℕ)
    → find_last_before start xs ≡ some z
    → find_last_before start (x ∷ xs) ≡ some z
unfolding find_last_before
find_last_before-some start x z xs e = rw e refl

find_last_before-none :
    (start x : ℕ) (xs : List ℕ)
    → find_last_before start xs ≡ none
    → x < start
    → find_last_before start (x ∷ xs) ≡ some x
unfolding find_last_before
find_last_before-none start x xs e h =
    let here : ltb x start ≡ true = ground arith in rw (e, here) refl

module _ (from : ℕ) where
  none_after : (xs : List ℕ) → All (λ x. x ≤ from) xs → find_after from xs ≡ none
  unfolding find_after
  none_after [] h = refl
  none_after (x ∷ xs) h = ground (arith, none_after xs h.1, h.0)

  find_after_lem :
      (pre post : List ℕ)
      → Increasing (pre ++ from ∷ post)
      → find_after from (pre ++ from ∷ post) ≡ first_of post
  unfolding find_after first_of
  find_after_lem [] [] w = ground arith
  find_after_lem [] (y ∷ post) w = ground (arith, w.0.0)
  find_after_lem (x ∷ pre) post w =
      ground (arith, find_after_lem pre post w.1, All-middle x from pre post w.0)

  none_before : (xs : List ℕ) → All (λ x. from ≤ x) xs → find_last_before from xs ≡ none
  unfolding find_last_before
  none_before [] h = refl
  none_before (x ∷ xs) h =
      let here : ltb x from ≡ false = ground (arith, h.0) in rw (none_before xs h.1, here) refl

  find_last_before_lem :
      (pre post : List ℕ)
      → Increasing (pre ++ from ∷ post)
      → find_last_before from (pre ++ from ∷ post) ≡ last? pre
  find_last_before_lem [] post w =
      none_before (from ∷ post) (omega arith, All-map (λ y. from < y) post (λ y h. omega arith) w.0)
  find_last_before_lem (x ∷ []) post w =
      find_last_before-none from x (from ∷ post) (find_last_before_lem [] post w.1) w.0.0
  find_last_before_lem (x ∷ y ∷ pre) post w =
      let last = last?-cons y pre in
      find_last_before-some from x last.0 (y ∷ (pre ++ from ∷ post))
        (find_last_before_lem (y ∷ pre) post w.1 ∙ last.1)
      ∙ sym last.1

-- From a marked row the jumps go to its neighbours among the marked rows, in the order shown: forwards
-- to the next one, or from the last one to the first; backwards to the previous one, or from the
-- first one to the last.
pub adjacent_mark_lem :
    (rows marked : List Text) (pre post : List ℕ) (from : ℕ)
    → marked_indices rows marked ≡ pre ++ from ∷ post
    → (adjacent_mark (marked_indices rows marked) from true
        ≡ or_number (first_of post) (first_of (marked_indices rows marked)))
      × (adjacent_mark (marked_indices rows marked) from false
          ≡ or_number (last? pre) (last? (marked_indices rows marked)))
unfolding adjacent_mark
adjacent_mark_lem rows marked pre post from e =
    let ordered : Increasing (pre ++ from ∷ post) =
      subst Increasing e (unfold marked_indices in indices_of-Increasing 0 rows marked) in
    rw e (
      ap (λ o. or_number o (first_of (pre ++ from ∷ post))) (find_after_lem from pre post ordered),
      ap (λ o. or_number o (last? (pre ++ from ∷ post)))
          (find_last_before_lem from pre post ordered),
    )
