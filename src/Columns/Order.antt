-- ===== src/Columns/Order.antt =====
-- Moving a column, frontend/src/utils/columnOrder.ts.
use mathlib.Core.Path.{subst}
use spectrum_knx.Prelude.{
  includes-without, ℕ, suc, ◌≡◌, ◌∙◌, Bool, true, false, not, ◌&&◌, ◌||◌, none, some, List, [], ◌∷◌,
  filter, Text, text_eq, text_eq_refl, text_eq_iff, includes, arith, Pairwise-filter, Bool-cases,
  Option-cases, inl, inr,
}
use spectrum_knx.Columns.{
  index_of, insert_at, Side, before, after, beside, splice_beside, move_column,
}
use spectrum_knx.Columns.Normalized.{IsDistinctText, includes-insert_at, insert_at-IsDistinctText}

-- one text directly before another
unfoldable pub adjacent : Text → Text → List Text → Bool
adjacent a b [] = false
adjacent a b (x ∷ []) = false
adjacent a b (x ∷ y ∷ l) = (text_eq x a && text_eq y b) || adjacent a b (y ∷ l)

abbrev pub beside_target : Side → Text → Text → List Text → Bool
beside_target before dragged target l = adjacent dragged target l
beside_target after dragged target l = adjacent target dragged l

index_of-includes :
    (l : List Text) (t : Text) → includes l t ≡ true → (i : ℕ) × (index_of l t ≡ some i)
unfolding index_of includes
index_of-includes [] t h = cc h
index_of-includes (x ∷ l) t h = elim (Bool-cases (text_eq x t)) [
  | inl e ↦ (0, rw e)
  | inr e ↦ let (i, f) = index_of-includes l t (ground (arith, e, h)) in (suc i, rw (e, f))
]

adjacent_cons : (a b x : Text) (l : List Text) → adjacent a b l ≡ true → adjacent a b (x ∷ l) ≡ true
unfolding adjacent
adjacent_cons a b x [] h = cc h
adjacent_cons a b x (y ∷ l) h = ground (arith, h)

index_of-found :
    (x : Text) (l : List Text) (t : Text) → text_eq x t ≡ true → index_of (x ∷ l) t ≡ some 0
unfolding index_of
index_of-found x l t e = rw e

index_of-step :
    (x : Text) (l : List Text) (t : Text) (j : ℕ)
    → text_eq x t ≡ false
    → index_of l t ≡ some j
    → index_of (x ∷ l) t ≡ some (suc j)
unfolding index_of
index_of-step x l t j e f = rw (e, f)

insert_first_beside :
    (x : Text) (l : List Text) (dragged target : Text) (side : Side)
    → text_eq x target ≡ true
    → beside_target side dragged target (insert_at (beside side 0) dragged (x ∷ l)) ≡ true
unfolding insert_at beside adjacent
insert_first_beside x l dragged target before e = ground (arith, e, text_eq_refl dragged)
insert_first_beside x l dragged target after e = ground (arith, e, text_eq_refl dragged)

insert_later_beside :
    (x : Text) (l : List Text) (dragged target : Text) (j : ℕ) (side : Side)
    → beside_target side dragged target (insert_at (beside side j) dragged l) ≡ true
    → beside_target side dragged target (insert_at (beside side (suc j)) dragged (x ∷ l)) ≡ true
unfolding insert_at beside
insert_later_beside x l dragged target j before h = adjacent_cons dragged target x _ h
insert_later_beside x l dragged target j after h = adjacent_cons target dragged x _ h

insert_beside :
    (l : List Text) (dragged target : Text) (i : ℕ) (side : Side)
    → index_of l target ≡ some i
    → beside_target side dragged target (insert_at (beside side i) dragged l) ≡ true
insert_beside [] dragged target i side e = unfold index_of in cc e
insert_beside (x ∷ l) dragged target i side e = elim (Bool-cases (text_eq x target)) [
  | inl f ↦
      let zero_i : 0 ≡ i = cc (e, index_of-found x l target f) in
      subst
        (λ n. beside_target side dragged target (insert_at (beside side n) dragged (x ∷ l)) ≡ true)
        zero_i (insert_first_beside x l dragged target side f)
  | inr f ↦ elim (Option-cases (index_of l target)) [
    | inl g ↦ absurd (nowhere f g)
    | inr p ↦
        let suc_i : suc p.0 ≡ i = cc (e, index_of-step x l target p.0 f p.1) in
        subst
          (λ n.
            beside_target side dragged target (insert_at (beside side n) dragged (x ∷ l)) ≡ true)
          suc_i
          (insert_later_beside x l dragged target p.0 side
            (insert_beside l dragged target p.0 side p.1))
  ]
]
  where
    nowhere : text_eq x target ≡ false → index_of l target ≡ none → ⊥
    nowhere f g =
        let missing : index_of (x ∷ l) target ≡ none = unfold index_of in rw (f, g) in
        cc (e, missing)

-- Of an order without repeats, dropping a column on another one puts it directly beside that one,
-- on the side of the drop, and keeps all columns, none of them twice.
pub move_column_lem :
    (order : List Text) (dragged target : Text) (side : Side) (k : Text)
    → text_eq dragged target ≡ false
    → includes order dragged ≡ true
    → includes order target ≡ true
    → IsDistinctText order
    → (beside_target side dragged target (move_column order dragged target side) ≡ true)
      × (includes (move_column order dragged target side) k ≡ includes order k)
      × IsDistinctText (move_column order dragged target side)
unfolding move_column splice_beside
move_column_lem order dragged target side k apart has_dragged has_target d =
    let next = filter (λ id. not (text_eq id dragged)) order in
    let in_next : includes next target ≡ true =
      ground (arith, includes-without order dragged target, apart, has_target) in
    let (i, e) = index_of-includes next target in_next in
    let gone : includes next dragged ≡ false =
      ground (arith, includes-without order dragged dragged, text_eq_refl dragged) in
    rw (apart, has_dragged, has_target, e)
      (
        insert_beside next dragged target i side e,
        includes-insert_at (beside side i) dragged next k
            ∙ ground (arith, includes-without order dragged k, has_dragged, text_eq_iff dragged k),
        insert_at-IsDistinctText (beside side i) dragged next gone (Pairwise-filter _ _ order d),
      )
