-- ===== src/Columns/Normalized.antt =====
-- Normalizing the stored order of columns, frontend/src/utils/columnOrder.ts.
use spectrum_knx.Prelude.{
  includes-append, absent-All, absent-All_sym, ℕ, zero, suc, ◌≡◌, refl, ◌∙◌, true, false, not, ◌&&◌,
  ◌||◌, Option, none, some, List, [], ◌∷◌, ◌++◌, Text, text_eq, text_eq_iff, includes, arith, All,
  All-map, Pairwise, Pairwise-append, Bool-cases, inl, inr,
}
use spectrum_knx.Columns.{insert_at, keep_known, place_after, add_missing, normalize_column_order}

-- no column twice
abbrev pub IsDistinctText : List Text → Type 0
IsDistinctText = Pairwise (λ a b. text_eq a b ≡ false)

pub includes-insert_at :
    (at : ℕ) (id : Text) (l : List Text) (k : Text)
    → includes (insert_at at id l) k ≡ (text_eq id k || includes l k)
unfolding insert_at includes
includes-insert_at zero id l k = refl
includes-insert_at (suc at) id [] k = refl
includes-insert_at (suc at) id (x ∷ l) k = ground (arith, includes-insert_at at id l k)

All-insert_at :
    (P : Text → Type 0) (at : ℕ) (id : Text) (l : List Text)
    → P id
    → All P l
    → All P (insert_at at id l)
unfolding insert_at
All-insert_at P zero id l p h = (p, h)
All-insert_at P (suc at) id [] p h = (p, tt)
All-insert_at P (suc at) id (x ∷ l) p h = (h.0, All-insert_at P at id l p h.1)

pub insert_at-IsDistinctText :
    (at : ℕ) (id : Text) (l : List Text)
    → includes l id ≡ false
    → IsDistinctText l
    → IsDistinctText (insert_at at id l)
unfolding insert_at includes
insert_at-IsDistinctText zero id l h d = (absent-All_sym l id h, d)
insert_at-IsDistinctText (suc at) id [] h d = (tt, tt)
insert_at-IsDistinctText (suc at) id (x ∷ l) h d = (
  All-insert_at _ at id l (ground (arith, h)) d.0,
  insert_at-IsDistinctText at id l (ground (arith, h)) d.1,
)

-- distinct, and of the known columns only
abbrev IsKnown : List Text → List Text → Type 0
IsKnown defaults order =
    IsDistinctText order × ((k : Text) → includes order k ≡ true → includes defaults k ≡ true)

keep_known-IsKnown :
    (defaults : List Text) (stored : List (Option Text)) (order : List Text)
    → IsKnown defaults order
    → IsKnown defaults (keep_known defaults stored order)
unfolding keep_known
keep_known-IsKnown defaults [] order w = w
keep_known-IsKnown defaults (none ∷ stored) order w = keep_known-IsKnown defaults stored order w
keep_known-IsKnown defaults (some id ∷ stored) order w =
    elim (Bool-cases (includes defaults id && not (includes order id))) [
      | inl h ↦ rw h (keep_known-IsKnown defaults stored (order ++ id ∷ []) (grown h))
      | inr h ↦ rw h (keep_known-IsKnown defaults stored order w)
    ]
  where
    grown :
        (includes defaults id && not (includes order id)) ≡ true
        → IsKnown defaults (order ++ id ∷ [])
    grown h =
        unfold includes in
        (
          Pairwise-append _ order (id ∷ []) w.0 (tt, tt)
              (All-map _ order (λ x e. (e, tt)) (absent-All order id (ground (arith, h)))),
          λ k m. ground (arith, h, m, w.1 k, includes-append order (id ∷ []) k, text_eq_iff id k),
        )

present :
    (order defaults : List Text) (id k : Text)
    → includes order id ≡ true
    → (includes order k || includes defaults k) ≡ (includes order k || includes (id ∷ defaults) k)
unfolding includes
present order defaults id k h = ground (arith, h, text_eq_iff id k)

placed :
    (at : ℕ) (order defaults : List Text) (id k : Text)
    → (includes (insert_at at id order) k || includes defaults k)
      ≡ (includes order k || includes (id ∷ defaults) k)
unfolding includes
placed at order defaults id k = ground (arith, includes-insert_at at id order k)

add_missing_lem :
    (preceding defaults order : List Text)
    → IsDistinctText order
    → IsDistinctText (add_missing preceding defaults order)
      × ((k : Text)
          → includes (add_missing preceding defaults order) k
            ≡ (includes order k || includes defaults k))
unfolding add_missing
add_missing_lem preceding [] order d = unfold includes in (d, λ k. ground arith)
add_missing_lem preceding (id ∷ defaults) order d =
    let at = place_after order preceding in
    elim (Bool-cases (includes order id)) [
      | inl h ↦ rw h (
          let r = add_missing_lem (id ∷ preceding) defaults order d in
          (r.0, λ k. r.1 k ∙ present order defaults id k h))
      | inr h ↦ rw h (
          let r =
            add_missing_lem (id ∷ preceding) defaults (insert_at at id order)
              (insert_at-IsDistinctText at id order h d) in
          (r.0, λ k. r.1 k ∙ placed at order defaults id k))
    ]

-- Whatever order was stored, the columns shown are exactly the default ones, none of them twice.
pub normalize_lem :
    (stored : Option (List (Option Text))) (defaults : List Text) (k : Text)
    → IsDistinctText (normalize_column_order stored defaults)
      × (includes (normalize_column_order stored defaults) k ≡ includes defaults k)
unfolding normalize_column_order includes
normalize_lem none defaults k = let r = add_missing_lem [] defaults [] tt in (r.0, r.1 k)
normalize_lem (some stored) defaults k =
    let kept = keep_known defaults stored [] in
    let known = keep_known-IsKnown defaults stored [] (tt, λ k h. cc h) in
    let r = add_missing_lem [] defaults kept known.0 in (r.0, r.1 k ∙ ground (arith, known.1 k))
