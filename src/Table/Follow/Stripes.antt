-- ===== src/Table/Follow/Stripes.antt =====
-- Rows keep their stripes, and new ones are counted, when telegrams arrive at the live edge of the list
-- in frontend/src/components/TelegramTable.tsx.
use spectrum_knx.Prelude.{
  ℕ, suc, ◌+◌, ◌<◌, ◌≡◌, refl, ap, ◌∙◌, true, false, none, some, List, [], ◌∷◌, ◌++◌, arith, ◌==◌,
  if◌then◌else◌, length, last?, Text, text_eq, text_eq_refl, includes, length-append, Bool-cases,
  inl, inr,
}
use spectrum_knx.Table.Marks.{find_index}
use spectrum_knx.Table.Follow.{
  Edge, top, bottom, Follow, head?, same_key, edge_key, cleared_stripes, note_rows, shifted,
  from_end, rows_added, arrived, take_in, edge_moved, update_rows, stripe,
}

find_index_lem :
    (new rest : List Text) (k : Text)
    → includes new k ≡ false
    → find_index (new ++ k ∷ rest) k ≡ some (length new)
unfolding find_index includes
find_index_lem [] rest k h = rw text_eq_refl refl
find_index_lem (n ∷ new) rest k h =
    let here : text_eq n k ≡ false = ground (arith, h) in
    let later : includes new k ≡ false = ground (arith, h) in
    rw (here, find_index_lem new rest k later) (ap some (omega arith))

from_end-none : (new : List Text) (k : Text) → includes new k ≡ false → from_end new k ≡ none
unfolding from_end includes
from_end-none [] k h = refl
from_end-none (n ∷ new) k h =
    let here : text_eq n k ≡ false = ground (arith, h) in
    let later : includes new k ≡ false = ground (arith, h) in
    rw (from_end-none new k later, here) refl

from_end_lem :
    (kept new : List Text) (k : Text)
    → includes new k ≡ false
    → from_end (kept ++ k ∷ new) k ≡ some (length new)
unfolding from_end
from_end_lem [] new k h = rw (from_end-none new k h, text_eq_refl) refl
from_end_lem (x ∷ kept) new k h = rw (from_end_lem kept new k h) refl

-- the last of some rows is among them
last-ne :
    (n : Text) (new : List Text) (k : Text)
    → includes (n ∷ new) k ≡ false
    → same_key (last? (n ∷ new)) (some k) ≡ false
unfolding same_key includes
last-ne n [] k h = ground (arith, h)
last-ne n (m ∷ new) k h = last-ne m new k (ground (arith, h))

last?-append :
    (kept : List Text) (k n : Text) (new : List Text)
    → last? (kept ++ k ∷ n ∷ new) ≡ last? (n ∷ new)
last?-append [] k n new = refl
last?-append (x ∷ []) k n new = refl
last?-append (x ∷ y ∷ kept) k n new = last?-append (y ∷ kept) k n new

-- an update that finds the old edge row further in
arrives :
    (edge : Edge) (x : Text) (xs : List Text) (k : Text) (added : ℕ) (s : Follow)
    → edge_key edge s.first_key s.last_key ≡ some k
    → same_key (edge_key edge (head? (x ∷ xs)) (last? (x ∷ xs))) (some k) ≡ false
    → rows_added edge (x ∷ xs) k ≡ some (suc added)
    → 0 < s.len
    → update_rows true edge (x ∷ xs) s ≡ note_rows (x ∷ xs) (arrived edge (suc added) (x ∷ xs) s)
unfolding update_rows edge_moved take_in cleared_stripes
arrives edge x xs k added s e moved found some_rows =
    let was_some : (s.len == 0) ≡ false = ground arith in
    let is_some : (length (x ∷ xs) == 0) ≡ false = ground arith in
    rw (was_some, is_some, e, moved, found) refl

-- the new rows are counted unless the view is at the live edge
abbrev pub counted : ℕ → Follow → ℕ
counted added s = if s.at_edge then s.new_since_anchor else s.new_since_anchor + added

-- the rows after an update, at either edge: `kept` beside the old edge row `k`, and the new ones
abbrev pub rows_at : Edge → List Text → Text → List Text → List Text
rows_at top new k kept = new ++ k ∷ kept
rows_at bottom new k kept = kept ++ k ∷ new

-- where a row that stays was, and where it is now
abbrev pub was_at : Edge → ℕ → ℕ → ℕ
was_at top dropped i = i
was_at bottom dropped i = dropped + i

abbrev pub now_at : Edge → ℕ → ℕ → ℕ
now_at top added i = added + i
now_at bottom added i = i

module _ (edge : Edge) (added : ℕ) (rows : List Text) (s : Follow) where
  arrived-new_since_anchor :
      (note_rows rows (arrived edge added rows s)).new_since_anchor ≡ counted added s
  unfolding note_rows arrived
  arrived-new_since_anchor = elim (Bool-cases s.at_edge) [ inl e ↦ rw e refl | inr e ↦ rw e refl ]

  arrived-stripe_offset :
      (note_rows rows (arrived edge added rows s)).stripe_offset
      ≡ shifted edge s.stripe_offset added s.len (length rows)
  unfolding note_rows arrived
  arrived-stripe_offset = elim (Bool-cases s.at_edge) [ inl e ↦ rw e refl | inr e ↦ rw e refl ]

module _ (n k : Text) (new kept : List Text) (s : Follow)
    (fresh : includes (n ∷ new) k ≡ false) where
  update_rows_top :
      (dropped i : ℕ)
      → s.first_key ≡ some k
      → s.len ≡ length (k ∷ kept) + dropped
      → (stripe (update_rows true top ((n ∷ new) ++ k ∷ kept) s) (length (n ∷ new) + i)
          ≡ stripe s i)
        × ((update_rows true top ((n ∷ new) ++ k ∷ kept) s).new_since_anchor
            ≡ counted (length (n ∷ new)) s)
  update_rows_top dropped i first len =
      let rows = (n ∷ new) ++ k ∷ kept in
      let added = length (n ∷ new) in
      let e =
        arrives top n (new ++ k ∷ kept) k (length new) s (unfold edge_key in first)
          (unfold edge_key head? same_key in unfold includes in ground (arith, fresh))
          (unfold rows_added in find_index_lem (n ∷ new) kept k fresh) (omega arith) in
      let offset = arrived-stripe_offset top added rows s in
      rw e
        (unfold stripe shifted in omega (arith, offset), arrived-new_since_anchor top added rows s)

  bottom_arrives :
      (rows : List Text)
      → rows ≡ kept ++ k ∷ n ∷ new
      → s.last_key ≡ some k
      → 0 < s.len
      → update_rows true bottom rows s ≡ note_rows rows (arrived bottom (length (n ∷ new)) rows s)
  bottom_arrives [] e last some_rows =
      let longer = ap length e in absurd (omega (arith, longer, length-append kept (k ∷ n ∷ new)))
  bottom_arrives (x ∷ xs) e last some_rows =
      arrives bottom x xs k (length new) s (unfold edge_key in last)
        (unfold edge_key in
          ap (λ r. same_key (last? r) (some k)) e
          ∙ ap (λ l. same_key l (some k)) (last?-append kept k n new)
          ∙ last-ne n new k fresh)
        (unfold rows_added in ap (λ r. from_end r k) e ∙ from_end_lem kept (n ∷ new) k fresh)
        some_rows

  update_rows_bottom :
      (dropped i : ℕ)
      → s.last_key ≡ some k
      → s.len ≡ dropped + length (kept ++ k ∷ [])
      → (stripe (update_rows true bottom (kept ++ k ∷ n ∷ new) s) i ≡ stripe s (dropped + i))
        × ((update_rows true bottom (kept ++ k ∷ n ∷ new) s).new_since_anchor
            ≡ counted (length (n ∷ new)) s)
  update_rows_bottom dropped i last len =
      let rows = kept ++ k ∷ n ∷ new in
      let added = length (n ∷ new) in
      let before = length-append kept (k ∷ []) in
      let now = length-append kept (k ∷ n ∷ new) in
      let e = bottom_arrives rows refl last (omega (arith, before)) in
      let offset = arrived-stripe_offset bottom added rows s in
      rw e (
        unfold stripe shifted in omega (arith, offset, before, now),
        arrived-new_since_anchor bottom added rows s,
      )

  -- When rows with other keys arrive beyond the row at the live edge, at the top or at the bottom, and
  -- any number leave at the other end, each row that stays keeps its stripe, though its index has
  -- changed, and the new rows are counted unless the view is at the live edge.
  pub update_rows_lem :
      (edge : Edge) (dropped i : ℕ)
      → edge_key edge s.first_key s.last_key ≡ some k
      → s.len ≡ dropped + length (kept ++ k ∷ [])
      → (stripe
            (update_rows true edge (rows_at edge (n ∷ new) k kept) s)
            (now_at edge (length (n ∷ new)) i)
          ≡ stripe s (was_at edge dropped i))
        × ((update_rows true edge (rows_at edge (n ∷ new) k kept) s).new_since_anchor
            ≡ counted (length (n ∷ new)) s)
  unfolding edge_key
  update_rows_lem top dropped i e len =
      update_rows_top dropped i e (omega (arith, length-append kept (k ∷ [])))
  update_rows_lem bottom dropped i e len = update_rows_bottom dropped i e len
