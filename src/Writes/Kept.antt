-- ===== src/Writes/Kept.antt =====
-- What stays true of the panel of frontend/src/components/WriteToBusPanel.tsx, whatever happens to it:
-- its rows and its timer.
pub mod Steps
use mathlib.Core.Path.{subst}
use spectrum_knx.Prelude.{
  ℕ, zero, suc, ◌+◌, ◌≤◌, ◌<◌, ◌≡◌, refl, ap, sym, ◌∙◌, Bool, true, false, not, ◌&&◌, ◌||◌, Option,
  none, some, List, [], ◌∷◌, ◌++◌, ltb, ◌==◌, if◌then◌else◌, length, filter, map, Text, arith, All,
  All-append, All-map, All-filter, All-of, filter-All, length-append, Pairwise, Pairwise-append,
  Pairwise-filter, Bool-cases, inl, inr, ltb→lt,
}
use spectrum_knx.Writes.{
  Row, Job, Panel, new_row, StoredRow, rows_from, load_stored_rows, mount, patch_if, update_row,
  add_row, is_active, drop_row, stop_polling, start_polling, is_polling, refreshed, unmount,
  on_address_change, on_dpt_change,
}
use spectrum_knx.Writes.Sending.{
  start_scheduled, write, WriteAnswer, sent, scheduled, refusal, write_answered, read,
  read_answered, started, finished, recent, with_feedback,
}

abbrev pub ids : List Row → List ℕ
ids rows = map (λ (r : Row). r.id) rows

abbrev pub Differ : ℕ → ℕ → Type 0
Differ a b = (a == b) ≡ false

-- the intervals that run, if the panel knows of one
unfoldable pub known_intervals : Option ℕ → List ℕ
known_intervals none = []
known_intervals (some i) = i ∷ []

pub record Kept (numbers : List ℕ) (seq : ℕ) (intervals : List ℕ) (ref : Option ℕ) : Type 0 where
  pub has_row : 1 ≤ length numbers
  pub distinct : Pairwise Differ numbers
  pub below : All (λ n. n < seq) numbers
  pub known : intervals ≡ known_intervals ref

-- There is a row, no two rows have one number, later rows get other numbers, and the intervals that
-- run are the one that the panel knows of.
abbrev pub IsKept : Panel → Type 0
IsKept s = Kept (ids s.rows) s.row_seq s.intervals s.poll_ref

ids-patch :
    (patch : Row → Row) (id : ℕ) (rows : List Row)
    → ((r : Row) → (patch r).id ≡ r.id)
    → ids (map (patch_if patch id) rows) ≡ ids rows
ids-patch patch id [] h = refl
ids-patch patch id (r ∷ rows) h = elim (Bool-cases (r.id == id)) [
  | inl e ↦ rw (e, h r, ids-patch patch id rows h) refl
  | inr e ↦ rw (e, ids-patch patch id rows h) refl
]

pub update_row-IsKept :
    (id : ℕ) (patch : Row → Row) (s : Panel)
    → ((r : Row) → (patch r).id ≡ r.id)
    → IsKept s
    → IsKept (update_row id patch s)
unfolding update_row
update_row-IsKept id patch s h k =
    subst (λ l. Kept l s.row_seq s.intervals s.poll_ref) (sym (ids-patch patch id s.rows h)) k

ids-append : (rows others : List Row) → ids (rows ++ others) ≡ ids rows ++ ids others
ids-append [] others = refl
ids-append (r ∷ rows) others = ap (λ l. r.id ∷ l) (ids-append rows others)

add_row-IsKept : (s : Panel) → IsKept s → IsKept (add_row s)
unfolding add_row
add_row-IsKept s k =
    subst (λ l. Kept l (suc s.row_seq) s.intervals s.poll_ref)
      (sym (ids-append s.rows (new_row s.row_seq ∷ [])))
      (record {
        has_row = omega (arith, k.has_row, length-append (ids s.rows) (s.row_seq ∷ []));
        distinct =
            Pairwise-append Differ (ids s.rows) (s.row_seq ∷ []) k.distinct (tt, tt)
              (All-map _ (ids s.rows) (λ n h. (ground (arith, h), tt)) k.below);
        below =
            All-append _ (ids s.rows) _ (All-map _ (ids s.rows) (λ n h. omega (arith, h)) k.below)
              (omega arith, tt);
        known = k.known;
      })

ids-filter :
    (id : ℕ) (rows : List Row)
    → ids (filter (λ r. not (r.id == id)) rows) ≡ filter (λ n. not (n == id)) (ids rows)
ids-filter id [] = refl
ids-filter id (r ∷ rows) = elim (Bool-cases (r.id == id)) [
  | inl e ↦ rw (e, ids-filter id rows) refl
  | inr e ↦ rw (e, ids-filter id rows) refl
]

-- of different numbers, at most one is taken out
one_less :
    (id : ℕ) (numbers : List ℕ)
    → Pairwise Differ numbers
    → length numbers ≤ suc (length (filter (λ n. not (n == id)) numbers))
one_less id [] h = omega arith
one_less id (n ∷ numbers) h = elim (Bool-cases (n == id)) [
  | inl e ↦
      let others =
        filter-All (λ m. not (m == id)) numbers
          (All-map _ numbers (λ m d. ground (arith, d, e)) h.0) in
      rw (e, others) (omega arith)
  | inr e ↦ rw e (omega (arith, one_less id numbers h.1))
]

length-ids : (rows : List Row) → length (ids rows) ≡ length rows
length-ids [] = refl
length-ids (r ∷ rows) = omega (arith, length-ids rows)

drop_row-IsKept : (id : ℕ) (s : Panel) → IsKept s → IsKept (drop_row id s)
unfolding drop_row
drop_row-IsKept id s k = elim (Bool-cases (ltb 1 (length s.rows))) [
  | inr h ↦ rw h k
  | inl h ↦ rw h (
      subst (λ l. Kept l s.row_seq s.intervals s.poll_ref) (sym (ids-filter id s.rows))
        (record {
          has_row =
              omega (arith, one_less id (ids s.rows) k.distinct, length-ids s.rows, ltb→lt _ _ h);
          distinct = Pairwise-filter Differ _ (ids s.rows) k.distinct;
          below = All-filter _ _ (ids s.rows) k.below;
          known = k.known;
        }))
]

none_known : [] ≡ known_intervals none
unfolding known_intervals
none_known = refl

-- the rows are the same, and no interval runs
abbrev pub Stopped : Panel → Panel → Type 0
Stopped s u = (u.rows ≡ s.rows) × (u.row_seq ≡ s.row_seq) × (u.intervals ≡ []) × (u.poll_ref ≡ none)

pub stop_polling-Stopped :
    (s : Panel) (ref : Option ℕ)
    → s.poll_ref ≡ ref
    → s.intervals ≡ known_intervals ref
    → Stopped s (stop_polling s)
unfolding stop_polling known_intervals
stop_polling-Stopped s none e h = rw e (refl, refl, h, refl)
stop_polling-Stopped s (some i) e h =
    rw e (refl, refl, ap (filter (λ n. not (n == i))) h ∙ ground arith, refl)

pub Kept-rows :
    (s : Panel) (rows : List Row) (seq : ℕ) {intervals : List ℕ} {ref : Option ℕ}
    → rows ≡ s.rows
    → seq ≡ s.row_seq
    → intervals ≡ known_intervals ref
    → IsKept s
    → Kept (ids rows) seq intervals ref
Kept-rows s rows seq e f g k = record {
  has_row = subst (λ l. 1 ≤ length (ids l)) (sym e) k.has_row;
  distinct = subst (λ l. Pairwise Differ (ids l)) (sym e) k.distinct;
  below =
      subst (λ l. All (λ m. m < seq) (ids l)) (sym e)
        (subst (λ n. All (λ m. m < n) (ids s.rows)) (sym f) k.below);
  known = g;
}

pub stop_polling-IsKept : (s : Panel) → IsKept s → IsKept (stop_polling s)
stop_polling-IsKept s k =
    let h = stop_polling-Stopped s s.poll_ref refl k.known in
    Kept-rows s _ _ h.0 h.1 (h.2 ∙ none_known ∙ ap known_intervals (sym h.3)) k

pub start_polling-IsKept : (s : Panel) → IsKept s → IsKept (start_polling s)
unfolding start_polling known_intervals
start_polling-IsKept s k =
    let h = stop_polling-Stopped s s.poll_ref refl k.known in
    Kept-rows s _ _ h.0 h.1 (ap (λ l. (stop_polling s).next_interval ∷ l) h.2) k
