-- ===== src/Writes/Kept/Steps.antt =====
-- Everything that may happen to the panel of frontend/src/components/WriteToBusPanel.tsx, as a step
-- relation.
use spectrum_knx.Prelude.{
  ℕ, suc, ◌+◌, ◌≤◌, ◌<◌, ◌≡◌, refl, Bool, true, false, ◌&&◌, ◌||◌, Option, none, some, List, [],
  ◌∷◌, ltb, length, take, Text, arith, All, All-map, Pairwise, Bool-cases, inl, inr,
}
use spectrum_knx.Writes.{
  max_stored_rows, Row, Job, Panel, StoredRow, rows_from, load_stored_rows, mount, update_row,
  add_row, is_active, drop_row, stop_polling, is_polling, refreshed, unmount, on_address_change,
  on_dpt_change,
}
use spectrum_knx.Writes.Sending.{
  start_scheduled, write, WriteAnswer, sent, scheduled, refusal, write_answered, read,
  read_answered, started, finished, recent, with_feedback,
}
use spectrum_knx.Writes.Kept.{
  known_intervals, ids, Differ, IsKept, Kept-rows, update_row-IsKept, add_row-IsKept,
  drop_row-IsKept, stop_polling-IsKept, start_polling-IsKept,
}

refreshed-IsKept : (status : Option Job) (s : Panel) → IsKept s → IsKept (refreshed status s)
unfolding refreshed
refreshed-IsKept none s k = k
refreshed-IsKept (some status) s k = elim (Bool-cases (is_active (some status))) [
  | inl h ↦ elim (Bool-cases (is_polling s.poll_ref)) [
    | inl e ↦ rw (h, e) (Kept-rows s _ _ refl refl k.known k)
    | inr e ↦ rw (h, e) (start_polling-IsKept _ (Kept-rows s _ _ refl refl k.known k))
  ]
  | inr h ↦
      let stopped = stop_polling-IsKept s k in
      rw h (Kept-rows (stop_polling s) _ _ refl refl stopped.known stopped)
]

finished-IsKept : (row : Row) (s : Panel) → IsKept s → IsKept (finished row s)
finished-IsKept row s k = update_row-IsKept row.id _ s (λ r. refl) k

with_feedback-IsKept :
    (row : Row) (ok : Bool) (msg : Text) (s : Panel)
    → IsKept s
    → IsKept (with_feedback row ok msg s)
with_feedback-IsKept row ok msg s k = update_row-IsKept row.id _ s (λ r. refl) k

-- the end of every write and read that has sent something, or that a guard refuses
ended-IsKept : (row : Row) (s : Panel) → IsKept s → IsKept (finished row (recent row s))
ended-IsKept row s k = finished-IsKept row (recent row s) (Kept-rows s _ _ refl refl k.known k)

start_scheduled-IsKept :
    (row : Row) (delay every : ℕ) (s : Panel)
    → IsKept s
    → IsKept (start_scheduled row delay every s).1
unfolding start_scheduled
start_scheduled-IsKept row delay every s k = elim (Bool-cases (is_active s.job)) [
  | inl h ↦ rw h (ended-IsKept row _ (with_feedback-IsKept row false _ s k))
  | inr h ↦ elim (Bool-cases (ltb 0 every && ltb every 1000)) [
    | inl e ↦ rw (h, e) (ended-IsKept row _ (with_feedback-IsKept row false _ s k))
    | inr e ↦ rw (h, e) k
  ]
]

started-IsKept : (row : Row) (s : Panel) → IsKept s → IsKept (started row s)
started-IsKept row s k = update_row-IsKept row.id _ s (λ r. refl) k

write-IsKept :
    (seconds : Text → ℕ) (row : Row) (s : Panel) → IsKept s → IsKept (write seconds row s).1
unfolding write
write-IsKept seconds row s k =
    elim (Bool-cases (ltb 0 (seconds row.delay) || ltb 0 (seconds row.every))) [
      | inl h ↦ rw h (start_scheduled-IsKept row _ _ (started row s) (started-IsKept row s k))
      | inr h ↦ rw h (started-IsKept row s k)
    ]

write_answered-IsKept :
    (row : Row) (a : WriteAnswer) (s : Panel) → IsKept s → IsKept (write_answered row a s)
unfolding write_answered
write_answered-IsKept row (sent msg) s k =
    ended-IsKept row _ (with_feedback-IsKept row true msg s k)
write_answered-IsKept row (scheduled status) s k =
    ended-IsKept row _ (start_polling-IsKept _ (Kept-rows s _ _ refl refl k.known k))
write_answered-IsKept row (refusal msg) s k =
    finished-IsKept row _ (with_feedback-IsKept row false msg s k)

read_answered-IsKept :
    (row : Row) (baseline : Text) (answer : Option Text) (s : Panel)
    → IsKept s
    → IsKept (read_answered row baseline answer s)
unfolding read_answered
read_answered-IsKept row baseline none s k =
    ended-IsKept row _ (update_row-IsKept row.id _ s (λ r. refl) k)
read_answered-IsKept row baseline (some msg) s k =
    finished-IsKept row _ (with_feedback-IsKept row false msg s k)

on_address_change-IsKept :
    (id : ℕ) (address : Text) (option : Option (Option ℕ × Option ℕ)) (s : Panel)
    → IsKept s
    → IsKept (on_address_change id address option s)
unfolding on_address_change
on_address_change-IsKept id address none s k = update_row-IsKept id _ s (λ r. refl) k
on_address_change-IsKept id address (some option) s k = update_row-IsKept id _ s (λ r. refl) k

-- `edits` stands for the fields that the user types into; a request is answered at any later time.
pub data Step (seconds number : Text → ℕ) (s : Panel) : Panel → Type 0 where
  edits :
      (id : ℕ) (patch : Row → Row)
      → ((r : Row) → (patch r).id ≡ r.id)
      → Step seconds number s (update_row id patch s)
  addresses :
      (id : ℕ) (address : Text) (option : Option (Option ℕ × Option ℕ))
      → Step seconds number s (on_address_change id address option s)
  types : (row : Row) (dpt : Text) → Step seconds number s (on_dpt_change number row dpt s)
  adds : Step seconds number s (add_row s)
  removes : (id : ℕ) → Step seconds number s (drop_row id s)
  refreshes : (status : Option Job) → Step seconds number s (refreshed status s)
  writes : (row : Row) → Step seconds number s (write seconds row s).1
  ends_write :
      (row : Row) (answer : WriteAnswer) → Step seconds number s (write_answered row answer s)
  begins_read : (row : Row) → Step seconds number s (read row s).1
  ends_read :
      (row : Row) (baseline : Text) (answer : Option Text)
      → Step seconds number s (read_answered row baseline answer s)
  leaves : Step seconds number s (unmount s)

pub data Reach (seconds number : Text → ℕ) : Panel → Type 0 where
  mounts :
      (n : ℕ) (stored : List StoredRow) (shown : List Text)
      → Reach seconds number (mount n stored shown)
  later : {s u : Panel} → Reach seconds number s → Step seconds number s u → Reach seconds number u

module _ {seconds number : Text → ℕ} where
  step-IsKept : {s u : Panel} → Step seconds number s u → IsKept s → IsKept u
  unfolding on_dpt_change read unmount
  step-IsKept (edits id patch h) k = update_row-IsKept id patch _ h k
  step-IsKept (addresses id address option) k = on_address_change-IsKept id address option _ k
  step-IsKept (types row dpt) k = update_row-IsKept row.id _ _ (λ r. refl) k
  step-IsKept adds k = add_row-IsKept _ k
  step-IsKept (removes id) k = drop_row-IsKept id _ k
  step-IsKept (refreshes status) k = refreshed-IsKept status _ k
  step-IsKept (writes row) k = write-IsKept seconds row _ k
  step-IsKept (ends_write row answer) k = write_answered-IsKept row answer _ k
  step-IsKept (begins_read row) k = started-IsKept row _ k
  step-IsKept (ends_read row baseline answer) k = read_answered-IsKept row baseline answer _ k
  step-IsKept leaves k = stop_polling-IsKept _ k

rows_from_lem :
    (n : ℕ) (stored : List StoredRow)
    → All (λ m. n ≤ m) (ids (rows_from n stored))
      × All (λ m. m < n + length (rows_from n stored)) (ids (rows_from n stored))
      × Pairwise Differ (ids (rows_from n stored))
unfolding rows_from
rows_from_lem n [] = (tt, tt, tt)
rows_from_lem n (r ∷ stored) =
    let rest = rows_from_lem (suc n) stored in
    let others = ids (rows_from (suc n) stored) in
    (
      (omega arith, All-map (λ m. suc n ≤ m) others (λ m h. omega (arith, h)) rest.0),
      (omega arith, All-map _ others (λ m h. omega (arith, h)) rest.1),
      (All-map (λ m. suc n ≤ m) others (λ m h. ground (arith, h)) rest.0, rest.2),
    )

mount-IsKept : (n : ℕ) (stored : List StoredRow) (shown : List Text) → IsKept (mount n stored shown)
unfolding mount load_stored_rows known_intervals rows_from
mount-IsKept n [] shown = record {
  has_row = omega arith;
  distinct = (tt, tt);
  below = (omega arith, tt);
  known = refl;
}
mount-IsKept n (r ∷ stored) shown =
    let rows = rows_from_lem n (take max_stored_rows (r ∷ stored)) in
    record { has_row = omega arith; distinct = rows.2; below = rows.1; known = refl }

-- Whatever happens to the panel, it has a row, no two rows have one number and no later row will get
-- the number of one that is there, and no interval runs but the one that the panel would stop.
pub Reach-IsKept : {seconds number : Text → ℕ} {s : Panel} → Reach seconds number s → IsKept s
Reach-IsKept (mounts n stored shown) = mount-IsKept n stored shown
Reach-IsKept (later reach step) = step-IsKept step (Reach-IsKept reach)
