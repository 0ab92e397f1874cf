-- ===== src/Writes.antt =====
-- The panel that writes to the bus: frontend/src/components/WriteToBusPanel.tsx, with the datatype texts
-- of frontend/src/utils/knxSend.ts. What the panel asks of the backend is a value; an answer is an event
-- of its own. `seconds` is the host's `parseFloat`, in thousandths, 0 for what is no positive number, and
-- `number` its `Number` of digits. The stored rows are a list that the storage gives.
pub mod Sending
pub mod Kept
pub mod Leaving
mod Tests
use spectrum_knx.Prelude.{
  ℕ, zero, suc, ◌+◌, Bool, true, false, not, ◌&&◌, ◌||◌, Option, none, some, List, [], ◌∷◌, ◌++◌,
  ltb, ◌==◌, if◌then◌else◌, length, filter, map, take, Text, codes, text_eq, decimal, is_digits,
  pad_start,
}
use spectrum_knx.Urls.{split}
use spectrum_knx.QuickFilter.Patterns.{trim_text}
use spectrum_knx.Selections.{push_recent_ga}

pub record Feedback : Type 0 where
  pub ok : Bool
  pub msg : Text

pub record Row : Type 0 where
  -- the number in `row-…`
  pub id : ℕ
  pub address : Text
  pub dpt : Text
  pub value : Text
  pub delay : Text
  pub every : Text
  pub busy : Bool
  pub feedback : Option Feedback
  pub read_baseline : Option Text

pub data JobState : Type 0 where
  idle : JobState
  waiting : JobState
  running : JobState
  done : JobState
  cancelled : JobState
  failed : JobState

pub record Job : Type 0 where
  pub state : JobState
  pub address : Option Text

pub record Panel : Type 0 where
  pub rows : List Row
  pub row_seq : ℕ
  pub recent_gas : List Text
  pub job : Option Job
  pub poll_ref : Option ℕ
  pub watching : Bool
  -- the browser's intervals that run, and the number of the next one
  pub intervals : List ℕ
  pub next_interval : ℕ

unfoldable pub format_dpt : Option ℕ → Option ℕ → Text
format_dpt none sub = []
format_dpt (some main) none = decimal main
format_dpt (some main) (some sub) = decimal main ++ b'.' ∷ pad_start (decimal sub) 3 b'0'

-- `/^(\d+)(?:\.\d+)?$/`, and the number of its group
main_of_parts : (Text → ℕ) → List Text → Option ℕ
main_of_parts number (main ∷ []) = if is_digits main then some (number main) else none
main_of_parts number (main ∷ sub ∷ []) =
    if is_digits main && is_digits sub then some (number main) else none
main_of_parts number _ = none

unfoldable pub parse_dpt_main : (Text → ℕ) → Text → Option ℕ
unfolding main_of_parts
parse_dpt_main number dpt = main_of_parts number (split b'.' (trim_text dpt))

abbrev pub new_row : ℕ → Row
new_row n = record {
  id = n;
  address = [];
  dpt = [];
  value = [];
  delay = [];
  every = [];
  busy = false;
  feedback = none;
  read_baseline = none;
}

pub record StoredRow : Type 0 where
  pub address : Text
  pub dpt : Text
  pub value : Text
  pub delay : Text
  pub every : Text

abbrev max_stored_rows : ℕ
max_stored_rows = 20

unfoldable pub rows_from : ℕ → List StoredRow → List Row
rows_from n [] = []
rows_from n (s ∷ stored) =
    record (new_row n) {
      address = s.address;
      dpt = s.dpt;
      value = s.value;
      delay = s.delay;
      every = s.every;
    }
    ∷ rows_from (suc n) stored

-- nothing stored leaves one empty row
unfoldable pub load_stored_rows : ℕ → List StoredRow → List Row
load_stored_rows n [] = new_row n ∷ []
load_stored_rows n (s ∷ stored) = rows_from n (take max_stored_rows (s ∷ stored))

unfoldable pub mount : ℕ → List StoredRow → List Text → Panel
mount n stored recent = record {
  rows = load_stored_rows n stored;
  row_seq = n + length (load_stored_rows n stored);
  recent_gas = recent;
  job = none;
  poll_ref = none;
  watching = false;
  intervals = [];
  next_interval = 0;
}

abbrev patch_if : (Row → Row) → ℕ → Row → Row
patch_if patch id r = if r.id == id then patch r else r

unfoldable pub update_row : ℕ → (Row → Row) → Panel → Panel
update_row id patch s = record s { rows = map (patch_if patch id) s.rows }

unfoldable pub add_row : Panel → Panel
add_row s = record s { rows = s.rows ++ new_row s.row_seq ∷ []; row_seq = suc s.row_seq }

unfoldable pub is_active : Option Job → Bool
is_active none = false
is_active (some job) = elim job.state [
  | idle ↦ false
  | waiting ↦ true
  | running ↦ true
  | done ↦ false
  | cancelled ↦ false
  | failed ↦ false
]

-- the last line of `removeRow`: one row always stays
unfoldable pub drop_row : ℕ → Panel → Panel
drop_row id s =
    let kept = filter (λ (r : Row). not (r.id == id)) s.rows in
    record s { rows = if ltb 1 (length s.rows) then kept else s.rows }

unfoldable pub stop_polling : Panel → Panel
stop_polling s = elim s.poll_ref [
  | none ↦ s
  | some i ↦ record s { intervals = filter (λ n. not (n == i)) s.intervals; poll_ref = none }
]

unfoldable pub start_polling : Panel → Panel
start_polling s =
    let stopped = stop_polling s in
    record stopped {
      poll_ref = some stopped.next_interval;
      intervals = stopped.next_interval ∷ stopped.intervals;
      next_interval = suc stopped.next_interval;
    }

is_polling : Option ℕ → Bool
is_polling none = false
is_polling (some i) = true

-- the answer of `refreshJob`, none for an error
unfoldable pub refreshed : Option Job → Panel → Panel
unfolding is_polling
refreshed none s = s
refreshed (some status) s =
    let shown = record s { watching = true; job = some status } in
    let stopped = record (stop_polling s) { job = none } in
    if is_active (some status)
    then (if is_polling s.poll_ref then shown else start_polling shown)
    else stopped

-- the effect of the first render is the request whose answer is `refreshed`; its cleanup
unfoldable pub unmount : Panel → Panel
unmount s = stop_polling s

owns : Option Text → Text → Bool
owns none address = false
owns (some a) address = text_eq a address

owns_job : Option Job → Text → Bool
unfolding owns
owns_job none address = false
owns_job (some job) address = owns job.address address

-- must the job be cancelled before the row goes
unfoldable pub cancels_first : Row → Panel → Bool
unfolding owns_job
cancels_first row s = is_active s.job && owns_job s.job (trim_text row.address)

-- `option` is what the box offers for the address, or what the project has for it
unfoldable pub on_address_change : ℕ → Text → Option (Option ℕ × Option ℕ) → Panel → Panel
on_address_change id next none s =
    update_row id
      (λ r. record r { address = next; feedback = none; read_baseline = none; dpt = [] }) s
on_address_change id next (some option) s =
    update_row id
      (λ r. record r {
        address = next;
        feedback = none;
        read_baseline = none;
        dpt = format_dpt option.0 option.1;
      })
      s

same_main : Option ℕ → Option ℕ → Bool
same_main none none = true
same_main (some a) (some b) = a == b
same_main _ _ = false

-- a change of the main number switches the control, so the value goes
unfoldable pub on_dpt_change : (Text → ℕ) → Row → Text → Panel → Panel
unfolding same_main
on_dpt_change number row next s =
    let kept = same_main (parse_dpt_main number row.dpt) (parse_dpt_main number next) in
    update_row row.id
      (λ r. record r { dpt = next; feedback = none; value = if kept then r.value else [] }) s
