-- ===== src/Writes/Sending.antt =====
-- The writes and reads of a row in frontend/src/components/WriteToBusPanel.tsx: what is asked of the
-- backend, and what the answer does to the panel. `seconds` is as in the parent.
use spectrum_knx.Prelude.{
  ℕ, Bool, true, false, ◌&&◌, ◌||◌, Option, none, some, ◌++◌, ltb, if◌then◌else◌, Text, codes,
}
use spectrum_knx.QuickFilter.Patterns.{trim_text}
use spectrum_knx.Selections.{push_recent_ga}
use spectrum_knx.Writes.{Row, Job, Panel, update_row, is_active, start_polling}

pub data BusRequest : Type 0 where
  no_request : BusRequest
  sends : Text → Text → BusRequest
  schedules : Text → Text → ℕ → ℕ → BusRequest
  reads : Text → BusRequest

abbrev pub started : Row → Panel → Panel
started row s = update_row row.id (λ r. record r { busy = true; feedback = none }) s

abbrev pub with_feedback : Row → Bool → Text → Panel → Panel
with_feedback row ok msg s =
    update_row row.id (λ r. record r { feedback = some (record { ok = ok; msg = msg }) }) s

abbrev pub finished : Row → Panel → Panel
finished row s = update_row row.id (λ r. record r { busy = false }) s

abbrev pub recent : Row → Panel → Panel
recent row s = record s { recent_gas = push_recent_ga (trim_text row.address) s.recent_gas }

-- a write that a guard refuses is over at once
abbrev pub refused : Row → Text → Panel → BusRequest × Panel
refused row msg s = (no_request, finished row (recent row (with_feedback row false msg s)))

unfoldable pub start_scheduled : Row → ℕ → ℕ → Panel → BusRequest × Panel
start_scheduled row delay every s =
    if is_active s.job
    then refused row (codes "A scheduled send is already active — cancel it first") s
    else if ltb 0 every && ltb every 1000
    then refused row (codes "Interval must be at least 1 second") s
    else (schedules (trim_text row.address) (trim_text row.dpt) delay every, s)

unfoldable pub write : (Text → ℕ) → Row → Panel → BusRequest × Panel
write seconds row s =
    let delay = seconds row.delay in
    let every = seconds row.every in
    if ltb 0 delay || ltb 0 every
    then start_scheduled row delay every (started row s)
    else (sends (trim_text row.address) (trim_text row.dpt), started row s)

-- the answers: sent, with the text that is shown; scheduled, with the status; or an error
pub data WriteAnswer : Type 0 where
  sent : Text → WriteAnswer
  scheduled : Job → WriteAnswer
  refusal : Text → WriteAnswer

unfoldable pub write_answered : Row → WriteAnswer → Panel → Panel
write_answered row (sent msg) s = finished row (recent row (with_feedback row true msg s))
write_answered row (scheduled status) s =
    finished row (recent row (start_polling (record s { watching = true; job = some status })))
write_answered row (refusal msg) s = finished row (with_feedback row false msg s)

unfoldable pub read : Row → Panel → BusRequest × Panel
read row s = (reads (trim_text row.address), started row s)

-- none for an error; `baseline` is the time of the value shown when the panel was drawn
unfoldable pub read_answered : Row → Text → Option Text → Panel → Panel
read_answered row baseline none s = finished row (
    recent row (
      update_row row.id
        (λ r. record r {
          feedback =
              some (record {
                ok = true;
                msg = codes "Read request sent to " ++ trim_text row.address;
              });
          read_baseline = some baseline;
        })
        s))
read_answered row baseline (some msg) s = finished row (with_feedback row false msg s)
