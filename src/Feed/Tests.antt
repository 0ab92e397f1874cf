-- ===== src/Feed/Tests.antt =====
-- Runs of the hook's state, and its theorems at concrete telegrams.
use spectrum_knx.Prelude.{
  ℕ, ◌+◌, ◌≡◌, refl, Bool, true, false, Option, none, some, ltb, List, [], ◌∷◌, arith, Text, codes,
  text_eq, includes, if◌then◌else◌, inr,
}
use spectrum_knx.Telegram.{TelegramEntry}
use spectrum_knx.Telegram.Samples.{entry_a, entry_b, entry_c}
use spectrum_knx.Buffer.{has}
use spectrum_knx.Coverage.{add_covered}
use spectrum_knx.Coverage.Points.{covers}
use spectrum_knx.Feed.{Feed, init, clear, merge_into_buffer}
use spectrum_knx.Feed.Events.{live, pause, wipe, run}
use spectrum_knx.Feed.Gap.{Load, oldest_of, fill_gap, chunk_stored}
use spectrum_knx.Feed.Gap.Backend.{answer_of}
use spectrum_knx.Feed.Gap.Cleared.{clear_during_store}
use spectrum_knx.Feed.Ids.{Tracks, merge_into_buffer-Tracks}
use spectrum_knx.Feed.Gap.Termination.{fill_gap_total}
use spectrum_knx.Feed.Pausing.{IsShown, run-IsShown}

abbrev start : Feed
start = init 2

abbrev paused : Feed
paused = record start { paused = true }

-- a buffer that is full with the telegrams at 20 and 30
abbrev holding_b_c : Feed
holding_b_c = record start {
  buffer = record { entries = entry_b ∷ entry_c ∷ []; max_size = 2 };
  ids = codes "b" ∷ codes "c" ∷ [];
}

tracks : Tracks holding_b_c
unfolding has includes text_eq
tracks = record {
  valid = record { ordered = ((refl, tt), (tt, tt)); bounded = omega arith };
  distinct = ((refl, tt), (tt, tt));
  same = λ id. refl;
}

abbrev entry_d : TelegramEntry
entry_d = record entry_c { id = codes "d"; ts = 40 }

-- the oldest of the buffer makes room for what is loaded
merge_into_buffer-Tracks_example : Tracks (merge_into_buffer (entry_d ∷ entry_b ∷ []) holding_b_c).1
unfolding text_eq
merge_into_buffer-Tracks_example =
    merge_into_buffer-Tracks (entry_d ∷ entry_b ∷ []) holding_b_c tracks ((refl, tt), (tt, tt))

-- a backend with four telegrams, two of them in one millisecond
abbrev twin : TelegramEntry
twin = record entry_b { id = codes "d" }

abbrev rows : List TelegramEntry
rows = entry_c ∷ entry_b ∷ twin ∷ entry_a ∷ []

abbrev fetch : ℕ → ℕ → ℕ → List TelegramEntry × Bool
fetch = answer_of rows

abbrev load : Load
load = record {
  gap_start = 5;
  cursor = 25;
  fetched = 0;
  budget = 100;
  generation = 0;
  skip_buffer_full_break = false;
  max_size = 2;
}

-- a load that is cut off between the two telegrams at 20
abbrev short : Load
short = record load { cursor = 35; budget = 2 }

run-IsShown_example :
    IsShown (run start (live entry_a ∷ pause true ∷ live entry_b ∷ pause false ∷ wipe ∷ []))
run-IsShown_example =
    run-IsShown start (live entry_a ∷ pause true ∷ live entry_b ∷ pause false ∷ wipe ∷ [])
      (inr refl)

-- two telegrams wait
abbrev waiting : Feed
waiting = record holding_b_c { pending = entry_b ∷ entry_c ∷ [] }

clear_during_store_example :
    (let t = (chunk_stored true (entry_b ∷ []) false load (clear holding_b_c)).1 in
      (covers t.coverage.covered 22 ≡ true)
      × (t.buffer.entries ≡ [])
      × (t.generation ≡ holding_b_c.generation + 1))
unfolding oldest_of
clear_during_store_example =
    clear_during_store holding_b_c load (entry_b ∷ []) false 20 22 refl (omega arith) (omega arith)

-- the gap before 15 fails after the one after 25 was loaded
abbrev broken : ℕ → ℕ → ℕ → Option Text
broken from to limit = if ltb to 15 then some (codes "Server error: 503") else none

abbrev partly : Feed
partly = record start { coverage = add_covered start.coverage 15 25 }

-- a backend that always has more, and a cache that refuses
fill_gap_total_example :
    (r : ℕ × Feed × List TelegramEntry) × (fill_gap
        (λ from to limit. (entry_b ∷ [], true))
        (λ l. false)
        26
        load
        start
      ≡ some r)
fill_gap_total_example =
    fill_gap_total (λ from to limit. (entry_b ∷ [], true)) (λ l. false) 26 load start (omega arith)
