-- ===== src/Coverage.antt =====
-- frontend/src/services/telegram-coverage-service.ts: `TelegramCoverageService`, which time ranges
-- have been loaded. A time is a number of epoch milliseconds; an interval is closed. The proofs
-- are in the modules below.
pub mod Points
pub mod Merge
pub mod Gaps
pub mod Shape
pub mod Live
pub mod Refines
mod Tests
use spectrum_knx.Prelude.{
  ℕ, zero, suc, ◌+◌, ◌-◌, max, Bool, true, false, ◌&&◌, Option, none, some, List, [], ◌∷◌, ◌++◌,
  map, ltb, leb, if◌then◌else◌, filter, sort,
}

abbrev pub Interval : Type 0
Interval = ℕ × ℕ

pub record Coverage : Type 0 where
  pub covered : List Interval
  pub live_start : Option ℕ

abbrev pub empty : Coverage
empty = record { covered = []; live_start = none }

-- the comparator of `addCovered`
abbrev pub start_le : Interval → Interval → Bool
start_le (s, _) (t, _) = leb s t

-- The loop of `addCovered`. `last` is the last interval of `merged`, which the loop still extends;
-- the intervals before it are final.
merge_loop : Interval → List Interval → List Interval
merge_loop last [] = last ∷ []
merge_loop (ls, le) ((s, e) ∷ rest) =
    let joined = merge_loop (ls, if ltb le e then e else le) rest in
    let pushed = (ls, le) ∷ merge_loop (s, e) rest in if leb s le then joined else pushed

merge_all : List Interval → List Interval
unfolding merge_loop
merge_all [] = []
merge_all (i ∷ rest) = merge_loop i rest

pub add_covered : Coverage → ℕ → ℕ → Coverage
unfolding merge_all
add_covered c start end =
    if ltb end start
    then c
    else record c { covered = merge_all (sort start_le (c.covered ++ (start, end) ∷ [])) }

-- what follows the loop of `gaps`
last_gap : ℕ → ℕ → List Interval
last_gap cursor end = if leb cursor end then (cursor, end) ∷ [] else []

-- The loop of `gaps`, with what follows it at each way out.
gap_loop : ℕ → ℕ → List Interval → List Interval
unfolding last_gap
gap_loop cursor end [] = last_gap cursor end
gap_loop cursor end ((s, e) ∷ rest) =
    let skipped = gap_loop cursor end rest in
    let moved = max cursor (e + 1) in
    let before = if ltb cursor s then (cursor, s - 1) ∷ [] else [] in
    let stopped = before ++ last_gap moved end in
    let onward = before ++ gap_loop moved end rest in
    if ltb e cursor
    then skipped
    else if ltb end s
    then last_gap cursor end
    else if ltb end moved
    then stopped
    else onward

pub gaps : Coverage → ℕ → ℕ → List Interval
unfolding gap_loop
gaps c start end = if ltb end start then [] else gap_loop start end c.covered

pub is_empty {ℓ} : {A : Type ℓ} → List A → Bool
is_empty [] = true
is_empty (x ∷ xs) = false

pub is_covered : Coverage → ℕ → ℕ → Bool
unfolding is_empty
is_covered c start end = is_empty (gaps c start end)

clip : ℕ → Interval → Interval
clip floor (s, e) = (max s floor, e)

pub clip_live : ℕ → Option ℕ → Option ℕ
clip_live floor none = none
clip_live floor (some t) = some (max t floor)

unfoldable pub trim : Coverage → ℕ → Coverage
unfolding clip clip_live
trim c floor = record {
  covered = map (clip floor) (filter (λ i. leb floor i.1) c.covered);
  live_start = clip_live floor c.live_start;
}

pub anchor : Option ℕ → ℕ → ℕ
anchor none ts = ts
anchor (some t) ts = t

unfoldable pub extend_live : Coverage → ℕ → Coverage
unfolding anchor
extend_live c ts =
    let from = anchor c.live_start ts in
    record (add_covered (record c { live_start = some from }) from ts) { live_start = some ts }

unfoldable pub close_live : Coverage → Coverage
close_live c = record c { live_start = none }

unfoldable pub clear : Coverage → Coverage
clear c = empty
