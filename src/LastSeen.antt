-- ===== src/LastSeen.antt =====
-- The panel of the last telegrams to some addresses: frontend/src/components/LastSeenOverlay.tsx, with
-- frontend/src/utils/knxAddress.ts. A request is answered some time after it was sent, so the requests
-- under way are part of the state. The sends to the bus and the time of the last answer are left;
-- `get_time` is the host's, for texts that are dates.
pub mod Bounds
pub mod Late
mod Tests
use spectrum_knx.Prelude.{
  ℕ, zero, suc, ◌+◌, Bool, true, false, not, ◌&&◌, ◌||◌, Option, none, some, List, [], ◌∷◌, ◌++◌,
  ltb, ◌==◌, if◌then◌else◌, length, take, filter, any, all, sort, last?, get_elem?, map, Text,
  text_eq, includes,
}
use spectrum_knx.Telegram.{Telegram}
use spectrum_knx.Sorting.{Sign, same, or_then, compare_numbers, is_not_after}
use spectrum_knx.Urls.{split}
use spectrum_knx.Urls.Workspace.{LastSeenMode, ga, pa}
use spectrum_knx.Table.Marks.{distance}

-- what is asked for
pub record Request : Type 0 where
  pub mode : LastSeenMode
  pub addresses : List Text
  pub limit : ℕ

pub record LastSeen : Type 0 where
  pub mode : LastSeenMode
  pub selected_addresses : List Text
  pub limit : ℕ
  pub search : Text
  pub telegrams : List Telegram
  pub is_loading : Bool
  pub pending_count : ℕ
  pub auto_refresh : Bool
  -- `wasLiveRef`
  pub was_live : Bool
  pub under_way : List Request

unfoldable pub fetch_data : LastSeen → LastSeen
fetch_data s =
    let request : Request = record {
      mode = s.mode;
      addresses = s.selected_addresses;
      limit = s.limit;
    } in
    if length s.selected_addresses == 0
    then s
    else record s { is_loading = true; under_way = s.under_way ++ request ∷ [] }

-- the answer to a request, none for a network error
unfoldable pub answered : Option (List Telegram) → LastSeen → LastSeen
answered none s = record s { is_loading = false }
answered (some telegrams) s = record s {
  telegrams = telegrams;
  pending_count = 0;
  is_loading = false;
}

-- the effect of the switch between live and frozen, after it was set
unfoldable pub set_auto_refresh : Bool → LastSeen → LastSeen
set_auto_refresh live s =
    let set = record s { auto_refresh = live } in
    let next = if live && not s.was_live then fetch_data set else set in
    record next { was_live = live }

-- `timestamp.endsWith('Z') || timestamp.includes('+') ? timestamp : timestamp + 'Z'`
ends_with_z : Option ℕ → Bool
ends_with_z none = false
ends_with_z (some c) = c == b'Z'

unfoldable pub with_zone : Text → Text
unfolding ends_with_z
with_zone s = if ends_with_z (last? s) || any (λ c. c == b'+') s then s else s ++ b'Z' ∷ []

unfoldable pub is_selected : LastSeen → Telegram → Bool
is_selected s t = elim s.mode [
  | ga ↦ includes s.selected_addresses t.target_address
  | pa ↦ includes s.selected_addresses t.source_address
]

same_mode : LastSeenMode → LastSeenMode → Bool
same_mode ga ga = true
same_mode pa pa = true
same_mode _ _ = false

module _ (get_time : Text → ℕ) where
  abbrev pub time_of : Telegram → ℕ
  time_of t = get_time (with_zone t.timestamp)

  -- of the same source and target, less than a second apart
  unfoldable pub is_same : Telegram → Telegram → Bool
  is_same latest t =
      ltb (distance (time_of t) (time_of latest)) 1000
      && (text_eq t.source_address latest.source_address
          && text_eq t.target_address latest.target_address)

  unfoldable pub shown_with : ℕ → Telegram → List Telegram → List Telegram
  shown_with limit latest telegrams =
      if any (is_same latest) telegrams then telegrams else take limit (latest ∷ telegrams)

  -- the effect that a telegram has on arrival
  unfoldable pub arrive : Telegram → LastSeen → LastSeen
  arrive latest s =
      if is_selected s latest && not s.auto_refresh
      then record s { pending_count = s.pending_count + 1 }
      else if is_selected s latest
      then record s { telegrams = shown_with s.limit latest s.telegrams }
      else s

  -- The effects of a change of what is shown: it is fetched, and the last telegram that has arrived
  -- is taken in once more.
  unfoldable pub after_change : Option Telegram → LastSeen → LastSeen
  after_change none s = fetch_data s
  after_change (some latest) s = arrive latest (fetch_data s)

  unfoldable pub set_limit : Option Telegram → ℕ → LastSeen → LastSeen
  set_limit latest limit s =
      if limit == s.limit then s else after_change latest (record s { limit = limit })

  -- `known` are the addresses of the new mode
  unfoldable pub handle_mode_change :
      Option Telegram → LastSeenMode → List Text → LastSeen → LastSeen
  unfolding same_mode
  handle_mode_change latest mode known s =
      let kept = record s { mode = mode; search = [] } in
      let reset = record s { mode = mode; search = []; selected_addresses = take 1 known } in
      if not (all (includes known) s.selected_addresses)
      then after_change latest reset
      else if same_mode mode s.mode
      then kept
      else after_change latest kept

  unfoldable pub goto_address : Option Telegram → Text → LastSeenMode → LastSeen → LastSeen
  goto_address latest address mode s =
      after_change latest (record s { mode = mode; selected_addresses = address ∷ []; search = [] })

-- the difference of the first parts that differ; a missing part is 0
unfoldable pub compare_parts : List ℕ → List ℕ → Sign
compare_parts [] [] = same
compare_parts [] (b ∷ others) = or_then (compare_numbers 0 b) (compare_parts [] others)
compare_parts (a ∷ rest) [] = or_then (compare_numbers a 0) (compare_parts rest [])
compare_parts (a ∷ rest) (b ∷ others) = or_then (compare_numbers a b) (compare_parts rest others)

-- `number` is the host's `Number`, for parts that are natural numbers
unfoldable pub compare_knx_address : (Text → ℕ) → Text → Text → Sign
compare_knx_address number a b =
    let separator = if any (λ c. c == b'/') a then b'/' else b'.' in
    compare_parts (map number (split separator a)) (map number (split separator b))

pub record FilterOption : Type 0 where
  pub address : Text
  pub name : Text

-- `lower` and `includes` of texts are the host's
unfoldable pub filtered_addresses :
    (Text → ℕ) → (Text → Text) → (Text → Text → Bool) → Text → List FilterOption → List FilterOption
filtered_addresses number lower contains search options =
    sort (λ (a b : FilterOption). is_not_after (compare_knx_address number a.address b.address))
      (filter
        (λ (a : FilterOption).
          contains (lower a.address) (lower search) || contains (lower a.name) (lower search))
        options)
