-- ===== src/Buffer.antt =====
-- frontend/src/services/telegram-buffer-service.ts: `TelegramBufferService`, the ring buffer of
-- telegrams in chronological order. A method that changes the buffer returns its result and the
-- new buffer. The proofs are in the modules below.
pub mod Order
pub mod Merge
pub mod Calls
mod Tests
use spectrum_knx.Prelude.{
  ℕ, zero, suc, ◌-◌, Bool, true, false, not, ◌&&◌, ◌||◌, Option, none, some, List, [], ◌∷◌, ◌++◌,
  ltb, leb, ◌==◌, if◌then◌else◌, length, take, drop, filter, any, last?, sort, Text, text_eq,
}
use spectrum_knx.Telegram.{TelegramEntry, ts_le}

pub record Buffer : Type 0 where
  pub entries : List TelegramEntry
  pub max_size : ℕ

abbrev pub init : ℕ → Buffer
init max_size = record { entries = []; max_size = max_size }

-- `entryArray.every((e, i) => i === 0 || entryArray[i - 1].ts <= e.ts)`
new_are_sorted : List TelegramEntry → Bool
new_are_sorted [] = true
new_are_sorted (x ∷ []) = true
new_are_sorted (x ∷ y ∷ rest) = leb x.ts y.ts && new_are_sorted (y ∷ rest)

-- `entryArray[0].ts < lastTs`, where `lastTs` of an empty buffer is -Infinity
before_tail : ℕ → Option TelegramEntry → Bool
before_tail ts none = false
before_tail ts (some tail) = ltb ts tail.ts

-- `splice(0, length - max)` if the buffer is too long: what is removed, and what stays
pub evict : ℕ → List TelegramEntry → List TelegramEntry × List TelegramEntry
evict max_size l =
    let excess = length l - max_size in
    if ltb max_size (length l) then (take excess l, drop excess l) else ([], l)

pub push : List TelegramEntry → List TelegramEntry → List TelegramEntry
unfolding new_are_sorted before_tail
push old [] = old
push old (first ∷ rest) =
    let pushed = old ++ (first ∷ rest) in
    let sorted = sort ts_le pushed in
    if not (new_are_sorted (first ∷ rest)) || before_tail first.ts (last? old)
    then sorted
    else pushed

unfoldable pub add : Buffer → List TelegramEntry → List TelegramEntry × Buffer
add b [] = ([], b)
add b (first ∷ rest) =
    let (removed, kept) = evict b.max_size (push b.entries (first ∷ rest)) in
    (removed, record b { entries = kept })

unfoldable pub has : Buffer → Text → Bool
has b id = any (λ e. text_eq e.id id) b.entries

-- the entries of a batch whose ids are not in the buffer, in order
pub unique : Buffer → List TelegramEntry → List TelegramEntry
unique b batch = sort ts_le (filter (λ e. not (has b e.id)) batch)

-- (added, removed) and the new buffer
unfoldable pub merge :
    Buffer → List TelegramEntry → (List TelegramEntry × List TelegramEntry) × Buffer
merge b batch =
    let added = unique b batch in let (removed, b') = add b added in ((added, removed), b')

unfoldable pub set_max_size : Buffer → ℕ → List TelegramEntry × Buffer
set_max_size b size =
    let (removed, kept) = evict size b.entries in
    (removed, record { entries = kept; max_size = size })

pub oldest_ts : Buffer → Option ℕ
oldest_ts b = elim b.entries [ [] ↦ none | first ∷ rest ↦ some first.ts ]

unfoldable pub clear : Buffer → List TelegramEntry × Buffer
clear b = (b.entries, record b { entries = [] })
