-- ===== src/Cache.antt =====
-- frontend/src/services/telegram-cache-service.ts: `TelegramCacheService`, the telegrams kept in
-- IndexedDB. The database is the library idb-keyval, which is a parameter: `KvStore` has its
-- operations and what its documentation says of them. An operation here is one that succeeds.
pub mod Store
pub mod Eviction
pub mod Model
mod Tests
use spectrum_knx.Prelude.{
  ℕ, ◌-◌, ◌≡◌, Bool, true, false, not, ◌&&◌, Option, none, some, List, [], ◌∷◌, map, ltb, leb,
  if◌then◌else◌, length, take, filter, get_elem?, sort, Text, text_eq, includes, Pairwise,
}
use spectrum_knx.Telegram.{Telegram, TelegramEntry, ts_ge}

pub record CachedEntry : Type 0 where
  pub ts : ℕ
  pub telegram : Telegram

abbrev pub Pair : Type 0
Pair = Text × CachedEntry

-- the value of a key, and the value that a batch of writes leaves at a key: the last one
unfoldable pub lookup : Text → List Pair → Option CachedEntry
lookup k [] = none
lookup k ((j, v) ∷ l) = if text_eq j k then some v else lookup k l

unfoldable pub written : Text → List Pair → Option CachedEntry → Option CachedEntry
written k [] old = old
written k ((j, v) ∷ l) old = written k l (if text_eq j k then some v else old)

-- idb-keyval on one store: no key twice, writes in order, deletions leave the others in place
pub record KvStore : Type 1 where
  pub Db : Type 0
  pub entries : Db → List Pair
  pub set_many : List Pair → Db → Db
  pub del_many : List Text → Db → Db
  pub clear : Db → Db
  pub entries-distinct : (db : Db) → Pairwise (λ a b. text_eq a.0 b.0 ≡ false) (entries db)
  pub lookup-set_many :
      (k : Text) (pairs : List Pair) (db : Db)
      → lookup k (entries (set_many pairs db)) ≡ written k pairs (lookup k (entries db))
  pub entries-del_many :
      (keys : List Text) (db : Db)
      → entries (del_many keys db) ≡ filter (λ p. not (includes keys p.0)) (entries db)
  pub entries-clear : (db : Db) → entries (clear db) ≡ []

abbrev pub max_cache_size : ℕ
max_cache_size = 100000

pub to_pair : TelegramEntry → Pair
to_pair e = (e.id, record { ts = e.ts; telegram = e.telegram })

pub from_pair : Pair → TelegramEntry
from_pair (id, entry) = record { id = id; ts = entry.ts; telegram = entry.telegram }

-- the comparator of `evictToSize`
abbrev pub pair_le : Pair → Pair → Bool
pair_le a b = leb a.1.ts b.1.ts

-- what `evictToSize` returns; with a `maxCount` of 0 it reads past the end of the array
pub data Evicted : Type 0 where
  not_needed : Evicted
  oldest : ℕ → Evicted
  type_error : Evicted

surviving : Option Pair → Evicted
surviving none = type_error
surviving (some (id, entry)) = oldest entry.ts

module _ (kv : KvStore) where
  open kv use {Db, entries, set_many, del_many}

  pub store : List TelegramEntry → Db → Db
  store [] db = db
  store (e ∷ batch) db = set_many (map to_pair (e ∷ batch)) db

  pub load_range : ℕ → ℕ → Db → List TelegramEntry
  load_range start end db =
      sort ts_ge (map from_pair (filter (λ p. leb start p.1.ts && leb p.1.ts end) (entries db)))

  pub load_all : Db → List TelegramEntry
  load_all db = sort ts_ge (map from_pair (entries db))

  pub evict_before : ℕ → Db → Db
  evict_before floor db =
      let stale = map (λ (p : Pair). p.0) (filter (λ p. ltb p.1.ts floor) (entries db)) in
      if ltb 0 (length stale) then del_many stale db else db

  pub evict_to_size : ℕ → Db → Evicted × Db
  evict_to_size max_count db =
      let all = sort pair_le (entries db) in
      let excess = length (entries db) - max_count in
      let evicted = map (λ (p : Pair). p.0) (take excess all) in
      if leb (length (entries db)) max_count
      then (not_needed, db)
      else (surviving (get_elem? all excess), del_many evicted db)

  pub count : Db → ℕ
  count db = length (entries db)

  pub clear : Db → Db
  clear db = kv.clear db
