-- ===== src/Cache/Tests.antt =====
-- Runs of the cache over an association list, and its theorems there.
use spectrum_knx.Prelude.{
  ◌-◌, ◌≡◌, refl, [], ◌∷◌, length, min, drop, map, sort, text_eq, includes, codes, ltb,
  if◌then◌else◌,
}
use spectrum_knx.Telegram.Samples.{entry_a, entry_b, entry_c}
use spectrum_knx.Cache.{
  KvStore, lookup, written, to_pair, from_pair, surviving, not_needed, pair_le, store, load_range,
  load_all, evict_before, evict_to_size, oldest,
}
use spectrum_knx.Cache.Store.{lookup-store}
use spectrum_knx.Cache.Eviction.{first_ts, evict_to_size_lem}
use spectrum_knx.Cache.Model.{Table, table_store, put, put_all}

abbrev kv : KvStore
kv = table_store

program : Unit {0}
unfolding put put_all to_pair from_pair surviving store load_range load_all evict_before
    evict_to_size sort text_eq includes
program = tt

abbrev nothing : Table
nothing = ([], tt)

newest_first_of_range :
    load_range kv 15 40 (store kv (entry_a ∷ entry_b ∷ entry_c ∷ []) nothing)
    ≡ entry_c ∷ entry_b ∷ []
unfolding program
newest_first_of_range = refl

evicts_oldest :
    (evict_to_size kv 2 (store kv (entry_a ∷ entry_b ∷ entry_c ∷ []) nothing)).0 ≡ oldest 20
unfolding program
evicts_oldest = refl

lookup-store_example :
    lookup (codes "a") (kv.entries (store kv (entry_a ∷ []) nothing))
    ≡ written (codes "a") (map to_pair (entry_a ∷ [])) (lookup (codes "a") (kv.entries nothing))
lookup-store_example = lookup-store kv (entry_a ∷ []) nothing (codes "a")

abbrev three : Table
unfolding program
three = store kv (entry_a ∷ entry_b ∷ entry_c ∷ []) nothing

evict_to_size_lem_example :
    (sort pair_le (kv.entries (evict_to_size kv 2 three).1)
      ≡ drop (length (kv.entries three) - 2) (sort pair_le (kv.entries three)))
    × (length (kv.entries (evict_to_size kv 2 three).1) ≡ min 2 (length (kv.entries three)))
    × ((evict_to_size kv 2 three).0 ≡ (
        if ltb 2 (length (kv.entries three))
        then first_ts (sort pair_le (kv.entries (evict_to_size kv 2 three).1))
        else not_needed))
evict_to_size_lem_example = evict_to_size_lem kv 2 three
