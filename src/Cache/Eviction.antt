-- ===== src/Cache/Eviction.antt =====
-- `evictToSize` of frontend/src/services/telegram-cache-service.ts.
use spectrum_knx.Prelude.{
  ℕ, zero, suc, ◌-◌, ◌≤◌, min, ◌≡◌, refl, ap, sym, ◌∙◌, Bool, true, false, not, List, [], ◌∷◌, ltb,
  leb, if◌then◌else◌, length, take, drop, get_elem?, filter, sort, IsOrder, arith, Text, text_eq,
  text_eq_comm, text_eq_refl, includes, Pairwise-sort, All, All-drop, Bool-cases, inl, inr,
  filter-sort, filter-append, filter-All, filter_none, take-append-drop, length-drop, length-sort,
  All-map, All-of, not-leb→lt, leb→le,
}
use spectrum_knx.Cache.{
  Pair, KvStore, Evicted, not_needed, oldest, type_error, surviving, pair_le, evict_to_size,
}
use spectrum_knx.Cache.Store.{keys_of, DistinctKeys}

pair-IsOrder : IsOrder pair_le
pair-IsOrder = record { total = λ a b h. ground arith; trans = λ a b c h k. ground arith }

-- the first entries of a list without their keys' entries, and the others
abbrev kept_by : List Text → Pair → Bool
kept_by keys x = not (includes keys x.0)

take_gone : (n : ℕ) (l : List Pair) → All (λ x. kept_by (keys_of (take n l)) x ≡ false) (take n l)
unfolding includes
take_gone zero l = tt
take_gone (suc n) [] = tt
take_gone (suc n) (x ∷ l) = (
  ground (arith, text_eq_refl x.0),
  All-map _ (take n l) (λ y e. ground (arith, e)) (take_gone n l),
)

drop_kept :
    (n : ℕ) (l : List Pair)
    → DistinctKeys l
    → All (λ x. kept_by (keys_of (take n l)) x ≡ true) (drop n l)
unfolding includes
drop_kept zero l d = All-of _ l (λ x. refl)
drop_kept (suc n) [] d = tt
drop_kept (suc n) (x ∷ l) d = both (drop n l) (All-drop _ n l d.0) (drop_kept n l d.1)
  where
    both :
        (m : List Pair)
        → All (λ b. text_eq x.0 b.0 ≡ false) m
        → All (λ y. kept_by (keys_of (take n l)) y ≡ true) m
        → All (λ y. kept_by (keys_of (x ∷ take n l)) y ≡ true) m
    both [] h k = tt
    both (y ∷ m) h k = (ground (arith, h.0, k.0), both m h.1 k.1)

-- without the keys of the first `n` entries, the others are left
filter-drop :
    (n : ℕ) (l : List Pair) → DistinctKeys l → filter (kept_by (keys_of (take n l))) l ≡ drop n l
filter-drop n l d =
    ap (filter (kept_by (keys_of (take n l)))) (sym (take-append-drop n l))
    ∙ filter-append (kept_by (keys_of (take n l))) (take n l) (drop n l)
    ∙ rw (filter_none _ (take n l) (take_gone n l)) (filter-All _ (drop n l) (drop_kept n l d))

key_sym : (a b : Pair) → text_eq a.0 b.0 ≡ false → text_eq b.0 a.0 ≡ false
key_sym a b h = text_eq_comm b.0 a.0 ∙ h

-- the oldest timestamp of a list in order, if it has an entry
pub first_ts : List Pair → Evicted
first_ts [] = type_error
first_ts (x ∷ l) = oldest x.1.ts

surviving-drop : (n : ℕ) (l : List Pair) → surviving (get_elem? l n) ≡ first_ts (drop n l)
unfolding surviving first_ts
surviving-drop zero [] = refl
surviving-drop zero (x ∷ l) = refl
surviving-drop (suc n) [] = refl
surviving-drop (suc n) (x ∷ l) = surviving-drop n l

within : (limit n : ℕ) → leb n limit ≡ true → ltb limit n ≡ false
within limit n h = ground arith

over : (limit n : ℕ) → leb n limit ≡ false → ltb limit n ≡ true
over limit n h = ground arith

module _ (kv : KvStore) where
  open kv use {Db, entries}

  -- When the cache is over its limit, the entries left are the newest `max_count`, in order of time;
  -- the oldest of them is reported; when the cache is within its limit, it is left as it is.
  pub evict_to_size_lem :
      (max_count : ℕ) (db : Db)
      → (sort pair_le (entries (evict_to_size kv max_count db).1)
          ≡ drop (length (entries db) - max_count) (sort pair_le (entries db)))
        × (length (entries (evict_to_size kv max_count db).1) ≡ min max_count (length (entries db)))
        × ((evict_to_size kv max_count db).0 ≡ (
            if ltb max_count (length (entries db))
            then first_ts (sort pair_le (entries (evict_to_size kv max_count db).1))
            else not_needed))
  unfolding evict_to_size
  evict_to_size_lem max_count db = elim (Bool-cases (leb (length (entries db)) max_count)) [
    | inl h ↦
        rw (h, within max_count _ h)
          (rw (fits _ _ (leb→le _ _ h)), omega (arith, leb→le _ _ h), refl)
    | inr h ↦
        rw (h, over max_count _ h, kv.entries-del_many)
          (
            survivors,
            sym (length-sort pair_le _)
                ∙ ap length survivors
                ∙ length-drop excess all
                ∙ rw length-sort (omega (arith, not-leb→lt _ _ h)),
            surviving-drop excess all ∙ ap first_ts (sym survivors),
          )
  ]
    where
      all : List Pair
      all = sort pair_le (entries db)

      excess : ℕ
      excess = length (entries db) - max_count

      survivors :
          sort pair_le (filter (kept_by (keys_of (take excess all))) (entries db)) ≡ drop excess all
      survivors =
          sym (filter-sort pair-IsOrder (kept_by (keys_of (take excess all))) (entries db))
          ∙ filter-drop excess all
              (Pairwise-sort pair_le _ key_sym (entries db) (kv.entries-distinct db))

      fits : (a b : ℕ) → a ≤ b → a - b ≡ 0
      fits a b h = omega arith
