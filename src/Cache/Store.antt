-- ===== src/Cache/Store.antt =====
-- Writes and reads of frontend/src/services/telegram-cache-service.ts.
use spectrum_knx.Prelude.{
  ℕ, ◌≡◌, refl, ap, ◌∙◌, Bool, true, false, ◌&&◌, List, [], ◌∷◌, map, ltb, leb, length, filter, any,
  sort, IsOrdered, IsOrder, sort-IsOrdered, any-sort, arith, Text, text_eq, text_eq_comm,
  text_eq_refl, filter_cong, filter-filter, max, All-map, All-of, filter-All, sym, includes,
  Pairwise, All, Bool-cases, inl, inr,
}
use spectrum_knx.Telegram.{TelegramEntry, ts_ge}
use spectrum_knx.Cache
use spectrum_knx.Cache.{
  CachedEntry, Pair, KvStore, lookup, written, to_pair, from_pair, load_range, load_all,
  evict_before,
}

pub newest_first : IsOrder ts_ge
newest_first = record { total = λ a b h. ground arith; trans = λ a b c h k. ground arith }

any-map-from_pair :
    (p : TelegramEntry → Bool) (l : List Pair)
    → any p (map from_pair l) ≡ any (λ x. p (from_pair x)) l
any-map-from_pair p [] = refl
any-map-from_pair p (x ∷ l) = ground (arith, any-map-from_pair p l)

any-filter-map :
    (p : TelegramEntry → Bool) (q : Pair → Bool) (l : List Pair)
    → any p (map from_pair (filter q l)) ≡ any (λ x. q x && p (from_pair x)) l
any-filter-map p q [] = refl
any-filter-map p q (x ∷ l) = ground (arith, any-filter-map p q l)

abbrev pub keys_of : List Pair → List Text
keys_of = map (λ (p : Pair). p.0)

abbrev pub DistinctKeys : List Pair → Type 0
DistinctKeys = Pairwise (λ a b. text_eq a.0 b.0 ≡ false)

-- the keys that a test selects, of a list that has no key twice
pub absent_key :
    (k : Text) (q : Pair → Bool) (l : List Pair)
    → All (λ b. text_eq k b.0 ≡ false) l
    → includes (keys_of (filter q l)) k ≡ false
unfolding includes
absent_key k q [] h = refl
absent_key k q ((j, w) ∷ l) h = ground (arith, absent_key k q l h.1, text_eq_comm j k, h.0)

selected_keys :
    (q : Pair → Bool) (l : List Pair)
    → DistinctKeys l
    → All (λ x. includes (keys_of (filter q l)) x.0 ≡ q x) l
unfolding includes
selected_keys q [] d = tt
selected_keys q (x ∷ l) d =
    (ground (arith, absent_key x.0 q l d.0, text_eq_refl x.0), later l d.0 (selected_keys q l d.1))
  where
    later :
        (m : List Pair)
        → All (λ b. text_eq x.0 b.0 ≡ false) m
        → All (λ y. includes (keys_of (filter q l)) y.0 ≡ q y) m
        → All (λ y. includes (keys_of (filter q (x ∷ l))) y.0 ≡ q y) m
    later [] h k = tt
    later (y ∷ m) h k = (ground (arith, h.0, k.0), later m h.1 k.1)

module _ (kv : KvStore) where
  open kv use {Db, entries}

  -- A telegram that was written is read back under its id, and a batch overwrites: the last entry
  -- of an id in the batch is the one kept, and other ids keep what they had.
  pub lookup-store :
      (batch : List TelegramEntry) (db : Db) (id : Text)
      → lookup id (entries (Cache.store kv batch db))
        ≡ written id (map to_pair batch) (lookup id (entries db))
  unfolding Cache.store
  lookup-store [] db id = unfold written in refl
  lookup-store (e ∷ batch) db id = kv.lookup-set_many id (map to_pair (e ∷ batch)) db

  -- A range load returns the entries with a timestamp in the closed range and no others, newest
  -- first.
  pub load_range_lem :
      (start end : ℕ) (db : Db)
      → IsOrdered ts_ge (load_range kv start end db)
        × ((p : TelegramEntry → Bool)
            → any p (load_range kv start end db)
              ≡ any (λ x. leb start x.1.ts && leb x.1.ts end && p (from_pair x)) (entries db))
  unfolding load_range
  load_range_lem start end db = (
    sort-IsOrdered newest_first _,
    λ p.
        any-sort ts_ge p _
        ∙ any-filter-map p (λ x. leb start x.1.ts && leb x.1.ts end) (entries db),
  )

  entries-evict_before :
      (floor : ℕ) (db : Db)
      → entries (evict_before kv floor db) ≡ filter (λ p. leb floor p.1.ts) (entries db)
  unfolding evict_before includes
  entries-evict_before floor db =
      let q : Pair → Bool = λ x. ltb x.1.ts floor in
      let known = selected_keys q (entries db) (kv.entries-distinct db) in
      elim (Bool-cases (ltb 0 (length (keys_of (filter q (entries db)))))) [
        | inl h ↦
            rw (h, kv.entries-del_many)
              (filter_cong _ _ (entries db)
                (All-map _ (entries db) (λ x e. ground (arith, e)) known))
        | inr h ↦
            rw h (sym (filter-All _ (entries db) (All-map _ (entries db) (none_stale _ h) known)))
      ]
    where
      none_stale :
          (keys : List Text)
          → ltb 0 (length keys) ≡ false
          → (x : Pair) → includes keys x.0 ≡ ltb x.1.ts floor
          → leb floor x.1.ts ≡ true
      none_stale [] h x e = ground (arith, e)
      none_stale (k ∷ keys) h x e = absurd (ground arith)

  -- Evicting what is older than `floor` has the effect that every range load starts at `floor` at
  -- the earliest, and no other effect on one.
  pub load_range-evict_before :
      (start end floor : ℕ) (db : Db)
      → load_range kv start end (evict_before kv floor db) ≡ load_range kv (max start floor) end db
  unfolding load_range
  load_range-evict_before start end floor db =
      rw (entries-evict_before floor db, filter-filter)
        (ap (λ l. sort ts_ge (map from_pair l))
          (filter_cong _ _ (entries db) (All-of _ (entries db) (λ x. ground arith))))
