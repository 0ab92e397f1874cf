-- ===== src/Cache/Model.antt =====
-- A store of key-value pairs that meets what `KvStore` asks of idb-keyval: an association list.
use spectrum_knx.Prelude.{
  ◌≡◌, refl, ◌∙◌, ap, false, not, some, List, [], ◌∷◌, if◌then◌else◌, arith, filter, Text, text_eq,
  text_eq_iff, includes, Pairwise-filter, All, Bool-cases, inl, inr,
}
use spectrum_knx.Cache.{CachedEntry, Pair, KvStore, lookup, written}
use spectrum_knx.Cache.Store.{DistinctKeys}

unfoldable pub put : Pair → List Pair → List Pair
put x [] = x ∷ []
put x (y ∷ l) = if text_eq y.0 x.0 then x ∷ l else y ∷ put x l

unfoldable pub put_all : List Pair → List Pair → List Pair
put_all [] l = l
put_all (x ∷ xs) l = put_all xs (put x l)

lookup-put :
    (k j : Text) (v : CachedEntry) (l : List Pair)
    → lookup k (put (j, v) l) ≡ (if text_eq j k then some v else lookup k l)
unfolding lookup put
lookup-put k j v [] = refl
lookup-put k j v ((i, w) ∷ l) =
    ground (arith, lookup-put k j v l, text_eq_iff i j, text_eq_iff j k, text_eq_iff i k)

pub lookup-put_all :
    (k : Text) (xs l : List Pair) → lookup k (put_all xs l) ≡ written k xs (lookup k l)
unfolding put_all written
lookup-put_all k [] l = refl
lookup-put_all k ((j, v) ∷ xs) l =
    lookup-put_all k xs (put (j, v) l) ∙ ap (written k xs) (lookup-put k j v l)

All-put :
    (k : Text) (x : Pair) (l : List Pair)
    → text_eq k x.0 ≡ false
    → All (λ b. text_eq k b.0 ≡ false) l
    → All (λ b. text_eq k b.0 ≡ false) (put x l)
unfolding put
All-put k x [] h a = (h, tt)
All-put k x (y ∷ l) h a = elim (Bool-cases (text_eq y.0 x.0)) [
  | inl e ↦ rw e (h, a.1)
  | inr e ↦ rw e (a.0, All-put k x l h a.1)
]

put-DistinctKeys : (x : Pair) (l : List Pair) → DistinctKeys l → DistinctKeys (put x l)
unfolding put
put-DistinctKeys x [] d = (tt, tt)
put-DistinctKeys x (y ∷ l) d = elim (Bool-cases (text_eq y.0 x.0)) [
  | inl e ↦ rw e (rw ((text_eq_iff y.0 x.0).0 e) at d.0, d.1)
  | inr e ↦ rw e (All-put y.0 x l e d.0, put-DistinctKeys x l d.1)
]

pub put_all-DistinctKeys : (xs l : List Pair) → DistinctKeys l → DistinctKeys (put_all xs l)
unfolding put_all
put_all-DistinctKeys [] l d = d
put_all-DistinctKeys (x ∷ xs) l d = put_all-DistinctKeys xs (put x l) (put-DistinctKeys x l d)

abbrev pub Table : Type 0
Table = (l : List Pair) × DistinctKeys l

abbrev pub table_store : KvStore
table_store = record {
  Db = Table;
  entries = λ db. db.0;
  set_many = λ pairs db. (put_all pairs db.0, put_all-DistinctKeys pairs db.0 db.1);
  del_many = λ keys db. (
    filter (λ p. not (includes keys p.0)) db.0,
    Pairwise-filter _ (λ p. not (includes keys p.0)) db.0 db.1,
  );
  clear = λ db. ([], tt);
  entries-distinct = λ db. db.1;
  lookup-set_many = λ k pairs db. lookup-put_all k pairs db.0;
  entries-del_many = λ keys db. refl;
  entries-clear = λ db. refl;
}
