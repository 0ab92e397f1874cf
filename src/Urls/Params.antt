-- ===== src/Urls/Params.antt =====
-- Lists and parameters in the query strings survive a round trip.
use spectrum_knx.Prelude.{
  ◌≡◌, refl, ap, ◌∙◌, true, false, Option, none, some, List, [], ◌∷◌, ◌++◌, ltb, ◌==◌,
  if◌then◌else◌, length, any, Text, text_eq, get, get-put, arith, All, filter-All,
}
use spectrum_knx.Urls.{Params, set_some, set_all, join, before_first, split, list, list_param}

-- the new value if there is one, and the old one otherwise
unfoldable pub or_old : Option Text → Option Text → Option Text
or_old none old = old
or_old (some v) old = some v

-- what a table of settings leaves at a key, from what was there
unfoldable pub found : List (Text × Option Text) → Text → Option Text → Option Text
found [] key old = old
found ((k, o) ∷ table) key old = found table key (if text_eq k key then or_old o old else old)

get-set_some :
    (k : Text) (o : Option Text) (p : Params) (key : Text)
    → get (set_some k o p) key ≡ (if text_eq k key then or_old o (get p key) else get p key)
unfolding set_some or_old
get-set_some k none p key = ground arith
get-set_some k (some v) p key = get-put k v p key

pub get-set_all :
    (table : List (Text × Option Text)) (p : Params) (key : Text)
    → get (set_all table p) key ≡ found table key (get p key)
unfolding set_all found
get-set_all [] p key = refl
get-set_all ((k, o) ∷ table) p key =
    get-set_all table (set_some k o p) key ∙ ap (found table key) (get-set_some k o p key)

-- an item of a list: not empty, and without a comma
abbrev pub IsItem : Text → Type 0
IsItem s = (ltb 0 (length s) ≡ true) × (any (λ c. c == b',') s ≡ false)

split-item : (s : Text) → any (λ c. c == b',') s ≡ false → split b',' s ≡ s ∷ []
unfolding split before_first
split-item [] h = refl
split-item (c ∷ s) h =
    let here : (c == b',') ≡ false = ground (arith, h) in
    rw (here, split-item s (ground (arith, h)))

split-append :
    (s t : Text) → any (λ c. c == b',') s ≡ false → split b',' (s ++ (b',' ∷ t)) ≡ s ∷ split b',' t
unfolding split before_first
split-append [] t h = refl
split-append (c ∷ s) t h =
    let here : (c == b',') ≡ false = ground (arith, h) in
    rw (here, split-append s t (ground (arith, h)))

split-join :
    (x : Text) (items : List Text)
    → All IsItem (x ∷ items)
    → split b',' (join (x ∷ items)) ≡ x ∷ items
unfolding join
split-join x [] h = split-item x h.0.1
split-join x (y ∷ items) h =
    split-append x (join (y ∷ items)) h.0.1 ∙ ap (◌∷◌ x) (split-join y items h.1)

join_some : (x : Text) (items : List Text) → IsItem x → ltb 0 (length (join (x ∷ items))) ≡ true
unfolding join
join_some [] items h = cc h.0
join_some (c ∷ x) [] h = ground arith
join_some (c ∷ x) (y ∷ items) h = ground arith

items_kept : (items : List Text) → All IsItem items → All (λ s. ltb 0 (length s) ≡ true) items
items_kept [] h = tt
items_kept (x ∷ items) h = (h.0.0, items_kept items h.1)

pub list-list_param :
    (items : List Text) → All IsItem items → list (or_old (list_param items) none) ≡ items
unfolding list list_param or_old
list-list_param [] h = refl
list-list_param (x ∷ items) h =
    rw (join_some x items h.0, split-join x items h)
      (filter-All _ (x ∷ items) (items_kept (x ∷ items) h))
