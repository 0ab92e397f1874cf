-- ===== src/Filters/Disabled.antt =====
-- Switching single filter entries off and on, in frontend/src/types/filters.ts.
use spectrum_knx.Prelude.{
  includes-append, includes-toggle_text, ◌≡◌, refl, ap, sym, ◌∙◌, Bool, true, false, not, ◌&&◌,
  List, [], ◌∷◌, ◌++◌, map, ◌==◌, if◌then◌else◌, length, filter, Text, text_eq, text_eq_refl,
  text_eq_iff, includes, if_false, All, All-map, filter_cong, filter-All, All-of, arith, Bool-cases,
  inl, inr,
}
use spectrum_knx.Filters.{
  ActiveFilters, FilterCategory, sources, targets, types, directions, dpts, category_name,
  selection, filter_key, is_filter_disabled, toggle_filter_disabled, selected_keys, prune_disabled,
  switched_on, keys_of, enabled_filters,
}

-- the same category
abbrev pub same_category : FilterCategory → FilterCategory → Bool
same_category c d = text_eq (category_name c) (category_name d)

text_eq-append : (s u v : Text) → text_eq (s ++ u) (s ++ v) ≡ text_eq u v
unfolding text_eq
text_eq-append [] u v = refl
text_eq-append (a ∷ s) u v = ground (arith, text_eq-append s u v)

-- the key tells both the category and the value
text_eq-filter_key :
    (c d : FilterCategory) (v w : Text)
    → text_eq (filter_key c v) (filter_key d w) ≡ (same_category c d && text_eq v w)
unfolding filter_key text_eq
text_eq-filter_key sources sources v w = refl
text_eq-filter_key sources targets v w = refl
text_eq-filter_key sources types v w = refl
text_eq-filter_key sources directions v w = refl
text_eq-filter_key sources dpts v w = refl
text_eq-filter_key targets sources v w = refl
text_eq-filter_key targets targets v w = refl
text_eq-filter_key targets types v w = refl
text_eq-filter_key targets directions v w = refl
text_eq-filter_key targets dpts v w = refl
text_eq-filter_key types sources v w = refl
text_eq-filter_key types targets v w = refl
text_eq-filter_key types types v w = refl
text_eq-filter_key types directions v w = refl
text_eq-filter_key types dpts v w = refl
text_eq-filter_key directions sources v w = refl
text_eq-filter_key directions targets v w = refl
text_eq-filter_key directions types v w = refl
text_eq-filter_key directions directions v w = refl
text_eq-filter_key directions dpts v w = refl
text_eq-filter_key dpts sources v w = refl
text_eq-filter_key dpts targets v w = refl
text_eq-filter_key dpts types v w = refl
text_eq-filter_key dpts directions v w = refl
text_eq-filter_key dpts dpts v w = refl

-- Toggling an entry flips whether it is switched off, and touches no other entry.
pub disabled-toggle :
    (f : ActiveFilters) (c d : FilterCategory) (v w : Text)
    → is_filter_disabled (toggle_filter_disabled f c v) d w ≡ (
        if same_category c d && text_eq v w
        then not (is_filter_disabled f d w)
        else is_filter_disabled f d w)
unfolding is_filter_disabled toggle_filter_disabled
disabled-toggle f c d v w =
    includes-toggle_text f.disabled (filter_key c v) (filter_key d w)
    ∙ ap
        (λ b.
          if b
          then not (includes f.disabled (filter_key d w))
          else includes f.disabled (filter_key d w))
        (text_eq-filter_key c d v w)

includes-filter :
    (p : Text → Bool) (l : List Text) (k : Text) → includes (filter p l) k ≡ (includes l k && p k)
unfolding includes
includes-filter p [] k = refl
includes-filter p (x ∷ l) k = elim (Bool-cases (text_eq x k)) [
  | inl e ↦
      let same = (text_eq_iff x k).0 e in
      rw same (ground (arith, includes-filter p l k, text_eq_refl k))
  | inr e ↦ ground (arith, includes-filter p l k, e)
]

All-keys :
    (c : FilterCategory) (l : List Text)
    → All (λ v. includes (map (filter_key c) l) (filter_key c v) ≡ true) l
unfolding includes
All-keys c [] = tt
All-keys c (v ∷ l) = (
  ground (arith, text_eq_refl (filter_key c v)),
  All-map _ l (λ w h. ground (arith, h)) (All-keys c l),
)

append_left : (s t : List Text) (k : Text) → includes s k ≡ true → includes (s ++ t) k ≡ true
append_left s t k h = ground (arith, h, includes-append s t k)

append_right : (s t : List Text) (k : Text) → includes t k ≡ true → includes (s ++ t) k ≡ true
append_right s t k h = ground (arith, h, includes-append s t k)

among :
    (f : ActiveFilters) (c : FilterCategory) (k : Text)
    → includes (keys_of f c) k ≡ true
    → includes (selected_keys f) k ≡ true
unfolding selected_keys
among f sources k h = append_left (keys_of f sources) _ k h
among f targets k h = append_right (keys_of f sources) _ k (append_left (keys_of f targets) _ k h)
among f types k h =
    append_right (keys_of f sources) _ k
      (append_right (keys_of f targets) _ k (append_left (keys_of f types) _ k h))
among f directions k h = append_right (keys_of f sources) _ k (
    append_right (keys_of f targets) _ k
      (append_right (keys_of f types) _ k (append_left (keys_of f directions) _ k h)))
among f dpts k h = append_right (keys_of f sources) _ k (
    append_right (keys_of f targets) _ k
      (append_right (keys_of f types) _ k (append_right (keys_of f directions) _ k h)))

-- the keys of a category's entries are among those of all
All-selected :
    (f : ActiveFilters) (c : FilterCategory)
    → All (λ v. includes (selected_keys f) (filter_key c v) ≡ true) (selection f c)
All-selected f c =
    All-map _ (selection f c) (λ v h. among f c (filter_key c v) h) (All-keys c (selection f c))

-- markers of entries that are not selected switch nothing off
switched_on-kept :
    (f : ActiveFilters) (c : FilterCategory)
    → filter
        (λ v. not (includes (filter (includes (selected_keys f)) f.disabled) (filter_key c v)))
        (selection f c)
      ≡ switched_on f c
switched_on-kept f c = filter_cong _ _ (selection f c) (
    All-map _ (selection f c)
      (λ v h.
        ground (arith, h, includes-filter (includes (selected_keys f)) f.disabled (filter_key c v)))
      (All-selected f c))

-- the filters with these entries switched off
abbrev on_without : ActiveFilters → List Text → ActiveFilters
on_without f off = record f {
  sources = filter (λ v. not (includes off (filter_key sources v))) f.sources;
  targets = filter (λ v. not (includes off (filter_key targets v))) f.targets;
  types = filter (λ v. not (includes off (filter_key types v))) f.types;
  directions = filter (λ v. not (includes off (filter_key directions v))) f.directions;
  dpts = filter (λ v. not (includes off (filter_key dpts v))) f.dpts;
  disabled = [];
}

-- with nothing switched off, the filters are as they are
enabled-marked :
    (f : ActiveFilters) (off : List Text)
    → enabled_filters (record f { disabled = off }) ≡ on_without f off
unfolding enabled_filters includes
enabled-marked f (k ∷ off) = if_false (length (k ∷ off) == 0) _ _ (ground arith)
enabled-marked f [] =
    rw (whole f.sources, whole f.targets, whole f.types, whole f.directions, whole f.dpts)
  where
    whole : (l : List Text) → filter (λ v. true) l ≡ l
    whole l = filter-All (λ v. true) l (All-of _ l (λ v. refl))

-- Dropping the markers of entries that are no longer selected leaves the filters in effect as they
-- are.
pub enabled-prune : (f : ActiveFilters) → enabled_filters (prune_disabled f) ≡ enabled_filters f
unfolding prune_disabled
enabled-prune f = go (length f.disabled == 0) (length kept == length f.disabled)
  where
    kept : List Text
    kept = filter (includes (selected_keys f)) f.disabled

    dropped : enabled_filters (record f { disabled = kept }) ≡ enabled_filters f
    dropped =
        enabled-marked f kept
        ∙ rw
            (
              switched_on-kept f sources,
              switched_on-kept f targets,
              switched_on-kept f types,
              switched_on-kept f directions,
              switched_on-kept f dpts,
            )
            (sym (enabled-marked f f.disabled))

    go :
        (a b : Bool)
        → enabled_filters (if a then f else if b then f else record f { disabled = kept })
          ≡ enabled_filters f
    go true b = refl
    go false true = refl
    go false false = dropped

pub enabled-delta :
    (f : ActiveFilters) → (enabled_filters f).delta_context_enabled ≡ f.delta_context_enabled
unfolding enabled_filters
enabled-delta f = elim (Bool-cases (length f.disabled == 0)) [
  | inl h ↦ rw h refl
  | inr h ↦ rw h refl
]
