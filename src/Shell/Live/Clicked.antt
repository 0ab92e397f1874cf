-- ===== src/Shell/Live/Clicked.antt =====
-- The click on a chart and the rows that frontend/src/App.tsx then lists.
use spectrum_knx.Prelude.{
  ℕ, ◌≤◌, ◌≡◌, refl, ap, ◌∙◌, Bool, true, false, ◌||◌, Option, none, some, List, [], ◌∷◌, arith,
  ltb, if◌then◌else◌, filter, any, Text, text_eq, text_eq_refl, text_eq_iff, includes,
  includes-append, All, Bool-cases, inl, inr, ltb→lt, not-ltb→le,
}
use spectrum_knx.Telegram.{Telegram, anchor_key}
use spectrum_knx.Filters.Disabled.{enabled-delta}
use spectrum_knx.Sorting.{sort_telegrams}
use spectrum_knx.Sorting.Sorted.{any-sort_telegrams}
use spectrum_knx.DeltaContext.{pair_up, items_of}
use spectrum_knx.DeltaContext.Shown.{expand_lem}
use spectrum_knx.Table.Marks.{distance, closer}
use spectrum_knx.Shell.Live.{
  Live, time_of, flags_of, delta_expanded_live, nearest_loop, flag_and_show,
  handle_chart_time_click,
}

or_middle : (a b c : Bool) → b ≡ true → (a || b || c) ≡ true
or_middle a b c h = ground (arith, h)

-- rows that the test selects whatever stands beside them are kept
any-described :
    {A : Type 0} (p : A → Bool) (q : A × Bool → Bool) (xs : List A) (ms : List Bool)
    → ((r : A × Bool) → p r.0 ≡ true → q r ≡ true)
    → any p xs ≡ true
    → any p (items_of (filter q (pair_up xs ms))) ≡ true
unfolding pair_up
any-described p q [] ms f h = h
any-described p q (x ∷ xs) [] f h = elim (Bool-cases (p x)) [
  | inl e ↦ rw (f (x, false) e, e) refl
  | inr e ↦ elim (Bool-cases (q (x, false))) [
    | inl k ↦ rw (k, e) (any-described p q xs [] f (ground (arith, h, e)))
    | inr k ↦ rw k (any-described p q xs [] f (ground (arith, h, e)))
  ]
]
any-described p q (x ∷ xs) (m ∷ ms) f h = elim (Bool-cases (p x)) [
  | inl e ↦ rw (f (x, m) e, e) refl
  | inr e ↦ elim (Bool-cases (q (x, m))) [
    | inl k ↦ rw (k, e) (any-described p q xs ms f (ground (arith, h, e)))
    | inr k ↦ rw k (any-described p q xs ms f (ground (arith, h, e)))
  ]
]

module _ (get_time : Text → ℕ) (number date_of : Text → Option ℕ) (lower : Text → Text)
    (text_matcher : Text → Text → Bool) (value_matcher : Text → Text → Telegram → Bool)
    (ms : ℕ) where
  abbrev at : Telegram → ℕ
  at = time_of get_time number date_of lower text_matcher value_matcher

  abbrev pub away : Telegram → ℕ
  away t = distance (at t) ms

  abbrev nearest_of : List Telegram → Telegram → Option ℕ → Telegram
  nearest_of = nearest_loop get_time number date_of lower text_matcher value_matcher ms

  -- one of the telegrams, and none is nearer
  record IsNearest (n t : Telegram) (telegrams : List Telegram) : Type 0 where
    pub to_first : away n ≤ away t
    pub to_others : All (λ u. away n ≤ away u) telegrams
    pub is_one : (p : Telegram → Bool) → p n ≡ true → (p t || any p telegrams) ≡ true

  IsNearest-loop-IsNearest :
      (telegrams : List Telegram) (t : Telegram)
      → IsNearest (nearest_of telegrams t (some (away t))) t telegrams
  unfolding nearest_loop closer
  IsNearest-loop-IsNearest [] t = record {
    to_first = omega arith;
    to_others = tt;
    is_one = λ p h. rw h refl;
  }
  IsNearest-loop-IsNearest (u ∷ telegrams) t = elim (Bool-cases (ltb (away u) (away t))) [
    | inl h ↦
        let m = IsNearest-loop-IsNearest telegrams u in
        rw h (record {
          to_first = omega (arith, m.to_first, ltb→lt _ _ h);
          to_others = (m.to_first, m.to_others);
          is_one = λ p e. ground (arith, m.is_one p e);
        })
    | inr h ↦
        let m = IsNearest-loop-IsNearest telegrams t in
        rw h (record {
          to_first = m.to_first;
          to_others = (omega (arith, m.to_first, not-ltb→le _ _ h), m.to_others);
          is_one = λ p e. ground (arith, m.is_one p e);
        })
  ]

  -- the telegram that the click finds
  abbrev pub clicked : Telegram → List Telegram → Telegram
  clicked t telegrams = nearest_of (t ∷ telegrams) t none

  clicked-IsNearest :
      (t : Telegram) (telegrams : List Telegram) → IsNearest (clicked t telegrams) t telegrams
  unfolding nearest_loop closer
  clicked-IsNearest t telegrams = IsNearest-loop-IsNearest telegrams t

  abbrev has_key : Text → Telegram → Bool
  has_key key u = text_eq (anchor_key u) key

  includes-flag_and_show :
      (key : Text) (s : Live)
      → includes (flag_and_show key s).shell.flagged_telegram_keys key ≡ true
  includes-flag_and_show key s = elim (Bool-cases (includes s.shell.flagged_telegram_keys key)) [
    | inl h ↦ rw (h, h) refl
    | inr h ↦ rw h (
        includes-append s.shell.flagged_telegram_keys (key ∷ []) key
        ∙ unfold includes in ground (arith, text_eq_refl key))
  ]

  abbrev rows_of : List Telegram → Live → List Telegram
  rows_of live s =
      (delta_expanded_live get_time number date_of lower text_matcher value_matcher live s).items

  abbrev flags : Live → List Text
  flags = flags_of get_time number date_of lower text_matcher value_matcher

  flagged_is_listed :
      (key : Text) (live : List Telegram) (s : Live)
      → includes (flags s) key ≡ true
      → any (has_key key) live ≡ true
      → any (has_key key) (rows_of live s) ≡ true
  unfolding delta_expanded_live
  flagged_is_listed key live s h e =
      let sorted = sort_telegrams get_time live s.sort_config in
      ap (λ d. any (has_key key) d.items)
        (expand_lem at anchor_key (flags s) _ _ s.context_for_all_matches sorted _)
      ∙ any-described (has_key key) _ sorted _
          (λ r k.
            let f = ap (includes (flags s)) ((text_eq_iff (anchor_key r.0) key).0 k) ∙ h in
            or_middle r.1 _ _ f)
          (any-sort_telegrams get_time live s.sort_config (has_key key) ∙ e)

  -- After a click on a chart, while the time context is on, the list shows a telegram that no
  -- other one is nearer to the time clicked than, whatever the filters hide, and goes to it.
  pub chart_click_shown :
      (t : Telegram) (telegrams : List Telegram) (s : Live)
      → s.shell.active_filters.delta_context_enabled ≡ true
      → All (λ u. away (clicked t telegrams) ≤ away u) (t ∷ telegrams)
        × ((handle_chart_time_click get_time number date_of lower text_matcher value_matcher ms
              (t ∷ telegrams)
              s).shell.list_anchor_key
            ≡ some (anchor_key (clicked t telegrams)))
        × (any
              (λ u. text_eq (anchor_key u) (anchor_key (clicked t telegrams)))
              (rows_of (t ∷ telegrams) (
                handle_chart_time_click get_time number date_of lower text_matcher value_matcher ms
                  (t ∷ telegrams)
                  s))
            ≡ true)
  unfolding handle_chart_time_click
  chart_click_shown t telegrams s h =
      let n = clicked-IsNearest t telegrams in
      let key = anchor_key (clicked t telegrams) in
      (
        (n.to_first, n.to_others),
        refl,
        flagged_is_listed key (t ∷ telegrams) (flag_and_show key s)
            (ap
                (λ b.
                  includes (if b then (flag_and_show key s).shell.flagged_telegram_keys else [])
                    key)
                (enabled-delta s.shell.active_filters ∙ h)
              ∙ includes-flag_and_show key s)
            (n.is_one (has_key key) (text_eq_refl key)),
      )
