-- ===== src/Urls/View/RoundTrip.antt =====
-- A shared address of frontend/src/utils/viewUrl.ts gives the view back.
use mathlib.Core.Path.{fun_ext}
use spectrum_knx.Prelude.{
  ℕ, ◌+◌, ◌*◌, ◌/◌, ◌%◌, ◌<◌, ◌≡◌, refl, ap, ◌∙◌, Bool, true, false, ◌&&◌, Option, none, some, List,
  [], ◌∷◌, ◌++◌, ltb, leb, ◌==◌, length, filter-All, Text, text_eq, codes, includes, decimal,
  is_digits-decimal, get, arith, All, Bool-cases, inl, inr,
}
use spectrum_knx.Filters.{ActiveFilters, all_of}
use spectrum_knx.Urls.{set_all}
use spectrum_knx.Urls.Params.{or_old, found, get-set_all, IsItem, list-list_param}
use spectrum_knx.Urls.Workspace.{flag, is_value, number_of, directions, is_dpt}
use spectrum_knx.Urls.Workspace.RoundTrip.{flag_one, number_of-number_param}
use spectrum_knx.Urls.View.{
  LoadedRange, relative, absolute, format_rel, unit_seconds, before_last, truthy, positive,
  theme_of, limit_param, rel_param, time_param, start_param, end_param, table_of, build_view_url,
  scaled, rel_of_parts, parse_rel, as_relative, range_of, with_range, parse_with, parse_view_url,
}

before_last-append : (s : Text) (c : ℕ) → before_last (s ++ (c ∷ [])) ≡ some (s, c)
unfolding before_last
before_last-append [] c = refl
before_last-append (a ∷ []) c = refl
before_last-append (a ∷ b ∷ s) c = rw (before_last-append (b ∷ s) c)

flag_embed : (c : Bool) → is_value (or_old (flag c (codes "1")) none) (codes "1") ≡ c
unfolding is_value or_old text_eq
flag_embed true = refl
flag_embed false = refl

-- a range that a link can carry: some time, or one of the two ends
abbrev pub IsUsable : LoadedRange → Type 0
IsUsable (relative seconds) = 0 < seconds
IsUsable (absolute start end) = 0 < length start + length end

-- no limit, or one that is not 0
abbrev pub IsLimit : Option ℕ → Type 0
IsLimit none = Unit
IsLimit (some n) = 0 < n

-- The items of the lists are not empty and have no comma; directions and datatypes are such; the
-- deprecated relation is not set.
pub record IsShareable (plot : List Text) (f : ActiveFilters) : Type 0 where
  pub plot_items : All IsItem plot
  pub sources : All IsItem f.sources
  pub targets : All IsItem f.targets
  pub types : All IsItem f.types
  pub directions_known : All (λ d. includes directions d ≡ true) f.directions
  pub directions_items : All IsItem f.directions
  pub dpts_valid : All (λ d. is_dpt d ≡ true) f.dpts
  pub dpts_items : All IsItem f.dpts
  pub relation : f.source_target_relation ≡ all_of

module _ (number : Text → ℕ) (reads : (n : ℕ) → number (decimal n) ≡ n) where
  -- a whole number of units reads as its seconds
  parse_unit :
      (n c unit seconds : ℕ)
      → unit_seconds c ≡ some unit
      → n * unit ≡ seconds
      → 0 < seconds
      → parse_rel number (decimal n ++ (c ∷ [])) ≡ some seconds
  unfolding parse_rel rel_of_parts scaled positive
  parse_unit n c unit seconds e m h =
      rw (before_last-append (decimal n) c, is_digits-decimal n, e, reads n, m) (ground (arith, h))

  parse_rel-format_rel :
      (seconds : ℕ) → 0 < seconds → parse_rel number (format_rel seconds) ≡ some seconds
  unfolding format_rel
  parse_rel-format_rel seconds h = elim (Bool-cases (seconds % 86400 == 0 && leb 86400 seconds)) [
    | inl a ↦ rw a (
        parse_unit (seconds / 86400) b'd' 86400 seconds (unfold unit_seconds in refl)
          (ground (arith, a)) h)
    | inr a ↦ elim (Bool-cases (seconds % 3600 == 0 && leb 3600 seconds)) [
      | inl b ↦
          rw (a, b)
            (parse_unit (seconds / 3600) b'h' 3600 seconds (unfold unit_seconds in refl)
              (ground (arith, b)) h)
      | inr b ↦ elim (Bool-cases (seconds % 60 == 0 && leb 60 seconds)) [
        | inl c ↦
            rw (a, b, c)
              (parse_unit (seconds / 60) b'm' 60 seconds (unfold unit_seconds in refl)
                (ground (arith, c)) h)
        | inr c ↦
            rw (a, b, c)
              (parse_unit seconds b's' 1 seconds (unfold unit_seconds in refl) (omega arith) h)
      ]
    ]
  ]

  rel_text : (seconds : ℕ) → truthy (some (format_rel seconds)) ≡ true
  unfolding format_rel truthy
  rel_text seconds = elim (Bool-cases (seconds % 86400 == 0 && leb 86400 seconds)) [
    | inl a ↦ rw a (ends (decimal (seconds / 86400)) b'd')
    | inr a ↦ elim (Bool-cases (seconds % 3600 == 0 && leb 3600 seconds)) [
      | inl b ↦ rw (a, b) (ends (decimal (seconds / 3600)) b'h')
      | inr b ↦ elim (Bool-cases (seconds % 60 == 0 && leb 60 seconds)) [
        | inl c ↦ rw (a, b, c) (ends (decimal (seconds / 60)) b'm')
        | inr c ↦ rw (a, b, c) (ends (decimal seconds) b's')
      ]
    ]
  ]
    where
      ends : (s : Text) (c : ℕ) → ltb 0 (length (s ++ (c ∷ []))) ≡ true
      ends [] c = ground arith
      ends (a ∷ s) c = ground arith

  range_round_trip :
      (range : LoadedRange)
      → IsUsable range
      → range_of number
          (or_old (rel_param range) none)
          (or_old (start_param range) none)
          (or_old (end_param range) none)
        ≡ some range
  unfolding range_of rel_param start_param end_param or_old as_relative
  range_round_trip (relative seconds) h = rw (rel_text seconds, parse_rel-format_rel seconds h)
  range_round_trip (absolute [] []) h = absurd (omega arith)
  range_round_trip (absolute [] (c ∷ s)) h = unfold time_param truthy in ground arith
  range_round_trip (absolute (c ∷ s) []) h = unfold time_param truthy in ground arith
  range_round_trip (absolute (c ∷ s) (d ∷ t)) h = unfold time_param truthy in ground arith

  limit_round_trip :
      (limit : Option ℕ)
      → IsLimit limit
      → positive (number_of number (or_old (limit_param limit) none)) ≡ limit
  unfolding limit_param positive or_old number_of
  limit_round_trip none h = ground arith
  limit_round_trip (some n) h =
      let above : ltb 0 n ≡ true = ground (arith, h) in rw (above, reads n, above)

  no_refresh : positive (number_of number none) ≡ none
  unfolding positive number_of
  no_refresh = ground arith

  -- Reading a shared address gives the view that it was built from: the plotted addresses, the
  -- filters without switched-off markers, the range, the limit and the embedding. The lists are
  -- as for a workspace, the range is some time or has an end, the limit is not 0, and the host
  -- reads a number's text as the number.
  pub view_round_trip :
      (plot : List Text) (f : ActiveFilters) (range : LoadedRange) (limit : Option ℕ) (embed : Bool)
      → IsShareable plot f
      → IsUsable range
      → IsLimit limit
      → parse_view_url number (build_view_url plot f range limit embed)
        ≡ some (record {
          plot = plot;
          filters = record f { disabled = [] };
          range = range;
          limit = limit;
          embed = embed;
          refresh = none;
          theme = none;
        })
  unfolding parse_view_url build_view_url
  view_round_trip plot f range limit embed w u m =
      ap (parse_with number) (fun_ext (got (table_of plot f range limit embed))) ∙ parsed
    where
      got :
          (table : List (Text × Option Text)) (key : Text)
          → get (set_all table []) key ≡ found table key none
      got table key = unfold get in get-set_all table [] key

      parsed :
          parse_with number (λ key. found (table_of plot f range limit embed) key none)
          ≡ some (record {
            plot = plot;
            filters = record f { disabled = [] };
            range = range;
            limit = limit;
            embed = embed;
            refresh = none;
            theme = none;
          })
      parsed =
          unfold parse_with with_range found text_eq is_value or_old theme_of in
          rw
            (
              range_round_trip range u,
              list-list_param plot w.plot_items,
              list-list_param f.sources w.sources,
              list-list_param f.targets w.targets,
              list-list_param f.types w.types,
              list-list_param f.directions w.directions_items,
              list-list_param f.dpts w.dpts_items,
              filter-All (includes directions) f.directions w.directions_known,
              filter-All is_dpt f.dpts w.dpts_valid,
              number_of-number_param number reads f.delta_before_ms,
              number_of-number_param number reads f.delta_after_ms,
              flag_one f.delta_context_enabled,
              w.relation,
              limit_round_trip limit m,
              flag_embed embed,
              no_refresh,
            )
            refl
