-- ===== src/Feed/Gap/Completeness.antt =====
-- What the paging loop of frontend/src/hooks/useTelegramCache.ts marks as covered, the cache has.
use spectrum_knx.Prelude.{
  ℕ, ◌+◌, ◌-◌, ◌<◌, ◌≤◌, ◌≡◌, ap, sym, ◌∙◌, Bool, true, not, ◌&&◌, ltb, leb, Option, none, some,
  List, [], ◌∷◌, length, arith, Bool-cases, inl, inr, Text, any,
}
use spectrum_knx.Telegram.{TelegramEntry}
use spectrum_knx.Coverage.{Coverage}
use spectrum_knx.Coverage.Points.{covers}
use spectrum_knx.Coverage.Merge.{covers-add_covered}
use spectrum_knx.Feed.{Feed}
use spectrum_knx.Feed.Gap.{
  Load, Received, dropped, exhausted, chunk, received, chunk_stored, oldest_of, buffer_full,
  next_limit, after_limit, after_received,
}
use spectrum_knx.Feed.Gap.Accounted.{
  Answers, Accounted, answered_from, stands_for, answered, oldest_inside, ReceivedCoverage,
  received_lem, page_back-Accounted,
}

module _ (fetch : ℕ → ℕ → ℕ → List TelegramEntry × Bool) (stores : List TelegramEntry → Bool)
    {Row : Text → ℕ → Type 0} (backend : Answers fetch Row) (id : Text) (ts : ℕ)
    (row : Row id ts) where
  -- an answer with no rows leaves no row in the window
  none_left :
      (entries : List TelegramEntry) (limit_reached : Bool)
      → length entries ≡ 0
      → (answered_from (oldest_of entries) limit_reached ≤ ts
          → any (stands_for id ts) entries ≡ true)
      → ⊥
  unfolding oldest_of
  none_left [] limit_reached e has = cc (has (omega arith))
  none_left (x ∷ entries) limit_reached e has = absurd (omega arith)

  after_received-Accounted :
      (r : Received) (limit : ℕ) (l : Load) (s : Feed)
      → 0 < limit
      → ReceivedCoverage (fetch l.gap_start l.cursor limit).0 l s r
      → (let (entries, limit_reached) = fetch l.gap_start l.cursor limit in
          let (_, s', cached) = after_received fetch stores r entries limit_reached l s in
          Accounted id ts s s' cached)
  unfolding after_received chunk_stored
  after_received-Accounted dropped limit l s pos f = λ h. inl h
  after_received-Accounted (exhausted s') limit l s pos f = λ h.
      let marked =
        ap (λ (c : Coverage). covers c.covered ts) f.0
        ∙ covers-add_covered s.coverage l.gap_start l.cursor ts in
      elim (Bool-cases (covers s.coverage.covered ts)) [
        | inl old ↦ inl old
        | inr new ↦ absurd (
            none_left (fetch l.gap_start l.cursor limit).0 (fetch l.gap_start l.cursor limit).1 f.1
              (answered backend l.gap_start l.cursor limit id ts pos row (ground (arith, marked))
                (ground (arith, marked))))
      ]
  after_received-Accounted (chunk s') limit l s pos f = λ h.
      let (entries, limit_reached) = fetch l.gap_start l.cursor limit in
      let counted : Load = record l { fetched = l.fetched + length entries } in
      let settled : Feed = record s' { store_count = s'.store_count - 1 } in
      elim (page_back-Accounted id ts (oldest_of entries) (stores entries) limit_reached counted
        settled entries (λ o e. oldest_inside backend l.gap_start l.cursor limit o e)
        (λ a b c. answered backend l.gap_start l.cursor limit id ts pos row a b c) h) [
          | inl k ↦ inl (ap (λ (c : Coverage). covers c.covered ts) (sym f) ∙ k)
          | inr k ↦ inr k
        ]

  abbrev pub IsPositive : Option ℕ → Type 0
  IsPositive none = Unit
  IsPositive (some limit) = 0 < limit

  pub next_limit-IsPositive : (l : Load) (s : Feed) → IsPositive (next_limit l s)
  unfolding next_limit
  next_limit-IsPositive l s =
      elim (Bool-cases
        (leb l.gap_start l.cursor && ltb l.fetched l.budget && not (buffer_full l s))) [
          | inl h ↦ rw h (ground (arith, h))
          | inr h ↦ rw h tt
        ]

  pub after_limit-Accounted :
      (o : Option ℕ) (l : Load) (s : Feed)
      → IsPositive o
      → (let (_, s', cached) = after_limit fetch stores o l s in Accounted id ts s s' cached)
  unfolding after_limit
  after_limit-Accounted none l s pos = λ h. inl h
  after_limit-Accounted (some limit) l s pos =
      after_received-Accounted (received (fetch l.gap_start l.cursor limit).0 l s) limit l s pos
        (received_lem (fetch l.gap_start l.cursor limit).0 l s)

  -- what the result of the loop accounts for
  abbrev Done : Feed → Option (ℕ × Feed × List TelegramEntry) → Type 0
  Done s none = Unit
  Done s (some (n, s', cached)) = Accounted id ts s s' cached
