-- ===== src/Feed/Gap/Accounted.antt =====
-- What one chunk of the paging loop of frontend/src/hooks/useTelegramCache.ts marks as covered.
use spectrum_knx.Prelude.{
  ℕ, ◌≤◌, ◌≡◌, refl, ap, sym, ◌∙◌, Bool, true, false, Option, none, some, List, [], ◌==◌,
  if◌then◌else◌, length, arith, Bool-cases, inl, inr, ◌⊎◌, Text, any, All, ◌<◌, ◌∷◌, ◌||◌,
}
use mathlib.Core.Path.{subst}
use spectrum_knx.Telegram.{TelegramEntry}
use spectrum_knx.Buffer.Merge.{has_id}
use spectrum_knx.Coverage.{Coverage, add_covered}
use spectrum_knx.Coverage.Points.{covers}
use spectrum_knx.Coverage.Merge.{covers-add_covered}
use spectrum_knx.Feed.{Feed, publish_if, merge_into_buffer, publish, track_removed}
use spectrum_knx.Feed.Gap.{
  Load, Received, dropped, exhausted, chunk, received, cover_if, oldest_of, page_back,
}

-- What the loop relies on: an answer has at most as many rows as asked for, all of the window, and is
-- empty only for want of rows; a row of the window is missing only if the limit was reached, and then
-- no row of the answer is older than it. Rows of one millisecond may thus be cut apart.
pub record Answers (fetch : ℕ → ℕ → ℕ → List TelegramEntry × Bool) (Row : Text → ℕ → Type 0)
    : Type 0 where
  pub within_limit : (start end limit : ℕ) → length (fetch start end limit).0 ≤ limit
  pub in_window :
      (start end limit : ℕ)
      → All (λ (e : TelegramEntry). (start ≤ e.ts) × (e.ts ≤ end)) (fetch start end limit).0
  pub complete :
      (start end limit ts : ℕ) (id : Text)
      → 0 < limit
      → Row id ts
      → start ≤ ts
      → ts ≤ end
      → (any (has_id id) (fetch start end limit).0 ≡ true)
        ⊎ (((fetch start end limit).1 ≡ true)
            × (0 < length (fetch start end limit).0)
            × All (λ (e : TelegramEntry). ts ≤ e.ts) (fetch start end limit).0)

-- the row itself, or another one of its millisecond
abbrev pub stands_for : Text → ℕ → TelegramEntry → Bool
stands_for id ts e = has_id id e || e.ts == ts

-- from where on an answer has a row of each time of the window that has one
abbrev pub answered_from : Option ℕ → Bool → ℕ
answered_from none limit_reached = 0
answered_from (some oldest) true = oldest
answered_from (some oldest) false = 0

any-stands_for :
    (id : Text) (ts : ℕ) (entries : List TelegramEntry)
    → any (has_id id) entries ≡ true
    → any (stands_for id ts) entries ≡ true
any-stands_for id ts [] h = h
any-stands_for id ts (e ∷ entries) h = elim (Bool-cases (has_id id e)) [
  | inl k ↦ rw k
  | inr k ↦ ground (arith, k, h, any-stands_for id ts entries)
]

-- what holds of all entries holds of the last one
oldest_of-All :
    (P : ℕ → Type 0) (entries : List TelegramEntry) (o : ℕ)
    → All (λ (e : TelegramEntry). P e.ts) entries
    → oldest_of entries ≡ some o
    → P o
unfolding oldest_of
oldest_of-All P [] o h e = cc e
oldest_of-All P (x ∷ []) o h e = subst P (cc e) h.0
oldest_of-All P (x ∷ y ∷ entries) o h e = oldest_of-All P (y ∷ entries) o h.1 e

-- the last one is one of the entries
oldest_of-any :
    (id : Text) (entries : List TelegramEntry) (o : ℕ)
    → oldest_of entries ≡ some o
    → any (stands_for id o) entries ≡ true
unfolding oldest_of
oldest_of-any id [] o e = cc e
oldest_of-any id (x ∷ []) o e = let same : x.ts ≡ o = cc e in ground (arith, same)
oldest_of-any id (x ∷ y ∷ entries) o e = ground (arith, oldest_of-any id (y ∷ entries) o e)

oldest_of-some :
    (entries : List TelegramEntry) → 0 < length entries → (o : ℕ) × (oldest_of entries ≡ some o)
unfolding oldest_of
oldest_of-some [] h = absurd (omega arith)
oldest_of-some (x ∷ []) h = (x.ts, refl)
oldest_of-some (x ∷ y ∷ entries) h = oldest_of-some (y ∷ entries) (omega arith)

-- a row that was held back, at a time from which on the answer counts as complete, shares its
-- millisecond with the last one
held_back :
    (id : Text) (ts : ℕ) (entries : List TelegramEntry) (limit_reached : Bool)
    → limit_reached ≡ true
    → 0 < length entries
    → All (λ (e : TelegramEntry). ts ≤ e.ts) entries
    → answered_from (oldest_of entries) limit_reached ≤ ts
    → any (stands_for id ts) entries ≡ true
held_back id ts entries limit_reached f pos all from =
    let (o, e) = oldest_of-some entries pos in
    let below : ts ≤ o = oldest_of-All (λ n. ts ≤ n) entries o all e in
    let start : answered_from (some o) true ≤ ts = rw (e, f) at from in
    let same : o ≡ ts = omega arith in oldest_of-any id entries ts (e ∙ ap some same)

module _ {fetch : ℕ → ℕ → ℕ → List TelegramEntry × Bool} {Row : Text → ℕ → Type 0}
    (backend : Answers fetch Row) (start end limit : ℕ) where
  abbrev answer : List TelegramEntry
  answer = (fetch start end limit).0

  pub answered :
      (id : Text) (ts : ℕ)
      → 0 < limit
      → Row id ts
      → start ≤ ts
      → ts ≤ end
      → answered_from (oldest_of answer) (fetch start end limit).1 ≤ ts
      → any (stands_for id ts) answer ≡ true
  answered id ts pos row a b from = elim (backend.complete start end limit ts id pos row a b) [
    | inl k ↦ any-stands_for id ts answer k
    | inr k ↦ held_back id ts answer (fetch start end limit).1 k.0 k.1 k.2 from
  ]

  pub oldest_inside : (o : ℕ) → oldest_of answer ≡ some o → start ≤ o
  oldest_inside o e =
      (oldest_of-All (λ n. (start ≤ n) × (n ≤ end)) answer o (backend.in_window start end limit)
        e).0

-- the received chunk changes no coverage, and an empty one covers what is left
abbrev pub ReceivedCoverage : List TelegramEntry → Load → Feed → Received → Type 0
ReceivedCoverage entries l s dropped = Unit
ReceivedCoverage entries l s (exhausted s') =
    (s'.coverage ≡ add_covered s.coverage l.gap_start l.cursor) × (length entries ≡ 0)
ReceivedCoverage entries l s (chunk s') = s'.coverage ≡ s.coverage

coverage-publish : (s : Feed) → (publish s).coverage ≡ s.coverage
unfolding publish
coverage-publish s = elim (Bool-cases s.paused) [
  | inl h ↦ rw (h, publish)
  | inr h ↦ rw (h, publish)
]

coverage-publish_if : (changed : Bool) (s : Feed) → (publish_if (changed, s)).coverage ≡ s.coverage
unfolding publish_if
coverage-publish_if true s = coverage-publish s
coverage-publish_if false s = refl

coverage-merge :
    (entries : List TelegramEntry) (s : Feed)
    → (publish_if (merge_into_buffer entries s)).coverage ≡ s.coverage
unfolding merge_into_buffer track_removed
coverage-merge entries s = coverage-publish_if _ _

pub received_lem :
    (entries : List TelegramEntry) (l : Load) (s : Feed)
    → ReceivedCoverage entries l s (received entries l s)
unfolding received
received_lem entries l s = elim (Bool-cases (s.generation == l.generation)) [
  | inr h ↦ rw (h, ReceivedCoverage) tt
  | inl h ↦ elim (Bool-cases (length entries == 0)) [
    | inl k ↦ rw (h, k, ReceivedCoverage) (refl, ground arith)
    | inr k ↦ rw (h, k, ReceivedCoverage) (coverage-merge entries s)
  ]
]

module _ (id : Text) (ts : ℕ) where
  -- after a step the row's time is covered only if it was, or if the cache took the row or one of its
  -- millisecond
  abbrev pub Accounted : Feed → Feed → List TelegramEntry → Type 0
  Accounted before after cached =
      covers after.coverage.covered ts ≡ true
      → (covers before.coverage.covered ts ≡ true) ⊎ (any (stands_for id ts) cached ≡ true)

  same_coverage :
      (s s' : Feed) (cached : List TelegramEntry) → s'.coverage ≡ s.coverage → Accounted s s' cached
  same_coverage s s' cached e h = inl (ap (λ (c : Coverage). covers c.covered ts) (sym e) ∙ h)

  -- the stored chunk's two marks
  cover_if-Accounted :
      (s : Feed) (start end : ℕ) (stored : Bool) (entries : List TelegramEntry)
      → (start ≤ ts → ts ≤ end → any (stands_for id ts) entries ≡ true)
      → Accounted s (cover_if stored start end s) (if stored then entries else [])
  unfolding cover_if
  cover_if-Accounted s start end false entries has h = inl h
  cover_if-Accounted s start end true entries has h =
      elim (Bool-cases (covers s.coverage.covered ts)) [
        | inl old ↦ inl old
        | inr new ↦ inr (
            has (ground (arith, covers-add_covered s.coverage start end ts))
              (ground (arith, covers-add_covered s.coverage start end ts)))
      ]

  Accounted-trans :
      (s t u : Feed) (stored : Bool) (entries : List TelegramEntry)
      → Accounted s t (if stored then entries else [])
      → Accounted t u (if stored then entries else [])
      → Accounted s u (if stored then entries else [])
  Accounted-trans s t u stored entries f g h = elim (g h) [ inl k ↦ f k | inr k ↦ inr k ]

  pub page_back-Accounted :
      (oldest : Option ℕ) (stored limit_reached : Bool) (l : Load) (s : Feed)
      (entries : List TelegramEntry)
      → ((o : ℕ) → oldest ≡ some o → l.gap_start ≤ o)
      → (l.gap_start ≤ ts
          → ts ≤ l.cursor
          → answered_from oldest limit_reached ≤ ts
          → any (stands_for id ts) entries ≡ true)
      → Accounted s (page_back oldest stored limit_reached l s).1 (if stored then entries else [])
  unfolding page_back
  page_back-Accounted none stored limit_reached l s entries inside has = λ h. inl h
  page_back-Accounted (some o) stored true l s entries inside has =
      cover_if-Accounted s o l.cursor stored entries (λ a b. has (omega (arith, inside o refl)) b a)
  page_back-Accounted (some o) stored false l s entries inside has =
      let first = cover_if stored o l.cursor s in
      Accounted-trans s first (cover_if stored l.gap_start l.cursor first) stored entries
        (cover_if-Accounted s o l.cursor stored entries
          (λ a b. has (omega (arith, inside o refl)) b (omega arith)))
        (cover_if-Accounted first l.gap_start l.cursor stored entries
          (λ a b. has a b (omega arith)))
