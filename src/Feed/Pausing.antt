-- ===== src/Feed/Pausing.antt =====
-- Pausing the view in frontend/src/hooks/useTelegramCache.ts: the published list is frozen, and
-- ingestion goes on.
use mathlib.Core.List.{reverse}
use spectrum_knx.Prelude.{
  ◌-◌, map, ℕ, ◌≡◌, refl, ap, sym, ◌∙◌, Bool, true, false, ◌||◌, List, [], ◌∷◌, ◌++◌, ltb,
  if◌then◌else◌, length, arith, Bool-cases, inl, inr, ◌⊎◌, includes,
}
use spectrum_knx.Telegram.{Telegram, TelegramEntry}
use spectrum_knx.Buffer
use spectrum_knx.Buffer.{Buffer, add, merge, unique, set_max_size, evict}
use spectrum_knx.Coverage.{extend_live, close_live, trim}
use spectrum_knx.Feed.{
  Feed, shown, publish, publish_if, track_removed, merge_into_buffer, save_coverage, begin_store,
  settle_store, remove_at, same, hand_over, cover_quiet, add_entry, set_connected, set_paused,
  clear, flush, tick, evicted, change_max_size,
}
use spectrum_knx.Feed.Events.{
  Event, live, connection, pause, wipe, timer, settled, cache_trimmed, resized, loaded, step, run,
}
use spectrum_knx.Feed.Frames.{flush_full_frame}
use spectrum_knx.Buffer.Order.{evict-append}

-- the view shows the buffer, newest first, or is paused
abbrev pub IsShown : Feed → Type 0
IsShown s = (s.paused ≡ true) ⊎ (s.telegrams ≡ shown s.buffer)

abbrev IsCurrent : Feed → Type 0
IsCurrent s = s.paused ≡ false → s.telegrams ≡ shown s.buffer

abbrev listed : List TelegramEntry → List Telegram
listed l = reverse (map (λ (e : TelegramEntry). e.telegram) l)

publish-IsCurrent : (s : Feed) → IsCurrent (publish s)
unfolding publish
publish-IsCurrent s = go s.paused refl
  where
    go :
        (c : Bool)
        → s.paused ≡ c
        → IsCurrent (if c then s else record s { telegrams = shown s.buffer })
    go true e h = cc (e, h)
    go false e h = refl

-- a state with the same view, buffer and pause
record SameView (s t : Feed) : Type 0 where
  telegrams : t.telegrams ≡ s.telegrams
  entries : t.buffer.entries ≡ s.buffer.entries
  paused : t.paused ≡ s.paused

SameView-IsCurrent : {s t : Feed} → SameView s t → IsCurrent s → IsCurrent t
SameView-IsCurrent v c h = v.telegrams ∙ c (sym v.paused ∙ h) ∙ ap listed (sym v.entries)

SameView-if :
    {s a b : Feed} (c : Bool) → SameView s a → SameView s b → SameView s (if c then a else b)
SameView-if true h k = h
SameView-if false h k = k

SameView-trans : {s t u : Feed} → SameView s t → SameView t u → SameView s u
SameView-trans v w = record {
  telegrams = w.telegrams ∙ v.telegrams;
  entries = w.entries ∙ v.entries;
  paused = w.paused ∙ v.paused;
}

save_coverage-SameView : (s : Feed) → SameView s (save_coverage s)
unfolding save_coverage
save_coverage-SameView s =
    SameView-if (ltb 0 s.store_count) (record { telegrams = refl; entries = refl; paused = refl })
      (record { telegrams = refl; entries = refl; paused = refl })

hand_over-SameView : (s : Feed) → SameView s (hand_over s)
unfolding hand_over begin_store
hand_over-SameView s =
    SameView-if (ltb 0 (length s.pending))
      (record { telegrams = refl; entries = refl; paused = refl })
      (record { telegrams = refl; entries = refl; paused = refl })

cover_quiet-SameView :
    (connected : Bool) (now : ℕ) (s : Feed) → SameView s (cover_quiet connected now s)
unfolding cover_quiet
cover_quiet-SameView connected now s =
    SameView-if connected (record { telegrams = refl; entries = refl; paused = refl })
      (record { telegrams = refl; entries = refl; paused = refl })

flush-SameView : (now : ℕ) (s : Feed) → SameView s (flush now s)
unfolding flush
flush-SameView now s =
    SameView-trans
      (SameView-trans (hand_over-SameView s) (cover_quiet-SameView s.connected now (hand_over s)))
      (save_coverage-SameView _)

-- what the buffer does not take or lose, it does not show
add_nothing :
    (b : Buffer) (l removed : List TelegramEntry)
    → (ltb 0 (length l) || ltb 0 (length removed)) ≡ false
    → (add b l).1.entries ≡ b.entries
unfolding add
add_nothing b [] removed h = refl
add_nothing b (e ∷ l) removed h = absurd (ground arith)

evict_nothing :
    (max_size : ℕ) (l : List TelegramEntry)
    → ltb 0 (length (evict max_size l).0) ≡ false
    → (evict max_size l).1 ≡ l
evict_nothing max_size l h =
    go (evict max_size l).0 (evict max_size l).1 h (evict-append max_size l)
  where
    go :
        (removed kept : List TelegramEntry)
        → ltb 0 (length removed) ≡ false
        → removed ++ kept ≡ l
        → kept ≡ l
    go [] kept h e = e
    go (x ∷ removed) kept h e = absurd (ground arith)

loaded-IsCurrent :
    (batch : List TelegramEntry) (s : Feed)
    → IsCurrent s
    → IsCurrent (publish_if (merge_into_buffer batch s))
unfolding publish_if merge_into_buffer track_removed merge
loaded-IsCurrent batch s c =
    let l = unique s.buffer batch in
    elim (Bool-cases (ltb 0 (length l) || ltb 0 (length (add s.buffer l).0))) [
      | inl h ↦ rw h (publish-IsCurrent _)
      | inr h ↦ rw h (λ p. c p ∙ ap listed (sym (add_nothing s.buffer l (add s.buffer l).0 h)))
    ]

resized-IsCurrent : (n : ℕ) (s : Feed) → IsCurrent s → IsCurrent (change_max_size n s)
unfolding change_max_size track_removed set_max_size
resized-IsCurrent n s c = elim (Bool-cases (ltb 0 (length (evict n s.buffer.entries).0))) [
  | inl h ↦ rw h (publish-IsCurrent _)
  | inr h ↦ rw h (λ p. c p ∙ ap listed (sym (evict_nothing n s.buffer.entries h)))
]

IsCurrent-if :
    (a b : Feed) (c : Bool)
    → (c ≡ true → IsCurrent a)
    → (c ≡ false → IsCurrent b)
    → IsCurrent (if c then a else b)
IsCurrent-if a b true h k = h refl
IsCurrent-if a b false h k = k refl

live-IsCurrent : (e : TelegramEntry) (s : Feed) → IsCurrent s → IsCurrent (add_entry e s)
unfolding add_entry track_removed
live-IsCurrent e s c =
    IsCurrent-if _ _ (includes s.ids e.id) (λ _. c)
      (λ _.
        IsCurrent-if _ _ s.paused (λ p h. cc (p, h, (flush_full_frame _).paused))
          (λ _. publish-IsCurrent _))

connection-IsCurrent :
    (connected : Bool) (now : ℕ) (s : Feed)
    → IsCurrent s
    → IsCurrent (set_connected connected now s).1
unfolding set_connected
connection-IsCurrent true now s c = elim (Bool-cases (same s.connected true)) [
  | inl h ↦ rw h c
  | inr h ↦ rw h c
]
connection-IsCurrent false now s c = elim (Bool-cases (same s.connected false)) [
  | inl h ↦ rw h c
  | inr h ↦ rw h (
      SameView-IsCurrent {s = s}
        (SameView-trans
          {t = record s { connected = false; coverage = close_live (extend_live s.coverage now) }}
          (record { telegrams = refl; entries = refl; paused = refl }) (save_coverage-SameView _))
        c)
]

pause-IsCurrent : (paused : Bool) (s : Feed) → IsCurrent (set_paused paused s)
unfolding set_paused
pause-IsCurrent true s = λ h. cc h
pause-IsCurrent false s = publish-IsCurrent _

wipe-IsCurrent : (s : Feed) → IsCurrent (clear s)
unfolding clear track_removed Buffer.clear
wipe-IsCurrent s h = ap listed (sym (save_coverage-SameView _).entries)

settled-IsCurrent :
    (succeeded : Bool) (i : ℕ) (s : Feed) → IsCurrent s → IsCurrent (settle_store succeeded i s)
unfolding settle_store
settled-IsCurrent true i s c =
    SameView-IsCurrent
      (save_coverage-SameView
        (record s { store_count = s.store_count - 1; in_flight = remove_at i s.in_flight }))
      c
settled-IsCurrent false i s c = c

step-IsCurrent : (s : Feed) (e : Event) → IsCurrent s → IsCurrent (step s e)
unfolding step tick evicted
step-IsCurrent s (live e) c = live-IsCurrent e s c
step-IsCurrent s (connection connected now) c = connection-IsCurrent connected now s c
step-IsCurrent s (pause paused) c = pause-IsCurrent paused s
step-IsCurrent s wipe c = wipe-IsCurrent s
step-IsCurrent s (timer now) c = SameView-IsCurrent {s = s} (flush-SameView now s) c
step-IsCurrent s (settled succeeded i) c = settled-IsCurrent succeeded i s c
step-IsCurrent s (cache_trimmed oldest) c =
    SameView-IsCurrent (save_coverage-SameView (record s { coverage = trim s.coverage oldest })) c
step-IsCurrent s (resized n) c = resized-IsCurrent n s c
step-IsCurrent s (loaded batch) c = loaded-IsCurrent batch s c

IsShown→IsCurrent : (s : Feed) → IsShown s → IsCurrent s
IsShown→IsCurrent s (inl p) = λ h. cc (p, h)
IsShown→IsCurrent s (inr e) = λ h. e

IsCurrent→IsShown : (s : Feed) → IsCurrent s → IsShown s
IsCurrent→IsShown s c = elim (Bool-cases s.paused) [ inl p ↦ inl p | inr p ↦ inr (c p) ]

run-IsCurrent : (s : Feed) (events : List Event) → IsCurrent s → IsCurrent (run s events)
unfolding run
run-IsCurrent s [] c = c
run-IsCurrent s (e ∷ events) c = run-IsCurrent (step s e) events (step-IsCurrent s e c)

-- Whatever happens, a view that shows the whole buffer, newest first, unless it is paused, stays
-- so; so to resume reveals everything that was taken in meanwhile.
pub run-IsShown : (s : Feed) (events : List Event) → IsShown s → IsShown (run s events)
run-IsShown s events c =
    IsCurrent→IsShown (run s events) (run-IsCurrent s events (IsShown→IsCurrent s c))
