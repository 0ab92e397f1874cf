-- ===== src/Feed/Frames.antt =====
-- What the helpers of frontend/src/hooks/useTelegramCache.ts leave alone, and what an accepted live
-- telegram does to each part of the state.
use spectrum_knx.Prelude.{
  ◌+◌, ◌≡◌, refl, ◌∙◌, Bool, true, false, List, [], ◌∷◌, ◌++◌, ltb, leb, if◌then◌else◌, length,
  includes,
}
use spectrum_knx.Telegram.{Telegram, TelegramEntry}
use spectrum_knx.Buffer.{add}
use spectrum_knx.Coverage.{Interval, extend_live}
use spectrum_knx.Feed.{
  Feed, publish, save_coverage, flush_full, flush_batch_size, begin_store, track_removed, set_add,
  delete_ids, add_entry, shown,
}

pub record SameBut (s t : Feed) : Type 0 where
  pub buffer : t.buffer ≡ s.buffer
  pub ids : t.ids ≡ s.ids
  pub pending : t.pending ≡ s.pending
  pub in_flight : t.in_flight ≡ s.in_flight
  pub store_count : t.store_count ≡ s.store_count
  pub coverage : t.coverage ≡ s.coverage
  pub paused : t.paused ≡ s.paused
  pub connected : t.connected ≡ s.connected
  pub generation : t.generation ≡ s.generation

SameBut-published :
    (s : Feed) (shown_now : List Telegram) → SameBut s (record s { telegrams = shown_now })
SameBut-published s shown_now = record {
  buffer = refl;
  ids = refl;
  pending = refl;
  in_flight = refl;
  store_count = refl;
  coverage = refl;
  paused = refl;
  connected = refl;
  generation = refl;
}

SameBut-saved : (s : Feed) (saved : List Interval) → SameBut s (record s { saved_coverage = saved })
SameBut-saved s saved = record {
  buffer = refl;
  ids = refl;
  pending = refl;
  in_flight = refl;
  store_count = refl;
  coverage = refl;
  paused = refl;
  connected = refl;
  generation = refl;
}

SameBut-if : (c : Bool) (s a b : Feed) → SameBut s a → SameBut s b → SameBut s (if c then a else b)
SameBut-if true s a b h k = h
SameBut-if false s a b h k = k

pub publish_frame : (s : Feed) → SameBut s (publish s)
unfolding publish
publish_frame s =
    SameBut-if s.paused s s _ (SameBut-published s s.telegrams)
      (SameBut-published s (shown s.buffer))

pub save_coverage_frame : (s : Feed) → SameBut s (save_coverage s)
unfolding save_coverage
save_coverage_frame s =
    SameBut-if (ltb 0 s.store_count) s s _ (SameBut-saved s s.saved_coverage)
      (SameBut-saved s s.coverage.covered)

-- what the early flush leaves alone
pub record FlushFrame (s t : Feed) : Type 0 where
  pub buffer : t.buffer ≡ s.buffer
  pub ids : t.ids ≡ s.ids
  pub coverage : t.coverage ≡ s.coverage
  pub telegrams : t.telegrams ≡ s.telegrams
  pub paused : t.paused ≡ s.paused

pub flush_full_frame : (s : Feed) → FlushFrame s (flush_full s)
unfolding flush_full begin_store
flush_full_frame s = go (leb flush_batch_size (length s.pending))
  where
    go :
        (c : Bool)
        → FlushFrame s (if c then begin_store s.pending (record s { pending = [] }) else s)
    go true = record { buffer = refl; ids = refl; coverage = refl; telegrams = refl; paused = refl }
    go false = record {
      buffer = refl;
      ids = refl;
      coverage = refl;
      telegrams = refl;
      paused = refl;
    }

-- What an accepted live telegram does to the buffer, the known ids and the coverage, and that it is
-- handed on for writing.
pub record Entered (e : TelegramEntry) (s t : Feed) : Type 0 where
  pub buffer : t.buffer ≡ (add s.buffer (e ∷ [])).1
  pub ids : t.ids ≡ set_add (delete_ids s.ids (add s.buffer (e ∷ [])).0) e.id
  pub coverage : t.coverage ≡ extend_live s.coverage e.ts
  pub paused : t.paused ≡ s.paused

pub add_entry-Entered :
    (e : TelegramEntry) (s : Feed) → includes s.ids e.id ≡ false → Entered e s (add_entry e s)
unfolding add_entry track_removed
add_entry-Entered e s new = rw new (go s.paused)
  where
    entered : Feed
    entered =
        let (removed, buffer) = add s.buffer (e ∷ []) in
        record s {
          buffer = buffer;
          ids = set_add (delete_ids s.ids removed) e.id;
          coverage = extend_live s.coverage e.ts;
          pending = s.pending ++ e ∷ [];
        }

    go :
        (c : Bool)
        → Entered e s (
            if c
            then record (flush_full entered) { paused_count = s.paused_count + 1 }
            else publish (flush_full entered))
    go true =
        let f = flush_full_frame entered in
        record { buffer = f.buffer; ids = f.ids; coverage = f.coverage; paused = f.paused }
    go false =
        let f = flush_full_frame entered in
        let p = publish_frame (flush_full entered) in
        record {
          buffer = p.buffer ∙ f.buffer;
          ids = p.ids ∙ f.ids;
          coverage = p.coverage ∙ f.coverage;
          paused = p.paused ∙ f.paused;
        }
