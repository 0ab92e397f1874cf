-- ===== src/Feed/Gap/Cleared.antt =====
-- What a load of frontend/src/hooks/useTelegramCache.ts does after `clear`.
use mathlib.Core.Path.{subst}
use spectrum_knx.Prelude.{
  some, Option, ◌==◌, ℕ, ◌+◌, ◌-◌, ◌≤◌, ◌≡◌, refl, ap, sym, ◌∙◌, Bool, true, false, List, [],
  length, arith,
}
use spectrum_knx.Telegram.{TelegramEntry}
use spectrum_knx.Buffer
use spectrum_knx.Coverage
use spectrum_knx.Coverage.{add_covered}
use spectrum_knx.Coverage.Points.{covers}
use spectrum_knx.Coverage.Merge.{covers-add_covered}
use spectrum_knx.Feed.{Feed, clear, track_removed}
use spectrum_knx.Feed.Frames.{save_coverage_frame}
use spectrum_knx.Feed.Gap.{Load, oldest_of, chunk_stored, page_back, cover_if, received, dropped}

-- a chunk that the cache took is covered
record Marked (p : ℕ) (s t : Feed) : Type 0 where
  covered : covers t.coverage.covered p ≡ true
  buffer : t.buffer ≡ s.buffer
  generation : t.generation ≡ s.generation

page_back-Marked :
    (oldest p : ℕ) (limit_reached : Bool) (l : Load) (s : Feed)
    → oldest ≤ p
    → p ≤ l.cursor
    → Marked p s (page_back (some oldest) true limit_reached l s).1
unfolding page_back cover_if
page_back-Marked oldest p true l s a b = record {
  covered = ground (arith, covers-add_covered s.coverage oldest l.cursor p);
  buffer = refl;
  generation = refl;
}
page_back-Marked oldest p false l s a b = record {
  covered = ground (
    arith,
    covers-add_covered s.coverage oldest l.cursor p,
    covers-add_covered (add_covered s.coverage oldest l.cursor) l.gap_start l.cursor p,
  );
  buffer = refl;
  generation = refl;
}

record Cleared (s t : Feed) : Type 0 where
  buffer : t.buffer.entries ≡ []
  generation : t.generation ≡ s.generation + 1
  coverage : t.coverage ≡ Coverage.empty

clear-Cleared : (s : Feed) → Cleared s (clear s)
unfolding clear track_removed Buffer.clear Coverage.clear
clear-Cleared s =
    let f = save_coverage_frame _ in
    record {
      buffer = ap (λ (b : Buffer.Buffer). b.entries) f.buffer;
      generation = f.generation;
      coverage = f.coverage;
    }

-- A load whose chunk was being written when the view was cleared marks the chunk's time as covered
-- once the write succeeds, though the buffer is empty and the cache is being wiped: the check of
-- the load's generation comes only with the next answer.
pub clear_during_store :
    (s : Feed) (l : Load) (entries : List TelegramEntry) (limit_reached : Bool) (oldest p : ℕ)
    → oldest_of entries ≡ some oldest
    → oldest ≤ p
    → p ≤ l.cursor
    → (let t = (chunk_stored true entries limit_reached l (clear s)).1 in
        (covers t.coverage.covered p ≡ true)
        × (t.buffer.entries ≡ [])
        × (t.generation ≡ s.generation + 1))
unfolding chunk_stored
clear_during_store s l entries limit_reached oldest p e a b =
    let counted : Load = record l { fetched = l.fetched + length entries } in
    let settled : Feed = record (clear s) { store_count = (clear s).store_count - 1 } in
    let m = page_back-Marked oldest p limit_reached counted settled a b in
    let c = clear-Cleared s in
    subst
      (λ (o : Option ℕ).
        let t = (page_back o true limit_reached counted settled).1 in
        (covers t.coverage.covered p ≡ true)
        × (t.buffer.entries ≡ [])
        × (t.generation ≡ s.generation + 1))
      (sym e)
      (
        m.covered,
        ap (λ (b : Buffer.Buffer). b.entries) m.buffer ∙ c.buffer,
        m.generation ∙ c.generation,
      )

-- After a clear, no answer to a load that began before it changes anything.
pub clear_drops :
    (s : Feed) (l : Load) (entries : List TelegramEntry)
    → l.generation ≤ s.generation
    → received entries l (clear s) ≡ dropped
unfolding received
clear_drops s l entries h =
    let c = (clear-Cleared s).generation in
    let moved : ((clear s).generation == l.generation) ≡ false = ground (arith, c) in rw moved
