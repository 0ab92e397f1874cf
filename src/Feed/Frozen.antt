-- ===== src/Feed/Frozen.antt =====
-- A live telegram while the view of frontend/src/hooks/useTelegramCache.ts is paused.
use spectrum_knx.Prelude.{
  if_true, if_false, ◌+◌, ◌≡◌, ap, ◌∙◌, true, false, [], ◌∷◌, ◌++◌, includes,
}
use spectrum_knx.Telegram.{TelegramEntry}
use spectrum_knx.Buffer.{add}
use spectrum_knx.Coverage.{extend_live}
use spectrum_knx.Feed.{Feed, track_removed, set_add, delete_ids, flush_full, add_entry}
use spectrum_knx.Feed.Frames.{flush_full_frame, add_entry-Entered}

-- While the view is paused, a new live telegram is counted and buffered, and the view stays as it
-- is.
pub add_entry_paused :
    (e : TelegramEntry) (s : Feed)
    → s.paused ≡ true
    → includes s.ids e.id ≡ false
    → ((add_entry e s).telegrams ≡ s.telegrams)
      × ((add_entry e s).paused_count ≡ s.paused_count + 1)
      × ((add_entry e s).buffer ≡ (add s.buffer (e ∷ [])).1)
add_entry_paused e s p new = (
  ap (λ (t : Feed). t.telegrams) chosen ∙ (flush_full_frame entered).telegrams,
  ap (λ (t : Feed). t.paused_count) chosen,
  (add_entry-Entered e s new).buffer,
)
  where
    entered : Feed
    entered =
        let (removed, buffer) = add s.buffer (e ∷ []) in
        record s {
          buffer = buffer;
          ids = set_add (delete_ids s.ids removed) e.id;
          coverage = extend_live s.coverage e.ts;
          pending = s.pending ++ e ∷ [];
        }

    counted : Feed
    counted = record (flush_full entered) { paused_count = s.paused_count + 1 }

    chosen : add_entry e s ≡ counted
    chosen =
        unfold add_entry track_removed in
        if_false (includes s.ids e.id) _ _ new ∙ if_true s.paused _ _ p
