-- ===== src/Socket/Stale.antt =====
-- What the hook of frontend/src/hooks/useWebSocket.ts does after the page has left.
use mathlib.Core.Logic.{◌≢◌}
use spectrum_knx.Prelude.{◌≡◌, refl, ap, false, some, List, ◌∷◌, get_elem?, inl}
use spectrum_knx.Socket.{
  ReadyState, connecting, opened, closing, closed, Hook, BrowserRun, closes, fires, stays, goes,
  connect, on_close, on_timer, unmount, current_is_open, close,
}

close-ne-closed : (s : ReadyState) → s ≢ closed → close s ≡ closing
close-ne-closed connecting n = refl
close-ne-closed opened n = refl
close-ne-closed closing n = refl
close-ne-closed closed n = absurd (n refl)

-- Leaving the page while a socket is not closed yet: the browser's own steps, the socket's close
-- event and the timer that it starts, make the hook connect again, although the page has left.
pub reconnects_after_leaving :
    (h : Hook) (s : ReadyState) (rest : List ReadyState)
    → h.sockets ≡ s ∷ rest
    → s ≢ closed
    → (h' : Hook) × BrowserRun (unmount h) h'
      × (h'.mounted ≡ false)
      × (get_elem? h'.sockets 0 ≡ some connecting)
unfolding unmount on_close on_timer connect
reconnects_after_leaving h s rest e n =
    let gone = unmount h in
    let down = on_close 0 gone in
    let at_head : get_elem? gone.sockets 0 ≡ some closing = rw e (ap some (close-ne-closed s n)) in
    let off : current_is_open down.sockets ≡ false = rw e refl in
    (
      on_timer h.next_timer down,
      goes (goes stays (closes 0 closing at_head (λ q. cc))) (fires h.next_timer (inl refl)),
      rw off refl,
      rw off refl,
    )
