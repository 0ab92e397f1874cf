-- ===== src/Socket/Tests.antt =====
-- The hook of frontend/src/hooks/useWebSocket.ts in concrete runs.
use spectrum_knx.Prelude.{◌≡◌, refl, true, false, some, [], ◌∷◌, All, get_elem?}
use mathlib.Core.Logic.{◌≢◌}
use spectrum_knx.Socket.{
  connecting, opened, closed, Hook, Reach, BrowserRun, browser, mounts, later, opens, begins_close,
  begin_close, closes, mount, on_open, on_close, on_timer, unmount, current_is_open,
}
use spectrum_knx.Socket.Reconnect.{can_reconnect}
use spectrum_knx.Socket.Steady
use spectrum_knx.Socket.Steady.{SteadyReach, older, current_has_opened, steady_connection}
use spectrum_knx.Socket.Stale.{reconnects_after_leaving}

up : Hook
unfolding mount
up = on_open 0 mount

up-Reach : Reach up
unfolding up mount on_open
up-Reach = later mounts (browser (opens 0 refl))

down : Hook
unfolding up
down = on_close 0 up

down-Reach : Reach down
unfolding down up mount on_open
down-Reach = later up-Reach (browser (closes 0 opened refl (λ q. cc)))

-- the other side has begun to close
going : Hook
unfolding up
going = begin_close 0 up

going-SteadyReach : SteadyReach going
unfolding going up mount on_open
going-SteadyReach = Steady.later (Steady.later Steady.mounts (opens 0 refl)) (begins_close 0 refl)

retries : (on_timer 1 down).sockets ≡ connecting ∷ closed ∷ []
unfolding down up mount on_open on_close on_timer
retries = refl

down_mounted : down.mounted ≡ true
unfolding down up mount on_open on_close
down_mounted = refl

can_reconnect_example : (h : Hook) × BrowserRun down h × (current_is_open h.sockets ≡ true)
can_reconnect_example = can_reconnect down-Reach down_mounted

steady_connection_example :
    (going.is_connected ≡ current_has_opened going.sockets)
    × All (λ s. s ≡ closed) (older going.sockets)
steady_connection_example = steady_connection going-SteadyReach

up_sockets : up.sockets ≡ opened ∷ []
unfolding up mount on_open
up_sockets = refl

up_mounted : up.mounted ≡ true
unfolding up mount on_open
up_mounted = refl

opened-ne-closed : opened ≢ closed
opened-ne-closed q = cc

reconnects_after_leaving_example :
    (h : Hook) × BrowserRun (unmount up) h
    × (h.mounted ≡ false)
    × (get_elem? h.sockets 0 ≡ some connecting)
reconnects_after_leaving_example = reconnects_after_leaving up opened [] up_sockets opened-ne-closed
