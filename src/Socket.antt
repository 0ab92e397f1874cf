-- ===== src/Socket.antt =====
-- The hook useWebSocket of frontend/src/hooks/useWebSocket.ts: its sockets, its reconnect timer and
-- what React keeps of it. The list of sockets starts with `ws.current`, the one made last. What the
-- browser does of its own accord is a step of the relation below.
mod Timer
pub mod Reconnect
pub mod Steady
pub mod Stale
mod Tests
use spectrum_knx.Prelude.{
  ℕ, zero, suc, ◌+◌, ◌≡◌, Bool, true, false, not, Option, none, some, List, [], ◌∷◌, ◌++◌, ◌==◌,
  if◌then◌else◌, filter, get_elem?, Text,
}
use mathlib.Core.Logic.{◌≢◌, ◌⊎◌}
use spectrum_knx.Telegram.{Telegram}

pub data ReadyState : Type 0 where
  connecting opened closing closed : ReadyState

pub record ConnectionStateEvent : Type 0 where
  pub connected : Bool
  pub state : Text
  pub timestamp : Text

-- what `JSON.parse` makes of a message
pub data Message : Type 0 where
  malformed : Message
  connection_state : ConnectionStateEvent → Message
  telegram : Telegram → Message

pub record Hook : Type 0 where
  pub sockets : List ReadyState
  pub is_connected : Bool
  pub mounted : Bool
  -- `reconnectTimeoutRef`, the timers that are running, and the browser's next timer id
  pub timer_ref : Option ℕ
  pub timers : List ℕ
  pub next_timer : ℕ
  -- what the callbacks were given
  pub telegrams : List Telegram
  pub events : List ConnectionStateEvent
  -- what was sent on an open socket
  pub sent : List Text

abbrev pub is_open : ReadyState → Bool
is_open opened = true
is_open _ = false

-- `ws.current?.readyState === WebSocket.OPEN`
abbrev pub current_is_open : List ReadyState → Bool
current_is_open [] = false
current_is_open (s ∷ rest) = is_open s

abbrev pub set_at : ℕ → ReadyState → List ReadyState → List ReadyState
set_at p s [] = []
set_at zero s (x ∷ rest) = s ∷ rest
set_at (suc p) s (x ∷ rest) = x ∷ set_at p s rest

unfoldable pub connect : Hook → Hook
connect h = if current_is_open h.sockets then h else record h { sockets = connecting ∷ h.sockets }

-- React drops an update of a component that is gone.
set_is_connected : Bool → Hook → Hook
set_is_connected b h = record h { is_connected = if h.mounted then b else h.is_connected }

unfoldable pub on_open : ℕ → Hook → Hook
unfolding set_is_connected
on_open p h = set_is_connected true (record h { sockets = set_at p opened h.sockets })

receive : Message → Hook → Hook
receive malformed h = h
receive (connection_state e) h = record h { events = h.events ++ (e ∷ []) }
receive (telegram t) h = record h { telegrams = h.telegrams ++ (t ∷ []) }

unfoldable pub on_message : Message → Hook → Hook
unfolding receive
on_message m h = receive m h

-- the timers but for the one that the ref names
unfoldable pub without_timer : Option ℕ → List ℕ → List ℕ
without_timer none ts = ts
without_timer (some k) ts = filter (λ t. not (t == k)) ts

clear_timer : Hook → Hook
unfolding without_timer
clear_timer h = record h { timers = without_timer h.timer_ref h.timers }

schedule : Hook → Hook
schedule h = record h {
  timer_ref = some h.next_timer;
  timers = h.next_timer ∷ h.timers;
  next_timer = suc h.next_timer;
}

unfoldable pub on_close : ℕ → Hook → Hook
unfolding set_is_connected clear_timer schedule
on_close p h =
    schedule
      (clear_timer (set_is_connected false (record h { sockets = set_at p closed h.sockets })))

-- the timer's callback, `connectRef.current()`
unfoldable pub on_timer : ℕ → Hook → Hook
unfolding connect
on_timer k h = connect (record h { timers = filter (λ t. not (t == k)) h.timers })

unfoldable pub send : Text → Hook → Hook
send message h =
    if current_is_open h.sockets then record h { sent = h.sent ++ (message ∷ []) } else h

-- `close()` of a socket that is not closed yet; its close event comes later
abbrev pub close : ReadyState → ReadyState
close closed = closed
close _ = closing

abbrev pub close_current : List ReadyState → List ReadyState
close_current [] = []
close_current (s ∷ rest) = close s ∷ rest

-- the cleanup of the effect
unfoldable pub cleanup : Hook → Hook
unfolding clear_timer
cleanup h = let c = clear_timer h in record c { sockets = close_current c.sockets }

unfoldable pub unmount : Hook → Hook
unfolding cleanup
unmount h = record (cleanup h) { mounted = false }

-- a new address: the effect's cleanup, then the effect
unfoldable pub change_url : Hook → Hook
unfolding cleanup connect
change_url h = connect (cleanup h)

unfoldable pub mount : Hook
unfolding connect
mount = connect (record {
  sockets = [];
  is_connected = false;
  mounted = true;
  timer_ref = none;
  timers = [];
  next_timer = 1;
  telegrams = [];
  events = [];
  sent = [];
})

abbrev pub Running : ℕ → List ℕ → Type 0
Running k [] = ⊥
Running k (t ∷ ts) = (k ≡ t) ⊎ Running k ts

-- The other side starts to close: the socket is closing, and no callback runs until it is closed.
unfoldable pub begin_close : ℕ → Hook → Hook
begin_close p h = record h { sockets = set_at p closing h.sockets }

-- What the browser may do: a socket opens, gets a message, begins to close or closes, or a timer
-- fires.
pub data BrowserStep (h : Hook) : Hook → Type 0 where
  opens : (p : ℕ) → get_elem? h.sockets p ≡ some connecting → BrowserStep h (on_open p h)
  hears :
      (p : ℕ) (m : Message) → get_elem? h.sockets p ≡ some opened → BrowserStep h (on_message m h)
  begins_close : (p : ℕ) → get_elem? h.sockets p ≡ some opened → BrowserStep h (begin_close p h)
  closes :
      (p : ℕ) (s : ReadyState)
      → get_elem? h.sockets p ≡ some s
      → s ≢ closed
      → BrowserStep h (on_close p h)
  fires : (k : ℕ) → Running k h.timers → BrowserStep h (on_timer k h)

-- What the page may do: send, or change the address or leave while it is there.
pub data Step (h : Hook) : Hook → Type 0 where
  browser : {h' : Hook} → BrowserStep h h' → Step h h'
  sends : (message : Text) → Step h (send message h)
  moves : h.mounted ≡ true → Step h (change_url h)
  leaves : h.mounted ≡ true → Step h (unmount h)

pub data Reach : Hook → Type 0 where
  mounts : Reach mount
  later : {h h' : Hook} → Reach h → Step h h' → Reach h'

-- what the browser may do, any number of times
pub data BrowserRun (h : Hook) : Hook → Type 0 where
  stays : BrowserRun h h
  goes : {h' h'' : Hook} → BrowserRun h h' → BrowserStep h' h'' → BrowserRun h h''
