-- ===== src/Socket/Steady.antt =====
-- The hook of frontend/src/hooks/useWebSocket.ts while its page stays, at one address.
use mathlib.Core.Logic.{◌≢◌}
use spectrum_knx.Prelude.{
  ℕ, zero, suc, ◌≡◌, refl, Bool, true, false, not, Option, none, some, List, [], ◌∷◌, arith, ◌==◌,
  filter, get_elem?, Text, Bool-cases, inl, inr, All,
}
use spectrum_knx.Socket.{
  ReadyState, connecting, opened, closing, closed, Hook, BrowserStep, opens, hears, closes, fires,
  begins_close, begin_close, Message, malformed, connection_state, telegram, connect, on_open,
  on_message, on_close, on_timer, send, mount, current_is_open, set_at, Running, without_timer,
}

-- runs in which the page neither leaves nor changes the address
pub data SteadyReach : Hook → Type 0 where
  mounts : SteadyReach mount
  later : {h h' : Hook} → SteadyReach h → BrowserStep h h' → SteadyReach h'
  sends : {h : Hook} → SteadyReach h → (message : Text) → SteadyReach (send message h)

abbrev AllClosed : List ReadyState → Type 0
AllClosed = All (λ s. s ≡ closed)

-- a timer runs while the current socket is closed, and only then
abbrev Matches : ReadyState → List ℕ → Bool → Type 0
Matches connecting ts b = (ts ≡ []) × (b ≡ false)
Matches opened ts b = (ts ≡ []) × (b ≡ true)
Matches closing ts b = (ts ≡ []) × (b ≡ true)
Matches closed (t ∷ []) b = b ≡ false
Matches closed _ b = ⊥

abbrev OneLive : List ReadyState → List ℕ → Bool → Type 0
OneLive [] ts b = ⊥
OneLive (s ∷ rest) ts b = AllClosed rest × Matches s ts b

abbrev IsSteady : Hook → Type 0
IsSteady h = (h.mounted ≡ true) × OneLive h.sockets h.timers h.is_connected

closed_at :
    (p : ℕ) (s : ReadyState) (rest : List ReadyState)
    → AllClosed rest
    → get_elem? rest p ≡ some s
    → s ≡ closed
closed_at p s [] w e = cc
closed_at zero s (x ∷ rest) w e = cc
closed_at (suc p) s (x ∷ rest) w e = closed_at p s rest w.1 e

opens-OneLive :
    (p : ℕ) (sockets : List ReadyState) (ts : List ℕ) (b : Bool)
    → OneLive sockets ts b
    → get_elem? sockets p ≡ some connecting
    → OneLive (set_at p opened sockets) ts true
opens-OneLive p [] ts b w e = w
opens-OneLive zero (connecting ∷ rest) ts b w e = (w.0, (w.1.0, refl))
opens-OneLive zero (opened ∷ rest) ts b w e = cc
opens-OneLive zero (closing ∷ rest) ts b w e = cc
opens-OneLive zero (closed ∷ rest) ts b w e = cc
opens-OneLive (suc p) (s ∷ rest) ts b w e = cc (closed_at p connecting rest w.0 e)

begins_close-OneLive :
    (p : ℕ) (sockets : List ReadyState) (ts : List ℕ) (b : Bool)
    → OneLive sockets ts b
    → get_elem? sockets p ≡ some opened
    → OneLive (set_at p closing sockets) ts b
begins_close-OneLive p [] ts b w e = w
begins_close-OneLive zero (connecting ∷ rest) ts b w e = cc
begins_close-OneLive zero (opened ∷ rest) ts b w e = w
begins_close-OneLive zero (closing ∷ rest) ts b w e = cc
begins_close-OneLive zero (closed ∷ rest) ts b w e = cc
begins_close-OneLive (suc p) (s ∷ rest) ts b w e = cc (closed_at p opened rest w.0 e)

without_timer_nil : (r : Option ℕ) → without_timer r [] ≡ []
unfolding without_timer
without_timer_nil none = refl
without_timer_nil (some k) = refl

only_timer :
    (r : Option ℕ) (ts : List ℕ) (t : ℕ) → ts ≡ [] → Matches closed (t ∷ without_timer r ts) false
only_timer r ts t e = rw e (rw (without_timer_nil r) refl)

none-Running : (k : ℕ) (ts : List ℕ) → ts ≡ [] → Running k ts → ⊥
none-Running k [] e r = r
none-Running k (t ∷ ts) e r = cc

last_fires : (k t : ℕ) → Running k (t ∷ []) → filter (λ u. not (u == k)) (t ∷ []) ≡ []
last_fires k t (inl e) = ground (arith, e)
last_fires k t (inr e) = absurd e

closes-OneLive :
    (p : ℕ) (s : ReadyState) (sockets : List ReadyState) (ts : List ℕ) (r : Option ℕ) (b : Bool)
    (t : ℕ)
    → OneLive sockets ts b
    → get_elem? sockets p ≡ some s
    → s ≢ closed
    → OneLive (set_at p closed sockets) (t ∷ without_timer r ts) false
closes-OneLive p s [] ts r b t w e n = w
closes-OneLive zero s (connecting ∷ rest) ts r b t w e n = (w.0, only_timer r ts t w.1.0)
closes-OneLive zero s (opened ∷ rest) ts r b t w e n = (w.0, only_timer r ts t w.1.0)
closes-OneLive zero s (closing ∷ rest) ts r b t w e n = (w.0, only_timer r ts t w.1.0)
closes-OneLive zero s (closed ∷ rest) ts r b t w e n = absurd (n (ground (arith, e)))
closes-OneLive (suc p) s (x ∷ rest) ts r b t w e n = absurd (n (closed_at p s rest w.0 e))

fires-OneLive :
    (k : ℕ) (s : ReadyState) (rest : List ReadyState) (ts : List ℕ) (b : Bool)
    → OneLive (s ∷ rest) ts b
    → Running k ts
    → (s ≡ closed) × (filter (λ t. not (t == k)) ts ≡ []) × (b ≡ false)
fires-OneLive k connecting rest ts b w r = absurd (none-Running k ts w.1.0 r)
fires-OneLive k opened rest ts b w r = absurd (none-Running k ts w.1.0 r)
fires-OneLive k closing rest ts b w r = absurd (none-Running k ts w.1.0 r)
fires-OneLive k closed rest [] b w r = absurd r
fires-OneLive k closed rest (t ∷ []) b w r = (refl, last_fires k t r, w.1)
fires-OneLive k closed rest (t ∷ u ∷ ts) b w r = absurd w.1

on_message-IsSteady : (m : Message) (h : Hook) → IsSteady h → IsSteady (on_message m h)
unfolding on_message
on_message-IsSteady malformed h w = w
on_message-IsSteady (connection_state e) h w = w
on_message-IsSteady (telegram t) h w = w

send-IsSteady : (message : Text) (h : Hook) → IsSteady h → IsSteady (send message h)
unfolding send
send-IsSteady message h w = elim (Bool-cases (current_is_open h.sockets)) [
  | inl e ↦ rw e w
  | inr e ↦ rw e w
]

-- the state after a timer has fired
fired :
    (k : ℕ) (sockets : List ReadyState) (ts : List ℕ) (b : Bool)
    → OneLive sockets ts b
    → Running k ts
    → (current_is_open sockets ≡ false)
      × OneLive (connecting ∷ sockets) (filter (λ t. not (t == k)) ts) b
fired k [] ts b w r = absurd w
fired k (s ∷ rest) ts b w r =
    let f = fires-OneLive k s rest ts b w r in (rw f.0 refl, ((f.0, w.0), (f.1, f.2)))

BrowserStep-IsSteady : {h h' : Hook} → BrowserStep h h' → IsSteady h → IsSteady h'
unfolding on_open on_close on_timer connect begin_close
BrowserStep-IsSteady {h} (opens p e) w =
    (w.0, rw w.0 (opens-OneLive p h.sockets h.timers h.is_connected w.1 e))
BrowserStep-IsSteady {h} (hears p m e) w = on_message-IsSteady m h w
BrowserStep-IsSteady {h} (begins_close p e) w =
    (w.0, begins_close-OneLive p h.sockets h.timers h.is_connected w.1 e)
BrowserStep-IsSteady {h} (closes p s e n) w = (
  w.0,
  rw w.0 (closes-OneLive p s h.sockets h.timers h.timer_ref h.is_connected h.next_timer w.1 e n),
)
BrowserStep-IsSteady {h} (fires k r) w =
    let f = fired k h.sockets h.timers h.is_connected w.1 r in rw f.0 (w.0, f.1)

SteadyReach-IsSteady : {h : Hook} → SteadyReach h → IsSteady h
unfolding mount
SteadyReach-IsSteady mounts = (refl, (tt, (refl, refl)))
SteadyReach-IsSteady (later r s) = BrowserStep-IsSteady s (SteadyReach-IsSteady r)
SteadyReach-IsSteady (sends {h} r m) = send-IsSteady m h (SteadyReach-IsSteady r)

abbrev pub older : List ReadyState → List ReadyState
older [] = []
older (s ∷ rest) = rest

-- whether a socket has opened, and its close event has not come
abbrev pub has_opened : ReadyState → Bool
has_opened opened = true
has_opened closing = true
has_opened _ = false

abbrev pub current_has_opened : List ReadyState → Bool
current_has_opened [] = false
current_has_opened (s ∷ rest) = has_opened s

connected_lem :
    (sockets : List ReadyState) (ts : List ℕ) (b : Bool)
    → OneLive sockets ts b
    → (b ≡ current_has_opened sockets) × AllClosed (older sockets)
connected_lem [] ts b w = absurd w
connected_lem (connecting ∷ rest) ts b w = (w.1.1, w.0)
connected_lem (opened ∷ rest) ts b w = (w.1.1, w.0)
connected_lem (closing ∷ rest) ts b w = (w.1.1, w.0)
connected_lem (closed ∷ rest) (t ∷ []) b w = (w.1, w.0)
connected_lem (closed ∷ rest) [] b w = absurd w.1
connected_lem (closed ∷ rest) (t ∷ u ∷ ts) b w = absurd w.1

-- While the page stays at one address, whatever opens, begins to close, closes, fires or arrives: the
-- state shown is exactly whether the current socket is open or has been since it was made and waits
-- for its close event, and every older socket is closed.
pub steady_connection :
    {h : Hook}
    → SteadyReach h
    → (h.is_connected ≡ current_has_opened h.sockets) × All (λ s. s ≡ closed) (older h.sockets)
steady_connection {h} r = connected_lem h.sockets h.timers h.is_connected (SteadyReach-IsSteady r).1
