-- ===== src/Socket/Timer.antt =====
-- The reconnect timer of frontend/src/hooks/useWebSocket.ts.
use spectrum_knx.Prelude.{
  ℕ, ◌≡◌, refl, not, Option, none, some, List, [], ◌∷◌, arith, ◌==◌, filter, Text, Bool-cases, inl,
  inr,
}
use spectrum_knx.Socket.{
  Hook, Step, BrowserStep, Reach, opens, hears, closes, begins_close, begin_close, fires, browser,
  sends, moves, leaves, mounts, later, Message, malformed, connection_state, telegram, connect,
  on_open, on_message, on_close, on_timer, send, cleanup, unmount, change_url, mount, without_timer,
  clear_timer, current_is_open,
}

-- no timer runs but the one that the ref names
abbrev pub IsNamed : List ℕ → Option ℕ → Type 0
IsNamed [] r = Unit
IsNamed (k ∷ []) (some r) = k ≡ r
IsNamed _ _ = ⊥

pub without_timer_none : (ts : List ℕ) (r : Option ℕ) → IsNamed ts r → without_timer r ts ≡ []
unfolding without_timer
without_timer_none [] none h = refl
without_timer_none [] (some r) h = refl
without_timer_none (k ∷ []) (some r) h = ground (arith, h)
without_timer_none (k ∷ []) none h = absurd h
without_timer_none (k ∷ j ∷ ts) none h = absurd h
without_timer_none (k ∷ j ∷ ts) (some r) h = absurd h

fired-IsNamed :
    (j : ℕ) (ts : List ℕ) (r : Option ℕ) → IsNamed ts r → IsNamed (filter (λ t. not (t == j)) ts) r
fired-IsNamed j [] r h = tt
fired-IsNamed j (k ∷ []) (some r) h = elim (Bool-cases (k == j)) [
  | inl e ↦ rw e tt
  | inr e ↦ rw e h
]
fired-IsNamed j (k ∷ []) none h = absurd h
fired-IsNamed j (k ∷ i ∷ ts) none h = absurd h
fired-IsNamed j (k ∷ i ∷ ts) (some r) h = absurd h

abbrev pub TimerNamed : Hook → Type 0
TimerNamed h = IsNamed h.timers h.timer_ref

connect-TimerNamed : (h : Hook) → TimerNamed h → TimerNamed (connect h)
unfolding connect
connect-TimerNamed h w = elim (Bool-cases (current_is_open h.sockets)) [
  | inl e ↦ rw e w
  | inr e ↦ rw e w
]

clear_timer-TimerNamed : (h : Hook) → TimerNamed h → (clear_timer h).timers ≡ []
unfolding clear_timer
clear_timer-TimerNamed h w = without_timer_none h.timers h.timer_ref w

on_message-TimerNamed : (m : Message) (h : Hook) → TimerNamed h → TimerNamed (on_message m h)
unfolding on_message
on_message-TimerNamed malformed h w = w
on_message-TimerNamed (connection_state e) h w = w
on_message-TimerNamed (telegram t) h w = w

send-TimerNamed : (message : Text) (h : Hook) → TimerNamed h → TimerNamed (send message h)
unfolding send
send-TimerNamed message h w = elim (Bool-cases (current_is_open h.sockets)) [
  | inl e ↦ rw e w
  | inr e ↦ rw e w
]

on_close-TimerNamed : (p : ℕ) (h : Hook) → TimerNamed h → TimerNamed (on_close p h)
unfolding on_close
on_close-TimerNamed p h w = rw (without_timer_none h.timers h.timer_ref w) refl

cleanup-TimerNamed : (h : Hook) → TimerNamed h → TimerNamed (cleanup h)
unfolding cleanup
cleanup-TimerNamed h w = rw (without_timer_none h.timers h.timer_ref w) tt

BrowserStep-TimerNamed : {h h' : Hook} → BrowserStep h h' → TimerNamed h → TimerNamed h'
unfolding on_open on_timer change_url unmount begin_close
BrowserStep-TimerNamed (opens p e) w = w
BrowserStep-TimerNamed {h} (hears p m e) w = on_message-TimerNamed m h w
BrowserStep-TimerNamed (begins_close p e) w = w
BrowserStep-TimerNamed {h} (closes p s e n) w = on_close-TimerNamed p h w
BrowserStep-TimerNamed {h} (fires k r) w =
    connect-TimerNamed (record h { timers = filter (λ t. not (t == k)) h.timers })
      (fired-IsNamed k h.timers h.timer_ref w)

Step-TimerNamed : {h h' : Hook} → Step h h' → TimerNamed h → TimerNamed h'
unfolding change_url unmount
Step-TimerNamed (browser b) w = BrowserStep-TimerNamed b w
Step-TimerNamed {h} (sends m) w = send-TimerNamed m h w
Step-TimerNamed {h} (moves e) w = connect-TimerNamed (cleanup h) (cleanup-TimerNamed h w)
Step-TimerNamed {h} (leaves e) w = cleanup-TimerNamed h w

-- Whatever happens, at most one reconnect timer runs, and it is the one that the hook can clear.
pub Reach-TimerNamed : {h : Hook} → Reach h → TimerNamed h
unfolding mount
Reach-TimerNamed mounts = tt
Reach-TimerNamed (later r s) = Step-TimerNamed s (Reach-TimerNamed r)
