-- ===== src/Socket/Reconnect.antt =====
-- That the hook of frontend/src/hooks/useWebSocket.ts comes back after a lost connection.
use spectrum_knx.Prelude.{
  ℕ, zero, suc, ◌≡◌, refl, true, false, List, [], ◌∷◌, Text, Bool-cases, inl, inr,
}
use spectrum_knx.Socket.{
  ReadyState, connecting, opened, closing, closed, Hook, Step, BrowserRun, Reach, opens, hears,
  closes, begins_close, begin_close, fires, browser, sends, moves, leaves, mounts, later, stays,
  goes, Message, malformed, connection_state, telegram, connect, on_open, on_message, on_close,
  on_timer, send, cleanup, unmount, change_url, mount, current_is_open, set_at, without_timer,
}

-- the current socket is not closed, or a timer runs
abbrev ComesBack : List ReadyState → List ℕ → Type 0
ComesBack [] ts = ⊥
ComesBack (closed ∷ rest) [] = ⊥
ComesBack (closed ∷ rest) (t ∷ ts) = Unit
ComesBack (_ ∷ rest) ts = Unit

abbrev Alive : Hook → Type 0
Alive h = h.mounted ≡ true → ComesBack h.sockets h.timers

ComesBack-timer :
    (p : ℕ) (s : ReadyState) (sockets : List ReadyState) (ts us : List ℕ) (t : ℕ)
    → ComesBack sockets ts
    → ComesBack (set_at p s sockets) (t ∷ us)
ComesBack-timer p s [] ts us t w = w
ComesBack-timer zero connecting (x ∷ rest) ts us t w = tt
ComesBack-timer zero opened (x ∷ rest) ts us t w = tt
ComesBack-timer zero closing (x ∷ rest) ts us t w = tt
ComesBack-timer zero closed (x ∷ rest) ts us t w = tt
ComesBack-timer (suc p) s (connecting ∷ rest) ts us t w = tt
ComesBack-timer (suc p) s (opened ∷ rest) ts us t w = tt
ComesBack-timer (suc p) s (closing ∷ rest) ts us t w = tt
ComesBack-timer (suc p) s (closed ∷ rest) ts us t w = tt

ComesBack-closing :
    (p : ℕ) (sockets : List ReadyState) (ts : List ℕ)
    → ComesBack sockets ts
    → ComesBack (set_at p closing sockets) ts
ComesBack-closing p [] ts w = w
ComesBack-closing zero (x ∷ rest) ts w = tt
ComesBack-closing (suc p) (connecting ∷ rest) ts w = tt
ComesBack-closing (suc p) (opened ∷ rest) ts w = tt
ComesBack-closing (suc p) (closing ∷ rest) ts w = tt
ComesBack-closing (suc p) (closed ∷ rest) [] w = w
ComesBack-closing (suc p) (closed ∷ rest) (t ∷ ts) w = tt

ComesBack-open :
    (p : ℕ) (sockets : List ReadyState) (ts : List ℕ)
    → ComesBack sockets ts
    → ComesBack (set_at p opened sockets) ts
ComesBack-open p [] ts w = w
ComesBack-open zero (x ∷ rest) ts w = tt
ComesBack-open (suc p) (connecting ∷ rest) ts w = tt
ComesBack-open (suc p) (opened ∷ rest) ts w = tt
ComesBack-open (suc p) (closing ∷ rest) ts w = tt
ComesBack-open (suc p) (closed ∷ rest) [] w = w
ComesBack-open (suc p) (closed ∷ rest) (t ∷ ts) w = tt

ComesBack-current :
    (sockets : List ReadyState) (ts : List ℕ)
    → current_is_open sockets ≡ true
    → ComesBack sockets ts
ComesBack-current [] ts e = cc
ComesBack-current (connecting ∷ rest) ts e = tt
ComesBack-current (opened ∷ rest) ts e = tt
ComesBack-current (closing ∷ rest) ts e = tt
ComesBack-current (closed ∷ rest) ts e = cc

connect-Alive : (h : Hook) → ComesBack (connect h).sockets (connect h).timers
unfolding connect
connect-Alive h = elim (Bool-cases (current_is_open h.sockets)) [
  | inl e ↦ rw e (ComesBack-current h.sockets h.timers e)
  | inr e ↦ rw e tt
]

on_message-Alive : (m : Message) (h : Hook) → Alive h → Alive (on_message m h)
unfolding on_message
on_message-Alive malformed h w = w
on_message-Alive (connection_state e) h w = w
on_message-Alive (telegram t) h w = w

send-Alive : (message : Text) (h : Hook) → Alive h → Alive (send message h)
unfolding send
send-Alive message h w = elim (Bool-cases (current_is_open h.sockets)) [
  | inl e ↦ rw e w
  | inr e ↦ rw e w
]

Step-Alive : {h h' : Hook} → Step h h' → Alive h → Alive h'
unfolding on_open on_close on_timer change_url unmount begin_close
Step-Alive {h} (browser (opens p e)) w m = ComesBack-open p h.sockets h.timers (w m)
Step-Alive {h} (browser (hears p message e)) w m = on_message-Alive message h w m
Step-Alive {h} (browser (begins_close p e)) w m = ComesBack-closing p h.sockets h.timers (w m)
Step-Alive {h} (browser (closes p s e n)) w m =
    ComesBack-timer p closed h.sockets h.timers _ h.next_timer (w m)
Step-Alive {h} (browser (fires k r)) w m = connect-Alive _
Step-Alive {h} (sends message) w m = send-Alive message h w m
Step-Alive {h} (moves e) w m = connect-Alive (cleanup h)
Step-Alive {h} (leaves e) w m = cc

Reach-Alive : {h : Hook} → Reach h → Alive h
unfolding mount
Reach-Alive mounts m = tt
Reach-Alive (later r s) m = Step-Alive s (Reach-Alive r) m

-- what the browser can bring about
abbrev CanOpen : Hook → Type 0
CanOpen h = (h' : Hook) × BrowserRun h h' × (current_is_open h'.sockets ≡ true)

module _ (h : Hook) where
  open_from :
      (h' : Hook) (rest : List ReadyState)
      → BrowserRun h h'
      → h'.sockets ≡ connecting ∷ rest
      → CanOpen h
  unfolding on_open
  open_from h' rest run e = (on_open 0 h', goes run (opens 0 (rw e refl)), rw e refl)

  fire_from :
      (h' : Hook) (k : ℕ) (ts : List ℕ)
      → BrowserRun h h'
      → h'.timers ≡ k ∷ ts
      → current_is_open h'.sockets ≡ false
      → CanOpen h
  fire_from h' k ts run e off =
      open_from (on_timer k h') h'.sockets (goes run (fires k (rw e (inl refl))))
        (unfold on_timer connect in rw off refl)

  reopens :
      (sockets : List ReadyState) (ts : List ℕ)
      → h.sockets ≡ sockets
      → h.timers ≡ ts
      → ComesBack sockets ts
      → CanOpen h
  reopens [] ts e f w = absurd w
  reopens (opened ∷ rest) ts e f w = (h, stays, rw e refl)
  reopens (connecting ∷ rest) ts e f w = open_from h rest stays e
  reopens (closing ∷ rest) ts e f w =
      fire_from (on_close 0 h) h.next_timer (without_timer h.timer_ref h.timers)
        (goes stays (closes 0 closing (rw e refl) (λ q. cc))) (unfold on_close in refl)
        (unfold on_close in rw e refl)
  reopens (closed ∷ rest) [] e f w = absurd w
  reopens (closed ∷ rest) (t ∷ ts) e f w = fire_from h t ts stays f (rw e refl)

-- From every state that a mounted hook can reach, whatever was closed, sent or moved before, the
-- browser's own steps can bring an open current socket: a lost connection is always tried again.
pub can_reconnect :
    {h : Hook}
    → Reach h
    → h.mounted ≡ true
    → (h' : Hook) × BrowserRun h h' × (current_is_open h'.sockets ≡ true)
can_reconnect {h} r m = reopens h h.sockets h.timers refl refl (Reach-Alive r m)
