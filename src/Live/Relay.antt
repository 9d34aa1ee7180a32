-- ===== src/Live/Relay.antt =====
-- invofi/apps/frontend/src/lib/live/transports.ts: `createWebSocketTransport`. The variables of its
-- closure are `RelayState`, and each call of `connect`, a handler or a timer is a function on it.
-- Sockets are numbered. A run is a sequence of steps: an event of any socket may come at any time,
-- a timer fires if it is set. The texts of details are left out.
pub mod Pending
pub mod Stopped
mod Tests
use invofi.Prelude.{
  ℕ, ◌+◌, ◌-◌, ◌*◌, ◌^◌, min, ◌≡◌, Bool, true, false, not, ◌||◌, Option, none, some, List, [], ◌∷◌,
  ◌==◌, leb, if◌then◌else◌,
}
use invofi.Live.{LivePositionUpdate, ConnectionStatus, connecting, connected, reconnecting}
use invofi.Live.Wire.{WsEnvelope, decode_envelope}

-- The calls of the caller's functions.
pub data Notice : Type 0 where
  connection_changed : ConnectionStatus → Notice
  resync_wanted : Notice
  update_received : LivePositionUpdate → Notice
  gave_up : Notice

pub record WebSocketTransportOptions : Type 0 where
  pub reconnect_base_ms : ℕ
  pub max_backoff_ms : ℕ
  pub max_reconnect_attempts : ℕ
  pub max_relay_failures : ℕ

-- A timer is the delay, or the number of the socket, that it is set for. `attempts` counts the calls
-- of `new WebSocket`, and `notices` has the last one first.
pub record RelayState : Type 0 where
  pub socket : Option ℕ
  pub reconnect_timer : Option ℕ
  pub connect_timer : Option ℕ
  pub stopped : Bool
  pub ever_connected : Bool
  pub consecutive_failures : ℕ
  pub attempts : ℕ
  pub notices : List Notice

abbrev pub initial_relay : RelayState
initial_relay = record {
  socket = none;
  reconnect_timer = none;
  connect_timer = none;
  stopped = false;
  ever_connected = false;
  consecutive_failures = 0;
  attempts = 0;
  notices = [];
}

abbrev pub tell : Notice → RelayState → RelayState
tell n s = record s { notices = n ∷ s.notices }

unfoldable pub backoff_for : WebSocketTransportOptions → ℕ → ℕ
backoff_for o attempt = min o.max_backoff_ms (o.reconnect_base_ms * 2 ^ min attempt 6)

abbrev pub retry_in : ℕ → ConnectionStatus → RelayState → RelayState
retry_in delay status s = record s {
  reconnect_timer = some delay;
  notices = connection_changed status ∷ s.notices;
}

unfoldable pub handle_failure : WebSocketTransportOptions → RelayState → RelayState
handle_failure o s =
    let failed = record s { consecutive_failures = s.consecutive_failures + 1 } in
    if s.stopped
    then s
    else (if s.ever_connected
        then (if leb o.max_relay_failures failed.consecutive_failures
            then tell gave_up failed
            else retry_in (backoff_for o (failed.consecutive_failures - 1)) reconnecting failed)
        else (if leb o.max_reconnect_attempts failed.consecutive_failures
            then tell gave_up failed
            else retry_in (backoff_for o failed.consecutive_failures) connecting failed))

-- `connect`; `valid` tells that the constructor accepts the URL.
unfoldable pub connect_socket : WebSocketTransportOptions → Bool → RelayState → RelayState
connect_socket o valid s =
    let trying = record s {
      attempts = s.attempts + 1;
      notices =
          connection_changed (if s.ever_connected then reconnecting else connecting) ∷ s.notices;
    } in
    if s.stopped
    then s
    else (if valid
        then record trying { socket = some s.attempts; connect_timer = some s.attempts }
        else handle_failure o trying)

-- `socket === ws`
abbrev pub is_current : ℕ → Option ℕ → Bool
is_current ws none = false
is_current ws (some current) = current == ws

unfoldable pub on_open : ℕ → RelayState → RelayState
on_open ws s = if s.stopped || not (is_current ws s.socket) then s else record s {
  connect_timer = none;
  ever_connected = true;
  notices = resync_wanted ∷ connection_changed connected ∷ s.notices;
}

abbrev pub deliver_update : Option LivePositionUpdate → RelayState → RelayState
deliver_update none s = s
deliver_update (some update) s = tell (update_received update) s

unfoldable pub on_message : ℕ → ℕ → Option WsEnvelope → RelayState → RelayState
on_message ws now_ms parsed s =
    if s.stopped || not (is_current ws s.socket)
    then s
    else deliver_update (decode_envelope now_ms parsed) s

unfoldable pub on_close : WebSocketTransportOptions → ℕ → RelayState → RelayState
on_close o ws s =
    if s.stopped || not (is_current ws s.socket)
    then s
    else handle_failure o (record s { socket = none; connect_timer = none })

-- The timer of the handshake of a socket fires.
unfoldable pub on_connect_timeout : WebSocketTransportOptions → ℕ → RelayState → RelayState
on_connect_timeout o ws s =
    if s.stopped || not (is_current ws s.socket)
    then record s { connect_timer = none }
    else handle_failure o (record s { socket = none; connect_timer = none })

unfoldable pub stop_relay : RelayState → RelayState
stop_relay s = record s {
  stopped = true;
  connect_timer = none;
  reconnect_timer = none;
  socket = none;
}

pub data RelayStep (o : WebSocketTransportOptions) : RelayState → RelayState → Type 0 where
  reconnect :
      (s : RelayState) (delay : ℕ) (valid : Bool)
      → s.reconnect_timer ≡ some delay
      → RelayStep o s (connect_socket o valid (record s { reconnect_timer = none }))
  opened : (s : RelayState) (ws : ℕ) → RelayStep o s (on_open ws s)
  message :
      (s : RelayState) (ws now_ms : ℕ) (parsed : Option WsEnvelope)
      → RelayStep o s (on_message ws now_ms parsed s)
  closed : (s : RelayState) (ws : ℕ) → RelayStep o s (on_close o ws s)
  timed_out :
      (s : RelayState) (ws : ℕ)
      → s.connect_timer ≡ some ws
      → RelayStep o s (on_connect_timeout o ws s)
  stopped_by : (s : RelayState) → RelayStep o s (stop_relay s)

pub data RelaySteps (o : WebSocketTransportOptions) (s : RelayState) : RelayState → Type 0 where
  here : RelaySteps o s s
  next : {t u : RelayState} → RelaySteps o s t → RelayStep o t u → RelaySteps o s u

-- What `start` leads to.
abbrev pub Reachable : WebSocketTransportOptions → RelayState → Type 0
Reachable o s = (valid : Bool) × RelaySteps o (connect_socket o valid initial_relay) s
