-- ===== src/Live/Relay/Pending.antt =====
-- What is pending in a run of the relay client, and how often it connects.
use invofi.Prelude.{
  ℕ, ◌+◌, ◌-◌, max, ◌≤◌, ◌≡◌, refl, Bool, true, false, not, ◌||◌, Option, none, some, List, [], ◌∷◌,
  if◌then◌else◌, arith, inl, inr, Bool-cases,
}
use invofi.Live.{LivePositionUpdate}
use invofi.Live.Wire.{decode_envelope}
use invofi.Live.Relay.{
  Notice, connection_changed, resync_wanted, update_received, gave_up, WebSocketTransportOptions,
  RelayState, initial_relay, backoff_for, handle_failure, connect_socket, is_current, on_open,
  deliver_update, on_message, on_close, on_connect_timeout, stop_relay, RelayStep, reconnect,
  opened, message, closed, timed_out, stopped_by, RelaySteps, here, next, Reachable,
}

abbrev pub is_set : Option ℕ → ℕ
is_set none = 0
is_set (some n) = 1

abbrev pub given_up : List Notice → ℕ
given_up [] = 0
given_up (connection_changed status ∷ notices) = given_up notices
given_up (resync_wanted ∷ notices) = given_up notices
given_up (update_received update ∷ notices) = given_up notices
given_up (gave_up ∷ notices) = given_up notices + 1

abbrev pub as_number : Bool → ℕ
as_number true = 1
as_number false = 0

abbrev pub DelayWithin : ℕ → Option ℕ → Type 0
DelayWithin limit none = Unit
DelayWithin limit (some delay) = delay ≤ limit

-- Numbers that are 0 or 1 count the socket, the timer, the calls of `onGiveUp` and the stop.
pub record IsRelay (o : WebSocketTransportOptions) (s : RelayState) : Type 0 where
  -- one of them is there
  pub some_pending :
      1 ≤ is_set s.socket + is_set s.reconnect_timer + given_up s.notices + as_number s.stopped
  -- a socket, a retry and the end by giving up exclude one another
  pub one_pending : is_set s.socket + is_set s.reconnect_timer + given_up s.notices ≤ 1
  -- nothing is pending after a stop
  pub none_after_stop : is_set s.socket + is_set s.reconnect_timer + as_number s.stopped ≤ 1
  pub delay : DelayWithin o.max_backoff_ms s.reconnect_timer
  pub counted :
      s.attempts + is_set s.reconnect_timer + given_up s.notices ≤ s.consecutive_failures + 1
  pub limited :
      s.consecutive_failures + 1
      ≤ max o.max_reconnect_attempts o.max_relay_failures + given_up s.notices

backoff_for-le : (o : WebSocketTransportOptions) (n : ℕ) → backoff_for o n ≤ o.max_backoff_ms
unfolding backoff_for
backoff_for-le o n = omega arith

-- What holds when a call of `handleFailure` begins: nothing is pending.
record IsFailing (o : WebSocketTransportOptions) (s : RelayState) : Type 0 where
  no_socket : is_set s.socket ≡ 0
  no_timer : is_set s.reconnect_timer ≡ 0
  live : s.stopped ≡ false
  going_on : given_up s.notices ≡ 0
  counted : s.attempts ≤ s.consecutive_failures + 1
  limited : s.consecutive_failures + 1 ≤ max o.max_reconnect_attempts o.max_relay_failures

module _ (o : WebSocketTransportOptions) (s : RelayState) where
  handle_failure-IsRelay : IsFailing o s → IsRelay o (handle_failure o s)
  unfolding handle_failure
  handle_failure-IsRelay h = ground (
    arith,
    backoff_for-le o (s.consecutive_failures + 1),
    backoff_for-le o (s.consecutive_failures + 1 - 1),
  )

connect_socket-IsRelay :
    (o : WebSocketTransportOptions) (s : RelayState) (valid : Bool)
    → IsFailing o s
    → s.attempts ≤ s.consecutive_failures
    → IsRelay o (connect_socket o valid s)
unfolding connect_socket
connect_socket-IsRelay o s true h few = ground arith
connect_socket-IsRelay o s false h few =
    rw (h.live, connect_socket)
      (handle_failure-IsRelay o _ (record {
        no_socket = h.no_socket;
        no_timer = h.no_timer;
        live = refl;
        going_on = h.going_on;
        counted = omega arith;
        limited = h.limited;
      }))

on_open-IsRelay :
    (o : WebSocketTransportOptions) (s : RelayState) (ws : ℕ)
    → IsRelay o s
    → IsRelay o (on_open ws s)
unfolding on_open
on_open-IsRelay o s ws h = ground arith

on_message-IsRelay :
    (o : WebSocketTransportOptions) (s : RelayState) (ws : ℕ) (update : Option LivePositionUpdate)
    → IsRelay o s
    → IsRelay o (if s.stopped || not (is_current ws s.socket) then s else deliver_update update s)
on_message-IsRelay o s ws none h = ground arith
on_message-IsRelay o s ws (some update) h = ground arith

lost-IsFailing :
    (o : WebSocketTransportOptions) (s : RelayState) (ws : ℕ)
    → IsRelay o s
    → (s.stopped || not (is_current ws s.socket)) ≡ false
    → IsFailing o (record s { socket = none; connect_timer = none })
lost-IsFailing o s ws h current = ground arith

on_close-IsRelay :
    (o : WebSocketTransportOptions) (s : RelayState) (ws : ℕ)
    → IsRelay o s
    → IsRelay o (on_close o ws s)
unfolding on_close
on_close-IsRelay o s ws h = elim (Bool-cases (s.stopped || not (is_current ws s.socket))) [
  | inl ignored ↦ rw ignored h
  | inr lost ↦ rw lost (handle_failure-IsRelay o _ (lost-IsFailing o s ws h lost))
]

on_connect_timeout-IsRelay :
    (o : WebSocketTransportOptions) (s : RelayState) (ws : ℕ)
    → IsRelay o s
    → IsRelay o (on_connect_timeout o ws s)
unfolding on_connect_timeout
on_connect_timeout-IsRelay o s ws h =
    elim (Bool-cases (s.stopped || not (is_current ws s.socket))) [
      | inl ignored ↦ rw ignored (ground arith)
      | inr lost ↦ rw lost (handle_failure-IsRelay o _ (lost-IsFailing o s ws h lost))
    ]

reconnect-IsRelay :
    (o : WebSocketTransportOptions) (s : RelayState) (delay : ℕ) (valid : Bool)
    → s.reconnect_timer ≡ some delay
    → IsRelay o s
    → IsRelay o (connect_socket o valid (record s { reconnect_timer = none }))
reconnect-IsRelay o s delay valid set h =
    connect_socket-IsRelay o (record s { reconnect_timer = none }) valid (ground arith)
      (ground arith)

stop_relay-IsRelay :
    (o : WebSocketTransportOptions) (s : RelayState) → IsRelay o s → IsRelay o (stop_relay s)
unfolding stop_relay
stop_relay-IsRelay o s h = ground arith

pub RelayStep-IsRelay :
    {o : WebSocketTransportOptions} {s t : RelayState} → RelayStep o s t → IsRelay o s → IsRelay o t
unfolding on_message
RelayStep-IsRelay {o} (reconnect s delay valid set) h = reconnect-IsRelay o s delay valid set h
RelayStep-IsRelay {o} (opened s ws) h = on_open-IsRelay o s ws h
RelayStep-IsRelay {o} (message s ws now_ms parsed) h =
    on_message-IsRelay o s ws (decode_envelope now_ms parsed) h
RelayStep-IsRelay {o} (closed s ws) h = on_close-IsRelay o s ws h
RelayStep-IsRelay {o} (timed_out s ws set) h = on_connect_timeout-IsRelay o s ws h
RelayStep-IsRelay {o} (stopped_by s) h = stop_relay-IsRelay o s h

RelaySteps-IsRelay :
    {o : WebSocketTransportOptions} {s t : RelayState}
    → RelaySteps o s t
    → IsRelay o s
    → IsRelay o t
RelaySteps-IsRelay here h = h
RelaySteps-IsRelay (next steps step) h = RelayStep-IsRelay step (RelaySteps-IsRelay steps h)

-- In a run of the relay client from its start, as long as it is not stopped and has not given up
-- there is a socket or a retry that is set, never both, and a retry waits at most the maximal
-- back-off; it gives up at most once, with nothing pending; and a stop leaves nothing pending.
pub Reachable-IsRelay :
    (o : WebSocketTransportOptions) (s : RelayState)
    → 1 ≤ max o.max_reconnect_attempts o.max_relay_failures
    → Reachable o s
    → IsRelay o s
Reachable-IsRelay o s positive (valid, steps) =
    RelaySteps-IsRelay steps
      (connect_socket-IsRelay o initial_relay valid (ground arith) (omega arith))

-- If one of its two limits is at least 1, then however its sockets fail, and however long it runs, the
-- relay client calls the constructor of WebSocket at most as often as the larger of them says.
pub relay_attempts :
    (o : WebSocketTransportOptions) (s : RelayState)
    → 1 ≤ max o.max_reconnect_attempts o.max_relay_failures
    → Reachable o s
    → s.attempts ≤ max o.max_reconnect_attempts o.max_relay_failures
relay_attempts o s positive run =
    let h = Reachable-IsRelay o s positive run in omega (arith, h.counted, h.limited)
