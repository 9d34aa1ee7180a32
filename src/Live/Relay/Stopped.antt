-- ===== src/Live/Relay/Stopped.antt =====
-- A relay client that was stopped, or has given up, calls nobody any more.
use invofi.Prelude.{◌+◌, ◌≤◌, ◌≡◌, refl, ◌∙◌, none, max, arith}
use invofi.Live.Relay.{
  WebSocketTransportOptions, RelayState, on_open, on_message, on_close, on_connect_timeout,
  stop_relay, RelayStep, reconnect, opened, message, closed, timed_out, stopped_by, RelaySteps,
  here, next, Reachable,
}
use invofi.Live.Relay.Pending.{given_up, as_number, IsRelay, RelayStep-IsRelay, Reachable-IsRelay}

-- It was stopped or has given up.
abbrev pub IsOver : RelayState → Type 0
IsOver s = 1 ≤ given_up s.notices + as_number s.stopped

abbrev pub IsSilent : RelayState → RelayState → Type 0
IsSilent s t = (t.notices ≡ s.notices) × (t.attempts ≡ s.attempts) × (t.socket ≡ none)

-- What is left of a state that is over: no socket, no retry.
abbrev IsIdle : RelayState → Type 0
IsIdle s = (s.socket ≡ none) × (s.reconnect_timer ≡ none)

IsRelay-IsIdle :
    {o : WebSocketTransportOptions} {s : RelayState} → IsRelay o s → IsOver s → IsIdle s
IsRelay-IsIdle h over = (ground arith, ground arith)

RelayStep-IsSilent :
    {o : WebSocketTransportOptions} {s t : RelayState} → RelayStep o s t → IsIdle s → IsSilent s t
unfolding on_open on_message on_close on_connect_timeout stop_relay
RelayStep-IsSilent {o} (reconnect s delay valid set) h = cc
RelayStep-IsSilent {o} (opened s ws) h = ground arith
RelayStep-IsSilent {o} (message s ws now_ms parsed) h = ground arith
RelayStep-IsSilent {o} (closed s ws) h = ground arith
RelayStep-IsSilent {o} (timed_out s ws set) h = ground arith
RelayStep-IsSilent {o} (stopped_by s) h = ground arith

RelayStep-IsOver :
    {o : WebSocketTransportOptions} {s t : RelayState}
    → RelayStep o s t
    → IsIdle s
    → IsOver s
    → IsOver t
unfolding on_open on_message on_close on_connect_timeout stop_relay
RelayStep-IsOver {o} (reconnect s delay valid set) h over = cc
RelayStep-IsOver {o} (opened s ws) h over = ground arith
RelayStep-IsOver {o} (message s ws now_ms parsed) h over = ground arith
RelayStep-IsOver {o} (closed s ws) h over = ground arith
RelayStep-IsOver {o} (timed_out s ws set) h over = ground arith
RelayStep-IsOver {o} (stopped_by s) h over = ground arith

steps-IsSilent :
    {o : WebSocketTransportOptions} {s t : RelayState}
    → RelaySteps o s t
    → IsRelay o s
    → IsOver s
    → IsRelay o t × IsOver t × IsSilent s t
steps-IsSilent here h over = (h, over, (refl, refl, (IsRelay-IsIdle h over).0))
steps-IsSilent (next steps step) h over =
    let (ht, t_over, silent) = steps-IsSilent steps h over in
    let idle = IsRelay-IsIdle ht t_over in
    let quiet = RelayStep-IsSilent step idle in
    (
      RelayStep-IsRelay step ht,
      RelayStep-IsOver step idle t_over,
      (quiet.0 ∙ silent.0, quiet.1 ∙ silent.1, quiet.2),
    )

-- Once a relay client was stopped or has given up, nothing that its sockets and timers do reaches
-- the caller: from then on it calls no function of the caller, opens no socket and holds none.
pub Reachable-IsSilent :
    (o : WebSocketTransportOptions) (s t : RelayState)
    → 1 ≤ max o.max_reconnect_attempts o.max_relay_failures
    → Reachable o s
    → 1 ≤ given_up s.notices + as_number s.stopped
    → RelaySteps o s t
    → IsSilent s t
Reachable-IsSilent o s t positive run over steps =
    (steps-IsSilent steps (Reachable-IsRelay o s positive run) over).2
