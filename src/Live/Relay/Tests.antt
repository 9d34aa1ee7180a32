-- ===== src/Live/Relay/Tests.antt =====
-- A run of the relay client, and instances of the theorems at it.
use invofi.Prelude.{◌+◌, ◌≤◌, ◌≡◌, refl, true, some, none, arith}
use invofi.Live.Relay.{
  WebSocketTransportOptions, RelayState, initial_relay, connect_socket, handle_failure, backoff_for,
  on_close, on_open, RelaySteps, reconnect, closed, opened, here, next,
}
use invofi.Live.Relay.Pending.{given_up, as_number, IsRelay, Reachable-IsRelay, relay_attempts}
use invofi.Live.Relay.Stopped.{IsSilent, Reachable-IsSilent}

abbrev options : WebSocketTransportOptions
options = record {
  reconnect_base_ms = 1000;
  max_backoff_ms = 30000;
  max_reconnect_attempts = 3;
  max_relay_failures = 8;
}

abbrev first_try : RelayState
first_try = connect_socket options true initial_relay

abbrev first_lost : RelayState
first_lost = on_close options 0 first_try

abbrev second_try : RelayState
second_try = connect_socket options true (record first_lost { reconnect_timer = none })

abbrev second_lost : RelayState
second_lost = on_close options 1 second_try

abbrev third_try : RelayState
third_try = connect_socket options true (record second_lost { reconnect_timer = none })

abbrev third_lost : RelayState
third_lost = on_close options 2 third_try

-- The first retry comes after two seconds, the second after four.
retries_run :
    (first_lost.reconnect_timer ≡ some 2000)
    × (second_lost.reconnect_timer ≡ some 4000)
    × (third_lost.reconnect_timer ≡ none)
unfolding connect_socket on_close handle_failure backoff_for
retries_run = (refl, refl, refl)

two_lost : RelaySteps options first_try second_lost
unfolding connect_socket on_close handle_failure backoff_for
two_lost =
    next (next (next here (closed first_try 0)) (reconnect first_lost 2000 true refl))
      (closed second_try 1)

all_lost : RelaySteps options first_try third_lost
unfolding connect_socket on_close handle_failure backoff_for
all_lost = next (next two_lost (reconnect second_lost 4000 true refl)) (closed third_try 2)

Reachable-IsRelay_example : IsRelay options second_lost
Reachable-IsRelay_example = Reachable-IsRelay options second_lost (omega arith) (true, two_lost)

relay_attempts_example : third_lost.attempts ≤ 8
relay_attempts_example = relay_attempts options third_lost (omega arith) (true, all_lost)

is_given_up : 1 ≤ given_up third_lost.notices + as_number third_lost.stopped
unfolding connect_socket on_close handle_failure backoff_for
is_given_up = omega arith

Reachable-IsSilent_example : IsSilent third_lost (on_open 2 third_lost)
Reachable-IsSilent_example =
    Reachable-IsSilent options third_lost (on_open 2 third_lost) (omega arith) (true, all_lost)
      is_given_up (next here (opened third_lost 2))
