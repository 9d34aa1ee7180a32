-- ===== src/Events/Listener.antt =====
-- The polling of `listenToEvents`. A poll is two steps: its timer fires, and its calls are answered;
-- `stop` may come between them. An interval is a natural number of milliseconds, and maxRetries is
-- positive. What a callback throws is caught by the source.
use invofi.Prelude.{
  ℕ, ◌+◌, ◌-◌, ◌*◌, ◌^◌, Bool, true, false, Option, none, some, List, [], ◌∷◌, ltb, leb, min,
  if◌then◌else◌, ◌≡◌,
}
use invofi.Prelude.Result.{Result, ok, err}
use invofi.Events.{Decoded, EventResponse, ProtocolEvent, ProtocolEventName}
use invofi.Events.Decode.{DecodeError, decode_event}

-- `eventTypes` is a test, true of every type if the option is absent.
pub record ListenOptions (S : Type 0) : Type 0 where
  pub decode : S → Option Decoded
  pub allowed : ProtocolEventName → Bool
  pub poll_interval_ms : ℕ
  pub max_retries : ℕ

-- `poll_timer` is the delay of the timer that is set, and `in_flight` tells that a poll is between
-- its start and the answer of its calls.
pub record ListenerState : Type 0 where
  pub stopped : Bool
  pub in_flight : Bool
  pub consecutive_failures : ℕ
  pub current_ledger : Option ℕ
  pub poll_timer : Option ℕ

pub record GetEventsResponse (S : Type 0) : Type 0 where
  pub events : List (EventResponse S)
  pub latest_ledger : ℕ

-- What the RPC server answers to a poll; none where a call fails.
pub record PollAnswer (S : Type 0) : Type 0 where
  pub latest : Option ℕ
  pub get_events : ℕ → Option (GetEventsResponse S)

-- The events that are delivered before the end, or before an event that throws.
pub record Delivery : Type 0 where
  pub delivered : List ProtocolEvent
  pub threw : Bool

-- What a poll leaves: the ledger to go on from, and the delivery.
pub record PollOutcome : Type 0 where
  pub next_ledger : Option ℕ
  pub delivery : Delivery

abbrev pub nothing_delivered : Bool → Delivery
nothing_delivered threw = record { delivered = []; threw = threw }

abbrev pub prepend : ProtocolEvent → Delivery → Delivery
prepend e d = record { delivered = e ∷ d.delivered; threw = d.threw }

abbrev pub deliver_one :
    {S : Type 0} → ListenOptions S → Result DecodeError (Option ProtocolEvent) → Delivery → Delivery
deliver_one options (err e) rest = nothing_delivered true
deliver_one options (ok none) rest = rest
deliver_one options (ok (some e)) rest =
    if options.allowed e.event_type then prepend e rest else rest

-- The loop over the events of a response.
unfoldable pub deliver_events : {S : Type 0} → ListenOptions S → List (EventResponse S) → Delivery
deliver_events options [] = nothing_delivered false
deliver_events options (raw ∷ events) =
    deliver_one options (decode_event options.decode raw) (deliver_events options events)

abbrev pub poll_outcome : Option ℕ → Delivery → PollOutcome
poll_outcome ledger d = record { next_ledger = ledger; delivery = d }

abbrev pub take_response :
    {S : Type 0} → ListenOptions S → ℕ → Option (GetEventsResponse S) → PollOutcome
take_response options current none = poll_outcome (some current) (nothing_delivered true)
take_response options current (some res) =
    poll_outcome (some (if leb current res.latest_ledger then res.latest_ledger + 1 else current))
      (deliver_events options res.events)

-- The rest of a poll, on the answer to `getLatestLedger`. The first one only asks for the ledger to
-- start from.
abbrev pub poll_at :
    {S : Type 0}
    → ListenOptions S
    → Option ℕ
    → Option ℕ
    → (ℕ → Option (GetEventsResponse S))
    → PollOutcome
poll_at options current none get_events = poll_outcome current (nothing_delivered true)
poll_at options none (some latest) get_events = poll_outcome (some latest) (nothing_delivered false)
poll_at options (some ledger) (some latest) get_events =
    if ltb latest ledger
    then poll_outcome (some ledger) (nothing_delivered false)
    else take_response options ledger (get_events ledger)

unfoldable pub poll : {S : Type 0} → ListenOptions S → Option ℕ → PollAnswer S → PollOutcome
poll options current answer = poll_at options current answer.latest answer.get_events

-- `scheduleNext`
abbrev pub schedule_next : ℕ → ListenerState → ListenerState
schedule_next delay s = record {
  stopped = s.stopped;
  in_flight = s.in_flight;
  consecutive_failures = s.consecutive_failures;
  current_ledger = s.current_ledger;
  poll_timer = if s.stopped then none else some delay;
}

-- `pollIntervalMs * Math.pow(2, backoffFactor - 1)`
abbrev pub next_retry_ms : {S : Type 0} → ListenOptions S → ℕ → ℕ
next_retry_ms options failures =
    options.poll_interval_ms * 2 ^ (min failures options.max_retries - 1)

abbrev pub initial_state : Option ℕ → ListenerState
initial_state start_ledger = record {
  stopped = false;
  in_flight = false;
  consecutive_failures = 0;
  current_ledger = start_ledger;
  poll_timer = some 0;
}

-- The timer fires: `runPoll` up to its first call. (A timer that is cleared does not fire.)
abbrev pub fire_timer : ListenerState → ListenerState
fire_timer s = record {
  stopped = s.stopped;
  in_flight = if s.stopped then s.in_flight else true;
  consecutive_failures = s.consecutive_failures;
  current_ledger = s.current_ledger;
  poll_timer = none;
}

-- The rest of `runPoll`.
abbrev pub settle_poll :
    {S : Type 0} → ListenOptions S → PollOutcome → ListenerState → ListenerState
settle_poll options outcome s =
    let failures = if outcome.delivery.threw then s.consecutive_failures + 1 else 0 in
    schedule_next
      (if outcome.delivery.threw then next_retry_ms options failures else options.poll_interval_ms)
      (record {
        stopped = s.stopped;
        in_flight = false;
        consecutive_failures = failures;
        current_ledger = outcome.next_ledger;
        poll_timer = s.poll_timer;
      })

abbrev pub stop_listening : ListenerState → ListenerState
stop_listening s = record {
  stopped = true;
  in_flight = s.in_flight;
  consecutive_failures = s.consecutive_failures;
  current_ledger = s.current_ledger;
  poll_timer = none;
}

-- A run of the listener, the last step first, with the events of each poll that was answered.
pub data Run {S : Type 0} (options : ListenOptions S) (start_ledger : Option ℕ)
    : ListenerState → List (List ProtocolEvent) → Type 0 where
  started : Run options start_ledger (initial_state start_ledger) []
  fired :
      {s : ListenerState} {ds : List (List ProtocolEvent)} (delay : ℕ)
      (run : Run options start_ledger s ds)
      → s.poll_timer ≡ some delay
      → Run options start_ledger (fire_timer s) ds
  answered :
      {s : ListenerState} {ds : List (List ProtocolEvent)} (answer : PollAnswer S)
      (run : Run options start_ledger s ds)
      → s.in_flight ≡ true
      → Run options start_ledger
          (settle_poll options (poll options s.current_ledger answer) s)
          ((poll options s.current_ledger answer).delivery.delivered ∷ ds)
  stopped_by :
      {s : ListenerState} {ds : List (List ProtocolEvent)} (run : Run options start_ledger s ds)
      → Run options start_ledger (stop_listening s) ds
