-- ===== src/Events/Tests.antt =====
-- A run of the listener, and instances of the theorems at it.
use invofi.Prelude.{
  inl, inr, Bool-cases, ℕ, ◌≡◌, refl, true, some, String, List, [], ◌∷◌, if◌then◌else◌, arith, leb,
}
use invofi.Prelude.Int.{pos}
use invofi.Prelude.Text.{codes}
use invofi.Prelude.Result.{ok, err}
use invofi.Amounts.Decimal.{big_int, literal_value, decimal_value, prefix_base}
use invofi.RateLimit.{trim_start, trim_end}
use invofi.Version.{digits_value}
use invofi.Events.{
  Item, text, bigint, missing, Decoded, EventResponse, ProtocolEvent, off_acc, offer_accepted,
  known_event_name,
}
use invofi.Events.Decode.{
  syntax_error, decode_event, decode_event_data, extract_string, extract_big_int,
}
use invofi.Events.Listener.{
  ListenOptions, ListenerState, GetEventsResponse, PollAnswer, poll, initial_state, fire_timer,
  settle_poll, stop_listening, deliver_events, Run, started, fired, answered, stopped_by,
}
use invofi.Events.Timers.{IsTimed, poll_timer-IsTimed}
use invofi.Events.Order.{IsFaithful, IsAscending, deliveries-IsAscending}

abbrev word : String → Decoded
word s = record { arr = []; fields = λ key. missing; whole = text (codes s) }

abbrev values : List Item → Decoded
values items = record { arr = items; fields = λ key. missing; whole = missing }

abbrev raw_event : Item → ℕ → EventResponse Decoded
raw_event amount ledger = record {
  topic = word "off_acc" ∷ word "OFF-1" ∷ [];
  value = values (text (codes "INV-1") ∷ text (codes "L1") ∷ amount ∷ []);
  contract_id = codes "C1";
  ledger = ledger;
  tx_hash = codes "h1";
}

abbrev options : ListenOptions Decoded
options = record {
  decode = λ d. some d;
  allowed = λ name. true;
  poll_interval_ms = 5000;
  max_retries = 3;
}

decode_run :
    (decode_event options.decode (raw_event (text (codes "250")) 12)
      ≡ ok (
          some (record {
            event_type = off_acc;
            subject_id = codes "OFF-1";
            contract_id = codes "C1";
            ledger = 12;
            tx_hash = codes "h1";
            payload = offer_accepted (codes "INV-1") (codes "L1") (pos 250);
          })))
    × (decode_event options.decode (raw_event (text (codes "2.5")) 12) ≡ err syntax_error)
unfolding decode_event decode_event_data extract_string extract_big_int known_event_name big_int
    literal_value decimal_value prefix_base trim_start trim_end digits_value
decode_run = (refl, refl)

-- The server has events at the ledgers 100 and 104, and its latest ledger is 105.
abbrev response_from : ℕ → GetEventsResponse Decoded
response_from ledger = record {
  events =
      if leb ledger 100
      then raw_event (bigint (pos 5)) 100 ∷ raw_event (bigint (pos 6)) 104 ∷ []
      else [];
  latest_ledger = 105;
}

abbrev answer : PollAnswer Decoded
answer = record { latest = some 105; get_events = λ ledger. some (response_from ledger) }

answer-IsFaithful : IsFaithful answer
answer-IsFaithful ledger = elim (Bool-cases (leb ledger 100)) [
  | inl e ↦ rw e ((ground (arith, e), omega arith), ((ground (arith, e), omega arith), tt))
  | inr e ↦ rw e tt
]

-- A poll, and another, in whose flight the listener is stopped.
abbrev s₁ : ListenerState
s₁ = fire_timer (initial_state (some 100))

abbrev s₂ : ListenerState
s₂ = settle_poll options (poll options s₁.current_ledger answer) s₁

abbrev s₃ : ListenerState
s₃ = stop_listening (fire_timer s₂)

abbrev s₄ : ListenerState
s₄ = settle_poll options (poll options s₃.current_ledger answer) s₃

abbrev deliveries : List (List ProtocolEvent)
deliveries =
    (poll options s₃.current_ledger answer).delivery.delivered
    ∷ (poll options s₁.current_ledger answer).delivery.delivered
    ∷ []

timer_set : s₂.poll_timer ≡ some 5000
unfolding poll deliver_events decode_event decode_event_data extract_string extract_big_int
    known_event_name
timer_set = refl

abbrev run : Run options (some 100) s₄ deliveries
run =
    answered answer
      (stopped_by (fired 5000 (answered answer (fired 0 started refl) refl) timer_set)) refl

poll_timer-IsTimed_example : IsTimed 20000 s₄ s₄.poll_timer
poll_timer-IsTimed_example = poll_timer-IsTimed options (some 100) s₄ deliveries run

deliveries-IsAscending_example : IsAscending deliveries
deliveries-IsAscending_example =
    deliveries-IsAscending options (some 100) s₄ deliveries run
      (answer-IsFaithful, (answer-IsFaithful, tt))
