-- ===== src/Events/Order.antt =====
-- The order of the deliveries of the listener.
use invofi.Prelude.{
  ℕ, ◌+◌, ◌≤◌, ◌<◌, ◌≡◌, refl, Bool, Option, none, some, List, [], ◌∷◌, ltb, leb, All, All-map,
  if◌then◌else◌, arith, Bool-cases, inl, inr, subst, sym, ap,
}
use invofi.Prelude.Result.{Result, ok, err, ◌>>=◌}
use invofi.Events.{Decoded, EventResponse, ProtocolEvent, ProtocolEventName, EventPayload}
use invofi.Events.Decode.{
  DecodeError, decode_event, with_payload, payload_of, known_name, parse_event_name,
}
use invofi.Events.Listener.{
  ListenOptions, ListenerState, GetEventsResponse, Delivery, PollOutcome, PollAnswer, deliver_one,
  deliver_events, take_response, poll_at, poll, Run, started, fired, answered, stopped_by,
}

abbrev pub InRange : ℕ → ℕ → ℕ → Type 0
InRange low high ledger = (low ≤ ledger) × (ledger ≤ high)

-- A response to a query from a ledger has no event before that ledger or after its latest one.
abbrev pub RespectsRange : {S : Type 0} → ℕ → Option (GetEventsResponse S) → Type 0
RespectsRange ledger none = Unit
RespectsRange ledger (some res) =
    All (λ raw. InRange ledger res.latest_ledger raw.ledger) res.events

-- The answers of a server of which this holds for every ledger.
abbrev pub IsFaithful : {S : Type 0} → PollAnswer S → Type 0
IsFaithful answer = (ledger : ℕ) → RespectsRange ledger (answer.get_events ledger)

-- The server is faithful in every poll of the run.
abbrev pub AllFaithful :
    {S : Type 0} {options : ListenOptions S} {start_ledger : Option ℕ} {s : ListenerState}
    {ds : List (List ProtocolEvent)}
    → Run options start_ledger s ds
    → Type 0
AllFaithful started = Unit
AllFaithful (fired delay run set_timer) = AllFaithful run
AllFaithful (answered answer run flying) = IsFaithful answer × AllFaithful run
AllFaithful (stopped_by run) = AllFaithful run

-- Every event of the polls is of a ledger before `n`.
abbrev pub AllBefore : ℕ → List (List ProtocolEvent) → Type 0
AllBefore n ds = All (λ d. All (λ e. e.ledger < n) d) ds

-- The events of each poll, the last one first, are of later ledgers than those of the polls before.
abbrev pub IsAscending : List (List ProtocolEvent) → Type 0
IsAscending [] = Unit
IsAscending (d ∷ ds) = All (λ e. AllBefore e.ledger ds) d × IsAscending ds

abbrev pub Yields : {A : Type 0} → (A → Type 0) → Result DecodeError A → Type 0
Yields P (ok a) = P a
Yields P (err e) = Unit

unfoldable pub SameLedger : ℕ → Option ProtocolEvent → Type 0
SameLedger n none = Unit
SameLedger n (some e) = e.ledger ≡ n

with_payload-SameLedger :
    {S : Type 0} (decode : S → Option Decoded) (raw : EventResponse S)
    (r : Result DecodeError (Option (ProtocolEventName × EventPayload)))
    → Yields (SameLedger raw.ledger) (r >>= λ payload. ok (with_payload decode raw payload))
unfolding SameLedger
with_payload-SameLedger decode raw (err e) = tt
with_payload-SameLedger decode raw (ok none) = tt
with_payload-SameLedger decode raw (ok (some (name, payload))) = refl

pub decode_event-SameLedger :
    {S : Type 0} (decode : S → Option Decoded) (raw : EventResponse S)
    → Yields (SameLedger raw.ledger) (decode_event decode raw)
unfolding decode_event
decode_event-SameLedger decode raw =
    with_payload-SameLedger decode raw
      (payload_of (known_name (parse_event_name decode raw.topic)) (decode raw.value))

module _ {S : Type 0} (options : ListenOptions S) (P : ℕ → Type 0) where
  deliver_one-All :
      (n : ℕ) (r : Result DecodeError (Option ProtocolEvent)) (rest : Delivery)
      → Yields (SameLedger n) r
      → P n
      → All (λ e. P e.ledger) rest.delivered
      → All (λ e. P e.ledger) ((deliver_one options r rest).delivered)
  unfolding SameLedger
  deliver_one-All n (err e) rest same pn h = tt
  deliver_one-All n (ok none) rest same pn h = h
  deliver_one-All n (ok (some e)) rest same pn h =
      elim (Bool-cases (options.allowed e.event_type)) [
        | inl allowed ↦ rw allowed (subst P (sym same) pn, h)
        | inr refused ↦ rw refused h
      ]

  deliver_events-All :
      (raws : List (EventResponse S))
      → All (λ raw. P raw.ledger) raws
      → All (λ e. P e.ledger) ((deliver_events options raws).delivered)
  unfolding deliver_events
  deliver_events-All [] h = tt
  deliver_events-All (raw ∷ raws) h =
      deliver_one-All raw.ledger (decode_event options.decode raw) (deliver_events options raws)
        (decode_event-SameLedger options.decode raw) h.0 (deliver_events-All raws h.1)

-- The ledger to go on from is after every event; before it is known, there is none.
abbrev pub Position : Option ℕ → List (List ProtocolEvent) → Type 0
Position none ds = All (λ d. d ≡ []) ds
Position (some n) ds = AllBefore n ds

AllBefore-le : (m n : ℕ) (ds : List (List ProtocolEvent)) → m ≤ n → AllBefore m ds → AllBefore n ds
AllBefore-le m n ds le h =
    All-map (All (λ e. e.ledger < m)) (All (λ e. e.ledger < n))
      (λ d. All-map (λ e. e.ledger < m) (λ e. e.ledger < n) (λ e lt. omega (arith, le, lt)) d) ds h

AllBefore-empty : (n : ℕ) (ds : List (List ProtocolEvent)) → All (λ d. d ≡ []) ds → AllBefore n ds
AllBefore-empty n ds h =
    All-map (λ d. d ≡ []) (All (λ e. e.ledger < n))
      (λ d e. subst (All (λ e'. e'.ledger < n)) (sym e) tt) ds h

Position-nothing :
    (current : Option ℕ) (ds : List (List ProtocolEvent))
    → Position current ds
    → Position current ([] ∷ ds)
Position-nothing none ds h = (refl, h)
Position-nothing (some n) ds h = (tt, h)

-- A poll delivers events after those before it, and leaves a ledger after them.
abbrev Continues : PollOutcome → List (List ProtocolEvent) → Type 0
Continues o ds =
    All (λ e. AllBefore e.ledger ds) o.delivery.delivered
    × Position o.next_ledger (o.delivery.delivered ∷ ds)

module _ {S : Type 0} (options : ListenOptions S) (ds : List (List ProtocolEvent)) where
  take_response-Continues :
      (ledger : ℕ) (res : Option (GetEventsResponse S))
      → RespectsRange ledger res
      → AllBefore ledger ds
      → Continues (take_response options ledger res) ds
  take_response-Continues ledger none range h = (tt, (tt, h))
  take_response-Continues ledger (some res) range h =
      let high = res.latest_ledger in
      let next : Bool → ℕ = λ b. if b then high + 1 else ledger in
      let delivered = (deliver_events options res.events).delivered in
      let in_range : All (λ e. InRange ledger high e.ledger) delivered =
        deliver_events-All options (InRange ledger high) res.events range in
      (
        All-map (λ e. InRange ledger high e.ledger) (λ e. AllBefore e.ledger ds)
            (λ e r. AllBefore-le ledger e.ledger ds r.0 h) delivered in_range,
        elim (Bool-cases (leb ledger high)) [
          | inl e ↦
              subst (λ n. AllBefore n (delivered ∷ ds)) (sym (ap next e))
                (
                  All-map (λ e'. InRange ledger high e'.ledger) (λ e'. e'.ledger < high + 1)
                      (λ e' r. omega (arith, r.1)) delivered in_range,
                  AllBefore-le ledger (high + 1) ds (ground (arith, e)) h,
                )
          | inr e ↦
              subst (λ n. AllBefore n (delivered ∷ ds)) (sym (ap next e))
                (
                  All-map (λ e'. InRange ledger high e'.ledger) (λ e'. e'.ledger < ledger)
                      (λ e' r. ground (arith, e, r.0, r.1)) delivered in_range,
                  h,
                )
        ],
      )

  poll_at-Continues :
      (current latest : Option ℕ) (get_events : ℕ → Option (GetEventsResponse S))
      → ((ledger : ℕ) → RespectsRange ledger (get_events ledger))
      → Position current ds
      → Continues (poll_at options current latest get_events) ds
  poll_at-Continues current none get_events range h = (tt, Position-nothing current ds h)
  poll_at-Continues none (some latest) get_events range h = (tt, (tt, AllBefore-empty latest ds h))
  poll_at-Continues (some ledger) (some latest) get_events range h =
      elim (Bool-cases (ltb latest ledger)) [
        | inl e ↦ rw e (tt, (tt, h))
        | inr e ↦ rw e (take_response-Continues ledger (get_events ledger) (range ledger) h)
      ]

run-Position :
    {S : Type 0} (options : ListenOptions S) (start_ledger : Option ℕ) (s : ListenerState)
    (ds : List (List ProtocolEvent)) (run : Run options start_ledger s ds)
    → AllFaithful run
    → IsAscending ds × Position s.current_ledger ds
unfolding poll
run-Position options none s ds started h = (tt, tt)
run-Position options (some n) s ds started h = (tt, tt)
run-Position options start_ledger s ds (fired delay run set_timer) h =
    run-Position options start_ledger _ ds run h
run-Position options start_ledger s ds (answered answer run flying) h =
    let (ascending, position) = run-Position options start_ledger _ _ run h.1 in
    let (later, position') =
      poll_at-Continues options _ _ answer.latest answer.get_events h.0 position in
    ((later, ascending), position')
run-Position options start_ledger s ds (stopped_by run) h =
    run-Position options start_ledger _ ds run h

-- In any run, of a server that answers within the range that it is asked for, the events of each
-- poll are of later ledgers than all events delivered by the polls before it: no event is delivered
-- twice by two polls, and the polls deliver in ledger order, failures and stops included.
pub deliveries-IsAscending :
    {S : Type 0} (options : ListenOptions S) (start_ledger : Option ℕ) (s : ListenerState)
    (ds : List (List ProtocolEvent)) (run : Run options start_ledger s ds)
    → AllFaithful run
    → IsAscending ds
deliveries-IsAscending options start_ledger s ds run h =
    (run-Position options start_ledger s ds run h).0
