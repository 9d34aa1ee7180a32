-- ===== src/Events/Replay.antt =====
-- `replayEvents` of events.ts: windows of ledgers, pages of a window, and the sort at the end. The
-- server answers each request as it likes, the first of them numbered 0; its filters are the same in
-- every request. The two loops take fuel, none where it runs out. What a callback throws is caught
-- by the source; `onEvent` is called with the events in the order in which they are collected.
pub mod Pages
pub mod Run
pub mod Loops
pub mod Outcome
pub mod Complete
mod Tests
use invofi.Prelude.{
  ℕ, zero, suc, ◌+◌, ◌-◌, Bool, true, false, not, ◌&&◌, ◌||◌, Option, none, some, List, [], ◌∷◌,
  ◌++◌, length, ltb, leb, min, max, if◌then◌else◌,
}
use invofi.Prelude.Int.{ℤ, pos, negsuc}
use invofi.Prelude.Text.{codes}
use invofi.Prelude.Result.{Result, ok, err, ◌>>=◌, ◌>>◌, guard}
use invofi.Prelude.Sort.{sort_by}
use invofi.Amounts.Decimal.{to_string}
use invofi.Events.{Decoded, EventResponse, ProtocolEventName, ProtocolEvent, equal_codes}
use invofi.Events.Decode.{DecodeError, decode_event}

-- A number given as a ledger: an integer, or NaN, an infinity or a fraction.
pub data LedgerNumber : Type 0 where
  integer : ℤ → LedgerNumber
  other_number : LedgerNumber

pub data ReplayError : Type 0 where
  rpc_url_empty from_required from_invalid to_invalid to_before_from : ReplayError
  request_failed : ReplayError
  decode_failed : DecodeError → ReplayError

-- An absent text is empty where the source does not tell them apart. `eventTypes` and `eventType`
-- are tests of the types.
pub record ReplayEventsOptions : Type 0 where
  pub rpc_url : Option (List ℕ)
  pub from : Option LedgerNumber
  pub from_ledger : Option LedgerNumber
  pub start_ledger : Option LedgerNumber
  pub to : Option LedgerNumber
  pub to_ledger : Option LedgerNumber
  pub end_ledger : Option LedgerNumber
  pub contract_ids : Option (List (List ℕ))
  pub contract_id : List ℕ
  pub event_types : Option (ProtocolEventName → Bool)
  pub event_type : Option (ProtocolEventName → Bool)
  pub batch_size_ledgers : Option ℕ
  pub limit_per_page : Option ℕ

-- A raw event, with its `id` and `pagingToken`.
pub record RawEvent (S : Type 0) : Type 0 where
  pub event : EventResponse S
  pub id : List ℕ
  pub paging_token : List ℕ

pub record EventsPage (S : Type 0) : Type 0 where
  pub events : List (RawEvent S)
  pub cursor : List ℕ

-- The request that the loops build: `startLedger`, and `pagination` with the cursor, if there is one.
pub record EventsRequest : Type 0 where
  pub start_ledger : Option ℕ
  pub cursor : Option (List ℕ)
  pub limit : ℕ

-- `getLatestLedger` and `getEvents`, none where a call fails. The first argument is the number of the
-- request.
pub record EventServer (S : Type 0) : Type 0 where
  pub latest_ledger : Option ℕ
  pub get_events : ℕ → EventsRequest → Option (EventsPage S)

-- `a ?? b`
abbrev pub or_option {ℓ} : {A : Type ℓ} → Option A → Option A → Option A
or_option none b = b
or_option (some a) b = some a

abbrev pub value_or {ℓ} : {A : Type ℓ} → Option A → A → A
value_or none d = d
value_or (some a) d = a

-- `a || b` on texts
abbrev pub or_text : List ℕ → List ℕ → List ℕ
or_text [] t = t
or_text (c ∷ s) t = c ∷ s

-- The options of a call with positional arguments.
unfoldable pub positional_options :
    LedgerNumber → Option LedgerNumber → ReplayEventsOptions → ReplayEventsOptions
positional_options from to extra = record extra {
  from = some from;
  to = or_option to (or_option extra.to (or_option extra.to_ledger extra.end_ledger));
}

-- A ledger that is a natural number, or the error.
abbrev pub checked_ledger : ReplayError → LedgerNumber → Result ReplayError ℕ
checked_ledger e (integer (pos n)) = ok n
checked_ledger e _ = err e

abbrev pub checked_from : Option LedgerNumber → Result ReplayError ℕ
checked_from none = err from_required
checked_from (some n) = checked_ledger from_invalid n

abbrev pub checked_to : ℕ → Option LedgerNumber → Result ReplayError (Option ℕ)
checked_to from none = ok none
checked_to from (some n) =
    checked_ledger to_invalid n >>= λ to. guard (leb from to) to_before_from >>= λ _. ok (some to)

abbrev pub checked_url : Option (List ℕ) → Result ReplayError (Unit {0})
checked_url (some []) = err rpc_url_empty
checked_url _ = ok tt

-- `opts.contractIds ?? (opts.contractId ? [opts.contractId] : undefined)`
abbrev pub selected_ids : Option (List (List ℕ)) → List ℕ → Option (List (List ℕ))
selected_ids (some ids) id = some ids
selected_ids none [] = none
selected_ids none (c ∷ id) = some ((c ∷ id) ∷ [])

-- What the loops read: the options with their defaults. An empty list of ids is none.
pub record Replay (S : Type 0) : Type 0 where
  pub decode : S → Option Decoded
  pub contract_ids : List (List ℕ)
  pub allowed : ProtocolEventName → Bool
  pub from : ℕ
  pub target_to : ℕ
  pub batch_size : ℕ
  pub limit : ℕ

pub record ReplayState : Type 0 where
  pub requests : ℕ
  pub seen : List (List ℕ)
  pub all_events : List ProtocolEvent

abbrev pub includes_codes : List ℕ → List (List ℕ) → Bool
includes_codes s [] = false
includes_codes s (t ∷ ts) = let rest = includes_codes s ts in equal_codes t s || rest

-- `rawEvent.id || rawEvent.pagingToken || …`
unfoldable pub event_key : {S : Type 0} → RawEvent S → List ℕ
event_key raw = or_text raw.id (
    or_text raw.paging_token (
      to_string (pos raw.event.ledger)
      ++ (codes "-" ++ (raw.event.tx_hash ++ (codes "-" ++ raw.event.contract_id)))))

-- The tests of an event's contract and type. Every decoded type is known.
unfoldable pub is_wanted : {S : Type 0} → Replay S → ProtocolEvent → Bool
is_wanted r e =
    (leb (length r.contract_ids) 0 || includes_codes e.contract_id r.contract_ids)
    && r.allowed e.event_type

-- The state of the loop over a page; `cut` tells that an event after the window ended it.
pub record PageState : Type 0 where
  pub seen_keys : List (List ℕ)
  pub collected : List ProtocolEvent
  pub new_events : ℕ
  pub cut : Bool

unfoldable pub collect_decoded :
    {S : Type 0}
    → Replay S
    → Result DecodeError (Option ProtocolEvent)
    → PageState
    → Result ReplayError PageState
collect_decoded r (err e) s = err (decode_failed e)
collect_decoded r (ok none) s = ok s
collect_decoded r (ok (some e)) s =
    if is_wanted r e then ok (record s { collected = s.collected ++ (e ∷ []) }) else ok s

abbrev pub note_key : List ℕ → PageState → PageState
note_key key s = record s { seen_keys = key ∷ s.seen_keys; new_events = s.new_events + 1 }

-- The body of the loop, for an event that is not after the window.
unfoldable pub take_event :
    {S : Type 0} → Replay S → RawEvent S → PageState → Result ReplayError PageState
take_event r raw s =
    if ltb raw.event.ledger r.from || includes_codes (event_key raw) s.seen_keys
    then ok s
    else collect_decoded r (decode_event r.decode raw.event) (note_key (event_key raw) s)

unfoldable pub take_events :
    {S : Type 0} → Replay S → ℕ → List (RawEvent S) → PageState → Result ReplayError PageState
take_events r window_end [] s = ok s
take_events r window_end (raw ∷ events) s =
    if ltb r.target_to raw.event.ledger || ltb window_end raw.event.ledger
    then ok (record s { cut = true })
    else take_event r raw s >>= take_events r window_end events

abbrev pub last_of : {S : Type 0} → RawEvent S → List (RawEvent S) → RawEvent S
last_of raw [] = raw
last_of raw (next ∷ events) = last_of next events

abbrev pub is_cursor : List ℕ → Option (List ℕ) → Bool
is_cursor next none = false
is_cursor next (some cursor) = equal_codes next cursor

-- What a page leads to.
pub data PageStep : Type 0 where
  failed : ReplayError → PageStep
  window_done : ReplayState → PageStep
  next_page : List ℕ → ReplayState → PageStep

abbrev pub after_events : ℕ → PageState → ReplayState
after_events requests p = record {
  requests = requests;
  seen = p.seen_keys;
  all_events = p.collected;
}

-- The test for another page.
unfoldable pub choose_step :
    {S : Type 0}
    → Replay S
    → ℕ
    → EventsPage S
    → RawEvent S
    → Option (List ℕ)
    → ℕ
    → Result ReplayError PageState
    → PageStep
choose_step r window_end page last cursor requests (err e) = failed e
choose_step r window_end page last cursor requests (ok p) =
    let next = or_text page.cursor last.paging_token in
    if leb last.event.ledger window_end
      && leb 1 (length next)
      && not (is_cursor next cursor)
      && ltb 0 p.new_events
      && leb r.limit (length page.events)
      && not p.cut
    then next_page next (after_events requests p)
    else window_done (after_events requests p)

abbrev pub start_page : ReplayState → PageState
start_page s = record { seen_keys = s.seen; collected = s.all_events; new_events = 0; cut = false }

abbrev pub read_events :
    {S : Type 0}
    → Replay S
    → ℕ
    → Option (List ℕ)
    → ReplayState
    → EventsPage S
    → List (RawEvent S)
    → PageStep
read_events r window_end cursor s page [] = window_done (record s { requests = s.requests + 1 })
read_events r window_end cursor s page (raw ∷ events) =
    choose_step r window_end page (last_of raw events) cursor (s.requests + 1)
      (take_events r window_end (raw ∷ events) (start_page s))

abbrev pub read_answer :
    {S : Type 0} → Replay S → ℕ → Option (List ℕ) → ReplayState → Option (EventsPage S) → PageStep
read_answer r window_end cursor s none = failed request_failed
read_answer r window_end cursor s (some page) = read_events r window_end cursor s page page.events

-- Every request has a `startLedger`, also one with a cursor.
abbrev pub events_request : ℕ → Option (List ℕ) → ℕ → EventsRequest
events_request window_start cursor limit = record {
  start_ledger = some window_start;
  cursor = cursor;
  limit = limit;
}

-- A round of the inner loop.
unfoldable pub read_page :
    {S : Type 0} → Replay S → EventServer S → ℕ → ℕ → Option (List ℕ) → ReplayState → PageStep
read_page r server window_start window_end cursor s =
    read_answer r window_end cursor s
      (server.get_events s.requests (events_request window_start cursor r.limit))
