-- ===== src/Keeper/Events.antt =====
-- The events of the keeper: `parseRawEvent`, `processEvents` and `pollEventsOnce`.
use invofi.Prelude.{
  ℕ, zero, suc, ◌+◌, String, Bool, false, ◌&&◌, Option, none, some, List, [], ◌∷◌, length, ltb, leb,
  ◌==◌, str_eq, if◌then◌else◌,
}
use invofi.Prelude.Int.{ℤ, pos, ltb_ℤ}
use invofi.Prelude.Result.{ok}
use invofi.Keeper.{
  out_of_fuel, Task, return, throw, ◌>>=◌, Chain, InvoiceDetails, Native, text, list, object,
  RawEvent, EventsQuery, start_ledger, after_cursor, EventsResponse, status_num, is_status,
  now_secs, mark_overdue, bump_ttl, fetch_invoice_details,
}

pub data EventType : Type 0 where
  inv_reg off_acc off_def : EventType

pub data EventData (N : Type 0) : Type 0 where
  val_dec : Native N → EventData N
  accepted : (invoice_id : String) (lender amount : Option N) → EventData N

pub record ParsedEvent (N : Type 0) : Type 0 where
  pub event_type : EventType
  pub invoice_id : String
  pub ledger : ℕ
  pub payload : EventData N

-- `arr[1]`, `arr[2]`
abbrev pub second : {N : Type 0} → List N → Option N
second (a ∷ b ∷ xs) = some b
second _ = none

abbrev pub third : {N : Type 0} → List N → Option N
third (a ∷ b ∷ c ∷ xs) = some c
third _ = none

-- `arr[1] ?? map['lender']`, `arr[2] ?? map['amount']`
abbrev pub lender_of : {N : Type 0} → Native N → Option N
lender_of (list xs) = second xs
lender_of (object fields) = fields "lender"
lender_of _ = none

abbrev pub amount_of : {N : Type 0} → Native N → Option N
amount_of (list xs) = third xs
amount_of (object fields) = fields "amount"
amount_of _ = none

-- The event of a name, with the subject and the value that were decoded.
unfoldable pub named_event : {N : Type 0} → String → String → ℕ → Native N → Option (ParsedEvent N)
named_event name invoice_id ledger value =
    if str_eq name "inv_reg"
    then some (record {
      event_type = inv_reg;
      invoice_id = invoice_id;
      ledger = ledger;
      payload = val_dec value;
    })
    else (if str_eq name "off_acc"
        then some (record {
          event_type = off_acc;
          invoice_id = invoice_id;
          ledger = ledger;
          payload = accepted invoice_id (lender_of value) (amount_of value);
        })
        else (if str_eq name "off_def"
            then some (record {
              event_type = off_def;
              invoice_id = invoice_id;
              ledger = ledger;
              payload = val_dec value;
            })
            else none))

-- The decoded value, if it is a string.
abbrev pub as_string : {N : Type 0} → Option (Native N) → Option String
as_string (some (text s)) = some s
as_string _ = none

abbrev pub parse_value :
    {N : Type 0} → Option String → Option String → ℕ → Option (Native N) → Option (ParsedEvent N)
parse_value (some name) (some invoice_id) ledger (some value) =
    if str_eq invoice_id "" then none else named_event name invoice_id ledger value
parse_value _ _ ledger _ = none

abbrev pub parse_topic :
    {S N : Type 0} → (S → Option (Native N)) → List S → ℕ → S → Option (ParsedEvent N)
parse_topic decode (topic0 ∷ topic1 ∷ topics) ledger value =
    parse_value (as_string (decode topic0)) (as_string (decode topic1)) ledger (decode value)
parse_topic decode _ ledger value = none

unfoldable pub parse_raw_event :
    {S N : Type 0} → (S → Option (Native N)) → RawEvent S → Option (ParsedEvent N)
parse_raw_event decode raw = parse_topic decode raw.topic raw.ledger raw.value

-- `if (parsed) parsedEvents.push(parsed)`, from the right
abbrev pub keep_some : {A : Type 0} → Option A → List A → List A
keep_some none xs = xs
keep_some (some x) xs = x ∷ xs

-- The events that can be parsed, in order.
unfoldable pub parse_events :
    {S N : Type 0} → (S → Option (Native N)) → List (RawEvent S) → List (ParsedEvent N)
parse_events decode [] = []
parse_events decode (raw ∷ events) =
    keep_some (parse_raw_event decode raw) (parse_events decode events)

pub record Counts : Type 0 where
  pub processed : ℕ
  pub ttl_bumps : ℕ
  pub marked_overdue : ℕ

abbrev pub no_counts : Counts
no_counts = record { processed = 0; ttl_bumps = 0; marked_overdue = 0 }

abbrev pub add_counts : Counts → Counts → Counts
add_counts c d = record {
  processed = c.processed + d.processed;
  ttl_bumps = c.ttl_bumps + d.ttl_bumps;
  marked_overdue = c.marked_overdue + d.marked_overdue;
}

abbrev pub one_if : Bool → ℕ
one_if b = if b then 1 else 0

-- `Number(inv.due_date ?? inv.dueDate ?? 0)`
abbrev pub due_of : InvoiceDetails → ℤ
due_of inv = elim inv.due_date [
  | some due ↦ due
  | none ↦ elim inv.due_date_camel [ some due ↦ due | none ↦ pos 0 ]
]

abbrev pub is_overdue : ℕ → InvoiceDetails → Bool
is_overdue now inv =
    is_status (status_num inv.status) 1
    && ltb_ℤ (pos 0) (due_of inv)
    && ltb_ℤ (due_of inv) (pos now)

module _ {W S N X : Type 0} (chain : Chain W S N X) where
  abbrev pub mark_fetched : ℕ → String → Option InvoiceDetails → Task W Bool
  mark_fetched now invoice_id none = return false
  mark_fetched now invoice_id (some inv) =
      if is_overdue now inv then mark_overdue chain invoice_id else return false

  unfoldable pub process_registered : String → Task W Counts
  process_registered invoice_id = do
    bumped ← bump_ttl chain invoice_id
    return (record { processed = 1; ttl_bumps = one_if bumped; marked_overdue = 0 })

  unfoldable pub process_accepted : ℕ → String → Task W Counts
  process_accepted now invoice_id = do
    bumped ← bump_ttl chain invoice_id
    inv ← fetch_invoice_details chain invoice_id
    marked ← mark_fetched now invoice_id inv
    return (record { processed = 1; ttl_bumps = one_if bumped; marked_overdue = one_if marked })

  -- The body of the loop: what it adds to the counts.
  unfoldable pub process_event : ℕ → ParsedEvent N → Task W Counts
  process_event now event =
      if str_eq event.invoice_id "" then return no_counts else elim event.event_type [
        | inv_reg ↦ process_registered event.invoice_id
        | off_acc ↦ process_accepted now event.invoice_id
        | off_def ↦ return (record { processed = 1; ttl_bumps = 0; marked_overdue = 0 })
      ]

  unfoldable pub process_loop : ℕ → List (ParsedEvent N) → Counts → Task W Counts
  process_loop now [] counts = return counts
  process_loop now (event ∷ events) counts =
      process_event now event >>= λ more. process_loop now events (add_counts counts more)

  unfoldable pub process_events : List (ParsedEvent N) → Task W Counts
  process_events events w = process_loop (now_secs chain w) events no_counts w

-- The variables of the polling loop: `latestSeenLedger` and the totals.
pub record Progress : Type 0 where
  pub latest_seen_ledger : ℕ
  pub totals : Counts

abbrev pub see_ledger : ℕ → ℕ → ℕ
see_ledger latest ledger = if ltb latest ledger then ledger else latest

unfoldable pub see_events : {N : Type 0} → ℕ → List (ParsedEvent N) → ℕ
see_events latest [] = latest
see_events latest (event ∷ events) = see_events (see_ledger latest event.ledger) events

-- `cursor && cursor !== previous`: a cursor to go on from.
abbrev pub next_cursor : EventsQuery → Option String → Option String
next_cursor query none = none
next_cursor (start_ledger l) (some c) = some c
next_cursor (after_cursor b) (some c) = if str_eq c b then none else some c

pub record PollResult : Type 0 where
  pub next_ledger : ℕ
  pub totals : Counts

-- The variables after an empty page, and after a page whose events are processed.
abbrev pub last_progress : Progress → ℕ → Progress
last_progress p latest = record {
  latest_seen_ledger = see_ledger p.latest_seen_ledger latest;
  totals = p.totals;
}

abbrev pub page_progress : {N : Type 0} → Progress → ℕ → List (ParsedEvent N) → Counts → Progress
page_progress p latest parsed counts = record {
  latest_seen_ledger = see_ledger (see_events p.latest_seen_ledger parsed) latest;
  totals = add_counts p.totals counts;
}

module _ {W S N X : Type 0} (chain : Chain W S N X) where
  abbrev pub go_on :
      (String → Progress → Task W Progress) → Progress → Option String → Task W Progress
  go_on next progress none = return progress
  go_on next progress (some cursor) = next cursor progress

  -- One round of the loop, before the rest of the loop.
  unfoldable pub poll_step :
      EventsQuery
      → (String → Progress → Task W Progress)
      → Progress
      → EventsResponse S
      → Task W Progress
  poll_step query next progress res =
      let parsed = parse_events chain.decode res.events in
      if length res.events == 0
      then return (last_progress progress res.latest_ledger)
      else process_events chain parsed >>= λ counts.
          go_on next (page_progress progress res.latest_ledger parsed counts)
            (next_cursor query res.cursor)

  -- `while (true)`, on fuel.
  unfoldable pub poll_pages : ℕ → EventsQuery → Progress → Task W Progress
  poll_pages zero query progress = throw out_of_fuel
  poll_pages (suc fuel) query progress =
      chain.get_events query
      >>= poll_step query (λ cursor. poll_pages fuel (after_cursor cursor)) progress

  abbrev pub nothing_new : ℕ → PollResult
  nothing_new ledger = record { next_ledger = ledger; totals = no_counts }

  unfoldable pub finish_poll : ℕ → Progress → Task W PollResult
  finish_poll current progress w =
      let next =
        if leb current progress.latest_seen_ledger
        then progress.latest_seen_ledger + 1
        else current in
      (ok (record { next_ledger = next; totals = progress.totals }), chain.save_checkpoint next w)

  unfoldable pub poll_from : ℕ → ℕ → ℕ → Task W PollResult
  poll_from fuel current latest =
      if ltb latest current
      then return (nothing_new current)
      else poll_pages fuel (start_ledger current)
          (record { latest_seen_ledger = current; totals = no_counts })
        >>= finish_poll current

  -- `has_contracts`: the environment names a contract to filter by.
  unfoldable pub poll_events_once : ℕ → Bool → ℕ → Task W PollResult
  poll_events_once fuel has_contracts current =
      if has_contracts
      then chain.get_latest_ledger >>= poll_from fuel current
      else return (nothing_new current)
