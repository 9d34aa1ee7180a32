-- ===== src/Timeline/Fetch.antt =====
-- `fetchInvoiceEvents` of invoiceEvents.ts. The server's answer may depend on the number of the page
-- that is asked for, counted down from the limit.
use invofi.Prelude.{
  ℕ, zero, suc, ◌+◌, ◌-◌, Bool, true, false, not, ◌||◌, Option, none, some, List, [], ◌∷◌, ◌++◌,
  max, if◌then◌else◌,
}
use invofi.Prelude.Result.{Result, ok, err, ◌>>=◌}
use invofi.Timeline.{DecodedValue, TimelineEvent, InvoiceTimelineEntry, to_timeline_entries}

-- An empty cursor is none.
pub record EventsPage (S : Type 0) : Type 0 where
  pub events : List (TimelineEvent S)
  pub cursor : Option (List ℕ)

-- The answer to a request; the error of a request before the oldest ledger says which one that is.
pub data PageAnswer (S : Type 0) : Type 0 where
  page : EventsPage S → PageAnswer S
  before_range : ℕ → PageAnswer S
  failed : PageAnswer S

pub record EventsServer (S : Type 0) : Type 0 where
  pub latest_ledger : Option ℕ
  pub get_from : ℕ → PageAnswer S
  pub get_after : List ℕ → PageAnswer S

pub data FetchError : Type 0 where
  request_failed : FetchError

-- `fetchPage`
abbrev pub fetch_page : {S : Type 0} → EventsServer S → ℕ → Option (List ℕ) → PageAnswer S
fetch_page server start_ledger none = server.get_from start_ledger
fetch_page server start_ledger (some cursor) = server.get_after cursor

abbrev pub prepend_events :
    {S : Type 0}
    → List (TimelineEvent S)
    → Result FetchError (List (TimelineEvent S))
    → Result FetchError (List (TimelineEvent S))
prepend_events events rest = rest >>= λ later. ok (events ++ later)

-- The loop over the pages, of which so many are left.
unfoldable pub fetch_pages :
    {S : Type 0}
    → EventsServer S
    → ℕ
    → ℕ
    → Option (List ℕ)
    → Result FetchError (List (TimelineEvent S))
fetch_pages server zero start_ledger cursor = ok []
fetch_pages server (suc left) start_ledger cursor = elim (fetch_page server start_ledger cursor) [
  | page p ↦ elim p.cursor [
    | none ↦ ok p.events
    | some next ↦ prepend_events p.events (fetch_pages server left start_ledger (some next))
  ]
  | before_range oldest ↦ elim cursor [
    | none ↦ fetch_pages server left (oldest + 10) none
    | some c ↦ err request_failed
  ]
  | failed ↦ err request_failed
]

abbrev pub ledger_window : ℕ
ledger_window = 86400

abbrev pub max_pages : ℕ
max_pages = 20

abbrev pub fetch_since :
    {S : Type 0}
    → (S → Option DecodedValue)
    → EventsServer S
    → List ℕ
    → Option ℕ
    → Result FetchError (List InvoiceTimelineEntry)
fetch_since decode server invoice_id none = err request_failed
fetch_since decode server invoice_id (some latest) =
    fetch_pages server max_pages (max 1 (latest - ledger_window)) none >>= λ raws.
    ok (to_timeline_entries decode invoice_id raws)

abbrev pub has_no_id : List ℕ → Bool
has_no_id [] = true
has_no_id (c ∷ s) = false

-- `enabled` is `invoiceEventsEnabled()`.
unfoldable pub fetch_invoice_events :
    {S : Type 0}
    → (S → Option DecodedValue)
    → EventsServer S
    → Bool
    → List ℕ
    → Result FetchError (List InvoiceTimelineEntry)
fetch_invoice_events decode server enabled invoice_id =
    if has_no_id invoice_id || not enabled
    then ok []
    else fetch_since decode server invoice_id server.latest_ledger
