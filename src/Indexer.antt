-- ===== src/Indexer.antt =====
-- invofi/apps/indexer/src: index.ts, the replay of events into the row of protocol statistics; the
-- event names of events.ts; the first query of chain.ts. The answers of the RPC server are functions
-- of the query, and the row that a run writes is its result. The repayment rate is left out.
pub mod Replay
pub mod Reset
mod Tests
use invofi.Prelude.{
  ℕ, zero, suc, ◌+◌, ◌-◌, String, Bool, true, false, not, ◌&&◌, Option, none, some, List, [], ◌∷◌,
  length, ltb, ◌==◌, str_eq, min, max, if◌then◌else◌,
}
use invofi.Prelude.Int.{ℤ, pos, negsuc, ◌+ℤ◌}
use invofi.Prelude.Text.{codes}
use invofi.Prelude.Map.{Map, get, set}
use invofi.Prelude.Result.{Result, ok, err, ◌>>=◌}
use invofi.Amounts.Decimal.{big_int, to_string}

pub data IndexerError : Type 0 where
  decode_failed not_iterable bad_integer rpc_failed no_valid_range pagination_guard : IndexerError

-- A decoded value; `other` is any that is no string, number or Boolean.
pub data Scalar : Type 0 where
  text : String → Scalar
  int : ℤ → Scalar
  bool : Bool → Scalar
  other : Scalar

-- The decoded value of an event: a tuple, or no array. A text in place of a tuple is no array.
pub data EventValue : Type 0 where
  tuple : List Scalar → EventValue
  single : Scalar → EventValue

-- A raw event, decoded: none where scValToNative throws. A name that is no string is the empty text,
-- which is as unknown.
pub record IndexedEvent : Type 0 where
  pub name : Option String
  pub value : Option EventValue
  pub ledger : ℕ

abbrev pub event_names : List String
event_names =
    "inv_reg" ∷ "inv_amt" ∷ "inv_sts" ∷ "inv_cxl" ∷ "inv_ovd" ∷ "inv_def" ∷ "inv_dsp" ∷ "inv_rsl"
    ∷ "off_new" ∷ "off_wdr" ∷ "off_acc" ∷ "off_rej" ∷ "off_def" ∷ "pos_mint" ∷ "inv_rep"
    ∷ "pool_stk" ∷ "pool_un" ∷ "pool_pay" ∷ "reputn" ∷ []

abbrev pub includes : String → List String → Bool
includes name [] = false
includes name (s ∷ names) = let rest = includes name names in if str_eq s name then true else rest

-- `lenders` is a set: a list without repetition, the last one added first.
pub record EventAggregates : Type 0 where
  pub event_counts : Map ℕ
  pub lenders : List Scalar
  pub defaulted : ℕ
  pub volume_from_events : ℤ
  pub repaid_from_events : ℤ

abbrev pub empty_aggregates : EventAggregates
empty_aggregates = record {
  event_counts = [];
  lenders = [];
  defaulted = 0;
  volume_from_events = pos 0;
  repaid_from_events = pos 0;
}

abbrev pub same_int : ℤ → ℤ → Bool
same_int (pos m) (pos n) = m == n
same_int (negsuc m) (negsuc n) = m == n
same_int _ _ = false

abbrev pub same_bool : Bool → Bool → Bool
same_bool true b = b
same_bool false b = not b

unfoldable pub same_scalar : Scalar → Scalar → Bool
same_scalar (text s) (text t) = str_eq s t
same_scalar (int m) (int n) = same_int m n
same_scalar (bool a) (bool b) = same_bool a b
same_scalar other other = true
same_scalar _ _ = false

abbrev pub has_lender : Scalar → List Scalar → Bool
has_lender s [] = false
has_lender s (t ∷ lenders) =
    let rest = has_lender s lenders in if same_scalar s t then true else rest

unfoldable pub add_lender : Scalar → List Scalar → List Scalar
add_lender s lenders = if has_lender s lenders then lenders else s ∷ lenders

-- `value[i]` of a destructured tuple: undefined is `other`.
abbrev pub item : ℕ → List Scalar → Scalar
item i [] = other
item zero (s ∷ items) = s
item (suc i) (s ∷ items) = item i items

abbrev pub integer_of_text : Option ℤ → Result IndexerError ℤ
integer_of_text none = err bad_integer
integer_of_text (some n) = ok n

-- `BigInt(s)`
unfoldable pub big_int_of : Scalar → Result IndexerError ℤ
big_int_of (int n) = ok n
big_int_of (text s) = integer_of_text (big_int (codes s))
big_int_of (bool true) = ok (pos 1)
big_int_of (bool false) = ok (pos 0)
big_int_of other = err bad_integer

abbrev pub is_truthy : Scalar → Bool
is_truthy (int n) = not (same_int n (pos 0))
is_truthy (text s) = not (str_eq s "")
is_truthy (bool b) = b
is_truthy other = false

-- `counts.get(name) ?? 0`
abbrev pub count_of : String → Map ℕ → ℕ
count_of name counts = elim (get name counts) [ none ↦ 0 | some n ↦ n ]

abbrev pub count_event : String → EventAggregates → EventAggregates
count_event name agg = record {
  event_counts = set name (count_of name agg.event_counts + 1) agg.event_counts;
  lenders = agg.lenders;
  defaulted = agg.defaulted;
  volume_from_events = agg.volume_from_events;
  repaid_from_events = agg.repaid_from_events;
}

abbrev pub fold_accepted : Scalar → EventAggregates → ℤ → EventAggregates
fold_accepted lender agg amount = record {
  event_counts = agg.event_counts;
  lenders = add_lender lender agg.lenders;
  defaulted = agg.defaulted;
  volume_from_events = agg.volume_from_events +ℤ amount;
  repaid_from_events = agg.repaid_from_events;
}

abbrev pub fold_repaid : EventAggregates → ℤ → EventAggregates
fold_repaid agg amount = record {
  event_counts = agg.event_counts;
  lenders = agg.lenders;
  defaulted = agg.defaulted;
  volume_from_events = agg.volume_from_events;
  repaid_from_events = agg.repaid_from_events +ℤ amount;
}

abbrev pub fold_defaulted : EventAggregates → EventAggregates
fold_defaulted agg = record {
  event_counts = agg.event_counts;
  lenders = agg.lenders;
  defaulted = agg.defaulted + 1;
  volume_from_events = agg.volume_from_events;
  repaid_from_events = agg.repaid_from_events;
}

-- A text is iterable: its elements are the texts of its characters.
unfoldable pub characters : String → List Scalar
characters String.[] = []
characters (String.◌∷◌ c s) = text (String.◌∷◌ c String.[]) ∷ characters s

abbrev pub tuple_of : EventValue → Result IndexerError (List Scalar)
tuple_of (tuple items) = ok items
tuple_of (single (text s)) = ok (characters s)
tuple_of (single s) = err not_iterable

-- `foldEvent` after the test of the name
unfoldable pub fold_known :
    EventAggregates → String → EventValue → Result IndexerError EventAggregates
fold_known agg name value =
    if str_eq name "off_acc"
    then (tuple_of value >>= λ items.
        big_int_of (item 2 items) >>= λ amount. ok (fold_accepted (item 1 items) agg amount))
    else (if str_eq name "inv_rep"
        then (tuple_of value >>= λ items.
            if is_truthy (item 2 items)
            then (big_int_of (item 1 items) >>= λ amount. ok (fold_repaid agg amount))
            else ok agg)
        else (if str_eq name "off_def" then ok (fold_defaulted agg) else ok agg))

abbrev pub fold_named :
    EventAggregates → Option String → EventValue → Result IndexerError EventAggregates
fold_named agg none value = err decode_failed
fold_named agg (some name) value =
    if includes name event_names then fold_known (count_event name agg) name value else ok agg

-- A value that cannot be decoded is skipped, before the name is looked at.
unfoldable pub fold_event : EventAggregates → IndexedEvent → Result IndexerError EventAggregates
fold_event agg event = elim event.value [
  | none ↦ ok agg
  | some value ↦ fold_named agg event.name value
]

unfoldable pub fold_events :
    EventAggregates → List IndexedEvent → Result IndexerError EventAggregates
fold_events agg [] = ok agg
fold_events agg (event ∷ events) = fold_event agg event >>= λ agg'. fold_events agg' events

unfoldable pub last_ledger_of : ℕ → List IndexedEvent → ℕ
last_ledger_of ledger [] = ledger
last_ledger_of ledger (event ∷ events) = last_ledger_of (max ledger event.ledger) events

pub record EventPage : Type 0 where
  pub events : List IndexedEvent
  pub cursor : String

-- The answer to a query of a range: the server says where the ledgers that it keeps begin, if the
-- range begins before them.
pub data RangeAnswer : Type 0 where
  page : EventPage → RangeAnswer
  before_range : ℕ → RangeAnswer
  failed : RangeAnswer

pub record Server : Type 0 where
  pub get_range : ℕ → ℕ → RangeAnswer
  pub get_after : String → Result IndexerError EventPage

-- The attempts of `fetchEventsFromRange`.
unfoldable pub range_attempts : Server → ℕ → ℕ → ℕ → Result IndexerError EventPage
range_attempts server zero start end_ledger = err no_valid_range
range_attempts server (suc n) start end_ledger = elim (server.get_range start end_ledger) [
  | page p ↦ ok p
  | before_range oldest ↦ range_attempts server n (oldest + 10) end_ledger
  | failed ↦ err rpc_failed
]

unfoldable pub fetch_events_from_range : Server → ℕ → ℕ → Result IndexerError EventPage
fetch_events_from_range server start_ledger end_ledger =
    range_attempts server 3 (max 1 start_ledger) end_ledger

-- The variables of the replay loop.
pub record Replayed : Type 0 where
  pub aggregates : EventAggregates
  pub last_processed_ledger : ℕ

abbrev pub replayed_page : Replayed → List IndexedEvent → EventAggregates → Replayed
replayed_page r events agg = record {
  aggregates = agg;
  last_processed_ledger = last_ledger_of r.last_processed_ledger events;
}

-- The loop over the pages, when `left` more of the two hundred may follow.
unfoldable pub replay_pages : Server → ℕ → Replayed → EventPage → Result IndexerError Replayed
replay_pages server zero r p = fold_events r.aggregates p.events >>= λ agg. err pagination_guard
replay_pages server (suc left) r p = fold_events r.aggregates p.events >>= λ agg.
    if length p.events == 0
    then ok (replayed_page r p.events agg)
    else (server.get_after p.cursor >>= replay_pages server left (replayed_page r p.events agg))

pub record Window : Type 0 where
  pub backfill_ledgers : ℕ
  pub max_window_ledgers : ℕ

pub record OnChain : Type 0 where
  pub total_invoices : ℕ
  pub total_offers : ℕ
  pub total_financed : ℤ
  pub total_repaid : ℤ
  pub insurance_pool : ℤ

-- The row of statistics, without the rate and the time.
pub record ProtocolStats : Type 0 where
  pub total_invoices : ℕ
  pub total_offers : ℕ
  pub invoices_financed : ℕ
  pub total_volume : List ℕ
  pub total_repaid : List ℕ
  pub active_lenders : ℕ
  pub defaulted_invoices : ℕ
  pub insurance_pool : List ℕ
  pub last_ledger : ℕ

abbrev pub checkpoint_of : Window → Option ProtocolStats → ℕ → ℕ
checkpoint_of window none latest = max 1 (latest - window.backfill_ledgers)
checkpoint_of window (some prev) latest = prev.last_ledger

abbrev pub start_of : Window → ℕ → ℕ → ℕ
start_of window checkpoint end_ledger =
    max 1 (end_ledger - min (end_ledger - checkpoint) window.max_window_ledgers)

unfoldable pub replay : Window → Server → ℕ → ℕ → Result IndexerError Replayed
replay window server checkpoint end_ledger =
    let begin : Replayed = record {
      aggregates = empty_aggregates;
      last_processed_ledger = checkpoint;
    } in
    if ltb checkpoint end_ledger
    then (fetch_events_from_range server (start_of window checkpoint end_ledger) end_ledger
        >>= replay_pages server 200 begin)
    else ok begin

unfoldable pub stats_row : OnChain → ℕ → Replayed → ProtocolStats
stats_row onchain checkpoint r = record {
  total_invoices = onchain.total_invoices;
  total_offers = onchain.total_offers;
  invoices_financed = count_of "off_acc" r.aggregates.event_counts;
  total_volume = to_string onchain.total_financed;
  total_repaid = to_string onchain.total_repaid;
  active_lenders = length r.aggregates.lenders;
  defaulted_invoices = r.aggregates.defaulted;
  insurance_pool = to_string onchain.insurance_pool;
  last_ledger = max r.last_processed_ledger checkpoint;
}

-- `main`: the row that the run writes.
unfoldable pub run_indexer :
    Window → Server → OnChain → Option ProtocolStats → ℕ → Result IndexerError ProtocolStats
run_indexer window server onchain prev latest =
    let checkpoint = checkpoint_of window prev latest in
    replay window server checkpoint latest >>= λ r. ok (stats_row onchain checkpoint r)
