-- ===== src/Keeper/Tests.antt =====
-- A chain in memory, runs of the keeper on it, and instances of the theorems at it.
use Prim.Native.String.{String}
use invofi.Prelude.{
  ℕ, zero, suc, ◌-◌, ◌≤◌, ◌≡◌, refl, true, Option, none, some, List, [], ◌∷◌, length, take, drop,
  str_eq, if◌then◌else◌,
}
use invofi.Prelude.Int.{pos}
use invofi.Prelude.Text.{codes}
use invofi.Prelude.Result.{ok}
use invofi.Keeper.{
  Chain, Config, InvoiceDetails, num, name, value, no_value, duplicate, success, Native, text, list,
  RawEvent, EventsQuery, start_ledger, after_cursor, EventsResponse, status_num, status_of_name,
  parse_int, parse_digits, StatusValue, mark_overdue, bump_ttl, send_and_confirm, read_invoice_page,
  fetch_invoice_details,
}
use invofi.Keeper.Sweep.{
  run_full_sweep, sweep_pages, page_step, sweep_invoice, mark_if_overdue, bump_if_active,
  sweep_page,
}
use invofi.Keeper.Events.{
  parse_events, poll_events_once, poll_from, poll_pages, poll_step, finish_poll, process_events,
  process_loop, process_event, process_registered, process_accepted, parse_raw_event, named_event,
  see_events,
}
use invofi.RateLimit.{trim_start}
use invofi.Version.{span_digits, digits_value}
use invofi.Validation.{split, add_char}
use invofi.Keeper.Polling.{response_at}
use invofi.Keeper.Cursor.{daemon_rounds-le}
use invofi.Keeper.Daemon.{
  DaemonState, daemon_rounds, event_catchup, parse_keeper_mode, mode_of_text,
}

abbrev config : Config
config = record {
  page_size = 2;
  max_ttl_bumps = 2;
  max_pages = 10;
  is_testnet = true;
  event_poll_interval_ms = 10000;
  fallback_sweep_interval_ms = 21600000;
}

abbrev invoice : String → StatusValue → Option ℕ → InvoiceDetails
invoice id status due = record {
  id = id;
  status = status;
  due_date = elim due [ none ↦ none | some d ↦ some (pos d) ];
  due_date_camel = none;
}

abbrev invoices : List InvoiceDetails
invoices =
    invoice "A" (num (pos 1)) (some 10)
    ∷ invoice "B" (name "Repaid") (some 10)
    ∷ invoice "C" (name "Financed") (some 9000)
    ∷ invoice "D" (num (pos 0)) none
    ∷ invoice "E" (name "1") (some 4999)
    ∷ []

abbrev event : String → String → ℕ → RawEvent (Native ℕ)
event kind id ledger = record { topic = text kind ∷ text id ∷ []; value = list []; ledger = ledger }

abbrev events : List (RawEvent (Native ℕ))
events = event "inv_reg" "A" 101 ∷ event "off_new" "A" 102 ∷ event "off_acc" "E" 103 ∷ []

-- Positions as texts of as many letters and one more.
abbrev cursor_at : ℕ → String
cursor_at zero = "x"
cursor_at (suc k) = String.◌∷◌ "x" (cursor_at k)

abbrev find_invoice : String → List InvoiceDetails → Option InvoiceDetails
find_invoice id [] = none
find_invoice id (inv ∷ invs) = if str_eq inv.id id then some inv else find_invoice id invs

abbrev answer : EventsQuery → EventsResponse (Native ℕ)
answer (start_ledger l) = response_at cursor_at 110 events 0
answer (after_cursor c) = response_at cursor_at 110 events (length (codes c) - 1)

-- The world is the list of the transactions sent, the last one first.
abbrev chain : Chain (List String) (Native ℕ) ℕ String
chain = record {
  date_now = λ w. 5000000;
  sleep = λ ms w. w;
  get_account = λ account w. (ok tt, w);
  fund_account = λ account w. (ok true, w);
  get_latest_ledger = λ w. (ok 110, w);
  get_oldest_ledger = λ w. (ok none, w);
  get_invoice = λ id w. elim (find_invoice id invoices) [
    | none ↦ (ok no_value, w)
    | some inv ↦ (ok (value inv), w)
  ];
  get_invoices_paginated = λ offset limit w. (ok (value (take limit (drop offset invoices))), w);
  prepare_mark_overdue = λ id w. (ok (some id), w);
  prepare_bump_ttl = λ id w. (ok (some "bump"), w);
  send_transaction = λ tx w. (ok duplicate, tx ∷ w);
  get_transaction = λ hash w. (ok success, w);
  get_events = λ query w. (ok (answer query), w);
  decode = λ s. some s;
  load_checkpoint = λ w. none;
  save_checkpoint = λ ledger w. w;
}

abbrev begin : DaemonState × List String
begin = (record { current_ledger = 100; last_sweep_time = 0; consecutive_failures = 0 }, [])

-- The last transactions of a sweep and of a poll: what the keeper marked and how often it extended.
sweep_run :
    run_full_sweep config chain []
    ≡ (ok (record { scanned = 5; marked = 2; bumped = 2 }), "E" ∷ "bump" ∷ "bump" ∷ "A" ∷ [])
unfolding run_full_sweep sweep_pages page_step sweep_page sweep_invoice mark_if_overdue
    bump_if_active read_invoice_page mark_overdue bump_ttl send_and_confirm status_num
    status_of_name parse_int parse_digits trim_start span_digits digits_value
sweep_run = refl

poll_run : poll_events_once chain 2 true 100 [] ≡ (
  ok (record {
    next_ledger = 111;
    totals = record { processed = 2; ttl_bumps = 2; marked_overdue = 1 };
  }),
  "E" ∷ "bump" ∷ "bump" ∷ [],
)
unfolding poll_events_once poll_from poll_pages poll_step finish_poll process_events process_loop
    process_event process_registered process_accepted fetch_invoice_details parse_events
    parse_raw_event named_event see_events mark_overdue bump_ttl send_and_confirm status_num
    status_of_name parse_int parse_digits trim_start span_digits digits_value
poll_run = refl

mode_run :
    parse_keeper_mode
      (codes "--verbose" ∷ codes "--mode=none" ∷ codes "--mode=event-catchup" ∷ [])
      none
    ≡ event_catchup
unfolding parse_keeper_mode mode_of_text split add_char
mode_run = refl

daemon_rounds-le_example :
    (begin.0).current_ledger ≤ ((daemon_rounds config chain 2 true 3 begin).0).current_ledger
daemon_rounds-le_example = daemon_rounds-le config chain 2 true 3 begin
