-- ===== src/Indexer/Tests.antt =====
-- A server in memory, runs of the indexer on it, and instances of the theorems at it.
use invofi.Prelude.{
  ℕ, zero, suc, ◌≡◌, refl, none, some, String, List, [], ◌∷◌, length, str_eq, arith, ltb,
  if◌then◌else◌, true, ap,
}
use invofi.Prelude.Int.{pos, ◌+ℤ◌}
use invofi.Prelude.Text.{codes}
use invofi.Prelude.Map.{get, set}
use invofi.Prelude.Result.{Result, ok, err, ◌>>=◌}
use invofi.Indexer.{
  IndexerError, IndexedEvent, tuple, text, int, bool, empty_aggregates, fold_events, last_ledger_of,
  EventPage, page, before_range, Server, Window, OnChain, ProtocolStats, stats_row, run_indexer,
  checkpoint_of, start_of, fetch_events_from_range, range_attempts, fold_event, fold_known,
  add_lender, same_scalar, big_int_of,
}
use invofi.Indexer.Replay.{Follows, all_events, run_indexer-Follows, run_indexer-guard}
use invofi.Indexer.Reset.{run_indexer-caught_up}

abbrev accepted_event : String → ℕ → ℕ → IndexedEvent
accepted_event lender amount ledger = record {
  name = some "off_acc";
  value = some (tuple (text "INV-1" ∷ text lender ∷ int (pos amount) ∷ []));
  ledger = ledger;
}

abbrev repaid : ℕ → IndexedEvent
repaid ledger = record {
  name = some "inv_rep";
  value = some (tuple (text "OFF-1" ∷ int (pos 70) ∷ bool true ∷ []));
  ledger = ledger;
}

abbrev first_page : EventPage
first_page = record { events = accepted_event "L1" 50 903 ∷ repaid 905 ∷ []; cursor = "a" }

abbrev second_page : EventPage
second_page = record {
  events = accepted_event "L2" 30 906 ∷ accepted_event "L1" 20 907 ∷ [];
  cursor = "b";
}

abbrev last_page : EventPage
last_page = record { events = []; cursor = "b" }

abbrev answer_after : String → Result IndexerError EventPage
answer_after cursor =
    if str_eq cursor "a"
    then ok second_page
    else (if str_eq cursor "b" then ok last_page else ok first_page)

-- The server keeps the ledgers from 890 on.
abbrev server : Server
server = record {
  get_range = λ start end_ledger. if ltb start 890 then before_range 890 else page first_page;
  get_after = answer_after;
}

abbrev window : Window
window = record { backfill_ledgers = 100; max_window_ledgers = 1000 }

abbrev onchain : OnChain
onchain = record {
  total_invoices = 4;
  total_offers = 5;
  total_financed = pos 100;
  total_repaid = pos 70;
  insurance_pool = pos 0;
}

abbrev pages : List EventPage
pages = second_page ∷ last_page ∷ []

first_answer :
    fetch_events_from_range server (start_of window (checkpoint_of window none 1000) 1000) 1000
    ≡ ok first_page
unfolding fetch_events_from_range range_attempts
first_answer = refl

run_indexer-Follows_example : run_indexer window server onchain none 1000 ≡ (
    fold_events empty_aggregates (all_events first_page pages) >>= λ agg. ok (
      stats_row onchain 900 (record {
        aggregates = agg;
        last_processed_ledger = last_ledger_of 900 (all_events first_page pages);
      })))
run_indexer-Follows_example =
    run_indexer-Follows window server onchain none 1000 first_page pages (omega arith) first_answer
      (omega arith, refl, (omega arith, refl, refl)) (omega arith)

-- A server with a given number of pages: a cursor has as many letters as pages are left after it.
abbrev letters : ℕ → String
letters zero = ""
letters (suc n) = String.◌∷◌ "x" (letters n)

abbrev countdown_page : ℕ → EventPage
countdown_page zero = last_page
countdown_page (suc n) = record { events = repaid 905 ∷ []; cursor = letters n }

abbrev pages_below : ℕ → List EventPage
pages_below zero = []
pages_below (suc n) = countdown_page n ∷ pages_below n

abbrev long_server : Server
long_server = record {
  get_range = λ start end_ledger. page (countdown_page 200);
  get_after = λ cursor. ok (countdown_page (length (codes cursor)));
}

length-letters : (n : ℕ) → length (codes (letters n)) ≡ n
length-letters zero = refl
length-letters (suc n) = omega (arith, length-letters n)

length-pages_below : (n : ℕ) → length (pages_below n) ≡ n
length-pages_below zero = refl
length-pages_below (suc n) = omega (arith, length-pages_below n)

countdown-Follows : (n : ℕ) → Follows long_server (countdown_page n) (pages_below n)
countdown-Follows zero = refl
countdown-Follows (suc n) =
    (omega arith, ap (λ k. ok (countdown_page k)) (length-letters n), countdown-Follows n)

long_answer :
    fetch_events_from_range long_server (start_of window (checkpoint_of window none 1000) 1000) 1000
    ≡ ok (countdown_page 200)
unfolding fetch_events_from_range range_attempts
long_answer = refl

run_indexer-guard_example :
    (e : IndexerError) × (run_indexer window long_server onchain none 1000 ≡ err e)
run_indexer-guard_example =
    run_indexer-guard window long_server onchain none 1000 (countdown_page 200) (pages_below 200)
      (omega arith) long_answer (countdown-Follows 200) (omega (arith, length-pages_below 200))

abbrev row : ProtocolStats
row = record {
  total_invoices = 4;
  total_offers = 5;
  invoices_financed = 3;
  total_volume = codes "100";
  total_repaid = codes "70";
  active_lenders = 2;
  defaulted_invoices = 1;
  insurance_pool = codes "0";
  last_ledger = 907;
}

run_indexer-caught_up_example :
    (row' : ProtocolStats) × (run_indexer window server onchain (some row) 907 ≡ ok row')
    × (row'.last_ledger ≡ 907)
    × (row'.invoices_financed ≡ 0)
    × (row'.defaulted_invoices ≡ 0)
    × (row'.active_lenders ≡ 0)
run_indexer-caught_up_example = run_indexer-caught_up window server onchain row 907 (omega arith)

-- The first run counts three financings by two lenders.
fold_run :
    fold_events empty_aggregates (all_events first_page pages)
    ≡ ok (record {
      event_counts = ("off_acc", 3) ∷ ("inv_rep", 1) ∷ [];
      lenders = text "L2" ∷ text "L1" ∷ [];
      defaulted = 0;
      volume_from_events = pos 100;
      repaid_from_events = pos 70;
    })
unfolding fold_events fold_event fold_known add_lender same_scalar big_int_of get set ◌+ℤ◌
fold_run = refl
