-- ===== src/Timeline/Tests.antt =====
-- A timeline of three pages, and instances of the theorems at it.
use invofi.Prelude.{
  ℕ, ◌≡◌, refl, true, Option, none, some, String, List, [], ◌∷◌, ◌++◌, arith, ltb, Bool,
}
use invofi.Prelude.Text.{codes}
use invofi.Prelude.Result.{ok}
use invofi.Prelude.Sort.{sort_by, insert_before}
use invofi.Events.{text, inv_reg, off_acc, known_event_name}
use invofi.Timeline.{
  DecodedValue, single, array, TimelineEvent, is_of_invoice, add_entry, collect_entries,
  to_timeline_entries,
}
use invofi.Timeline.Fetch.{PageAnswer, page, before_range, EventsServer, fetch_invoice_events}
use invofi.Timeline.Pages.{last, more, clamped, fetch_invoice_events-take}

abbrev word : String → DecodedValue
word s = single (text (codes s))

abbrev raw_event : String → String → String → DecodedValue → ℕ → TimelineEvent DecodedValue
raw_event id event_type subject value ledger = record {
  topic = word event_type ∷ word subject ∷ [];
  value = value;
  id = some (codes id);
  ledger = ledger;
  ledger_closed_at = none;
  tx_hash = codes "h";
}

abbrev decode : DecodedValue → Option DecodedValue
decode d = some d

-- The second event names the invoice in its payload, the third one is of another invoice.
abbrev registered : TimelineEvent DecodedValue
registered = raw_event "e1" "inv_reg" "INV-1" (word "-") 101

abbrev accepted_offer : TimelineEvent DecodedValue
accepted_offer = raw_event "e2" "off_acc" "OFF-1" (array (text (codes "INV-1") ∷ [])) 105

abbrev elsewhere : TimelineEvent DecodedValue
elsewhere = raw_event "e3" "inv_reg" "INV-2" (word "-") 103

abbrev raws : List (TimelineEvent DecodedValue)
raws = registered ∷ elsewhere ∷ accepted_offer ∷ []

timeline_run :
    to_timeline_entries decode (codes "INV-1") raws
    ≡ record { event_type = off_acc; ledger = 105; occurred_at = none; tx_hash = codes "h" }
      ∷ record { event_type = inv_reg; ledger = 101; occurred_at = none; tx_hash = codes "h" }
      ∷ []
unfolding to_timeline_entries collect_entries add_entry is_of_invoice known_event_name sort_by
    insert_before
timeline_run = refl

abbrev first_answer : Bool → PageAnswer DecodedValue
first_answer true = before_range 90
first_answer _ = page (record { events = registered ∷ []; cursor = some (codes "c") })

-- The server keeps the ledgers from 90 on.
abbrev server : EventsServer DecodedValue
server = record {
  latest_ledger = some 110;
  get_from = λ start. first_answer (ltb start 90);
  get_after = λ cursor. page (record { events = elsewhere ∷ accepted_offer ∷ []; cursor = none });
}

fetch_invoice_events-take_example :
    fetch_invoice_events decode server true (codes "INV-1")
    ≡ ok (
        to_timeline_entries decode
          (codes "INV-1")
          ([] ++ (registered ∷ elsewhere ∷ accepted_offer ∷ [])))
fetch_invoice_events-take_example =
    fetch_invoice_events-take decode server (codes "INV-1") 110
      ([] ∷ (registered ∷ []) ∷ (elsewhere ∷ accepted_offer ∷ []) ∷ []) (omega arith) refl
      (clamped 90 refl (more _ (codes "c") refl refl (last _ refl refl)))
