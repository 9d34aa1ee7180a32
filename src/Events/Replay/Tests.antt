-- ===== src/Events/Replay/Tests.antt =====
-- A replay of two pages, and instances of the theorems at it.
use invofi.Prelude.{ℕ, ◌≡◌, refl, subst, none, some, Option, String, List, [], ◌∷◌, arith, false}
use invofi.Prelude.Int.{pos}
use invofi.Prelude.Text.{codes}
use invofi.Prelude.Result.{Result, ok}
use invofi.Events.{text, bigint, missing, Decoded, ProtocolEvent, off_acc, offer_accepted}
use invofi.Events.Replay.{
  integer, ReplayError, ReplayEventsOptions, RawEvent, EventsPage, EventServer, event_key,
}
use invofi.Events.Replay.{PageState}
use invofi.Events.Replay.Run.{ReplayResult, checked_range, replay_events}
use invofi.Events.Replay.Pages.{KeysIn}
use invofi.Events.Replay.Loops.{IsFinite}
use invofi.Events.Replay.Outcome.{replay_events_ends}

abbrev word : String → Decoded
word s = record { arr = []; fields = λ key. missing; whole = text (codes s) }

abbrev raw_event : String → ℕ → RawEvent Decoded
raw_event id ledger = record {
  event = record {
    topic = word "off_acc" ∷ word "OFF-1" ∷ [];
    value = record {
      arr = text (codes "INV-1") ∷ text (codes "L1") ∷ bigint (pos 250) ∷ [];
      fields = λ key. missing;
      whole = missing;
    };
    contract_id = codes "C1";
    ledger = ledger;
    tx_hash = codes "h1";
  };
  id = codes id;
  paging_token = [];
}

abbrev accepted_at : ℕ → ProtocolEvent
accepted_at ledger = record {
  event_type = off_acc;
  subject_id = codes "OFF-1";
  contract_id = codes "C1";
  ledger = ledger;
  tx_hash = codes "h1";
  payload = offer_accepted (codes "INV-1") (codes "L1") (pos 250);
}

abbrev first_page : EventsPage Decoded
first_page = record { events = raw_event "e1" 101 ∷ raw_event "e2" 104 ∷ []; cursor = codes "a" }

-- The second page repeats an event, and has one of an earlier ledger.
abbrev second_page : EventsPage Decoded
second_page = record { events = raw_event "e2" 104 ∷ raw_event "e3" 103 ∷ []; cursor = codes "b" }

abbrev page_for : Option (List ℕ) → Option (EventsPage Decoded)
page_for none = some first_page
page_for (some cursor) = some second_page

abbrev server : EventServer Decoded
server = record { latest_ledger = some 106; get_events = λ n request. page_for request.cursor }

abbrev keys : List (List ℕ)
keys = codes "e1" ∷ codes "e2" ∷ codes "e3" ∷ []

abbrev options : ReplayEventsOptions
options = record {
  rpc_url = none;
  from = some (integer (pos 100));
  from_ledger = none;
  start_ledger = none;
  to = none;
  to_ledger = none;
  end_ledger = none;
  contract_ids = none;
  contract_id = [];
  event_types = none;
  event_type = none;
  batch_size_ledgers = none;
  limit_per_page = some 2;
}

abbrev decode : Decoded → Option Decoded
decode d = some d

range_run : checked_range options ≡ ok (100, none)
unfolding checked_range
range_run = refl

abbrev outcome : ReplayResult
outcome = record {
  delivered = accepted_at 101 ∷ accepted_at 104 ∷ accepted_at 103 ∷ [];
  returned = accepted_at 101 ∷ accepted_at 103 ∷ accepted_at 104 ∷ [];
}

page_for-KeysIn :
    (cursor : Option (List ℕ)) (page : EventsPage Decoded)
    → page_for cursor ≡ some page
    → KeysIn keys page.events
unfolding event_key
page_for-KeysIn none page h =
    subst (λ (p : EventsPage Decoded). KeysIn keys p.events) {x = first_page} {y = page} (cc)
      (refl, (refl, tt))
page_for-KeysIn (some c) page h =
    subst (λ (p : EventsPage Decoded). KeysIn keys p.events) {x = second_page} {y = page} (cc)
      (refl, (refl, tt))

server-IsFinite : IsFinite keys server
server-IsFinite n request page h = page_for-KeysIn request.cursor page h

replay_events_ends_example :
    (result : Result ReplayError ReplayResult) × (replay_events decode options server 4 9
      ≡ some result)
replay_events_ends_example =
    replay_events_ends decode options server keys 4 9 100 106 server-IsFinite (omega arith)
      (omega arith) none range_run refl

abbrev nothing_read : PageState
nothing_read = record { seen_keys = []; collected = []; new_events = 0; cut = false }

abbrev first_page_read : PageState
first_page_read = record {
  seen_keys = codes "e2" ∷ codes "e1" ∷ [];
  collected = accepted_at 101 ∷ accepted_at 104 ∷ [];
  new_events = 2;
  cut = false;
}
