-- ===== src/Keeper/Polling.antt =====
-- A poll of a server whose list of events does not change: no page is lost or processed twice.
use invofi.Prelude.{ℕ, ◌+◌, ◌<◌, ◌≡◌, false, some, String, List, length, take, drop, str_eq, All}
use invofi.Prelude.Result.{ok}
use invofi.Keeper.{Task, return, after, Chain, RawEvent, start_ledger, after_cursor, EventsResponse}
use invofi.Keeper.Events.{
  ParsedEvent, Progress, PollResult, no_counts, parse_events, see_ledger, see_events, process_loop,
  process_events, page_progress,
}
use invofi.Keeper.Clock.{NoneFallsDue}

module _ {W S N X : Type 0} (chain : Chain W S N X) (now : ℕ) where
  -- What a poll makes of parsed events.
  abbrev pub outcome : ℕ → List (ParsedEvent N) → Progress → Task W Progress
  outcome latest parsed p w =
      after (process_loop chain now parsed no_counts w)
        (λ counts. return (page_progress p latest parsed counts))

-- The response with the events from the `k`-th on, at most a hundred of them.
abbrev pub response_at : {S : Type 0} → (ℕ → String) → ℕ → List (RawEvent S) → ℕ → EventsResponse S
response_at cursor_at latest events k =
    let page = take 100 (drop k events) in
    record { events = page; latest_ledger = latest; cursor = some (cursor_at (k + length page)) }

-- `getEvents` answers from one list of events, with the events from `current` on; the cursors that
-- it gives are positions in the list, and it changes nothing.
abbrev pub ServesEvents :
    {W S N X : Type 0} → Chain W S N X → (ℕ → String) → ℕ → List (RawEvent S) → ℕ → Type 0
ServesEvents {W} chain cursor_at latest events current =
    ((w : W)
      → chain.get_events (start_ledger current) w ≡ (ok (response_at cursor_at latest events 0), w))
    × ((k : ℕ) (w : W)
        → chain.get_events (after_cursor (cursor_at k)) w
          ≡ (ok (response_at cursor_at latest events k), w))
    × ((j k : ℕ) → j < k → str_eq (cursor_at k) (cursor_at j) ≡ false)

module _ {W S N X : Type 0} (chain : Chain W S N X) (cursor_at : ℕ → String) (now latest : ℕ)
    (events : List (RawEvent S))
    (serves : (k : ℕ) (w : W)
      → chain.get_events (after_cursor (cursor_at k)) w
        ≡ (ok (response_at cursor_at latest events k), w))
    (fresh : (j k : ℕ) → j < k → str_eq (cursor_at k) (cursor_at j) ≡ false)
    (clock : NoneFallsDue chain now) where
  abbrev parsed_from : ℕ → List (ParsedEvent N)
  parsed_from k = parse_events chain.decode (drop k events)

-- Every event is of a ledger before `next`.
abbrev pub Before : {N : Type 0} → ℕ → List (ParsedEvent N) → Type 0
Before next events = All (λ event. event.ledger < next) events

-- The ledger from which the poll after one of `events` starts.
abbrev pub ledger_after : {N : Type 0} → ℕ → ℕ → List (ParsedEvent N) → ℕ
ledger_after current latest parsed = see_ledger (see_events current parsed) latest + 1

module _ {W S N X : Type 0} (chain : Chain W S N X) (current latest : ℕ) where
  abbrev pub poll_reference : List (RawEvent S) → Task W PollResult
  poll_reference events w =
      let parsed = parse_events chain.decode events in
      let next = ledger_after current latest parsed in
      after (process_events chain parsed w) (λ counts w'.
        (ok (record { next_ledger = next; totals = counts }), chain.save_checkpoint next w'))
