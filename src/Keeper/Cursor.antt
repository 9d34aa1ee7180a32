-- ===== src/Keeper/Cursor.antt =====
-- The ledger from which the keeper goes on.
use invofi.Prelude.{
  ℕ, zero, suc, ◌≤◌, ◌≡◌, Bool, Option, none, some, String, List, [], ◌∷◌, length, ltb, ◌==◌, arith,
}
use invofi.Prelude.Result.{Result, ok, err}
use invofi.Keeper.{
  Failure, Task, return, ◌>>=◌, Chain, Config, EventsQuery, start_ledger, after_cursor,
  EventsResponse,
}
use invofi.Keeper.Events.{
  ParsedEvent, go_on, last_progress, page_progress, Progress, PollResult, no_counts, parse_events,
  see_ledger, see_events, process_events, next_cursor, poll_step, poll_pages, finish_poll,
  poll_from, poll_events_once, nothing_new,
}
use invofi.Keeper.Daemon.{
  DaemonState, recover_cursor, poll_failed, poll_done, count_failure, fallback_sweep, daemon_round,
  daemon_rounds,
}
use invofi.Keeper.Tasks.{Returns, Returns-after, Returns-any, Returns-if}

see_events-le :
    {N : Type 0} (latest : ℕ) (events : List (ParsedEvent N)) → latest ≤ see_events latest events
unfolding see_events
see_events-le latest [] = omega arith
see_events-le latest (event ∷ events) =
    ground (arith, see_events-le (see_ledger latest event.ledger) events)

abbrev pub SeenFrom : ℕ → Progress → Type 0
SeenFrom current p = current ≤ p.latest_seen_ledger

module _ {W S N X : Type 0} (chain : Chain W S N X) (current : ℕ) where
  Returns-go_on :
      (next : String → Progress → Task W Progress) (p : Progress) (cursor : Option String) (w : W)
      → SeenFrom current p
      → ((c : String) (p' : Progress) (w' : W)
          → SeenFrom current p'
          → Returns (SeenFrom current) (next c p' w'))
      → Returns (SeenFrom current) (go_on chain next p cursor w)
  Returns-go_on next p none w h more = h
  Returns-go_on next p (some c) w h more = more c p w h

  Returns-poll_step :
      (query : EventsQuery) (next : String → Progress → Task W Progress) (p : Progress)
      (res : EventsResponse S) (w : W)
      → SeenFrom current p
      → ((c : String) (p' : Progress) (w' : W)
          → SeenFrom current p'
          → Returns (SeenFrom current) (next c p' w'))
      → Returns (SeenFrom current) (poll_step chain query next p res w)
  unfolding poll_step
  Returns-poll_step query next p res w h more =
      let parsed = parse_events chain.decode res.events in
      let work : Task W Progress = process_events chain parsed >>= λ counts.
      go_on chain next (page_progress p res.latest_ledger parsed counts)
        (next_cursor query res.cursor) in
      Returns-if (SeenFrom current) (length res.events == 0)
        (return (last_progress p res.latest_ledger)) work w (λ _. ground arith)
        (λ _.
          Returns-after (λ _. Unit) (SeenFrom current) (process_events chain parsed w) _
            (Returns-any (process_events chain parsed w))
            (λ counts w' _.
              Returns-go_on next (page_progress p res.latest_ledger parsed counts)
                (next_cursor query res.cursor) w'
                (ground (arith, see_events-le p.latest_seen_ledger parsed)) more))

  Returns-poll_pages :
      (fuel : ℕ) (query : EventsQuery) (p : Progress) (w : W)
      → SeenFrom current p
      → Returns (SeenFrom current) (poll_pages chain fuel query p w)
  unfolding poll_pages
  Returns-poll_pages zero query p w h = tt
  Returns-poll_pages (suc fuel) query p w h =
      Returns-after (λ _. Unit) (SeenFrom current) (chain.get_events query w) _
        (Returns-any (chain.get_events query w))
        (λ res w' _.
          Returns-poll_step query (λ c. poll_pages chain fuel (after_cursor c)) p res w' h
            (λ c p' w'' h'. Returns-poll_pages fuel (after_cursor c) p' w'' h'))

  Returns-poll_from :
      (fuel latest : ℕ) (w : W)
      → Returns (λ r. current ≤ r.next_ledger) (poll_from chain fuel current latest w)
  unfolding poll_from finish_poll
  Returns-poll_from fuel latest w =
      let begin : Progress = record { latest_seen_ledger = current; totals = no_counts } in
      Returns-if (λ r. current ≤ r.next_ledger) (ltb latest current)
        (return (nothing_new chain current))
        (poll_pages chain fuel (start_ledger current) begin >>= finish_poll chain current) w
        (λ _. omega arith)
        (λ _.
          Returns-after (SeenFrom current) (λ r. current ≤ r.next_ledger)
            (poll_pages chain fuel (start_ledger current) begin w) (finish_poll chain current)
            (Returns-poll_pages fuel (start_ledger current) begin w (omega arith))
            (λ p w' h. ground arith))

-- A poll never returns a ledger before the one it started from, whatever the chain answers.
pub poll_events_once-Returns :
    {W S N X : Type 0} (chain : Chain W S N X) (fuel : ℕ) (has_contracts : Bool) (current : ℕ)
    (w : W)
    → Returns (λ r. current ≤ r.next_ledger) (poll_events_once chain fuel has_contracts current w)
unfolding poll_events_once
poll_events_once-Returns chain fuel has_contracts current w =
    Returns-if (λ r. current ≤ r.next_ledger) has_contracts
      (chain.get_latest_ledger >>= poll_from chain fuel current)
      (return (nothing_new chain current)) w
      (λ _.
        Returns-after (λ _. Unit) (λ r. current ≤ r.next_ledger) (chain.get_latest_ledger w)
          (poll_from chain fuel current) (Returns-any (chain.get_latest_ledger w))
          (λ latest w' _. Returns-poll_from chain current fuel latest w'))
      (λ _. omega arith)

module _ {W S N X : Type 0} (config : Config) (chain : Chain W S N X) (fuel : ℕ)
    (has_contracts : Bool) where
  recover_cursor-le :
      (d : DaemonState) (r : Result Failure (Option ℕ) × W)
      → d.current_ledger ≤ ((recover_cursor config chain fuel has_contracts d r).0).current_ledger
  unfolding recover_cursor
  recover_cursor-le d (err e, w) = omega arith
  recover_cursor-le d (ok none, w) = omega arith
  recover_cursor-le d (ok (some oldest), w) = ground arith

  poll_done-le :
      (d : DaemonState) (r : Result Failure PollResult × W)
      → Returns (λ p. d.current_ledger ≤ p.next_ledger) r
      → d.current_ledger ≤ ((poll_done config chain fuel has_contracts d r).0).current_ledger
  unfolding poll_done poll_failed
  poll_done-le d (ok res, w) h = h
  poll_done-le d (err e, w) h =
      ground (arith, recover_cursor-le (count_failure d) (chain.get_oldest_ledger w))

  fallback_sweep-eq :
      (s : DaemonState × W)
      → ((fallback_sweep config chain fuel has_contracts s).0).current_ledger ≡ (s.0).current_ledger
  fallback_sweep-eq (d, w) = ground arith

  daemon_round-le :
      (s : DaemonState × W)
      → (s.0).current_ledger ≤ ((daemon_round config chain fuel has_contracts s).0).current_ledger
  unfolding daemon_round
  daemon_round-le (d, w) = ground (
    arith,
    fallback_sweep-eq (
        poll_done config chain fuel has_contracts d
          (poll_events_once chain fuel has_contracts d.current_ledger w)),
    poll_done-le d (poll_events_once chain fuel has_contracts d.current_ledger w)
        (poll_events_once-Returns chain fuel has_contracts d.current_ledger w),
  )

-- The daemon's ledger never goes back, in any number of rounds, whatever the chain answers: not
-- after polls that fail, and not by the recovery from a health check.
pub daemon_rounds-le :
    {W S N X : Type 0} (config : Config) (chain : Chain W S N X) (fuel : ℕ) (has_contracts : Bool)
    (rounds : ℕ) (s : DaemonState × W)
    → (s.0).current_ledger
      ≤ ((daemon_rounds config chain fuel has_contracts rounds s).0).current_ledger
unfolding daemon_rounds
daemon_rounds-le config chain fuel has_contracts zero s = omega arith
daemon_rounds-le config chain fuel has_contracts (suc n) s = omega (
  arith,
  daemon_round-le config chain fuel has_contracts s,
  daemon_rounds-le config chain fuel has_contracts n
      (daemon_round config chain fuel has_contracts s),
)
