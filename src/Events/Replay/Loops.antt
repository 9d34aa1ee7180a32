-- ===== src/Events/Replay/Loops.antt =====
-- The two loops of `replayEvents` end, and what they return.
use invofi.Prelude.{
  ℕ, zero, suc, ◌+◌, ◌-◌, ◌≤◌, ◌<◌, ◌≡◌, refl, not, ◌&&◌, Option, none, some, List, [], ◌∷◌, length,
  ltb, leb, min, arith, Bool-cases, inl, inr,
}
use invofi.Prelude.Result.{Result, ok, err, Ensures}
use invofi.Events.Replay.{
  Replay, RawEvent, ReplayError, EventsPage, EventsRequest, events_request, EventServer, PageState,
  ReplayState, take_events, choose_step, PageStep, failed, window_done, next_page, start_page,
  last_of, is_cursor, or_text, read_events, read_answer, read_page,
}
use invofi.Events.Replay.Run.{read_window, read_windows}
use invofi.Events.Replay.Pages.{unseen, Kept, KeysIn, Follows, take_events-Follows}

-- A result that is there, and what it ensures.
abbrev pub Returns : {E A : Type 0} → (A → Type 0) → Option (Result E A) → Type 0
Returns P none = ⊥
Returns P (some result) = Ensures P result

-- Every event that the server gives has its key in the list.
abbrev pub IsFinite : {S : Type 0} → List (List ℕ) → EventServer S → Type 0
IsFinite keys server =
    (n : ℕ) (request : EventsRequest) (page : EventsPage _)
    → server.get_events n request ≡ some page
    → KeysIn keys page.events

module _ {S : Type 0} (r : Replay S) (keys : List (List ℕ)) where
  -- A later state has seen at least as much, and has an event for a key at most.
  abbrev pub Grows : ReplayState → ReplayState → Type 0
  Grows s t =
      (unseen keys t.seen ≤ unseen keys s.seen)
      × (length t.all_events + unseen keys t.seen ≤ length s.all_events + unseen keys s.seen)
      × Kept r t.seen t.all_events

  -- Another page is read only after one with a new key.
  abbrev StepGrows : ReplayState → PageStep → Type 0
  StepGrows s (failed e) = Unit
  StepGrows s (window_done t) = Grows s t
  StepGrows s (next_page next t) = (unseen keys t.seen < unseen keys s.seen) × Grows s t

  choose_step-StepGrows :
      (window_end : ℕ) (page : EventsPage S) (last : RawEvent S) (cursor : Option (List ℕ))
      (requests : ℕ) (s : ReplayState) (result : Result ReplayError PageState)
      → Ensures (Follows r keys (start_page s)) result
      → StepGrows s (choose_step r window_end page last cursor requests result)
  unfolding choose_step
  choose_step-StepGrows window_end page last cursor requests s (err e) h = tt
  choose_step-StepGrows window_end page last cursor requests s (ok p) h =
      elim (Bool-cases (
        leb last.event.ledger window_end
        && leb 1 (length (or_text page.cursor last.paging_token))
        && not (is_cursor (or_text page.cursor last.paging_token) cursor)
        && ltb 0 p.new_events
        && leb r.limit (length page.events)
        && not p.cut)) [
          | inl more ↦
              let some_new : 0 < p.new_events = ground arith in
              rw more
                (omega (arith, h.0.0, some_new), (omega (arith, h.0.0), omega (arith, h.0.1), h.1))
          | inr last ↦ rw last (omega (arith, h.0.0), omega (arith, h.0.1), h.1)
        ]

  read_answer-StepGrows :
      (window_end : ℕ) (cursor : Option (List ℕ)) (s : ReplayState) (answer : Option (EventsPage S))
      → ((page : EventsPage S) → answer ≡ some page → KeysIn keys page.events)
      → Kept r s.seen s.all_events
      → StepGrows s (read_answer r window_end cursor s answer)
  read_answer-StepGrows window_end cursor s none known all = tt
  read_answer-StepGrows window_end cursor s (some page) known all =
      answered page.events (known page refl)
    where
      answered :
          (events : List (RawEvent S))
          → KeysIn keys events
          → StepGrows s (read_events r window_end cursor s page events)
      answered [] h = (omega arith, omega arith, all)
      answered (raw ∷ events) h =
          choose_step-StepGrows window_end page (last_of raw events) cursor (s.requests + 1) s
            (take_events r window_end (raw ∷ events) (start_page s))
            (take_events-Follows r keys window_end (raw ∷ events) (start_page s) h all)

  -- What a window grows by, the rest grows on.
  Grows-trans :
      (s t : ReplayState) (o : Option (Result ReplayError ReplayState))
      → Grows s t
      → Returns (Grows t) o
      → Returns (Grows s) o
  Grows-trans s t (some (ok u)) a b = (omega (arith, a.0, b.0), omega (arith, a.1, b.1), b.2)
  Grows-trans s t (some (err e)) a b = tt
  Grows-trans s t none a b = absurd b

  module _ (server : EventServer S) (finite : IsFinite keys server) where
    read_window-Returns :
        (window_start window_end fuel : ℕ) (cursor : Option (List ℕ)) (s : ReplayState)
        → unseen keys s.seen < fuel
        → Kept r s.seen s.all_events
        → Returns (Grows s) (read_window r server window_start window_end fuel cursor s)
    unfolding read_window read_page
    read_window-Returns window_start window_end zero cursor s enough all = absurd (omega arith)
    read_window-Returns window_start window_end (suc fuel) cursor s enough all =
        stepped
          (read_answer r window_end cursor s
            (server.get_events s.requests (events_request window_start cursor r.limit)))
          (read_answer-StepGrows window_end cursor s
            (server.get_events s.requests (events_request window_start cursor r.limit))
            (finite s.requests (events_request window_start cursor r.limit)) all)
          (λ next t fewer selected.
            read_window-Returns window_start window_end fuel (some next) t (omega (arith, fewer))
              selected)
      where
        stepped :
            (step : PageStep)
            → StepGrows s step
            → ((next : List ℕ) (t : ReplayState)
                → unseen keys t.seen < fuel
                → Kept r t.seen t.all_events
                → Returns
                    (Grows t)
                    (read_window r server window_start window_end fuel (some next) t))
            → Returns (Grows s) (elim step [
              | failed e ↦ some (err e)
              | window_done t ↦ some (ok t)
              | next_page next t ↦ read_window r server window_start window_end fuel (some next) t
            ])
        stepped (failed e) h ih = tt
        stepped (window_done t) h ih = h
        stepped (next_page next t) h ih =
            Grows-trans s t (read_window r server window_start window_end fuel (some next) t) h.1
              (ih next t (omega (arith, h.0, enough)) h.1.2)

    pub read_windows-Returns :
        (page_fuel fuel window_start : ℕ) (s : ReplayState)
        → 0 < r.batch_size
        → unseen keys s.seen < page_fuel
        → window_start ≤ r.target_to + 1
        → r.target_to + 1 < window_start + fuel
        → Kept r s.seen s.all_events
        → Returns (Grows s) (read_windows r server page_fuel fuel window_start s)
    unfolding read_windows
    read_windows-Returns page_fuel zero window_start s positive enough near rounds all =
        absurd (omega arith)
    read_windows-Returns page_fuel (suc fuel) window_start s positive enough near rounds all =
        elim (Bool-cases (ltb r.target_to window_start)) [
          | inl past ↦ rw (past, read_windows, Returns) (omega arith, omega arith, all)
          | inr more ↦
              let window_end = min (window_start + r.batch_size - 1) r.target_to in
              rw (more, read_windows, Returns)
                (windowed (read_window r server window_start window_end page_fuel none s)
                  (read_window-Returns window_start window_end page_fuel none s enough all)
                  (λ t fewer selected.
                    read_windows-Returns page_fuel fuel (window_end + 1) t positive
                      (omega (arith, fewer)) (ground arith) (ground arith) selected))
        ]
      where
        windowed :
            (o : Option (Result ReplayError ReplayState))
            → Returns (Grows s) o
            → ((t : ReplayState)
                → unseen keys t.seen ≤ unseen keys s.seen
                → Kept r t.seen t.all_events
                → Returns (Grows t) (
                    read_windows r server page_fuel fuel
                      (min (window_start + r.batch_size - 1) r.target_to + 1)
                      t))
            → Returns (Grows s) (elim o [
              | none ↦ none
              | some (err e) ↦ some (err e)
              | some (ok t) ↦
                  read_windows r server page_fuel fuel
                    (min (window_start + r.batch_size - 1) r.target_to + 1)
                    t
            ])
        windowed none h ih = absurd h
        windowed (some (err e)) h ih = tt
        windowed (some (ok t)) h ih = Grows-trans s t _ h (ih t h.0 h.2)
