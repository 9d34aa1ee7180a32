-- ===== src/Timeline/Pages.antt =====
-- Which pages the timeline is made of.
use mathlib.Core.List.{append-nil}
use invofi.Prelude.{
  ℕ, zero, suc, ◌+◌, ◌-◌, ◌<◌, ◌≡◌, refl, sym, ap, ◌∙◌, true, Option, none, some, List, [], ◌∷◌,
  ◌++◌, length, take, max, arith,
}
use invofi.Prelude.Result.{ok, ◌>>=◌}
use invofi.Timeline.{DecodedValue, TimelineEvent, to_timeline_entries}
use invofi.Timeline.Fetch.{
  EventsPage, page, before_range, EventsServer, fetch_page, prepend_events, fetch_pages,
  fetch_since, fetch_invoice_events,
}

-- From the request on, the server has these pages of events, each but the last with a cursor to the
-- next one. A request before the oldest ledger counts as an empty page, and is made again from ten
-- ledgers after that one.
pub data Serves {S : Type 0} (server : EventsServer S)
    : ℕ → Option (List ℕ) → List (List (TimelineEvent S)) → Type 0 where
  last :
      {start_ledger : ℕ} {cursor : Option (List ℕ)} (p : EventsPage S)
      → fetch_page server start_ledger cursor ≡ page p
      → p.cursor ≡ none
      → Serves server start_ledger cursor (p.events ∷ [])
  more :
      {start_ledger : ℕ} {cursor : Option (List ℕ)} {pages : List (List (TimelineEvent S))}
      (p : EventsPage S) (next : List ℕ)
      → fetch_page server start_ledger cursor ≡ page p
      → p.cursor ≡ some next
      → Serves server start_ledger (some next) pages
      → Serves server start_ledger cursor (p.events ∷ pages)
  clamped :
      {start_ledger : ℕ} {pages : List (List (TimelineEvent S))} (oldest : ℕ)
      → server.get_from start_ledger ≡ before_range oldest
      → Serves server (oldest + 10) none pages
      → Serves server start_ledger none ([] ∷ pages)

abbrev pub concat : {A : Type 0} → List (List A) → List A
concat [] = []
concat (xs ∷ xss) = xs ++ concat xss

concat-take_nil : {A : Type 0} (n : ℕ) (xs : List A) → xs ≡ concat (take (suc n) (xs ∷ []))
concat-take_nil zero xs = sym (append-nil xs)
concat-take_nil (suc n) xs = sym (append-nil xs)

module _ {S : Type 0} (server : EventsServer S) where
  fetch_pages-Serves :
      (left start_ledger : ℕ) (cursor : Option (List ℕ)) (pages : List (List (TimelineEvent S)))
      → Serves server start_ledger cursor pages
      → fetch_pages server left start_ledger cursor ≡ ok (concat (take left pages))
  unfolding fetch_pages
  fetch_pages-Serves zero start_ledger cursor pages s = refl
  fetch_pages-Serves (suc left) start_ledger cursor pages (last p e end) =
      rw (e, fetch_pages) (rw (end, fetch_pages) (ap ok (concat-take_nil left p.events)))
  fetch_pages-Serves (suc left) start_ledger cursor pages (more {pages = later} p next e link s) =
      rw (e, fetch_pages)
        (rw (link, fetch_pages)
          (ap (prepend_events p.events) (fetch_pages-Serves left start_ledger (some next) later s)))
  fetch_pages-Serves (suc left) start_ledger cursor pages (clamped {pages = later} oldest e s) =
      rw (e, fetch_pages) (fetch_pages-Serves left (oldest + 10) none later s)

-- The timeline is made of the events of the first twenty pages that the server has from the first
-- request on: of all of them if there are no more, and else without the latest ones.
pub fetch_invoice_events-take :
    {S : Type 0} (decode : S → Option DecodedValue) (server : EventsServer S) (invoice_id : List ℕ)
    (latest : ℕ) (pages : List (List (TimelineEvent S)))
    → 0 < length invoice_id
    → server.latest_ledger ≡ some latest
    → Serves server (max 1 (latest - 86400)) none pages
    → fetch_invoice_events decode server true invoice_id
      ≡ ok (to_timeline_entries decode invoice_id (concat (take 20 pages)))
unfolding fetch_invoice_events
fetch_invoice_events-take decode server (c ∷ invoice_id) latest pages given known serves =
    ap (fetch_since decode server (c ∷ invoice_id)) known
    ∙ ap (λ events. events >>= λ raws. ok (to_timeline_entries decode (c ∷ invoice_id) raws))
        (fetch_pages-Serves server 20 (max 1 (latest - 86400)) none pages serves)
fetch_invoice_events-take decode server [] latest pages given known serves = absurd (omega arith)
