-- ===== src/Indexer/Replay.antt =====
-- The replay over the pages of a server.
use invofi.Prelude.{
  ℕ, zero, suc, ◌≤◌, ◌<◌, ◌≡◌, refl, sym, ap, ◌∙◌, true, false, Option, List, [], ◌∷◌, ◌++◌, length,
  ltb, ◌==◌, max, arith,
}
use invofi.Prelude.Result.{Result, ok, err, ◌>>=◌}
use invofi.Indexer.{
  IndexerError, pagination_guard, IndexedEvent, EventAggregates, empty_aggregates, fold_event,
  fold_events, last_ledger_of, EventPage, Server, Replayed, replayed_page, replay_pages,
  fetch_events_from_range, Window, OnChain, ProtocolStats, checkpoint_of, start_of, replay,
  stats_row, run_indexer,
}

-- The server answers after the page `p` with the pages `ps`, the last of which is empty and the
-- others are not.
abbrev pub Follows : Server → EventPage → List EventPage → Type 0
Follows server p [] = length p.events ≡ 0
Follows server p (q ∷ ps) =
    (1 ≤ length p.events) × (server.get_after p.cursor ≡ ok q) × Follows server q ps

abbrev pub all_events : EventPage → List EventPage → List IndexedEvent
all_events p [] = p.events
all_events p (q ∷ ps) = p.events ++ all_events q ps

bind_assoc :
    {A B C : Type 0} (r : Result IndexerError A) (f : A → Result IndexerError B)
    (g : B → Result IndexerError C)
    → (r >>= f >>= g) ≡ (r >>= λ a. f a >>= g)
bind_assoc (ok a) f g = refl
bind_assoc (err e) f g = refl

bind_ext :
    {A B : Type 0} (r : Result IndexerError A) (f g : A → Result IndexerError B)
    → ((a : A) → f a ≡ g a)
    → (r >>= f) ≡ (r >>= g)
bind_ext (ok a) f g h = h a
bind_ext (err e) f g h = refl

bind_fails :
    {A B : Type 0} (r : Result IndexerError A) (f : A → Result IndexerError B)
    → ((a : A) → (e : IndexerError) × (f a ≡ err e))
    → (e : IndexerError) × ((r >>= f) ≡ err e)
bind_fails (ok a) f h = h a
bind_fails (err e) f h = (e, refl)

fold_events-append :
    (agg : EventAggregates) (xs ys : List IndexedEvent)
    → fold_events agg (xs ++ ys) ≡ (fold_events agg xs >>= λ agg'. fold_events agg' ys)
unfolding fold_events
fold_events-append agg [] ys = refl
fold_events-append agg (x ∷ xs) ys =
    bind_ext (fold_event agg x) _ _ (λ agg'. fold_events-append agg' xs ys)
    ∙ sym
        (bind_assoc (fold_event agg x) (λ agg'. fold_events agg' xs) (λ agg'. fold_events agg' ys))

last_ledger_of-append :
    (l : ℕ) (xs ys : List IndexedEvent)
    → last_ledger_of l (xs ++ ys) ≡ last_ledger_of (last_ledger_of l xs) ys
unfolding last_ledger_of
last_ledger_of-append l [] ys = refl
last_ledger_of-append l (x ∷ xs) ys = last_ledger_of-append (max l x.ledger) xs ys

module _ (server : Server) where
  last_page :
      (left : ℕ) (r : Replayed) (p : EventPage)
      → length p.events ≡ 0
      → replay_pages server (suc left) r p
        ≡ (fold_events r.aggregates p.events >>= λ agg. ok (replayed_page r p.events agg))
  unfolding replay_pages
  last_page left r p h = let e : (length p.events == 0) ≡ true = ground (arith, h) in rw e refl

  more_pages :
      (left : ℕ) (r : Replayed) (p q : EventPage)
      → 1 ≤ length p.events
      → server.get_after p.cursor ≡ ok q
      → replay_pages server (suc left) r p ≡ (
          fold_events r.aggregates p.events >>= λ agg.
          replay_pages server left (replayed_page r p.events agg) q)
  unfolding replay_pages
  more_pages left r p q h e =
      let n : (length p.events == 0) ≡ false = ground (arith, h) in rw (n, e) refl

  replay_pages-Follows :
      (left : ℕ) (r : Replayed) (p : EventPage) (ps : List EventPage)
      → Follows server p ps
      → length ps < left
      → replay_pages server left r p ≡ (
          fold_events r.aggregates (all_events p ps) >>= λ agg.
          ok (replayed_page r (all_events p ps) agg))
  replay_pages-Follows zero r p ps h fits = absurd (omega arith)
  replay_pages-Follows (suc left) r p [] h fits = last_page left r p h
  replay_pages-Follows (suc left) r p (q ∷ ps) (some_events, answer, h) fits =
      let rest = all_events q ps in
      more_pages left r p q some_events answer
      ∙ bind_ext (fold_events r.aggregates p.events) _ _ (λ agg.
        replay_pages-Follows left (replayed_page r p.events agg) q ps h (omega (arith, fits))
        ∙ bind_ext (fold_events agg rest) _ _ (λ agg'.
          ap (λ l. ok (record { aggregates = agg'; last_processed_ledger = l }))
            (sym (last_ledger_of-append r.last_processed_ledger p.events rest))))
      ∙ sym (bind_assoc (fold_events r.aggregates p.events) (λ agg. fold_events agg rest) _)
      ∙ ap (λ f. f >>= λ agg. ok (replayed_page r (p.events ++ rest) agg))
          (sym (fold_events-append r.aggregates p.events rest))

  replay_pages-guard :
      (left : ℕ) (r : Replayed) (p : EventPage) (ps : List EventPage)
      → Follows server p ps
      → left ≤ length ps
      → (e : IndexerError) × (replay_pages server left r p ≡ err e)
  unfolding replay_pages
  replay_pages-guard zero r p ps h long =
      bind_fails (fold_events r.aggregates p.events) _ (λ agg. (pagination_guard, refl))
  replay_pages-guard (suc left) r p [] h long = absurd (omega arith)
  replay_pages-guard (suc left) r p (q ∷ ps) (some_events, answer, h) long =
      let (e, failed) =
        bind_fails (fold_events r.aggregates p.events)
          (λ agg. replay_pages server left (replayed_page r p.events agg) q)
          (λ agg.
            replay_pages-guard left (replayed_page r p.events agg) q ps h (omega (arith, long))) in
      (e, more_pages left r p q some_events answer ∙ failed)

module _ (window : Window) (server : Server) (onchain : OnChain) (prev : Option ProtocolStats)
    (latest : ℕ) (p : EventPage) (ps : List EventPage)
    (new : checkpoint_of window prev latest < latest)
    (first : fetch_events_from_range server
        (start_of window (checkpoint_of window prev latest) latest)
        latest
      ≡ ok p) where
  abbrev checkpoint : ℕ
  checkpoint = checkpoint_of window prev latest

  abbrev begin : Replayed
  begin = record { aggregates = empty_aggregates; last_processed_ledger = checkpoint }

  replay_lem : replay window server checkpoint latest ≡ replay_pages server 200 begin p
  unfolding replay
  replay_lem =
      let started : ltb checkpoint latest ≡ true = ground (arith, new) in rw (started, first) refl

-- A run over pages that the server keeps writes the row of all their events together, in order,
-- whatever the pages' ends, if they are at most two hundred with the empty one that ends them; the
-- row's ledger is that of the last event, or the checkpoint if that is later.
pub run_indexer-Follows :
    (window : Window) (server : Server) (onchain : OnChain) (prev : Option ProtocolStats)
    (latest : ℕ) (p : EventPage) (ps : List EventPage)
    → checkpoint_of window prev latest < latest
    → fetch_events_from_range server
        (start_of window (checkpoint_of window prev latest) latest)
        latest
      ≡ ok p
    → Follows server p ps
    → length ps < 200
    → run_indexer window server onchain prev latest ≡ (
        fold_events empty_aggregates (all_events p ps) >>= λ agg. ok (
          stats_row onchain (checkpoint_of window prev latest) (record {
            aggregates = agg;
            last_processed_ledger =
                last_ledger_of (checkpoint_of window prev latest) (all_events p ps);
          })))
unfolding run_indexer
run_indexer-Follows window server onchain prev latest p ps new first follows fits =
    let checkpoint' = checkpoint_of window prev latest in
    ap (λ r. r >>= λ r'. ok (stats_row onchain checkpoint' r'))
      (replay_lem window server onchain prev latest p ps new first
        ∙ replay_pages-Follows server 200 (begin window server onchain prev latest p ps new first) p
            ps follows fits)
    ∙ bind_assoc (fold_events empty_aggregates (all_events p ps)) _ _

-- A run that meets more than two hundred pages fails and writes no row, so that the next run starts
-- from the same checkpoint.
pub run_indexer-guard :
    (window : Window) (server : Server) (onchain : OnChain) (prev : Option ProtocolStats)
    (latest : ℕ) (p : EventPage) (ps : List EventPage)
    → checkpoint_of window prev latest < latest
    → fetch_events_from_range server
        (start_of window (checkpoint_of window prev latest) latest)
        latest
      ≡ ok p
    → Follows server p ps
    → 200 ≤ length ps
    → (e : IndexerError) × (run_indexer window server onchain prev latest ≡ err e)
unfolding run_indexer
run_indexer-guard window server onchain prev latest p ps new first follows long =
    let (e, failed) =
      replay_pages-guard server 200 (begin window server onchain prev latest p ps new first) p ps
        follows long in
    (
      e,
      ap (λ r. r >>= λ r'. ok (stats_row onchain (checkpoint_of window prev latest) r'))
          (replay_lem window server onchain prev latest p ps new first ∙ failed),
    )
