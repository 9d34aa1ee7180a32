-- ===== src/Keeper/Clock.antt =====
-- When the readings of the clock during a poll make no difference.
use invofi.Prelude.{
  ℕ, String, ◌≡◌, refl, ap, ◌∙◌, Option, none, some, List, [], ◌∷◌, str_eq, Bool-cases, inl, inr,
}
use invofi.Prelude.Int.{pos, ltb_ℤ}
use invofi.Prelude.Result.{Result, ok, err}
use invofi.Keeper.{
  Failure, Task, return, after, Chain, InvoiceDetails, Simulated, recover, value, sim_error,
  no_value, now_secs, bump_ttl, fetch_invoice_details,
}
use invofi.Keeper.Events.{
  inv_reg, off_acc, off_def, EventType, ParsedEvent, process_registered, Counts, add_counts, one_if,
  due_of, mark_fetched, process_accepted, process_event, process_loop,
}
use invofi.Keeper.Tasks.{after_ext, after_on}

-- No invoice that is fetched falls due between two readings of the clock, or between `now` and one: its
-- due date is past at all of them, or at none.
abbrev pub NoneFallsDue : {W S N X : Type 0} → Chain W S N X → ℕ → Type 0
NoneFallsDue {W} chain now =
    (v w w' : W) (id : String) (inv : InvoiceDetails)
    → chain.get_invoice id w ≡ (ok (value inv), w')
    → ltb_ℤ (due_of inv) (pos (now_secs chain v)) ≡ ltb_ℤ (due_of inv) (pos now)

module _ {W S N X : Type 0} (chain : Chain W S N X) where
  fetched_lem :
      (id : String) (w w' : W) (inv : InvoiceDetails)
      → fetch_invoice_details chain id w ≡ (ok (some inv), w')
      → chain.get_invoice id w ≡ (ok (value inv), w')
  unfolding fetch_invoice_details
  fetched_lem id w w' inv h = answered (chain.get_invoice id w) h
    where
      answered :
          (r : Result Failure (Simulated InvoiceDetails) × W)
          → recover none (
              after r (λ sim. elim sim [
                | sim_error ↦ return none
                | no_value ↦ return none
                | value invoice ↦ return (some invoice)
              ]))
            ≡ (ok (some inv), w')
          → r ≡ (ok (value inv), w')
      answered (ok sim_error, u) e = cc
      answered (ok no_value, u) e = cc
      answered (ok (value invoice), u) e = cc
      answered (err x, u) e = cc

  module _ (now : ℕ) (clock : NoneFallsDue chain now) (v : W) where
    mark_fetched-eq :
        (id : String) (fetched : Option InvoiceDetails) (w w' : W)
        → fetch_invoice_details chain id w ≡ (ok fetched, w')
        → mark_fetched chain (now_secs chain v) id fetched w' ≡ mark_fetched chain now id fetched w'
    mark_fetched-eq id none w w' h = refl
    mark_fetched-eq id (some inv) w w' h = rw (clock v w w' id inv (fetched_lem id w w' inv h)) refl

    process_accepted-eq :
        (id : String) (w : W)
        → process_accepted chain (now_secs chain v) id w ≡ process_accepted chain now id w
    unfolding process_accepted
    process_accepted-eq id w = after_ext (bump_ttl chain id w) _ _ (λ bumped w'.
        after_on (fetch_invoice_details chain id w') _ _ (λ fetched w'' e.
          ap
            (λ r. after r (λ marked. return (record {
              processed = 1;
              ttl_bumps = one_if bumped;
              marked_overdue = one_if marked;
            })))
            (mark_fetched-eq id fetched w' w'' e)))

    process_event-eq :
        (event : ParsedEvent N) (w : W)
        → process_event chain (now_secs chain v) event w ≡ process_event chain now event w
    unfolding process_event
    process_event-eq event w = elim (Bool-cases (str_eq event.invoice_id "")) [
      | inl empty ↦ rw (process_event, empty) refl
      | inr named ↦ rw (process_event, named) (of_type event.event_type)
    ]
      where
        of_type :
            (t : EventType)
            → (elim t as (λ _. Task W Counts) [
              | inv_reg ↦ process_registered chain event.invoice_id
              | off_acc ↦ process_accepted chain (now_secs chain v) event.invoice_id
              | off_def ↦ return (record { processed = 1; ttl_bumps = 0; marked_overdue = 0 })
            ])
                w
              ≡ (elim t as (λ _. Task W Counts) [
                | inv_reg ↦ process_registered chain event.invoice_id
                | off_acc ↦ process_accepted chain now event.invoice_id
                | off_def ↦ return (record { processed = 1; ttl_bumps = 0; marked_overdue = 0 })
              ])
                  w
        of_type inv_reg = refl
        of_type off_acc = process_accepted-eq event.invoice_id w
        of_type off_def = refl

    pub process_loop-eq :
        (events : List (ParsedEvent N)) (counts : Counts) (w : W)
        → process_loop chain (now_secs chain v) events counts w
          ≡ process_loop chain now events counts w
    unfolding process_loop
    process_loop-eq [] counts w = refl
    process_loop-eq (event ∷ events) counts w =
        ap
          (λ r.
            after r (λ more. process_loop chain (now_secs chain v) events (add_counts counts more)))
          (process_event-eq event w)
        ∙ after_ext (process_event chain now event w) _ _
            (λ more w'. process_loop-eq events (add_counts counts more) w')
