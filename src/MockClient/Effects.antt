-- ===== src/MockClient/Effects.antt =====
-- What a method that returns has found, and the state that it leaves.
use invofi.Prelude.{ℕ, String, ◌≡◌, inl, inr, some, arith, eq_iff, Option-cases}
use invofi.Prelude.Int.{ℤ}
use invofi.Prelude.Map.{get, set}
use invofi.Prelude.Result.{ok}
use invofi.Types.{Invoice, FinancingOffer}
use invofi.MockClient.Store.{
  State, inject, require_invoice, require_offer, emit, logged, inv_cxl, off_acc, off_rej, inv_rep,
  inv_ovd, off_def,
}
use invofi.MockClient.Registry.{mock_registry_id, cancel_invoice, cancelled}
use invofi.MockClient.Financing.{
  mock_financing_id, accept_offer, accepted, financed, reject_offer, rejected,
}
use invofi.MockClient.Repayment.{
  mock_repayment_id, repay_invoice, credited, is_fully_repaid, settled_offer, settled_invoice,
  mark_overdue, overdue, reclaim_invoice, defaulted,
}

-- The state after the failure rules of `t` are left.
abbrev pub with_rules : State → State → State
with_rules s t = record s { failures = t.failures }

module _ (s : State) where
  -- `acceptOffer` returns only for the originator of the invoice that the offer is on. The offer is
  -- then accepted at the current second, the invoice is financed, and one event is logged; nothing
  -- else of the client's data changes.
  pub accept_offer_effect :
      (now : ℕ) (offer_id originator : String) (r : FinancingOffer)
      → (accept_offer now offer_id originator s).0 ≡ ok r
      → (offer : FinancingOffer) × (invoice : Invoice) × (get offer_id s.offers ≡ some offer)
        × (get offer.invoice_id s.invoices ≡ some invoice)
        × (invoice.originator ≡ originator)
        × (r ≡ accepted now offer)
        × ((accept_offer now offer_id originator s).1
            ≡ with_rules
                (logged offer.id mock_financing_id
                  (off_acc offer.invoice_id offer.lender offer.amount)
                  (record s {
                    offers = set offer_id (accepted now offer) s.offers;
                    invoices = set offer.invoice_id (financed invoice) s.invoices;
                  }))
                (accept_offer now offer_id originator s).1)
  unfolding accept_offer inject require_invoice require_offer emit
  accept_offer_effect now offer_id originator r h = elim (Option-cases (get offer_id s.offers)) [
    | inl e ↦ absurd (ground arith)
    | inr (offer, e) ↦ elim (Option-cases (get offer.invoice_id s.invoices)) [
      | inl e' ↦ absurd (ground arith)
      | inr (invoice, e') ↦ (
        offer,
        invoice,
        e,
        e',
        ground (arith, eq_iff invoice.originator originator),
        ground arith,
        ground arith,
      )
    ]
  ]

  -- `rejectOffer` returns only for the originator of the invoice that the offer is on; the offer is
  -- then rejected and one event is logged, and nothing else changes.
  pub reject_offer_effect :
      (offer_id originator : String) (r : FinancingOffer)
      → (reject_offer offer_id originator s).0 ≡ ok r
      → (offer : FinancingOffer) × (invoice : Invoice) × (get offer_id s.offers ≡ some offer)
        × (get offer.invoice_id s.invoices ≡ some invoice)
        × (invoice.originator ≡ originator)
        × (r ≡ rejected offer)
        × ((reject_offer offer_id originator s).1
            ≡ with_rules
                (logged offer.id mock_financing_id
                  (off_rej offer.invoice_id)
                  (record s { offers = set offer_id (rejected offer) s.offers }))
                (reject_offer offer_id originator s).1)
  unfolding reject_offer inject require_invoice require_offer emit
  reject_offer_effect offer_id originator r h = elim (Option-cases (get offer_id s.offers)) [
    | inl e ↦ absurd (ground arith)
    | inr (offer, e) ↦ elim (Option-cases (get offer.invoice_id s.invoices)) [
      | inl e' ↦ absurd (ground arith)
      | inr (invoice, e') ↦ (
        offer,
        invoice,
        e,
        e',
        ground (arith, eq_iff invoice.originator originator),
        ground arith,
        ground arith,
      )
    ]
  ]

  -- `cancelInvoice` returns only for the originator of a known invoice, which is then cancelled; one
  -- event is logged, and nothing else changes.
  pub cancel_invoice_effect :
      (invoice_id originator : String) (r : Invoice)
      → (cancel_invoice invoice_id originator s).0 ≡ ok r
      → (invoice : Invoice) × (get invoice_id s.invoices ≡ some invoice)
        × (invoice.originator ≡ originator)
        × (r ≡ cancelled invoice)
        × ((cancel_invoice invoice_id originator s).1
            ≡ with_rules
                (logged invoice.id mock_registry_id
                  (inv_cxl invoice.originator)
                  (record s { invoices = set invoice_id (cancelled invoice) s.invoices }))
                (cancel_invoice invoice_id originator s).1)
  unfolding cancel_invoice inject require_invoice emit
  cancel_invoice_effect invoice_id originator r h =
      elim (Option-cases (get invoice_id s.invoices)) [
        | inl e ↦ absurd (ground arith)
        | inr (invoice, e) ↦ (
          invoice,
          e,
          ground (arith, eq_iff invoice.originator originator),
          ground arith,
          ground arith,
        )
      ]

  -- `markOverdue` returns for any caller and a known invoice, which is then overdue; one event is
  -- logged, and nothing else changes.
  pub mark_overdue_effect :
      (invoice_id caller : String) (r : Invoice)
      → (mark_overdue invoice_id caller s).0 ≡ ok r
      → (invoice : Invoice) × (get invoice_id s.invoices ≡ some invoice)
        × (r ≡ overdue invoice)
        × ((mark_overdue invoice_id caller s).1
            ≡ with_rules
                (logged invoice.id mock_repayment_id
                  (inv_ovd invoice.due_date)
                  (record s { invoices = set invoice_id (overdue invoice) s.invoices }))
                (mark_overdue invoice_id caller s).1)
  unfolding mark_overdue inject require_invoice emit
  mark_overdue_effect invoice_id caller r h = elim (Option-cases (get invoice_id s.invoices)) [
    | inl e ↦ absurd (ground arith)
    | inr (invoice, e) ↦ (invoice, e, ground arith, ground arith)
  ]

  -- `repayInvoice` returns only for a known invoice and a known offer on that invoice. The payment
  -- is added to what the offer has been repaid, the offer and the invoice become repaid or financed
  -- by whether that covers the total due, and one event says which; nothing else changes.
  pub repay_invoice_effect :
      (invoice_id offer_id repayer : String) (amount : ℤ) (r : Invoice)
      → (repay_invoice invoice_id offer_id repayer amount s).0 ≡ ok r
      → (offer : FinancingOffer) × (invoice : Invoice) × (get offer_id s.offers ≡ some offer)
        × (get invoice_id s.invoices ≡ some invoice)
        × (offer.invoice_id ≡ invoice_id)
        × (r ≡ settled_invoice (is_fully_repaid (credited offer amount)) invoice)
        × ((repay_invoice invoice_id offer_id repayer amount s).1
            ≡ with_rules
                (logged invoice.id mock_repayment_id
                  (inv_rep offer_id amount (is_fully_repaid (credited offer amount)))
                  (record s {
                    offers = set offer_id (settled_offer offer amount) s.offers;
                    invoices =
                        set invoice_id
                          (settled_invoice (is_fully_repaid (credited offer amount)) invoice)
                          s.invoices;
                  }))
                (repay_invoice invoice_id offer_id repayer amount s).1)
  unfolding repay_invoice inject require_invoice require_offer emit
  repay_invoice_effect invoice_id offer_id repayer amount r h =
      elim (Option-cases (get offer_id s.offers)) [
        | inl e ↦ absurd (ground arith)
        | inr (offer, e) ↦ elim (Option-cases (get invoice_id s.invoices)) [
          | inl e' ↦ absurd (ground arith)
          | inr (invoice, e') ↦ (
            offer,
            invoice,
            e,
            e',
            ground (arith, eq_iff offer.invoice_id invoice_id),
            ground arith,
            ground arith,
          )
        ]
      ]

  -- `reclaimInvoice` returns only for the lender of a known offer, which is then defaulted; one
  -- event is logged, and nothing else changes, the invoice included.
  pub reclaim_invoice_effect :
      (invoice_id offer_id lender : String) (r : FinancingOffer)
      → (reclaim_invoice invoice_id offer_id lender s).0 ≡ ok r
      → (offer : FinancingOffer) × (get offer_id s.offers ≡ some offer)
        × (offer.lender ≡ lender)
        × (r ≡ defaulted offer)
        × ((reclaim_invoice invoice_id offer_id lender s).1
            ≡ with_rules
                (logged offer.invoice_id mock_repayment_id
                  (off_def offer.invoice_id offer.lender)
                  (record s { offers = set offer_id (defaulted offer) s.offers }))
                (reclaim_invoice invoice_id offer_id lender s).1)
  unfolding reclaim_invoice inject require_offer emit
  reclaim_invoice_effect invoice_id offer_id lender r h =
      elim (Option-cases (get offer_id s.offers)) [
        | inl e ↦ absurd (ground arith)
        | inr (offer, e) ↦
            (offer, e, ground (arith, eq_iff offer.lender lender), ground arith, ground arith)
      ]
