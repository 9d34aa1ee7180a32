-- ===== src/MockClient/Acceptance.antt =====
-- When an offer is accepted, and what the client then tells.
use invofi.Prelude.{
  ℕ, ◌/◌, String, ◌≡◌, ◌≢◌, ◌↔◌, sym, ap, ◌∙◌, none, some, length, length-append, ◌+◌, arith,
  eq_iff,
}
use mathlib.Core.Path.{subst₂}
use invofi.Prelude.Int.{pos}
use invofi.Prelude.Map.{get, get-set_self, get-set_ne}
use invofi.Prelude.Text.{codes}
use invofi.Prelude.Result.{ok}
use invofi.Validation.Address.{IsAddress}
use invofi.Validation.Ranges.{IsSymbol}
use invofi.Validation.Decided.{IsAddress-decided, IsSymbol-decided}
use invofi.Types.{InvoiceStatus, OfferStatus, Invoice, FinancingOffer}
use invofi.MockClient.Store.{State, inject, require_invoice, require_offer, emit, take_failure}
use invofi.MockClient.Financing.{accept_offer}
use invofi.MockClient.Effects.{accept_offer_effect}

-- What `acceptOffer` asks of its arguments and of the client.
pub record MayAccept (s : State) (offer_id originator : String) (offer : FinancingOffer)
    (invoice : Invoice) : Type 0 where
  pub symbol : IsSymbol (codes offer_id)
  pub address : IsAddress (codes originator)
  pub uninjected : (take_failure "acceptOffer" s.failures).0 ≡ none
  pub offered : get offer_id s.offers ≡ some offer
  pub known : get offer.invoice_id s.invoices ≡ some invoice
  pub owned : invoice.originator ≡ originator

module _ (s : State) (now : ℕ) (offer_id originator : String) where
  abbrev pub AcceptedAs : FinancingOffer → FinancingOffer → Type 0
  AcceptedAs offer r =
      r ≡ record offer { status = OfferStatus.accepted; funded_at = pos (now / 1000) }

  accept_offer_returns :
      (offer : FinancingOffer) (invoice : Invoice)
      → MayAccept s offer_id originator offer invoice
      → (accept_offer now offer_id originator s).0
        ≡ ok (record offer { status = OfferStatus.accepted; funded_at = pos (now / 1000) })
  unfolding accept_offer inject require_invoice require_offer emit
  accept_offer_returns offer invoice m = ground (
    arith,
    IsSymbol-decided offer_id "offerId",
    IsAddress-decided originator "originatorAddress",
    eq_iff invoice.originator originator,
    m.uninjected,
    m.offered,
    m.known,
    m.owned,
  )

  accept_offer_asks :
      (r : FinancingOffer)
      → (accept_offer now offer_id originator s).0 ≡ ok r
      → (offer : FinancingOffer) × (invoice : Invoice) × MayAccept s offer_id originator offer
          invoice
        × AcceptedAs offer r
  unfolding accept_offer inject require_invoice require_offer emit
  accept_offer_asks r h =
      let (offer, invoice, offered, known, owned, same, _) =
        accept_offer_effect s now offer_id originator r h in
      (
        offer,
        invoice,
        record {
          symbol = ground (arith, IsSymbol-decided offer_id "offerId");
          address = ground (arith, IsAddress-decided originator "originatorAddress");
          uninjected = ground arith;
          offered = offered;
          known = known;
          owned = owned;
        },
        same,
      )

  -- `acceptOffer` returns an offer exactly if the id is a symbol and the originator an address, no
  -- failure is injected, the offer and its invoice are known and the originator is the invoice's. It
  -- is then the stored offer, accepted at the current second.
  pub accept_offer_iff :
      (r : FinancingOffer)
      → ((accept_offer now offer_id originator s).0 ≡ ok r) ↔ (
          (offer : FinancingOffer) × (invoice : Invoice) × MayAccept s offer_id originator offer
            invoice
          × AcceptedAs offer r)
  accept_offer_iff r = (
    accept_offer_asks r,
    λ h.
        let (offer, invoice, m, same) = h in
        accept_offer_returns offer invoice m ∙ ap ok (sym same),
  )

  -- What an accepted offer leaves of the state.
  abbrev pub IsAccepted : FinancingOffer → Invoice → State → Type 0
  IsAccepted offer invoice t =
      (get offer_id t.offers
        ≡ some (record offer { status = OfferStatus.accepted; funded_at = pos (now / 1000) }))
      × (get offer.invoice_id t.invoices
          ≡ some (record invoice { status = InvoiceStatus.financed }))
      × ((other : String) → offer_id ≢ other → get other t.offers ≡ get other s.offers)
      × ((other : String) → offer.invoice_id ≢ other → get other t.invoices ≡ get other s.invoices)
      × (t.balances ≡ s.balances)
      × (length t.events ≡ length s.events + 1)

  -- After an offer is accepted, the client has it accepted at the current second, and its invoice
  -- financed. Every other offer and invoice, and the balances, are as they were, and there is one
  -- event more.
  pub accept_offer-IsAccepted :
      (offer : FinancingOffer) (invoice : Invoice)
      → MayAccept s offer_id originator offer invoice
      → IsAccepted offer invoice (accept_offer now offer_id originator s).1
  accept_offer-IsAccepted offer invoice m =
      let t = (accept_offer now offer_id originator s).1 in
      let (o, i, eo, ei, _, same, final) =
        accept_offer_effect s now offer_id originator _ (accept_offer_returns offer invoice m) in
      let found : o ≡ offer = let e : some o ≡ some offer = sym eo ∙ m.offered in cc in
      let id : o.invoice_id ≡ offer.invoice_id = ap (λ (x : FinancingOffer). x.invoice_id) found in
      let owned : i ≡ invoice = cc in
      let offers = ap (λ (t : State). t.offers) final in
      let invoices = ap (λ (t : State). t.invoices) final in
      subst₂ (λ x y. IsAccepted x y t) found owned
        (
          ap (get offer_id) offers ∙ get-set_self offer_id _ s.offers,
          ap (get o.invoice_id) invoices ∙ get-set_self o.invoice_id _ s.invoices,
          (λ other ne. ap (get other) offers ∙ get-set_ne offer_id other _ s.offers ne),
          (λ other ne. ap (get other) invoices ∙ get-set_ne o.invoice_id other _ s.invoices ne),
          ap (λ (t : State). t.balances) final,
          ap (λ (t : State). length t.events) final ∙ length-append s.events _,
        )
