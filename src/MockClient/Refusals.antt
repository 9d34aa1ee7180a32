-- ===== src/MockClient/Refusals.antt =====
-- Who is refused: the methods that only the originator or the lender may call, and unknown ids.
use invofi.Prelude.{ℕ, String, ◌≡◌, ◌≢◌, some, [], arith, eq_iff}
use invofi.Prelude.Int.{pos}
use invofi.Prelude.Map.{get}
use invofi.Prelude.Text.{codes}
use invofi.Prelude.Result.{err}
use invofi.Validation.Address.{IsAddress}
use invofi.Validation.Ranges.{IsSymbol}
use invofi.Validation.Decided.{IsAddress-decided, IsSymbol-decided}
use invofi.Types.{Invoice, FinancingOffer}
use invofi.MockClient.Store.{
  State, inject, require_invoice, require_offer, emit, take_failure, contract_error, unauthorized,
}
use invofi.MockClient.Financing.{accept_offer, reject_offer}
use invofi.MockClient.Repayment.{reclaim_invoice}

module _ (s : State) (stranger : String) (address : IsAddress (codes stranger))
    (uninjected : s.failures ≡ []) where
  -- With valid arguments and no failure rules, a caller who is not the originator of the invoice
  -- that an offer is on can neither accept nor reject the offer: both calls throw UNAUTHORIZED.
  pub offer_stranger :
      (now : ℕ) (offer_id : String) (offer : FinancingOffer) (invoice : Invoice)
      → IsSymbol (codes offer_id)
      → get offer_id s.offers ≡ some offer
      → get offer.invoice_id s.invoices ≡ some invoice
      → invoice.originator ≢ stranger
      → ((accept_offer now offer_id stranger s).0 ≡ err (contract_error (pos 1) unauthorized))
        × ((reject_offer offer_id stranger s).0 ≡ err (contract_error (pos 1) unauthorized))
  unfolding accept_offer reject_offer inject require_offer require_invoice emit take_failure
  offer_stranger now offer_id offer invoice symbol eo ei ne =
      let a = IsAddress-decided stranger "originatorAddress" in
      let b = IsSymbol-decided offer_id "offerId" in
      (
        ground (arith, a, b, eq_iff invoice.originator stranger),
        ground (arith, a, b, eq_iff invoice.originator stranger),
      )

  -- With valid arguments and no failure rules, a caller who is not the lender of an offer cannot
  -- reclaim it: the call throws UNAUTHORIZED.
  pub reclaim_stranger :
      (invoice_id offer_id : String) (offer : FinancingOffer)
      → IsSymbol (codes invoice_id)
      → IsSymbol (codes offer_id)
      → get offer_id s.offers ≡ some offer
      → offer.lender ≢ stranger
      → (reclaim_invoice invoice_id offer_id stranger s).0
        ≡ err (contract_error (pos 1) unauthorized)
  unfolding reclaim_invoice inject require_offer emit take_failure
  reclaim_stranger invoice_id offer_id offer symbol symbol' e ne = ground (
    arith,
    IsAddress-decided stranger "lenderAddress",
    IsSymbol-decided invoice_id "invoiceId",
    IsSymbol-decided offer_id "offerId",
    eq_iff offer.lender stranger,
  )

-- `reclaimInvoice` never looks at the invoice that it is given: any two valid invoice ids, known or
-- not and financed by the offer or not, give the same result and the same state.
pub reclaim_invoice_any :
    (i j offer_id lender : String) (s : State)
    → IsSymbol (codes i)
    → IsSymbol (codes j)
    → reclaim_invoice i offer_id lender s ≡ reclaim_invoice j offer_id lender s
unfolding reclaim_invoice
reclaim_invoice_any i j offer_id lender s hi hj =
    ground (arith, IsSymbol-decided i "invoiceId", IsSymbol-decided j "invoiceId")
