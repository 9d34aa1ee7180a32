-- ===== src/MockClient/EffectTests.antt =====
-- Instances of the theorems on what the methods of mock.ts leave behind.
use invofi.Prelude.{◌≡◌, refl, true, false, some, arith, ◌↔◌, ◌≤◌}
use invofi.Prelude.Int.{pos, ◌+ℤ◌, ◌-ℤ◌, ◌*ℤ◌, ◌/ℤ◌}
use invofi.Prelude.Map.{get, set}
use invofi.Prelude.Result.{ok}
use invofi.Validation.{
  usdc, validate_symbol_id, symbol_re, validate_stellar_address, stellar_address_re,
  validate_positive_i128, validate_currency, validate_future_timestamp, validate_interest_rate,
  validate_duration,
}
use invofi.Validation.Decided.{a_usdc}
use invofi.Types.{InvoiceStatus, OfferStatus, Invoice, FinancingOffer}
use invofi.MockClient.Store.{inject, emit, require_invoice, require_offer, take_failure}
use invofi.MockClient.Registry.{register_invoice, new_invoice, cancel_invoice}
use invofi.MockClient.Financing.{create_offer, accept_offer, reject_offer}
use invofi.MockClient.Repayment.{
  total_due, settled_invoice, repay_invoice, mark_overdue, reclaim_invoice,
}
use invofi.MockClient.Tokens.{balance_of, transfer_position_token}
use invofi.MockClient.Testing.{fail_next}
use invofi.MockClient.Requests.{perform, perform_all}
use invofi.MockClient.Creation.{register_invoice_returns}
use invofi.MockClient.Acceptance.{
  MayAccept, AcceptedAs, accept_offer_iff, IsAccepted, accept_offer-IsAccepted,
}
use invofi.MockClient.Repayments.{repay_invoice_status, repay_invoice_split}
use invofi.MockClient.Samples.{
  originator, lender, invoice_1, offer_1, client, registering_params, originator-IsAddress,
}

accept_offer_iff_example :
    ((accept_offer 7000 "off_1" originator client).0
      ≡ ok (record offer_1 { status = OfferStatus.accepted; funded_at = pos 7 }))
    ↔ ((offer : FinancingOffer) × (invoice : Invoice) × MayAccept client "off_1" originator offer
          invoice
        × AcceptedAs client 7000 "off_1" originator offer
            (record offer_1 { status = OfferStatus.accepted; funded_at = pos 7 }))
accept_offer_iff_example =
    accept_offer_iff client 7000 "off_1" originator
      (record offer_1 { status = OfferStatus.accepted; funded_at = pos 7 })

accept_offer-IsAccepted_example :
    IsAccepted client 7000 "off_1" originator offer_1 invoice_1
      (accept_offer 7000 "off_1" originator client).1
unfolding take_failure get
accept_offer-IsAccepted_example =
    accept_offer-IsAccepted client 7000 "off_1" originator offer_1 invoice_1 (record {
      symbol = ground arith;
      address = originator-IsAddress;
      uninjected = refl;
      offered = refl;
      known = refl;
      owned = refl;
    })

register_invoice_returns_example :
    (register_invoice 7000 registering_params originator client).0
    ≡ ok (new_invoice 7000 registering_params originator usdc)
unfolding register_invoice create_offer repay_invoice accept_offer reject_offer cancel_invoice
    mark_overdue reclaim_invoice inject require_invoice require_offer emit take_failure get set
    validate_symbol_id symbol_re validate_stellar_address stellar_address_re validate_positive_i128
    validate_currency validate_future_timestamp validate_interest_rate validate_duration total_due
    ◌+ℤ◌ ◌-ℤ◌ ◌/ℤ◌ ◌*ℤ◌ balance_of transfer_position_token fail_next perform perform_all
register_invoice_returns_example =
    register_invoice_returns client 7000 registering_params originator usdc (record {
      address = originator-IsAddress;
      symbol = ground arith;
      positive = omega arith;
      named = a_usdc refl;
      future = omega arith;
      uninjected = refl;
      fresh = refl;
    })

repay_invoice_status_example :
    (after : FinancingOffer) × (get "off_1"
        (repay_invoice "inv_1" "off_1" lender (pos 1010) client).1.offers
      ≡ some after)
    × (after.amount_repaid ≡ pos 1050)
    × ((after.status ≡ OfferStatus.repaid) ↔ (1050 ≤ 1050))
    × ((InvoiceStatus.repaid ≡ InvoiceStatus.repaid) ↔ (1050 ≤ 1050))
unfolding register_invoice create_offer repay_invoice accept_offer reject_offer cancel_invoice
    mark_overdue reclaim_invoice inject require_invoice require_offer emit take_failure get set
    validate_symbol_id symbol_re validate_stellar_address stellar_address_re validate_positive_i128
    validate_currency validate_future_timestamp validate_interest_rate validate_duration total_due
    ◌+ℤ◌ ◌-ℤ◌ ◌/ℤ◌ ◌*ℤ◌ balance_of transfer_position_token fail_next perform perform_all
repay_invoice_status_example =
    repay_invoice_status "inv_1" "off_1" lender client offer_1 1000 500 40 1010
      (settled_invoice true invoice_1) refl refl refl refl refl

repay_invoice_split_example :
    let t =
      (repay_invoice "inv_1" "off_1" originator
        (pos 1000)
        (repay_invoice "inv_1" "off_1" lender (pos 10) client).1).1 in
    let u = (repay_invoice "inv_1" "off_1" lender (pos 1010) client).1 in
    (t.offers ≡ u.offers)
    × (t.invoices ≡ u.invoices)
    × (settled_invoice true invoice_1 ≡ settled_invoice true invoice_1)
unfolding register_invoice create_offer repay_invoice accept_offer reject_offer cancel_invoice
    mark_overdue reclaim_invoice inject require_invoice require_offer emit take_failure get set
    validate_symbol_id symbol_re validate_stellar_address stellar_address_re validate_positive_i128
    validate_currency validate_future_timestamp validate_interest_rate validate_duration total_due
    ◌+ℤ◌ ◌-ℤ◌ ◌/ℤ◌ ◌*ℤ◌ balance_of transfer_position_token fail_next perform perform_all
repay_invoice_split_example =
    repay_invoice_split "inv_1" "off_1" lender originator lender (pos 10) (pos 1000) client
      (settled_invoice false invoice_1) (settled_invoice true invoice_1)
      (settled_invoice true invoice_1) refl refl refl
