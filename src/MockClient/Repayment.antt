-- ===== src/MockClient/Repayment.antt =====
-- repayInvoice, markOverdue and reclaimInvoice.
use invofi.Prelude.{String, Bool, not, str_eq, if◌then◌else◌}
use invofi.Prelude.Int.{ℤ, pos, ◌+ℤ◌, ◌*ℤ◌, ◌/ℤ◌, leb_ℤ}
use invofi.Validation.{
  text, bigint, validate_stellar_address, validate_symbol_id, validate_positive_i128,
}
use invofi.Types.{InvoiceStatus, OfferStatus, Invoice, FinancingOffer}
use invofi.MockClient.Store.{
  Call, ◌>>=◌, ◌>>◌, pure, throw_if, checked, inject, emit, contract_error, unauthorized,
  invalid_input, inv_rep, inv_ovd, off_def, require_invoice, require_offer, put_invoice, put_offer,
}

abbrev pub mock_repayment_id : String
mock_repayment_id = "CCDATW5GMVDOPK55Q4MLXV5SGA3VLXPD67ABLBNMMOCK6BLL2IZBUVEP"

-- `offer.amount + (offer.amount * BigInt(offer.interest_rate)) / 10_000n`
unfoldable pub total_due : FinancingOffer → ℤ
total_due offer = offer.amount +ℤ offer.amount *ℤ offer.interest_rate /ℤ 10000

-- The offer after `amount_repaid += amount`, and whether that covers what is due.
abbrev pub credited : FinancingOffer → ℤ → FinancingOffer
credited offer amount = record offer { amount_repaid = offer.amount_repaid +ℤ amount }

abbrev pub is_fully_repaid : FinancingOffer → Bool
is_fully_repaid offer = leb_ℤ (total_due offer) offer.amount_repaid

abbrev pub settled_offer : FinancingOffer → ℤ → FinancingOffer
settled_offer offer amount = record offer {
  amount_repaid = offer.amount_repaid +ℤ amount;
  status =
      if is_fully_repaid (credited offer amount) then OfferStatus.repaid else OfferStatus.financed;
}

abbrev pub settled_invoice : Bool → Invoice → Invoice
settled_invoice fully invoice = record invoice {
  status = if fully then InvoiceStatus.repaid else InvoiceStatus.financed;
}

unfoldable pub repay_invoice : String → String → String → ℤ → Call Invoice
repay_invoice invoice_id offer_id repayer amount = do
  checked (validate_symbol_id (text invoice_id) "invoiceId")
  checked (validate_symbol_id (text offer_id) "offerId")
  checked (validate_stellar_address (text repayer) "repayerAddress")
  checked (validate_positive_i128 (bigint amount) "amount")
  inject "repayInvoice"
  invoice ← require_invoice invoice_id
  offer ← require_offer offer_id
  throw_if (not (str_eq offer.invoice_id invoice_id)) (contract_error (pos 6) invalid_input)
  put_offer offer_id (settled_offer offer amount)
  put_invoice invoice_id (settled_invoice (is_fully_repaid (credited offer amount)) invoice)
  emit invoice.id mock_repayment_id
      (inv_rep offer_id amount (is_fully_repaid (credited offer amount)))
  pure (settled_invoice (is_fully_repaid (credited offer amount)) invoice)

abbrev pub overdue : Invoice → Invoice
overdue invoice = record invoice { status = InvoiceStatus.overdue }

unfoldable pub mark_overdue : String → String → Call Invoice
mark_overdue invoice_id caller = do
  checked (validate_symbol_id (text invoice_id) "invoiceId")
  checked (validate_stellar_address (text caller) "callerAddress")
  inject "markOverdue"
  invoice ← require_invoice invoice_id
  put_invoice invoice_id (overdue invoice)
  emit invoice.id mock_repayment_id (inv_ovd invoice.due_date)
  pure (overdue invoice)

abbrev pub defaulted : FinancingOffer → FinancingOffer
defaulted offer = record offer { status = OfferStatus.defaulted }

unfoldable pub reclaim_invoice : String → String → String → Call FinancingOffer
reclaim_invoice invoice_id offer_id lender = do
  checked (validate_symbol_id (text invoice_id) "invoiceId")
  checked (validate_symbol_id (text offer_id) "offerId")
  checked (validate_stellar_address (text lender) "lenderAddress")
  inject "reclaimInvoice"
  offer ← require_offer offer_id
  throw_if (not (str_eq offer.lender lender)) (contract_error (pos 1) unauthorized)
  put_offer offer_id (defaulted offer)
  emit offer.invoice_id mock_repayment_id (off_def offer.invoice_id offer.lender)
  pure (defaulted offer)
