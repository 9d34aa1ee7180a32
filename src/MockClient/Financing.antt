-- ===== src/MockClient/Financing.antt =====
-- createOffer, getOffer, acceptOffer and rejectOffer.
use invofi.Prelude.{ℕ, ◌/◌, String, not, Option, str_eq}
use invofi.Prelude.Int.{ℤ, pos}
use invofi.Validation.{
  text, num, bigint, Currency, validate_stellar_address, validate_symbol_id, validate_positive_i128,
  validate_currency, validate_interest_rate, validate_duration,
}
use invofi.Types.{InvoiceStatus, OfferStatus, Invoice, FinancingOffer}
use invofi.MockClient.Store.{
  Call, ◌>>=◌, ◌>>◌, pure, throw_if, checked, check_optional, inject, emit, contract_error,
  unauthorized, already_exists, off_new, off_acc, off_rej, require_invoice, require_offer,
  put_invoice, put_offer, has_offer,
}

abbrev pub mock_financing_id : String
mock_financing_id = "CBGRA3457ZFXYZNEQLO4YGUQ3OBEWOE6US6ZREHKMOCKDLZYBO73IFVW"

pub record CreateOfferParams : Type 0 where
  pub offer_id : String
  pub invoice_id : String
  pub amount : ℤ
  pub currency : String
  pub interest_rate : ℤ
  pub duration : ℤ

abbrev pub new_offer : CreateOfferParams → String → Currency → FinancingOffer
new_offer params lender currency = record {
  id = params.offer_id;
  invoice_id = params.invoice_id;
  lender = lender;
  amount = params.amount;
  currency = currency;
  interest_rate = params.interest_rate;
  duration = params.duration;
  amount_repaid = pos 0;
  status = OfferStatus.pending;
  funded_at = pos 0;
}

unfoldable pub create_offer : CreateOfferParams → String → Call FinancingOffer
create_offer params lender = do
  checked (validate_stellar_address (text lender) "lenderAddress")
  checked (validate_symbol_id (text params.offer_id) "params.offerId")
  checked (validate_symbol_id (text params.invoice_id) "params.invoiceId")
  checked (validate_positive_i128 (bigint params.amount) "params.amount")
  currency ← checked (validate_currency (text params.currency) "params.currency")
  checked (validate_interest_rate (num params.interest_rate) "params.interestRate")
  checked (validate_duration (num params.duration) "params.duration")
  inject "createOffer"
  known ← has_offer params.offer_id
  throw_if known (contract_error (pos 7) already_exists)
  require_invoice params.invoice_id
  put_offer params.offer_id (new_offer params lender currency)
  emit params.offer_id mock_financing_id
      (off_new params.invoice_id lender params.amount params.interest_rate)
  pure (new_offer params lender currency)

unfoldable pub get_offer : String → Option String → Call FinancingOffer
get_offer id source_account = do
  checked (validate_symbol_id (text id) "id")
  check_optional source_account "sourceAccount"
  inject "getOffer"
  require_offer id

abbrev pub accepted : ℕ → FinancingOffer → FinancingOffer
accepted now_ms offer = record offer {
  status = OfferStatus.accepted;
  funded_at = pos (now_ms / 1000);
}

abbrev pub financed : Invoice → Invoice
financed invoice = record invoice { status = InvoiceStatus.financed }

unfoldable pub accept_offer : ℕ → String → String → Call FinancingOffer
accept_offer now_ms offer_id originator = do
  checked (validate_symbol_id (text offer_id) "offerId")
  checked (validate_stellar_address (text originator) "originatorAddress")
  inject "acceptOffer"
  offer ← require_offer offer_id
  invoice ← require_invoice offer.invoice_id
  throw_if (not (str_eq invoice.originator originator)) (contract_error (pos 1) unauthorized)
  put_offer offer_id (accepted now_ms offer)
  put_invoice offer.invoice_id (financed invoice)
  emit offer.id mock_financing_id (off_acc offer.invoice_id offer.lender offer.amount)
  pure (accepted now_ms offer)

abbrev pub rejected : FinancingOffer → FinancingOffer
rejected offer = record offer { status = OfferStatus.rejected }

unfoldable pub reject_offer : String → String → Call FinancingOffer
reject_offer offer_id originator = do
  checked (validate_symbol_id (text offer_id) "offerId")
  checked (validate_stellar_address (text originator) "originatorAddress")
  inject "rejectOffer"
  offer ← require_offer offer_id
  invoice ← require_invoice offer.invoice_id
  throw_if (not (str_eq invoice.originator originator)) (contract_error (pos 1) unauthorized)
  put_offer offer_id (rejected offer)
  emit offer.id mock_financing_id (off_rej offer.invoice_id)
  pure (rejected offer)
