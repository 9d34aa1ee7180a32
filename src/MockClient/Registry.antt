-- ===== src/MockClient/Registry.antt =====
-- registerInvoice, getInvoice and cancelInvoice.
use invofi.Prelude.{ℕ, String, not, Option, some, str_eq}
use invofi.Prelude.Int.{ℤ, pos}
use invofi.Validation.{
  text, num, bigint, Currency, validate_stellar_address, validate_symbol_id, validate_positive_i128,
  validate_currency, validate_future_timestamp,
}
use invofi.Types.{InvoiceStatus, Invoice}
use invofi.MockClient.Store.{
  Call, ◌>>=◌, ◌>>◌, pure, throw_if, checked, check_optional, inject, emit, contract_error,
  unauthorized, already_exists, inv_reg, inv_cxl, require_invoice, put_invoice, has_invoice,
}

abbrev pub mock_registry_id : String
mock_registry_id = "CAXNTWSKDVSB3GPJMU3RTSDTAIFF4A6FFRAAI35BMOCKLZLLI4VXMCF7"

pub record RegisterInvoiceParams : Type 0 where
  pub id : String
  pub amount : ℤ
  pub currency : String
  pub due_date : ℤ

abbrev pub new_invoice : ℕ → RegisterInvoiceParams → String → Currency → Invoice
new_invoice now_ms params originator currency = record {
  id = params.id;
  originator = originator;
  amount = params.amount;
  currency = currency;
  due_date = params.due_date;
  status = InvoiceStatus.pending;
  created_at = some (pos now_ms);
}

-- `now_ms` is `Date.now()`, which a call reads once.
unfoldable pub register_invoice : ℕ → RegisterInvoiceParams → String → Call Invoice
register_invoice now_ms params originator = do
  checked (validate_stellar_address (text originator) "originatorAddress")
  checked (validate_symbol_id (text params.id) "params.id")
  checked (validate_positive_i128 (bigint params.amount) "params.amount")
  currency ← checked (validate_currency (text params.currency) "params.currency")
  checked (validate_future_timestamp now_ms (num params.due_date) "params.dueDate")
  inject "registerInvoice"
  known ← has_invoice params.id
  throw_if known (contract_error (pos 7) already_exists)
  put_invoice params.id (new_invoice now_ms params originator currency)
  emit params.id mock_registry_id (inv_reg originator params.amount params.due_date)
  pure (new_invoice now_ms params originator currency)

unfoldable pub get_invoice : String → Option String → Call Invoice
get_invoice id source_account = do
  checked (validate_symbol_id (text id) "id")
  check_optional source_account "sourceAccount"
  inject "getInvoice"
  require_invoice id

abbrev pub cancelled : Invoice → Invoice
cancelled invoice = record invoice { status = InvoiceStatus.cancelled }

unfoldable pub cancel_invoice : String → String → Call Invoice
cancel_invoice invoice_id originator = do
  checked (validate_symbol_id (text invoice_id) "invoiceId")
  checked (validate_stellar_address (text originator) "originatorAddress")
  inject "cancelInvoice"
  invoice ← require_invoice invoice_id
  throw_if (not (str_eq invoice.originator originator)) (contract_error (pos 1) unauthorized)
  put_invoice invoice_id (cancelled invoice)
  emit invoice.id mock_registry_id (inv_cxl invoice.originator)
  pure (cancelled invoice)
