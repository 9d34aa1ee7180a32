-- ===== src/MockClient/Samples.antt =====
-- A small client of mock.ts, and arguments of its methods, for the tests.
use invofi.Prelude.{String, none, [], ◌∷◌, arith}
use invofi.Prelude.Int.{pos}
use invofi.Prelude.Text.{codes}
use invofi.Validation.{xlm}
use invofi.Validation.Address.{IsAddress}
use invofi.Validation.Ranges.{IsSymbol}
use invofi.Types.{InvoiceStatus, OfferStatus, Invoice, FinancingOffer}
use invofi.MockClient.Store.{State}
use invofi.MockClient.Registry.{RegisterInvoiceParams}
use invofi.MockClient.Financing.{CreateOfferParams}
use invofi.MockClient.Testing.{MockClientOptions}
use invofi.MockClient.Failures.{timed_rule}

abbrev pub originator : String
originator = "GA7QYNF7SOWQ3GLR2BGMZEHXAVIRZA4KVWLTJJFC7MGXUA74P7UJVSGZ"

abbrev pub lender : String
lender = "GCHVSUK5XKL44CSZ3WGI2W2OZCC7SXZMM5B34TCOQ2YNEGPNP3BLOVMT"

abbrev pub token : String
token = "CCV4OSLYRRMYTRMWH4GVWY2QGSFC5PV33KYQEMQF6DOQW3OXDAVBSHSY"

abbrev pub invoice_1 : Invoice
invoice_1 = record {
  id = "inv_1";
  originator = originator;
  amount = pos 1000;
  currency = xlm;
  due_date = pos 5000;
  status = InvoiceStatus.pending;
  created_at = none;
}

abbrev pub offer_1 : FinancingOffer
offer_1 = record {
  id = "off_1";
  invoice_id = "inv_1";
  lender = lender;
  amount = pos 1000;
  currency = xlm;
  interest_rate = pos 500;
  duration = pos 86400;
  amount_repaid = pos 40;
  status = OfferStatus.financed;
  funded_at = pos 900;
}

abbrev pub client : State
client = record {
  invoices = ("inv_1", invoice_1) ∷ [];
  offers = ("off_1", offer_1) ∷ [];
  balances = (lender, pos 60) ∷ (originator, pos 5) ∷ [];
  trustlines = [];
  events = [];
  ledger = 1000;
  tx_seq = 0;
  failures = [];
}

abbrev pub registering_params : RegisterInvoiceParams
registering_params = record { id = "inv_2"; amount = pos 7; currency = "USDC"; due_date = pos 99 }

abbrev pub offering_params : CreateOfferParams
offering_params = record {
  offer_id = "off_2";
  invoice_id = "inv_1";
  amount = pos 7;
  currency = "USDC";
  interest_rate = pos 10000;
  duration = pos 31536000;
}

pub originator-IsAddress : IsAddress (codes originator)
originator-IsAddress = ground arith

pub lender-IsAddress : IsAddress (codes lender)
lender-IsAddress = ground arith

pub token-IsAddress : IsAddress (codes token)
token-IsAddress = ground arith

pub inv_1-IsSymbol : IsSymbol (codes "inv_1")
inv_1-IsSymbol = ground arith

abbrev pub options : MockClientOptions
options = record {
  position_token_id = none;
  token_decimals = none;
  position_balance = none;
  failures = timed_rule "getOffer" none 2 ∷ [];
}
