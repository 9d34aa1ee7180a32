-- ===== src/Types.antt =====
-- invofi/apps/sdk/src/types.ts: the protocol's data. An amount is a bigint and a time is a number of
-- seconds, both integers; `created_at`, an ISO text in the source, is the instant in milliseconds.
use invofi.Prelude.{String, Option}
use invofi.Prelude.Int.{ℤ}
use invofi.Validation.{Currency}

pub data InvoiceStatus : Type 0 where
  pending financed repaid overdue cancelled disputed defaulted : InvoiceStatus

pub data OfferStatus : Type 0 where
  pending accepted financed rejected repaid defaulted : OfferStatus

pub record Invoice : Type 0 where
  pub id : String
  pub originator : String
  pub amount : ℤ
  pub currency : Currency
  pub due_date : ℤ
  pub status : InvoiceStatus
  pub created_at : Option ℤ

pub record FinancingOffer : Type 0 where
  pub id : String
  pub invoice_id : String
  pub lender : String
  pub amount : ℤ
  pub currency : Currency
  pub interest_rate : ℤ
  pub duration : ℤ
  pub amount_repaid : ℤ
  pub status : OfferStatus
  pub funded_at : ℤ
