-- ===== src/MockClient/Creation.antt =====
-- When an invoice or an offer is created, and what is stored.
use invofi.Prelude.{ℕ, ◌/◌, String, ◌≡◌, ◌≢◌, inl, inr, none, arith}
use invofi.Prelude.Int.{pos, ◌≤ℤ◌, ◌<ℤ◌}
use invofi.Prelude.Map.{get, set}
use invofi.Prelude.Text.{codes}
use invofi.Prelude.Result.{ok}
use invofi.Validation.{Currency}
use invofi.Validation.Address.{IsAddress}
use invofi.Validation.Ranges.{IsSymbol}
use invofi.Validation.Decided.{
  Names, IsAddress-decided, IsSymbol-decided, amount_decided, rate_decided, duration_decided,
  due_date_decided, currency_decided, Names-validates,
}
use invofi.Types.{Invoice, FinancingOffer}
use invofi.MockClient.Store.{
  State, inject, require_invoice, emit, logged, inv_reg, off_new, take_failure,
}
use invofi.MockClient.Registry.{
  mock_registry_id, RegisterInvoiceParams, register_invoice, new_invoice,
}
use invofi.MockClient.Financing.{mock_financing_id, CreateOfferParams, create_offer, new_offer}
use invofi.MockClient.Effects.{with_rules}

-- What `registerInvoice` asks of its arguments and of the client.
pub record MayRegister (s : State) (now : ℕ) (params : RegisterInvoiceParams) (originator : String)
    (currency : Currency) : Type 0 where
  pub address : IsAddress (codes originator)
  pub symbol : IsSymbol (codes params.id)
  pub positive : pos 1 ≤ℤ params.amount
  pub named : Names params.currency currency
  pub future : pos (now / 1000) <ℤ params.due_date
  pub uninjected : (take_failure "registerInvoice" s.failures).0 ≡ none
  pub fresh : get params.id s.invoices ≡ none

-- What `createOffer` asks.
pub record MayOffer (s : State) (params : CreateOfferParams) (lender : String) (currency : Currency)
    : Type 0 where
  pub address : IsAddress (codes lender)
  pub symbol : IsSymbol (codes params.offer_id)
  pub invoice_symbol : IsSymbol (codes params.invoice_id)
  pub positive : pos 1 ≤ℤ params.amount
  pub named : Names params.currency currency
  pub rate : (pos 1 ≤ℤ params.interest_rate) × (params.interest_rate ≤ℤ pos 10000)
  pub duration : (pos 1 ≤ℤ params.duration) × (params.duration ≤ℤ pos 31536000)
  pub uninjected : (take_failure "createOffer" s.failures).0 ≡ none
  pub fresh : get params.offer_id s.offers ≡ none
  pub known : get params.invoice_id s.invoices ≢ none

module _ (s : State) where
  -- If `registerInvoice` returns, its arguments are valid, no failure was injected and the id was
  -- free; the new pending invoice is returned and stored under its id, one event is logged, and
  -- nothing else changes.
  pub register_invoice_effect :
      (now : ℕ) (params : RegisterInvoiceParams) (originator : String) (r : Invoice)
      → (register_invoice now params originator s).0 ≡ ok r
      → (currency : Currency) × MayRegister s now params originator currency
        × (r ≡ new_invoice now params originator currency)
        × ((register_invoice now params originator s).1
            ≡ with_rules
                (logged params.id mock_registry_id
                  (inv_reg originator params.amount params.due_date)
                  (record s { invoices = set params.id r s.invoices }))
                (register_invoice now params originator s).1)
  unfolding register_invoice inject emit
  register_invoice_effect now params originator r h =
      elim (currency_decided params.currency "params.currency") [
        | inl (c, e, n) ↦ (
          c,
          record {
            address = ground (arith, IsAddress-decided originator "originatorAddress");
            symbol = ground (arith, IsSymbol-decided params.id "params.id");
            positive = ground (arith, amount_decided params.amount "params.amount");
            named = n;
            future = ground (arith, due_date_decided now params.due_date "params.dueDate");
            uninjected = ground arith;
            fresh = ground arith;
          },
          ground arith,
          ground arith,
        )
        | inr (e, _, _) ↦ absurd (ground arith)
      ]

  -- If the arguments are valid, no failure is injected and the id is free, `registerInvoice`
  -- returns the new invoice.
  pub register_invoice_returns :
      (now : ℕ) (params : RegisterInvoiceParams) (originator : String) (currency : Currency)
      → MayRegister s now params originator currency
      → (register_invoice now params originator s).0
        ≡ ok (new_invoice now params originator currency)
  unfolding register_invoice inject emit
  register_invoice_returns now params originator currency m = ground (
    arith,
    IsAddress-decided originator "originatorAddress",
    IsSymbol-decided params.id "params.id",
    amount_decided params.amount "params.amount",
    Names-validates params.currency "params.currency" currency m.named,
    due_date_decided now params.due_date "params.dueDate",
  )

  -- If `createOffer` returns, its arguments are valid, no failure was injected, the id was free and
  -- the invoice is known; the new pending offer is returned and stored under its id, one event is
  -- logged, and nothing else changes.
  pub create_offer_effect :
      (params : CreateOfferParams) (lender : String) (r : FinancingOffer)
      → (create_offer params lender s).0 ≡ ok r
      → (currency : Currency) × MayOffer s params lender currency
        × (r ≡ new_offer params lender currency)
        × ((create_offer params lender s).1
            ≡ with_rules
                (logged params.offer_id mock_financing_id
                  (off_new params.invoice_id lender params.amount params.interest_rate)
                  (record s { offers = set params.offer_id r s.offers }))
                (create_offer params lender s).1)
  unfolding create_offer inject emit require_invoice
  create_offer_effect params lender r h =
      elim (currency_decided params.currency "params.currency") [
        | inl (c, e, n) ↦ (
          c,
          record {
            address = ground (arith, IsAddress-decided lender "lenderAddress");
            symbol = ground (arith, IsSymbol-decided params.offer_id "params.offerId");
            invoice_symbol = ground (arith, IsSymbol-decided params.invoice_id "params.invoiceId");
            positive = ground (arith, amount_decided params.amount "params.amount");
            named = n;
            rate = ground (arith, rate_decided params.interest_rate "params.interestRate");
            duration = ground (arith, duration_decided params.duration "params.duration");
            uninjected = ground arith;
            fresh = ground arith;
            known = ground arith;
          },
          ground arith,
          ground arith,
        )
        | inr (e, _, _) ↦ absurd (ground arith)
      ]

  -- If the arguments are valid, no failure is injected, the id is free and the invoice is known,
  -- `createOffer` returns the new offer.
  pub create_offer_returns :
      (params : CreateOfferParams) (lender : String) (currency : Currency)
      → MayOffer s params lender currency
      → (create_offer params lender s).0 ≡ ok (new_offer params lender currency)
  unfolding create_offer inject emit require_invoice
  create_offer_returns params lender currency m = ground (
    arith,
    IsAddress-decided lender "lenderAddress",
    IsSymbol-decided params.offer_id "params.offerId",
    IsSymbol-decided params.invoice_id "params.invoiceId",
    amount_decided params.amount "params.amount",
    Names-validates params.currency "params.currency" currency m.named,
    rate_decided params.interest_rate "params.interestRate",
    duration_decided params.duration "params.duration",
  )
