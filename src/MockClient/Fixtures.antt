-- ===== src/MockClient/Fixtures.antt =====
-- The seeded invoices and offers of mock.ts, over the anchor `now` (`NOW`, in seconds).
use invofi.Prelude.{ℕ, ◌+◌, ◌*◌, String, some, List, [], ◌∷◌, ◌==◌, if◌then◌else◌}
use invofi.Prelude.Int.{ℤ, pos, ◌-ℤ◌, ◌*ℤ◌}
use invofi.Validation.{Currency, xlm, usdc}
use invofi.Types.{InvoiceStatus, OfferStatus, Invoice, FinancingOffer}

abbrev pub mock_wallet_address : String
mock_wallet_address = "GCHVSUK5XKL44CSZ3WGI2W2OZCC7SXZMM5B34TCOQ2YNEGPNP3BLOVMT"

abbrev pub mock_business_a : String
mock_business_a = "GA7QYNF7SOWQ3GLR2BGMZEHXAVIRZA4KVWLTJJFC7MGXUA74P7UJVSGZ"

abbrev pub mock_business_b : String
mock_business_b = "GBDDLOWR6YUEEYUKFKS6ISTCLBQKDPUXAOVJMNJYAACT6UYQGEKYEVZR"

abbrev pub mock_business_c : String
mock_business_c = "GCCCCCCCCCCCCCCCCCCCCCCCCCCCCCCCCCCCCCCCCCCCCCCCCCCCCCCC"

abbrev pub mock_lender_b : String
mock_lender_b = "GLLLLLLLLLLLLLLLLLLLLLLLLLLLLLLLLLLLLLLLLLLLLLLLLLLLLLLL"

abbrev pub mock_position_token_id : String
mock_position_token_id = "CCV4OSLYRRMYTRMWH4GVWY2QGSFC5PV33KYQEMQF6DOQW3OXDAVBSHSY"

-- `xlm(n)`, in stroops.
abbrev pub units : ℕ → ℤ
units n = pos (n * 10000000)

-- `days(n)`; the source's `days(-n)` is `days_ago`.
abbrev days : ℕ → ℕ → ℤ
days now n = pos (now + n * 86400)

unfoldable pub days_ago : ℕ → ℕ → ℤ
days_ago now n = pos now -ℤ pos (n * 86400)

abbrev pub mock_position_balance : ℤ
mock_position_balance = units 55000

module _ (now : ℕ) where
  abbrev invoice_at : String → String → ℤ → Currency → ℤ → InvoiceStatus → ℕ → Invoice
  invoice_at id originator amount currency due_date status created_days_ago = record {
    id = id;
    originator = originator;
    amount = amount;
    currency = currency;
    due_date = due_date;
    status = status;
    created_at = some ((pos now -ℤ pos (created_days_ago * 86400)) *ℤ pos 1000);
  }

  unfoldable pub seed_invoices : List Invoice
  unfolding days_ago
  seed_invoices =
      invoice_at "inv_mock_p001" mock_business_a (units 10000) xlm (days now 30)
        InvoiceStatus.pending 6
      ∷ invoice_at "inv_mock_p002" mock_business_b (units 25000) xlm (days now 45)
          InvoiceStatus.pending 5
      ∷ invoice_at "inv_mock_p003" mock_business_a (units 5000) usdc (days now 20)
          InvoiceStatus.pending 4
      ∷ invoice_at "inv_mock_p004" mock_business_b (units 75000) xlm (days now 60)
          InvoiceStatus.pending 3
      ∷ invoice_at "inv_mock_p005" mock_business_c (units 120000) usdc (days now 90)
          InvoiceStatus.pending 2
      ∷ invoice_at "inv_mock_f001" mock_business_a (units 40000) xlm (days now 15)
          InvoiceStatus.financed 14
      ∷ invoice_at "inv_mock_f002" mock_business_b (units 18000) usdc (days now 10)
          InvoiceStatus.financed 12
      ∷ invoice_at "inv_mock_r001" mock_business_a (units 8000) xlm (days_ago now 5)
          InvoiceStatus.repaid 45
      ∷ invoice_at "inv_mock_r002" mock_business_b (units 12000) usdc (days_ago now 20)
          InvoiceStatus.repaid 40
      ∷ invoice_at "inv_mock_o001" mock_business_a (units 15000) xlm (days_ago now 3)
          InvoiceStatus.overdue 30
      ∷ invoice_at "inv_mock_c001" mock_business_b (units 6000) xlm (days now 14)
          InvoiceStatus.cancelled 18
      ∷ invoice_at "inv_mock_d001" mock_business_a (units 22000) usdc (days now 7)
          InvoiceStatus.disputed 9
      ∷ invoice_at "inv_mock_def001" mock_business_b (units 9000) xlm (days_ago now 30)
          InvoiceStatus.defaulted 60
      ∷ []

  abbrev offer_at :
      String → String → String → ℤ → Currency → ℕ → ℕ → OfferStatus → ℤ → ℕ → FinancingOffer
  offer_at id invoice_id lender amount currency rate duration_days status amount_repaid
        funded_days_ago =
      record {
        id = id;
        invoice_id = invoice_id;
        lender = lender;
        amount = amount;
        currency = currency;
        interest_rate = pos rate;
        duration = pos (duration_days * 86400);
        amount_repaid = amount_repaid;
        status = status;
        funded_at =
            if funded_days_ago == 0 then pos 0 else pos now -ℤ pos (funded_days_ago * 86400);
      }

  unfoldable pub seed_offers : List FinancingOffer
  seed_offers =
      offer_at "off_mock_001" "inv_mock_f001" mock_wallet_address (units 40000) xlm 500 30
        OfferStatus.financed (units 10000) 10
      ∷ offer_at "off_mock_002" "inv_mock_r001" mock_wallet_address (units 8000) xlm 450 45
          OfferStatus.repaid (units 8360) 40
      ∷ offer_at "off_mock_003" "inv_mock_p001" mock_wallet_address (units 10000) xlm 500 30
          OfferStatus.pending (pos 0) 0
      ∷ offer_at "off_mock_004" "inv_mock_o001" mock_wallet_address (units 15000) xlm 600 30
          OfferStatus.accepted (pos 0) 35
      ∷ offer_at "off_mock_005" "inv_mock_def001" mock_wallet_address (units 9000) xlm 550 30
          OfferStatus.defaulted (pos 0) 60
      ∷ offer_at "off_mock_006" "inv_mock_p002" mock_lender_b (units 25000) xlm 480 30
          OfferStatus.pending (pos 0) 0
      ∷ offer_at "off_mock_007" "inv_mock_f002" mock_lender_b (units 18000) usdc 520 30
          OfferStatus.financed (units 6000) 8
      ∷ offer_at "off_mock_008" "inv_mock_r002" mock_lender_b (units 12000) usdc 500 30
          OfferStatus.repaid (units 12500) 35
      ∷ []
