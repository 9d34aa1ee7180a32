-- ===== src/MockClient/Testing.antt =====
-- `createMockClient` itself, and the testing surface that it attaches.
use invofi.Prelude.{ℕ, String, Option, none, some, List, [], ◌∷◌, ◌++◌}
use invofi.Prelude.Int.{ℤ, pos}
use invofi.Prelude.Map.{Map, set}
use invofi.Validation.{text, validate_stellar_address}
use invofi.Types.{Invoice, FinancingOffer}
use invofi.MockClient.Store.{State, FailureRule, Thrown, Call, ◌>>◌, pure, checked, modify}
use invofi.MockClient.Fixtures.{
  mock_wallet_address, mock_position_balance, mock_position_token_id, seed_invoices, seed_offers,
}
use invofi.MockClient.Tokens.{balance_of}

-- The options that the model reads; `positionTokenAsset` is ignored by the source.
pub record MockClientOptions : Type 0 where
  pub position_token_id : Option String
  pub token_decimals : Option ℤ
  pub position_balance : Option ℤ
  pub failures : List FailureRule

abbrev pub or_default {ℓ} : {A : Type ℓ} → Option A → A → A
or_default none d = d
or_default (some a) d = a

abbrev pub token_id_of : MockClientOptions → String
token_id_of options = or_default options.position_token_id mock_position_token_id

abbrev pub decimals_of : MockClientOptions → ℤ
decimals_of options = or_default options.token_decimals (pos 7)

unfoldable pub by_invoice_id : List Invoice → Map Invoice → Map Invoice
by_invoice_id [] m = m
by_invoice_id (invoice ∷ more) m = by_invoice_id more (set invoice.id invoice m)

unfoldable pub by_offer_id : List FinancingOffer → Map FinancingOffer → Map FinancingOffer
by_offer_id [] m = m
by_offer_id (offer ∷ more) m = by_offer_id more (set offer.id offer m)

-- The state of a new client; `now` is the anchor of the fixtures, in seconds.
unfoldable pub create_mock_client : ℕ → MockClientOptions → State
unfolding seed_invoices seed_offers by_invoice_id by_offer_id
create_mock_client now options = record {
  invoices = by_invoice_id (seed_invoices now) [];
  offers = by_offer_id (seed_offers now) [];
  balances = (mock_wallet_address, or_default options.position_balance mock_position_balance) ∷ [];
  trustlines = (mock_wallet_address, tt) ∷ [];
  events = [];
  ledger = 1000;
  tx_seq = 0;
  failures = options.failures;
}

unfoldable pub clear_events : State → State
clear_events s = record s { events = [] }

-- `Map.clear` and `Set.clear` leave nothing of the old state behind.
unfoldable pub reset : ℕ → MockClientOptions → State → State
reset now options s = record s {
  invoices = by_invoice_id (seed_invoices now) [];
  offers = by_offer_id (seed_offers now) [];
  balances = set mock_wallet_address (or_default options.position_balance mock_position_balance) [];
  trustlines = set mock_wallet_address tt [];
  events = [];
  ledger = 1000;
  tx_seq = 0;
  failures = options.failures;
}

unfoldable pub fail_next : String → Option Thrown → State → State
fail_next on error s = record s {
  failures = record { on = some on; error = error; times = some 1 } ∷ s.failures;
}

unfoldable pub add_failure : FailureRule → State → State
add_failure rule s = record s { failures = s.failures ++ rule ∷ [] }

unfoldable pub get_balance : String → Call ℤ
unfolding balance_of
get_balance address = do
  checked (validate_stellar_address (text address) "address")
  λ s. pure (balance_of address s) s

unfoldable pub set_balance : String → ℤ → Call (Unit {0})
set_balance address amount = do
  checked (validate_stellar_address (text address) "address")
  modify (λ s. record s { balances = set address amount s.balances })
