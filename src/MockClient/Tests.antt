-- ===== src/MockClient/Tests.antt =====
-- Instances of the theorems on sessions, transfers, refusals and failures of mock.ts.
use invofi.Prelude.{◌≡◌, refl, [], ◌∷◌}
use invofi.Prelude.Int.{pos, ◌+ℤ◌, ◌-ℤ◌, ◌*ℤ◌, ◌/ℤ◌}
use invofi.Prelude.Map.{get, set}
use invofi.Validation.{
  validate_symbol_id, symbol_re, validate_stellar_address, stellar_address_re,
  validate_positive_i128, validate_currency, validate_future_timestamp, validate_interest_rate,
  validate_duration,
}
use invofi.MockClient.Store.{
  contract_error, unauthorized, inject, emit, require_invoice, require_offer, take_failure,
}
use invofi.MockClient.Registry.{register_invoice, cancel_invoice}
use invofi.MockClient.Financing.{create_offer, accept_offer, reject_offer}
use invofi.MockClient.Repayment.{total_due, repay_invoice, mark_overdue, reclaim_invoice}
use invofi.MockClient.Tokens.{balance_of, transfer_position_token}
use invofi.MockClient.Testing.{create_mock_client, fail_next}
use invofi.MockClient.Requests.{cancelling, accepting, repaying, perform, perform_all}
use invofi.MockClient.Atomic.{SameData, perform-atomic}
use invofi.MockClient.Invariant.{IsValid}
use invofi.MockClient.Sessions.{session-IsValid}
use invofi.MockClient.Balances.{total}
use invofi.MockClient.Transfers.{transfer_conserves}
use invofi.MockClient.Samples.{originator, lender, token, client, options}

perform-atomic_example : SameData client (perform (cancelling "inv_1" lender) client).1
unfolding register_invoice create_offer repay_invoice accept_offer reject_offer cancel_invoice
    mark_overdue reclaim_invoice inject require_invoice require_offer emit take_failure get set
    validate_symbol_id symbol_re validate_stellar_address stellar_address_re validate_positive_i128
    validate_currency validate_future_timestamp validate_interest_rate validate_duration total_due
    ◌+ℤ◌ ◌-ℤ◌ ◌/ℤ◌ ◌*ℤ◌ balance_of transfer_position_token fail_next perform perform_all
perform-atomic_example =
    perform-atomic (cancelling "inv_1" lender) client (contract_error (pos 1) unauthorized) refl

session-IsValid_example : IsValid (
    perform_all
      (accepting 7000 "off_mock_003" originator
        ∷ repaying "inv_mock_p001" "off_mock_003" lender (pos 4)
        ∷ [])
      (create_mock_client 9000000 options))
session-IsValid_example = session-IsValid 9000000 options (
    accepting 7000 "off_mock_003" originator
    ∷ repaying "inv_mock_p001" "off_mock_003" lender (pos 4)
    ∷ [])

transfer_conserves_example :
    total (transfer_position_token token lender originator (pos 7) client).1.balances ≡ pos 65
unfolding register_invoice create_offer repay_invoice accept_offer reject_offer cancel_invoice
    mark_overdue reclaim_invoice inject require_invoice require_offer emit take_failure get set
    validate_symbol_id symbol_re validate_stellar_address stellar_address_re validate_positive_i128
    validate_currency validate_future_timestamp validate_interest_rate validate_duration total_due
    ◌+ℤ◌ ◌-ℤ◌ ◌/ℤ◌ ◌*ℤ◌ balance_of transfer_position_token fail_next perform perform_all
transfer_conserves_example = transfer_conserves token lender originator (pos 7) client
