-- ===== src/MockClient/Requests.antt =====
-- One request type for the methods that change the client, so that sequences of calls can be
-- stated: `perform` makes a call and forgets the value that it returns.
use invofi.Prelude.{ℕ, String, List, [], ◌∷◌}
use invofi.Prelude.Int.{ℤ}
use invofi.MockClient.Store.{State, Call, ◌>>=◌, pure}
use invofi.MockClient.Registry.{RegisterInvoiceParams, register_invoice, cancel_invoice}
use invofi.MockClient.Financing.{CreateOfferParams, create_offer, accept_offer, reject_offer}
use invofi.MockClient.Repayment.{repay_invoice, mark_overdue, reclaim_invoice}
use invofi.MockClient.Tokens.{transfer_position_token, add_position_trustline}

pub data Request : Type 0 where
  registering : (now_ms : ℕ) (params : RegisterInvoiceParams) (originator : String) → Request
  cancelling : (invoice_id originator : String) → Request
  offering : (params : CreateOfferParams) (lender : String) → Request
  accepting : (now_ms : ℕ) (offer_id originator : String) → Request
  rejecting : (offer_id originator : String) → Request
  repaying : (invoice_id offer_id repayer : String) (amount : ℤ) → Request
  marking : (invoice_id caller : String) → Request
  reclaiming : (invoice_id offer_id lender : String) → Request
  transferring : (token_id from to : String) (amount : ℤ) → Request
  trusting : (address : String) → Request

unfoldable pub perform : Request → Call (Unit {0})
perform (registering now params originator) =
    register_invoice now params originator >>= λ _. pure tt
perform (cancelling invoice_id originator) = cancel_invoice invoice_id originator >>= λ _. pure tt
perform (offering params lender) = create_offer params lender >>= λ _. pure tt
perform (accepting now offer_id originator) = accept_offer now offer_id originator >>= λ _. pure tt
perform (rejecting offer_id originator) = reject_offer offer_id originator >>= λ _. pure tt
perform (repaying invoice_id offer_id repayer amount) =
    repay_invoice invoice_id offer_id repayer amount >>= λ _. pure tt
perform (marking invoice_id caller) = mark_overdue invoice_id caller >>= λ _. pure tt
perform (reclaiming invoice_id offer_id lender) =
    reclaim_invoice invoice_id offer_id lender >>= λ _. pure tt
perform (transferring token_id from to amount) = transfer_position_token token_id from to amount
perform (trusting address) = add_position_trustline address

-- A session: calls one after the other, whether they throw or not.
unfoldable pub perform_all : List Request → State → State
perform_all [] s = s
perform_all (r ∷ rs) s = perform_all rs (perform r s).1
