-- ===== src/MockClient/Atomic.antt =====
-- A method that throws leaves the client's data as it was.
use invofi.Prelude.{◌≡◌, arith}
use invofi.Prelude.Result.{err}
use invofi.MockClient.Store.{State, Thrown, inject, require_invoice, require_offer, emit}
use invofi.MockClient.Registry.{register_invoice, cancel_invoice}
use invofi.MockClient.Financing.{create_offer, accept_offer, reject_offer}
use invofi.MockClient.Repayment.{repay_invoice, mark_overdue, reclaim_invoice}
use invofi.MockClient.Tokens.{transfer_position_token, add_position_trustline}
use invofi.MockClient.Requests.{
  Request, registering, cancelling, offering, accepting, rejecting, repaying, marking, reclaiming,
  transferring, trusting, perform,
}

-- The states differ in nothing but the failure rules that are left.
abbrev pub SameData : State → State → Type 0
SameData s t = t ≡ record s { failures = t.failures }

-- Whatever a method throws, a validation error, an injected failure or a contract error, it has
-- changed no invoice, offer, balance, trustline, event or counter.
pub perform-atomic :
    (r : Request) (s : State) (e : Thrown) → (perform r s).0 ≡ err e → SameData s (perform r s).1
unfolding perform inject require_invoice require_offer emit register_invoice cancel_invoice
    create_offer accept_offer reject_offer repay_invoice mark_overdue reclaim_invoice
    transfer_position_token add_position_trustline
perform-atomic (registering now params originator) s e h = ground arith
perform-atomic (cancelling invoice_id originator) s e h = ground arith
perform-atomic (offering params lender) s e h = ground arith
perform-atomic (accepting now offer_id originator) s e h = ground arith
perform-atomic (rejecting offer_id originator) s e h = ground arith
perform-atomic (repaying invoice_id offer_id repayer amount) s e h = ground arith
perform-atomic (marking invoice_id caller) s e h = ground arith
perform-atomic (reclaiming invoice_id offer_id lender) s e h = ground arith
perform-atomic (transferring token_id from to amount) s e h = ground arith
perform-atomic (trusting address) s e h = ground arith
