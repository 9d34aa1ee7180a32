-- ===== src/MockClient/Preserved.antt =====
-- A call that returns keeps the client's invariant.
use invofi.Prelude.{ℕ, String, ◌≡◌, sym, ap, subst, inl, inr, arith}
use invofi.Prelude.Map.{set, has-set, has-set_self}
use invofi.Prelude.Int.{ℤ}
use invofi.Types.{Invoice, FinancingOffer}
use invofi.Prelude.Result.{ok, Result-cases}
use invofi.MockClient.Store.{State, EventData, logged, inject, Call, ◌>>=◌, pure}
use invofi.MockClient.Registry.{RegisterInvoiceParams, register_invoice, cancel_invoice, cancelled}
use invofi.MockClient.Financing.{
  CreateOfferParams, create_offer, accept_offer, accepted, financed, reject_offer, rejected,
}
use invofi.MockClient.Repayment.{
  repay_invoice, credited, is_fully_repaid, settled_offer, settled_invoice, mark_overdue, overdue,
  reclaim_invoice, defaulted,
}
use invofi.MockClient.Tokens.{transfer_position_token, add_position_trustline}
use invofi.MockClient.Requests.{
  Request, registering, cancelling, offering, accepting, rejecting, repaying, marking, reclaiming,
  transferring, trusting, perform,
}
use invofi.MockClient.Effects.{
  with_rules, accept_offer_effect, reject_offer_effect, cancel_invoice_effect, mark_overdue_effect,
  repay_invoice_effect, reclaim_invoice_effect,
}
use invofi.MockClient.Creation.{register_invoice_effect, create_offer_effect}
use invofi.MockClient.Invariant.{
  IsValid, logged-IsValid, with_rules-IsValid, set_invoice-IsValid, set_offer-IsValid, offer-IsOn,
  invoice_keyed,
}

-- A call whose value is forgotten returns when the call does, in the same state.
pub forget_ok :
    {A : Type 0} (m : Call A) (s : State)
    → ((m >>= λ _. pure tt) s).0 ≡ ok tt
    → (a : A) × ((m s).0 ≡ ok a) × (((m >>= λ _. pure tt) s).1 ≡ (m s).1)
forget_ok m s h = elim (Result-cases (m s).0) [
  | inl (a, e) ↦ (a, e, ground arith)
  | inr (x, e) ↦ absurd (ground arith)
]

effect-IsValid :
    (s : State) {t : State} (subject contract_id : String) (event : EventData)
    → t ≡ with_rules (logged subject contract_id event s) t
    → IsValid s
    → IsValid t
effect-IsValid s {t} subject contract_id event e v =
    subst IsValid (sym e) (with_rules-IsValid _ t (logged-IsValid subject contract_id event s v))

module _ (s : State) (v : IsValid s) where
  accept_offer-IsValid :
      (now : ℕ) (offer_id originator : String) (r : FinancingOffer)
      → (accept_offer now offer_id originator s).0 ≡ ok r
      → IsValid (accept_offer now offer_id originator s).1
  accept_offer-IsValid now offer_id originator r h =
      let (offer, invoice, eo, ei, _, _, final) =
        accept_offer_effect s now offer_id originator r h in
      effect-IsValid _ _ _ _ final (
        set_offer-IsValid offer_id (accepted now offer)
          (record s { invoices = set offer.invoice_id (financed invoice) s.invoices })
          (
            (offer-IsOn s v offer_id offer eo).0,
            has-set_self offer.invoice_id (financed invoice) s.invoices,
          )
          (set_invoice-IsValid offer.invoice_id (financed invoice) s
            (invoice_keyed s v offer.invoice_id invoice ei) v))

  reject_offer-IsValid :
      (offer_id originator : String) (r : FinancingOffer)
      → (reject_offer offer_id originator s).0 ≡ ok r
      → IsValid (reject_offer offer_id originator s).1
  reject_offer-IsValid offer_id originator r h =
      let (offer, invoice, eo, ei, _, _, final) = reject_offer_effect s offer_id originator r h in
      effect-IsValid _ _ _ _ final
        (set_offer-IsValid offer_id (rejected offer) s (offer-IsOn s v offer_id offer eo) v)

  cancel_invoice-IsValid :
      (invoice_id originator : String) (r : Invoice)
      → (cancel_invoice invoice_id originator s).0 ≡ ok r
      → IsValid (cancel_invoice invoice_id originator s).1
  cancel_invoice-IsValid invoice_id originator r h =
      let (invoice, e, _, _, final) = cancel_invoice_effect s invoice_id originator r h in
      effect-IsValid _ _ _ _ final (
        set_invoice-IsValid invoice_id (cancelled invoice) s
          (invoice_keyed s v invoice_id invoice e) v)

  mark_overdue-IsValid :
      (invoice_id caller : String) (r : Invoice)
      → (mark_overdue invoice_id caller s).0 ≡ ok r
      → IsValid (mark_overdue invoice_id caller s).1
  mark_overdue-IsValid invoice_id caller r h =
      let (invoice, e, _, final) = mark_overdue_effect s invoice_id caller r h in
      effect-IsValid _ _ _ _ final (
        set_invoice-IsValid invoice_id (overdue invoice) s (invoice_keyed s v invoice_id invoice e)
          v)

  repay_invoice-IsValid :
      (invoice_id offer_id repayer : String) (amount : ℤ) (r : Invoice)
      → (repay_invoice invoice_id offer_id repayer amount s).0 ≡ ok r
      → IsValid (repay_invoice invoice_id offer_id repayer amount s).1
  repay_invoice-IsValid invoice_id offer_id repayer amount r h =
      let (offer, invoice, eo, ei, _, _, final) =
        repay_invoice_effect s invoice_id offer_id repayer amount r h in
      let after = settled_invoice (is_fully_repaid (credited offer amount)) invoice in
      let (keyed, known) = offer-IsOn s v offer_id offer eo in
      effect-IsValid _ _ _ _ final (
        set_offer-IsValid offer_id (settled_offer offer amount)
          (record s { invoices = set invoice_id after s.invoices })
          (keyed, has-set invoice_id offer.invoice_id after s.invoices known)
          (set_invoice-IsValid invoice_id after s (invoice_keyed s v invoice_id invoice ei) v))

  reclaim_invoice-IsValid :
      (invoice_id offer_id lender : String) (r : FinancingOffer)
      → (reclaim_invoice invoice_id offer_id lender s).0 ≡ ok r
      → IsValid (reclaim_invoice invoice_id offer_id lender s).1
  reclaim_invoice-IsValid invoice_id offer_id lender r h =
      let (offer, e, _, _, final) = reclaim_invoice_effect s invoice_id offer_id lender r h in
      effect-IsValid _ _ _ _ final
        (set_offer-IsValid offer_id (defaulted offer) s (offer-IsOn s v offer_id offer e) v)

  register_invoice-IsValid :
      (now : ℕ) (params : RegisterInvoiceParams) (originator : String) (r : Invoice)
      → (register_invoice now params originator s).0 ≡ ok r
      → IsValid (register_invoice now params originator s).1
  register_invoice-IsValid now params originator r h =
      let (currency, _, same, final) = register_invoice_effect s now params originator r h in
      effect-IsValid _ _ _ _ final
        (set_invoice-IsValid params.id r s (ap (λ (i : Invoice). i.id) same) v)

  create_offer-IsValid :
      (params : CreateOfferParams) (lender : String) (r : FinancingOffer)
      → (create_offer params lender s).0 ≡ ok r
      → IsValid (create_offer params lender s).1
  create_offer-IsValid params lender r h =
      let (currency, may, same, final) = create_offer_effect s params lender r h in
      effect-IsValid _ _ _ _ final
        (set_offer-IsValid params.offer_id r s (ground (arith, may.known)) v)

-- The invariant does not speak of balances, trustlines and failure rules.
others-IsValid :
    (s t : State)
    → t ≡ record s { balances = t.balances; trustlines = t.trustlines; failures = t.failures }
    → IsValid s
    → IsValid t
others-IsValid s t e v = subst IsValid (sym e) (record {
  invoices_keyed = v.invoices_keyed;
  offers_on = v.offers_on;
  numbered = v.numbered;
  in_step = v.in_step;
})

tokens_keep :
    (token_id from to : String) (amount : ℤ) (s : State)
    → let t = (transfer_position_token token_id from to amount s).1 in
      t ≡ record s { balances = t.balances; trustlines = t.trustlines; failures = t.failures }
unfolding transfer_position_token inject
tokens_keep token_id from to amount s = ground arith

trustline_keeps :
    (address : String) (s : State)
    → let t = (add_position_trustline address s).1 in
      t ≡ record s { balances = t.balances; trustlines = t.trustlines; failures = t.failures }
unfolding add_position_trustline inject
trustline_keeps address s = ground arith

-- Lifts a lemma on a method to the request that forgets its value.
lift-IsValid :
    {A : Type 0} (m : Call A) (s : State)
    → ((a : A) → (m s).0 ≡ ok a → IsValid (m s).1)
    → ((m >>= λ _. pure tt) s).0 ≡ ok tt
    → IsValid ((m >>= λ _. pure tt) s).1
lift-IsValid m s keep h = let (a, e, same) = forget_ok m s h in subst IsValid (sym same) (keep a e)

pub returned-IsValid :
    (r : Request) (s : State) → IsValid s → (perform r s).0 ≡ ok tt → IsValid (perform r s).1
unfolding perform
returned-IsValid (registering now params originator) s v e =
    lift-IsValid (register_invoice now params originator) s
      (register_invoice-IsValid s v now params originator) e
returned-IsValid (cancelling invoice_id originator) s v e =
    lift-IsValid (cancel_invoice invoice_id originator) s
      (cancel_invoice-IsValid s v invoice_id originator) e
returned-IsValid (offering params lender) s v e =
    lift-IsValid (create_offer params lender) s (create_offer-IsValid s v params lender) e
returned-IsValid (accepting now offer_id originator) s v e =
    lift-IsValid (accept_offer now offer_id originator) s
      (accept_offer-IsValid s v now offer_id originator) e
returned-IsValid (rejecting offer_id originator) s v e =
    lift-IsValid (reject_offer offer_id originator) s (reject_offer-IsValid s v offer_id originator)
      e
returned-IsValid (repaying invoice_id offer_id repayer amount) s v e =
    lift-IsValid (repay_invoice invoice_id offer_id repayer amount) s
      (repay_invoice-IsValid s v invoice_id offer_id repayer amount) e
returned-IsValid (marking invoice_id caller) s v e =
    lift-IsValid (mark_overdue invoice_id caller) s (mark_overdue-IsValid s v invoice_id caller) e
returned-IsValid (reclaiming invoice_id offer_id lender) s v e =
    lift-IsValid (reclaim_invoice invoice_id offer_id lender) s
      (reclaim_invoice-IsValid s v invoice_id offer_id lender) e
returned-IsValid (transferring token_id from to amount) s v e =
    others-IsValid s _ (tokens_keep token_id from to amount s) v
returned-IsValid (trusting address) s v e = others-IsValid s _ (trustline_keeps address s) v
