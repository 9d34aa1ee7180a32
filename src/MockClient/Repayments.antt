-- ===== src/MockClient/Repayments.antt =====
-- Repayments: when an offer counts as repaid, and payments in parts.
use invofi.Prelude.{ℕ, ◌+◌, ◌*◌, ◌/◌, ◌≤◌, String, ◌≡◌, sym, ap, ◌∙◌, ◌↔◌, some, arith}
use mathlib.Core.Path.{ap₂}
use invofi.Prelude.Int.{ℤ, pos, ◌+ℤ◌, int_laws, +ℤ-pos, *ℤ-pos, /ℤ-pos}
use invofi.Prelude.Map.{get, set, get-set_self, set-set}
use invofi.Prelude.Result.{ok}
use invofi.Types.{InvoiceStatus, OfferStatus, Invoice, FinancingOffer}
use invofi.MockClient.Store.{State}
use invofi.MockClient.Repayment.{
  total_due, credited, is_fully_repaid, settled_offer, settled_invoice, repay_invoice,
}
use invofi.MockClient.Effects.{repay_invoice_effect}

-- On natural amounts the total due is the principal and its share in basis points, rounded down.
total_due-pos :
    (offer : FinancingOffer) (p r : ℕ)
    → offer.amount ≡ pos p
    → offer.interest_rate ≡ pos r
    → total_due offer ≡ pos (p + p * r / 10000)
unfolding total_due
total_due-pos offer p r ep er =
    rw (ep, er, *ℤ-pos p r, /ℤ-pos (p * r) 10000, +ℤ-pos p (p * r / 10000))

module _ (invoice_id offer_id repayer : String) (s : State) where
  -- A payment of `a` that is accepted, on an offer of principal `p` at `r` basis points of which `q`
  -- was repaid, leaves `q + a` repaid. The offer and the invoice are then repaid exactly when that
  -- is at least the principal and its interest, p + p * r / 10000, rounded down.
  pub repay_invoice_status :
      (offer : FinancingOffer) (p r q a : ℕ) (res : Invoice)
      → get offer_id s.offers ≡ some offer
      → offer.amount ≡ pos p
      → offer.interest_rate ≡ pos r
      → offer.amount_repaid ≡ pos q
      → (repay_invoice invoice_id offer_id repayer (pos a) s).0 ≡ ok res
      → (after : FinancingOffer) × (get offer_id
            (repay_invoice invoice_id offer_id repayer (pos a) s).1.offers
          ≡ some after)
        × (after.amount_repaid ≡ pos (q + a))
        × ((after.status ≡ OfferStatus.repaid) ↔ (p + p * r / 10000 ≤ q + a))
        × ((res.status ≡ InvoiceStatus.repaid) ↔ (p + p * r / 10000 ≤ q + a))
  repay_invoice_status offer p r q a res eo ep er eq h =
      let (o, i, eo', ei, _, same, final) =
        repay_invoice_effect s invoice_id offer_id repayer (pos a) res h in
      let known : o ≡ offer = cc in
      let due : total_due (credited o (pos a)) ≡ pos (p + p * r / 10000) =
        total_due-pos (credited o (pos a)) p r (rw known ep) (rw known er) in
      let paid : o.amount_repaid +ℤ pos a ≡ pos (q + a) = rw (known, eq) (+ℤ-pos q a) in
      (
        settled_offer o (pos a),
        ap (λ (t : State). get offer_id t.offers) final ∙ get-set_self offer_id _ s.offers,
        paid,
        ground (arith, due, paid),
        ground (arith, due, paid),
      )

assoc : (a b c : ℤ) → a +ℤ b +ℤ c ≡ a +ℤ (b +ℤ c)
assoc a b c = omega int_laws

-- Two payments on an offer are one payment of their sum.
settled_offer_twice :
    (o : FinancingOffer) (a b : ℤ) → settled_offer (settled_offer o a) b ≡ settled_offer o (a +ℤ b)
unfolding total_due
settled_offer_twice o a b = ground (arith, assoc o.amount_repaid a b)

is_fully_repaid_twice :
    (o : FinancingOffer) (a b : ℤ)
    → is_fully_repaid (credited (settled_offer o a) b) ≡ is_fully_repaid (credited o (a +ℤ b))
unfolding total_due
is_fully_repaid_twice o a b = ground (arith, assoc o.amount_repaid a b)

-- Two accepted payments leave the offers and the invoices as one accepted payment of their sum.
pub repay_invoice_split :
    (invoice_id offer_id p₁ p₂ p₃ : String) (a b : ℤ) (s : State) (r₁ r₂ r₃ : Invoice)
    → (repay_invoice invoice_id offer_id p₁ a s).0 ≡ ok r₁
    → (repay_invoice invoice_id offer_id p₂ b (repay_invoice invoice_id offer_id p₁ a s).1).0
      ≡ ok r₂
    → (repay_invoice invoice_id offer_id p₃ (a +ℤ b) s).0 ≡ ok r₃
    → let t =
        (repay_invoice invoice_id offer_id p₂ b (repay_invoice invoice_id offer_id p₁ a s).1).1 in
      let u = (repay_invoice invoice_id offer_id p₃ (a +ℤ b) s).1 in
      (t.offers ≡ u.offers) × (t.invoices ≡ u.invoices) × (r₂ ≡ r₃)
repay_invoice_split invoice_id offer_id p₁ p₂ p₃ a b s r₁ r₂ r₃ h₁ h₂ h₃ =
    let (o₁, i₁, eo₁, ei₁, on₁, same₁, final₁) =
      repay_invoice_effect s invoice_id offer_id p₁ a r₁ h₁ in
    let (o₂, i₂, eo₂, ei₂, on₂, same₂, final₂) =
      repay_invoice_effect _ invoice_id offer_id p₂ b r₂ h₂ in
    let (o₃, i₃, eo₃, ei₃, on₃, same₃, final₃) =
      repay_invoice_effect s invoice_id offer_id p₃ (a +ℤ b) r₃ h₃ in
    let key₁ = get-set_self offer_id (settled_offer o₁ a) s.offers in
    let first = settled_invoice (is_fully_repaid (credited o₁ a)) i₁ in
    let key₂ = get-set_self invoice_id first s.invoices in
    let offers₁ = ap (λ (t : State). t.offers) final₁ in
    let invoices₁ = ap (λ (t : State). t.invoices) final₁ in
    let offer₂ : o₂ ≡ settled_offer o₁ a = cc in
    let invoice₂ : i₂ ≡ first = cc in
    let offer₃ : o₃ ≡ o₁ = cc in
    let invoice₃ : i₃ ≡ i₁ = cc in
    let offers₂ = ap (λ (t : State). t.offers) final₂ in
    let invoices₂ = ap (λ (t : State). t.invoices) final₂ in
    let fully : is_fully_repaid (credited o₂ b) ≡ is_fully_repaid (credited o₃ (a +ℤ b)) =
      rw (offer₂, offer₃) (is_fully_repaid_twice o₁ a b) in
    let last = settled_invoice (is_fully_repaid (credited o₃ (a +ℤ b))) i₃ in
    let paid : settled_offer o₂ b ≡ settled_offer o₃ (a +ℤ b) =
      rw (offer₂, offer₃) (settled_offer_twice o₁ a b) in
    let res : settled_invoice (is_fully_repaid (credited o₂ b)) i₂ ≡ last =
      rw (fully, invoice₂, invoice₃) in
    (
      offers₂
          ∙ ap₂ (set offer_id) paid offers₁
          ∙ set-set offer_id _ _ s.offers
          ∙ sym (ap (λ (t : State). t.offers) final₃),
      invoices₂
          ∙ ap₂ (set invoice_id) res invoices₁
          ∙ set-set invoice_id _ _ s.invoices
          ∙ sym (ap (λ (t : State). t.invoices) final₃),
      same₂ ∙ res ∙ sym same₃,
    )
