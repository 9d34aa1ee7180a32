-- ===== src/MockClient/Invariant.antt =====
-- The client's invariant: ids agree with keys, every offer is on a known invoice, and the event log
-- is numbered without gaps.
use invofi.Prelude.{ℕ, ◌+◌, String, ◌≡◌, refl, true, some, List, [], ◌∷◌, ◌++◌, arith}
use invofi.Prelude.Map.{
  Map, get, set, has, AllEntries, AllEntries-set, AllEntries-get, AllEntries-map, has-set,
}
use invofi.Types.{Invoice, FinancingOffer}
use invofi.MockClient.Store.{State, ProtocolEvent, EventData, logged}
use invofi.MockClient.Effects.{with_rules}

abbrev pub IsKeyed : String → Invoice → Type 0
IsKeyed k invoice = invoice.id ≡ k

abbrev pub IsOn : Map Invoice → String → FinancingOffer → Type 0
IsOn invoices k offer = (offer.id ≡ k) × (has offer.invoice_id invoices ≡ true)

-- The events' ledgers count up by one from above `start` to `end`.
abbrev pub CountsTo : ℕ → List ProtocolEvent → ℕ → Type 0
CountsTo start [] end = start ≡ end
CountsTo start (e ∷ es) end =
    (e.ledger ≡ start + 1) × (e.ledger ≡ 1000 + e.tx_seq) × CountsTo (start + 1) es end

pub record IsValid (s : State) : Type 0 where
  pub invoices_keyed : AllEntries IsKeyed s.invoices
  pub offers_on : AllEntries (IsOn s.invoices) s.offers
  pub numbered : (start : ℕ) × CountsTo start s.events s.ledger
  pub in_step : s.ledger ≡ 1000 + s.tx_seq

CountsTo-append :
    (start end : ℕ) (es : List ProtocolEvent) (e : ProtocolEvent)
    → CountsTo start es end
    → e.ledger ≡ end + 1
    → e.ledger ≡ 1000 + e.tx_seq
    → CountsTo start (es ++ e ∷ []) (end + 1)
CountsTo-append start end [] e h p q = (omega arith, q, omega arith)
CountsTo-append start end (d ∷ es) e h p q =
    (h.0, h.1, CountsTo-append (start + 1) end es e h.2 p q)

pub logged-IsValid :
    (subject contract_id : String) (event : EventData) (s : State)
    → IsValid s
    → IsValid (logged subject contract_id event s)
logged-IsValid subject contract_id event s v = record {
  invoices_keyed = v.invoices_keyed;
  offers_on = v.offers_on;
  numbered = (
    v.numbered.0,
    CountsTo-append v.numbered.0 s.ledger s.events _ v.numbered.1 refl (omega (arith, v.in_step)),
  );
  in_step = omega (arith, v.in_step);
}

pub with_rules-IsValid : (s t : State) → IsValid s → IsValid (with_rules s t)
with_rules-IsValid s t v = record {
  invoices_keyed = v.invoices_keyed;
  offers_on = v.offers_on;
  numbered = v.numbered;
  in_step = v.in_step;
}

-- Writing an invoice under its own id.
pub set_invoice-IsValid :
    (k : String) (invoice : Invoice) (s : State)
    → invoice.id ≡ k
    → IsValid s
    → IsValid (record s { invoices = set k invoice s.invoices })
set_invoice-IsValid k invoice s e v = record {
  invoices_keyed = AllEntries-set IsKeyed k invoice s.invoices v.invoices_keyed e;
  offers_on =
      AllEntries-map (IsOn s.invoices) (IsOn (set k invoice s.invoices))
        (λ j offer h. (h.0, has-set k offer.invoice_id invoice s.invoices h.1)) s.offers
        v.offers_on;
  numbered = v.numbered;
  in_step = v.in_step;
}

-- Writing an offer on a known invoice under its own id.
pub set_offer-IsValid :
    (k : String) (offer : FinancingOffer) (s : State)
    → IsOn s.invoices k offer
    → IsValid s
    → IsValid (record s { offers = set k offer s.offers })
set_offer-IsValid k offer s e v = record {
  invoices_keyed = v.invoices_keyed;
  offers_on = AllEntries-set (IsOn s.invoices) k offer s.offers v.offers_on e;
  numbered = v.numbered;
  in_step = v.in_step;
}

module _ (s : State) (v : IsValid s) where
  pub offer-IsOn :
      (k : String) (offer : FinancingOffer) → get k s.offers ≡ some offer → IsOn s.invoices k offer
  offer-IsOn k offer e = AllEntries-get (IsOn s.invoices) k offer s.offers v.offers_on e

  pub invoice_keyed :
      (k : String) (invoice : Invoice) → get k s.invoices ≡ some invoice → invoice.id ≡ k
  invoice_keyed k invoice e = AllEntries-get IsKeyed k invoice s.invoices v.invoices_keyed e
