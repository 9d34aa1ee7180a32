-- ===== src/Live/Tests.antt =====
-- Runs of the live portfolio, and instances of the theorems at them.
use invofi.Prelude.{◌≡◌, refl, false, none, some, [], ◌∷◌, All}
use invofi.Prelude.Int.{pos, ◌-ℤ◌, ◌*ℤ◌, ◌/ℤ◌}
use invofi.Validation.{xlm}
use invofi.Types.{OfferStatus, FinancingOffer}
use invofi.Live.{
  total_yield_stroops, yield_earned_stroops, LivePosition, repayment_received, LivePositionUpdate,
  load_positions, update, initial_live_portfolio_state,
}
use invofi.Live.Updates.{IsDerived, reduce_all, positions-IsDerived}

abbrev offer : FinancingOffer
offer = record {
  id = "off_1";
  invoice_id = "inv_1";
  lender = "lender";
  amount = pos 10000;
  currency = xlm;
  interest_rate = pos 500;
  duration = pos 100;
  amount_repaid = pos 40;
  status = OfferStatus.financed;
  funded_at = pos 7;
}

abbrev position : LivePosition
position = record {
  offer = offer;
  earned_to_date = pos 0;
  total_due = pos 10500;
  remaining = pos 10460;
  updated_at = 0;
}

-- A quarter of the duration, in its last millisecond.
yield_run : yield_earned_stroops offer 32999 ≡ pos 125
unfolding yield_earned_stroops total_yield_stroops ◌-ℤ◌ ◌*ℤ◌ ◌/ℤ◌
yield_run = refl

abbrev repayment : LivePositionUpdate
repayment = record {
  position_id = "off_1";
  change = repayment_received (pos 60) (some (pos 10400)) false;
  updated_at = none;
}

positions-IsDerived_example :
    All IsDerived
      (reduce_all
        ((8, load_positions (offer ∷ [])) ∷ (9, update repayment) ∷ [])
        initial_live_portfolio_state).positions
positions-IsDerived_example =
    positions-IsDerived ((8, load_positions (offer ∷ [])) ∷ (9, update repayment) ∷ [])
