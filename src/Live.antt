-- ===== src/Live.antt =====
-- invofi/apps/frontend/src/lib/live: yield.ts, the yield of an offer, and reducer.ts, the state of
-- the live portfolio. The fields that are floating-point numbers (the APY, the progress bar, the
-- value in dollars) and the texts of details and errors are left out, and amounts in an update are
-- bigints. Clock readings are arguments, in milliseconds.
mod Tests
pub mod Updates
pub mod Yield
pub mod Wire
pub mod Relay
pub mod Engine
use invofi.Prelude.{
  ℕ, ◌/◌, String, Bool, true, false, ◌||◌, Option, none, some, List, [], ◌∷◌, map, str_eq,
  if◌then◌else◌,
}
use invofi.Prelude.Int.{ℤ, pos, negsuc, ◌+ℤ◌, ◌-ℤ◌, ◌*ℤ◌, ◌/ℤ◌, ltb_ℤ, leb_ℤ}
use invofi.Validation.{Currency}
use invofi.Types.{OfferStatus, FinancingOffer}

unfoldable pub total_yield_stroops : FinancingOffer → ℤ
total_yield_stroops offer = offer.amount *ℤ offer.interest_rate /ℤ 10000

unfoldable pub total_due_stroops : FinancingOffer → ℤ
total_due_stroops offer = offer.amount +ℤ total_yield_stroops offer

unfoldable pub remaining_stroops : FinancingOffer → ℤ
remaining_stroops offer =
    let due = total_due_stroops offer in
    if ltb_ℤ offer.amount_repaid due then due -ℤ offer.amount_repaid else pos 0

-- A positive integer as a natural number; `Math.max(0, n)`.
abbrev pub floor_zero : ℤ → ℕ
floor_zero (pos n) = n
floor_zero (negsuc n) = 0

-- Whole seconds since the funding: the comparison with the duration and the quotient depend on no
-- more of `nowSecs`.
abbrev pub elapsed_secs : FinancingOffer → ℕ → ℕ
elapsed_secs offer now_ms = floor_zero (pos (now_ms / 1000) -ℤ offer.funded_at)

unfoldable pub yield_earned_stroops : FinancingOffer → ℕ → ℤ
yield_earned_stroops offer now_ms =
    let total = total_yield_stroops offer in
    if leb_ℤ offer.funded_at (pos 0) || leb_ℤ offer.duration (pos 0)
    then pos 0
    else (if leb_ℤ total (pos 0)
        then pos 0
        else (if leb_ℤ offer.duration (pos (elapsed_secs offer now_ms))
            then total
            else total *ℤ pos (elapsed_secs offer now_ms) /ℤ floor_zero offer.duration))

unfoldable pub is_active_offer : FinancingOffer → Bool
is_active_offer offer = elim offer.status [
  | OfferStatus.accepted ↦ true
  | OfferStatus.financed ↦ true
  | _ ↦ false
]

-- `offer` holds the fields that a position has from the offer.
pub record LivePosition : Type 0 where
  pub offer : FinancingOffer
  pub earned_to_date : ℤ
  pub total_due : ℤ
  pub remaining : ℤ
  pub updated_at : ℕ

pub record PositionUpdatedFields : Type 0 where
  pub status : Option OfferStatus
  pub funded_at : Option ℤ
  pub currency : Option Currency
  pub amount : Option ℤ
  pub amount_repaid : Option ℤ

pub data LiveChange : Type 0 where
  position_updated : PositionUpdatedFields → LiveChange
  yield_calculated : (earned_to_date : ℤ) → LiveChange
  repayment_received : (amount_repaid : ℤ) (remaining : Option ℤ) (fully_repaid : Bool) → LiveChange

pub record LivePositionUpdate : Type 0 where
  pub position_id : String
  pub change : LiveChange
  pub updated_at : Option ℕ

pub data ConnectionStatus : Type 0 where
  connecting connected reconnecting polling offline : ConnectionStatus

pub data LiveTransport : Type 0 where
  websocket polling : LiveTransport

pub record LivePortfolioState : Type 0 where
  pub connection : ConnectionStatus
  pub transport : LiveTransport
  pub positions : List LivePosition
  pub loading : Bool
  pub failed : Bool
  pub last_updated_at : Option ℕ

pub data LivePortfolioAction : Type 0 where
  connect : ConnectionStatus → LiveTransport → LivePortfolioAction
  load_positions : List FinancingOffer → LivePortfolioAction
  update : LivePositionUpdate → LivePortfolioAction
  set_loading : Bool → LivePortfolioAction
  set_error : Bool → LivePortfolioAction
  reset : LivePortfolioAction

unfoldable pub initial_live_portfolio_state : LivePortfolioState
initial_live_portfolio_state = record {
  connection = connecting;
  transport = websocket;
  positions = [];
  loading = true;
  failed = false;
  last_updated_at = none;
}

unfoldable pub derive_live_position : FinancingOffer → (now_ms clock : ℕ) → LivePosition
derive_live_position offer now_ms clock = record {
  offer = offer;
  earned_to_date = yield_earned_stroops offer now_ms;
  total_due = total_due_stroops offer;
  remaining = remaining_stroops offer;
  updated_at = clock;
}

-- `a ?? b`
abbrev pub or_else {ℓ} : {A : Type ℓ} → Option A → A → A
or_else none b = b
or_else (some a) b = a

unfoldable pub merged_fields : FinancingOffer → PositionUpdatedFields → FinancingOffer
merged_fields offer fields = record offer {
  status = or_else fields.status offer.status;
  funded_at = or_else fields.funded_at offer.funded_at;
  currency = or_else fields.currency offer.currency;
  amount = or_else fields.amount offer.amount;
  amount_repaid = or_else fields.amount_repaid offer.amount_repaid;
}

-- What counts as repaid after a repayment: at least as much as before, if the update says what
-- remains.
unfoldable pub repaid_after : FinancingOffer → ℤ → Option ℤ → ℤ
repaid_after offer amount_repaid none = offer.amount_repaid +ℤ amount_repaid
repaid_after offer amount_repaid (some remaining) =
    let derived = total_due_stroops offer -ℤ remaining in
    if ltb_ℤ offer.amount_repaid derived then derived else offer.amount_repaid

unfoldable pub apply_change : LivePosition → LiveChange → (now : ℕ) → LivePosition
apply_change position (position_updated fields) now =
    derive_live_position (merged_fields position.offer fields) now now
apply_change position (yield_calculated earned_to_date) now = record position {
  earned_to_date = earned_to_date;
  updated_at = now;
}
apply_change position (repayment_received amount_repaid remaining fully_repaid) now =
    let derived =
      derive_live_position
        (record position.offer {
          amount_repaid = repaid_after position.offer amount_repaid remaining;
        })
        now now in
    record derived {
      offer = record derived.offer {
        status = if fully_repaid then OfferStatus.repaid else derived.offer.status;
      };
    }

unfoldable pub apply_update : LivePositionUpdate → (clock : ℕ) → LivePosition → LivePosition
apply_update u clock position = apply_change position u.change (or_else u.updated_at clock)

-- The `map` over the positions, and whether it `changed` one.
unfoldable pub update_positions :
    LivePositionUpdate → ℕ → List LivePosition → Bool × List LivePosition
update_positions u clock [] = (false, [])
update_positions u clock (position ∷ positions) =
    let (changed, rest) = update_positions u clock positions in
    if str_eq position.offer.id u.position_id
    then (true, apply_update u clock position ∷ rest)
    else (changed, position ∷ rest)

unfoldable pub live_portfolio_reducer :
    ℕ → LivePortfolioState → LivePortfolioAction → LivePortfolioState
live_portfolio_reducer clock state (connect connection transport) = record state {
  connection = connection;
  transport = transport;
}
live_portfolio_reducer clock state (load_positions offers) = record state {
  positions = map (λ offer. derive_live_position offer clock clock) offers;
  loading = false;
  failed = false;
  last_updated_at = some clock;
}
live_portfolio_reducer clock state (update u) =
    let (changed, positions) = update_positions u clock state.positions in
    if changed then record state { positions = positions; last_updated_at = some clock } else state
live_portfolio_reducer clock state (set_loading loading) = record state { loading = loading }
live_portfolio_reducer clock state (set_error failed) = record state { failed = failed }
live_portfolio_reducer clock state reset = initial_live_portfolio_state
