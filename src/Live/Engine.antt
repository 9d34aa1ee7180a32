-- ===== src/Live/Engine.antt =====
-- invofi/apps/frontend/src/lib/live/engine.ts: the fields of `LivePortfolioEngine` are `EngineState`,
-- and each method, and each callback of a timer, a transport or a fetch, is a function on it. The
-- transports are there or not; their own states are Live/Relay and Events/Listener. The throttle is
-- that of Throttle: one that is stopped stands for null, and its clock is the engine's.
pub mod Single
pub mod Runs
pub mod Stopped
pub mod Ticks
mod Tests
use invofi.Prelude.{
  ℕ, ◌+◌, ◌≡◌, String, Bool, true, false, not, ◌&&◌, ◌||◌, Option, none, some, List, [], ◌∷◌, ◌==◌,
  if◌then◌else◌,
}
use invofi.Prelude.Int.{ℤ, leb_ℤ}
use invofi.Prelude.Map.{Map, get, set}
use invofi.Prelude.Text.{append}
use invofi.Types.{FinancingOffer}
use invofi.Throttle.{Throttle, create_per_key_throttle, dispatch, fire, flush, stop}
use invofi.Live.{
  LiveChange, LivePositionUpdate, position_updated, yield_calculated, repayment_received,
  is_active_offer, yield_earned_stroops,
}

-- `fetches` has the generations of the calls of `fetchPositions` that are not settled, and
-- `positions` the arguments of the calls of `onPositions`, the last one first.
pub record EngineState : Type 0 where
  pub relay : Bool
  pub polling : Bool
  pub throttle : Throttle LivePositionUpdate
  pub timers : Bool
  pub latest_offers : List FinancingOffer
  pub last_earned : Map ℤ
  pub started : Bool
  pub stopped : Bool
  pub degraded_to_polling : Bool
  pub resync_in_flight : Bool
  pub resync_generation : ℕ
  pub fetches : List ℕ
  pub positions : List (List FinancingOffer)

abbrev pub new_engine : ℕ → EngineState
new_engine now = record {
  relay = false;
  polling = false;
  throttle = create_per_key_throttle now;
  timers = false;
  latest_offers = [];
  last_earned = [];
  started = false;
  stopped = false;
  degraded_to_polling = false;
  resync_in_flight = false;
  resync_generation = 0;
  fetches = [];
  positions = [];
}

abbrev pub kind_text : LiveChange → String
kind_text (position_updated fields) = "position_updated"
kind_text (yield_calculated earned) = "yield_calculated"
kind_text (repayment_received repaid remaining fully) = "repayment_received"

-- `key`: a slot for each position and kind.
abbrev pub update_key : LivePositionUpdate → String
update_key update = append update.position_id (append ":" (kind_text update.change))

-- An update goes to the throttle.
unfoldable pub send_update : ℕ → LivePositionUpdate → EngineState → EngineState
send_update throttle_ms update s = record s {
  throttle = dispatch throttle_ms (update_key update) update s.throttle;
}

unfoldable pub degrade_to_polling : EngineState → EngineState
degrade_to_polling s =
    if s.stopped || s.degraded_to_polling
    then s
    else record s { degraded_to_polling = true; relay = false; polling = true }

-- `resync`, up to its call of `fetchPositions`.
unfoldable pub resync : EngineState → EngineState
resync s = if s.stopped || s.resync_in_flight then s else record s {
  resync_generation = s.resync_generation + 1;
  resync_in_flight = true;
  fetches = (s.resync_generation + 1) ∷ s.fetches;
}

-- The callback of the result; none where the fetch fails.
abbrev pub take_offers : ℕ → Option (List FinancingOffer) → EngineState → EngineState
take_offers generation none s = s
take_offers generation (some offers) s =
    if s.stopped || not (generation == s.resync_generation)
    then s
    else record s { latest_offers = offers; positions = offers ∷ s.positions }

abbrev pub clear_in_flight : ℕ → EngineState → EngineState
clear_in_flight generation s =
    if generation == s.resync_generation then record s { resync_in_flight = false } else s

abbrev pub remove_fetch : ℕ → List ℕ → List ℕ
remove_fetch generation [] = []
remove_fetch generation (g ∷ fetches) =
    let rest = remove_fetch generation fetches in if g == generation then fetches else g ∷ rest

-- The callbacks of `fetchPositions`.
unfoldable pub settle_fetch : ℕ → Option (List FinancingOffer) → EngineState → EngineState
settle_fetch generation answer s =
    clear_in_flight generation
      (take_offers generation answer (record s { fetches = remove_fetch generation s.fetches }))

-- `start`; `has_url` tells that a relay is configured.
unfoldable pub start_engine : Bool → EngineState → EngineState
start_engine has_url s =
    let begun = record s {
      started = true;
      timers = true;
      throttle = create_per_key_throttle s.throttle.now;
    } in
    if s.started
    then s
    else resync (if has_url then record begun { relay = true } else degrade_to_polling begun)

abbrev pub earned_differs : Option ℤ → ℤ → Bool
earned_differs none earned = true
earned_differs (some last) earned = not (leb_ℤ last earned && leb_ℤ earned last)

abbrev pub accrued : FinancingOffer → ℕ → LivePositionUpdate
accrued offer now_ms = record {
  position_id = offer.id;
  change = yield_calculated (yield_earned_stroops offer now_ms);
  updated_at = some now_ms;
}

-- The body of the loop over the offers.
unfoldable pub tick_offer : ℕ → FinancingOffer → EngineState → EngineState
tick_offer throttle_ms offer s =
    let now_ms = s.throttle.now in
    let earned = yield_earned_stroops offer now_ms in
    if is_active_offer offer && earned_differs (get offer.id s.last_earned) earned
    then send_update throttle_ms (accrued offer now_ms)
        (record s { last_earned = set offer.id earned s.last_earned })
    else s

unfoldable pub tick_offers : ℕ → List FinancingOffer → EngineState → EngineState
tick_offers throttle_ms [] s = s
tick_offers throttle_ms (offer ∷ offers) s =
    tick_offers throttle_ms offers (tick_offer throttle_ms offer s)

-- The timer of the accrual.
unfoldable pub yield_tick : ℕ → EngineState → EngineState
yield_tick throttle_ms s = if s.stopped then s else tick_offers throttle_ms s.latest_offers s

unfoldable pub stop_engine : EngineState → EngineState
stop_engine s = record s {
  stopped = true;
  resync_generation = s.resync_generation + 1;
  timers = false;
  relay = false;
  polling = false;
  throttle = stop (flush s.throttle);
  last_earned = [];
}

abbrev pub includes_fetch : ℕ → List ℕ → Bool
includes_fetch generation [] = false
includes_fetch generation (g ∷ fetches) =
    let rest = includes_fetch generation fetches in g == generation || rest

-- What may happen after `start`: a fetch is settled once, and a throttled key or a timer fires at
-- any time.
pub data EngineStep (throttle_ms : ℕ) : EngineState → EngineState → Type 0 where
  started_again :
      (s : EngineState) (has_url : Bool) → EngineStep throttle_ms s (start_engine has_url s)
  resynced : (s : EngineState) → EngineStep throttle_ms s (resync s)
  settled :
      (s : EngineState) (generation : ℕ) (answer : Option (List FinancingOffer))
      → includes_fetch generation s.fetches ≡ true
      → EngineStep throttle_ms s (settle_fetch generation answer s)
  degraded : (s : EngineState) → EngineStep throttle_ms s (degrade_to_polling s)
  updated :
      (s : EngineState) (update : LivePositionUpdate)
      → EngineStep throttle_ms s (send_update throttle_ms update s)
  ticked : (s : EngineState) → EngineStep throttle_ms s (yield_tick throttle_ms s)
  fired :
      (s : EngineState) (throttled : String)
      → EngineStep throttle_ms s (record s { throttle = fire throttle_ms throttled s.throttle })
  passed :
      (s : EngineState) (t : ℕ)
      → EngineStep throttle_ms s
          (record s { throttle = record s.throttle { now = s.throttle.now + t } })
  stopped_by : (s : EngineState) → EngineStep throttle_ms s (stop_engine s)

pub data EngineSteps (throttle_ms : ℕ) (s : EngineState) : EngineState → Type 0 where
  here : EngineSteps throttle_ms s s
  next :
      {t u : EngineState}
      → EngineSteps throttle_ms s t
      → EngineStep throttle_ms t u
      → EngineSteps throttle_ms s u
