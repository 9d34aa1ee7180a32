-- ===== src/Live/Engine/Tests.antt =====
-- A run of the engine, and instances of the theorems at it.
use invofi.Prelude.{◌≡◌, refl, true, false, some, [], ◌∷◌}
use invofi.Prelude.Int.{pos, ◌-ℤ◌, ◌*ℤ◌, ◌/ℤ◌}
use invofi.Prelude.Map.{get, set}
use invofi.Validation.{usdc}
use invofi.Types.{FinancingOffer, OfferStatus}
use invofi.Throttle.{create_per_key_throttle}
use invofi.Live.{is_active_offer, yield_earned_stroops, total_yield_stroops}
use invofi.Live.Engine.{
  EngineState, new_engine, start_engine, degrade_to_polling, resync, settle_fetch, stop_engine,
  tick_offer, tick_offers, send_update, yield_tick, resynced, settled, degraded, EngineSteps, here,
  next,
}
use invofi.Live.Engine.Single.{core, IsSingle}
use invofi.Live.Engine.Runs.{engine-IsSingle}
use invofi.Live.Engine.Stopped.{IsSilent, stop_engine-IsSilent}
use invofi.Live.Engine.Ticks.{AllDistinct}

abbrev offer : FinancingOffer
offer = record {
  id = "OFF-1";
  invoice_id = "INV-1";
  lender = "L1";
  amount = pos 10000;
  currency = usdc;
  interest_rate = pos 500;
  duration = pos 100;
  amount_repaid = pos 0;
  status = OfferStatus.financed;
  funded_at = pos 50;
}

abbrev started : EngineState
started = start_engine true (new_engine 60000)

abbrev loaded : EngineState
loaded = settle_fetch 1 (some (offer ∷ [])) started

loaded_run :
    (loaded.latest_offers ≡ offer ∷ []) × (loaded.resync_in_flight ≡ false) × (loaded.fetches ≡ [])
unfolding start_engine resync settle_fetch
loaded_run = (refl, refl, refl)

load : EngineSteps 1000 started loaded
unfolding start_engine resync settle_fetch
load = next here (settled started 1 (some (offer ∷ [])) refl)

-- The relay is given up while the next fetch is in flight.
abbrev degraded_state : EngineState
degraded_state = degrade_to_polling (resync loaded)

engine-IsSingle_example : IsSingle (core degraded_state)
engine-IsSingle_example =
    engine-IsSingle 1000 60000 true degraded_state
      (next (next load (resynced loaded)) (degraded (resync loaded)))

stop_engine-IsSilent_example :
    IsSilent (stop_engine degraded_state) (settle_fetch 2 (some []) (stop_engine degraded_state))
unfolding start_engine resync settle_fetch degrade_to_polling stop_engine
stop_engine-IsSilent_example =
    stop_engine-IsSilent 1000 degraded_state (settle_fetch 2 (some []) (stop_engine degraded_state))
      refl (next here (settled (stop_engine degraded_state) 2 (some []) refl))

tick_run : (yield_tick 1000 loaded).last_earned ≡ ("OFF-1", pos 50) ∷ []
unfolding start_engine resync settle_fetch yield_tick tick_offers tick_offer send_update get set
    is_active_offer yield_earned_stroops total_yield_stroops ◌-ℤ◌ ◌*ℤ◌ ◌/ℤ◌ create_per_key_throttle
tick_run = refl

loaded_distinct : AllDistinct loaded.latest_offers
unfolding start_engine resync settle_fetch
loaded_distinct = (tt, tt)

-- An engine that is stopped before its start opens a relay all the same.
late_start_run : (start_engine true (stop_engine (new_engine 0))).relay ≡ true
unfolding start_engine resync stop_engine
late_start_run = refl
