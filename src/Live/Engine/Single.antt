-- ===== src/Live/Engine/Single.antt =====
-- One fetch and one transport at a time, and none after a stop.
use invofi.Prelude.{
  ℕ, ◌+◌, ◌<◌, ◌≡◌, refl, ap, ◌∙◌, Bool, true, false, ◌&&◌, List, [], ◌∷◌, arith, Bool-cases, inl,
  inr, Option-cases, String,
}
use invofi.Prelude.Map.{get}
use invofi.Types.{FinancingOffer}
use invofi.Throttle.{Throttle, dispatch, fire}
use invofi.Live.{LivePositionUpdate, is_active_offer, yield_earned_stroops}
use invofi.Live.Engine.{
  EngineState, update_key, send_update, earned_differs, tick_offer, tick_offers,
}

-- What the ticks and the updates leave alone.
pub record Core : Type 0 where
  pub relay : Bool
  pub polling : Bool
  pub started : Bool
  pub stopped : Bool
  pub in_flight : Bool
  pub generation : ℕ
  pub fetches : List ℕ
  pub positions : List (List FinancingOffer)
  pub throttle_stopped : Bool

abbrev pub core : EngineState → Core
core s = record {
  relay = s.relay;
  polling = s.polling;
  started = s.started;
  stopped = s.stopped;
  in_flight = s.resync_in_flight;
  generation = s.resync_generation;
  fetches = s.fetches;
  positions = s.positions;
  throttle_stopped = s.throttle.stopped;
}

dispatch-stopped :
    (throttle_ms : ℕ) (key : String) (update : LivePositionUpdate) (t : Throttle LivePositionUpdate)
    → (dispatch throttle_ms key update t).stopped ≡ t.stopped
unfolding dispatch
dispatch-stopped throttle_ms key update t = ground arith

pub fire-stopped :
    (throttle_ms : ℕ) (key : String) (t : Throttle LivePositionUpdate)
    → (fire throttle_ms key t).stopped ≡ t.stopped
unfolding fire
fire-stopped throttle_ms key t = elim (Option-cases (get key t.pending)) [
  | inl e ↦ rw (e, fire) refl
  | inr (latest, e) ↦ rw (e, fire) (dispatch-stopped throttle_ms key latest _)
]

pub send_update-core :
    (throttle_ms : ℕ) (update : LivePositionUpdate) (s : EngineState)
    → core (send_update throttle_ms update s) ≡ core s
unfolding send_update
send_update-core throttle_ms update s =
    ap (λ (b : Bool). record (core s) { throttle_stopped = b })
      (dispatch-stopped throttle_ms (update_key update) update s.throttle)

tick_offer-core :
    (throttle_ms : ℕ) (offer : FinancingOffer) (s : EngineState)
    → core (tick_offer throttle_ms offer s) ≡ core s
unfolding tick_offer
tick_offer-core throttle_ms offer s =
    elim (Bool-cases (
      is_active_offer offer
      && earned_differs (get offer.id s.last_earned) (yield_earned_stroops offer s.throttle.now))) [
        | inl changed ↦ rw changed (send_update-core throttle_ms _ _)
        | inr same ↦ rw same refl
      ]

pub tick_offers-core :
    (throttle_ms : ℕ) (offers : List FinancingOffer) (s : EngineState)
    → core (tick_offers throttle_ms offers s) ≡ core s
unfolding tick_offers
tick_offers-core throttle_ms [] s = refl
tick_offers-core throttle_ms (offer ∷ offers) s =
    tick_offers-core throttle_ms offers (tick_offer throttle_ms offer s)
    ∙ tick_offer-core throttle_ms offer s

-- The fetches that are not settled: while the engine runs, the one in flight, which is of the latest
-- generation; after a stop, one of an earlier generation at most.
pub data Fetching : (stopped in_flight : Bool) (generation : ℕ) (fetches : List ℕ) → Type 0 where
  idle : (generation : ℕ) → Fetching false false generation []
  flying : (generation : ℕ) → Fetching false true generation (generation ∷ [])
  orphaned :
      (in_flight : Bool) (generation g : ℕ)
      → g < generation
      → Fetching true in_flight generation (g ∷ [])
  over : (in_flight : Bool) (generation : ℕ) → Fetching true in_flight generation []

abbrev pub as_number : Bool → ℕ
as_number true = 1
as_number false = 0

-- From the start on there is one transport and at most one fetch; after a stop there is no transport,
-- no result of a fetch is of the latest generation, and the throttle is stopped.
pub record IsSingle (c : Core) : Type 0 where
  pub transport : as_number c.relay + as_number c.polling + as_number c.stopped ≡ 1
  pub begun : c.started ≡ true
  pub throttled : c.throttle_stopped ≡ c.stopped
  pub fetching : Fetching c.stopped c.in_flight c.generation c.fetches
