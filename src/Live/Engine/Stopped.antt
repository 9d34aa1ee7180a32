-- ===== src/Live/Engine/Stopped.antt =====
-- A stopped engine calls nobody.
use invofi.Prelude.{ℕ, ◌≡◌, refl, ◌∙◌, String, true, Option, none, some, List, arith, Option-cases}
use invofi.Prelude.Map.{get}
use invofi.Types.{FinancingOffer}
use invofi.Throttle.{Throttle, dispatch, fire, flush, stop}
use invofi.Live.{LivePositionUpdate}
use invofi.Live.Engine.{
  EngineState, send_update, degrade_to_polling, resync, settle_fetch, start_engine, yield_tick,
  stop_engine, EngineStep, started_again, resynced, settled, degraded, updated, ticked, fired,
  passed, stopped_by, EngineSteps, here, next,
}

-- It was started, and is stopped with its throttle.
abbrev pub IsStopped : EngineState → Type 0
IsStopped s = (s.stopped ≡ true) × (s.throttle.stopped ≡ true) × (s.started ≡ true)

-- No call of `onPositions` or `onUpdate`, and no fetch but those that were there.
abbrev pub IsSilent : EngineState → EngineState → Type 0
IsSilent s t = (t.positions ≡ s.positions) × (t.throttle.delivered ≡ s.throttle.delivered)

fire-IsSilent :
    (throttle_ms : ℕ) (key : String) (t : Throttle LivePositionUpdate)
    → t.stopped ≡ true
    → ((fire throttle_ms key t).stopped ≡ true) × ((fire throttle_ms key t).delivered ≡ t.delivered)
unfolding fire dispatch
fire-IsSilent throttle_ms key t h = ground (arith, Option-cases (get key t.pending))

settle_fetch-IsSilent :
    (g : ℕ) (answer : Option (List FinancingOffer)) (s : EngineState)
    → IsStopped s
    → IsStopped (settle_fetch g answer s) × IsSilent s (settle_fetch g answer s)
unfolding settle_fetch
settle_fetch-IsSilent g none s h = ground arith
settle_fetch-IsSilent g (some offers) s h = ground arith

EngineStep-IsSilent :
    {throttle_ms : ℕ} {s t : EngineState}
    → EngineStep throttle_ms s t
    → IsStopped s
    → IsStopped t × IsSilent s t
unfolding start_engine resync degrade_to_polling send_update dispatch yield_tick stop_engine stop
    flush
EngineStep-IsSilent (started_again s has_url) h = ground arith
EngineStep-IsSilent (resynced s) h = ground arith
EngineStep-IsSilent (settled s g answer known) h = settle_fetch-IsSilent g answer s h
EngineStep-IsSilent (degraded s) h = ground arith
EngineStep-IsSilent (updated s update) h = ground arith
EngineStep-IsSilent (ticked s) h = ground arith
EngineStep-IsSilent {throttle_ms} (fired s throttled) h =
    let f = fire-IsSilent throttle_ms throttled s.throttle h.1 in ((h.0, f.0, h.2), (refl, f.1))
EngineStep-IsSilent (passed s t) h = (h, (refl, refl))
EngineStep-IsSilent (stopped_by s) h = ground arith

EngineSteps-IsSilent :
    {throttle_ms : ℕ} {s t : EngineState}
    → EngineSteps throttle_ms s t
    → IsStopped s
    → IsStopped t × IsSilent s t
EngineSteps-IsSilent here h = (h, (refl, refl))
EngineSteps-IsSilent (next steps step) h =
    let (stopped, silent) = EngineSteps-IsSilent steps h in
    let (still, quiet) = EngineStep-IsSilent step stopped in
    (still, (quiet.0 ∙ silent.0, quiet.1 ∙ silent.1))

-- After the `stop` of an engine that was started, no timer, transport, fetch or further call of its
-- methods makes it deliver positions or an update.
pub stop_engine-IsSilent :
    (throttle_ms : ℕ) (s t : EngineState)
    → s.started ≡ true
    → EngineSteps throttle_ms (stop_engine s) t
    → IsSilent (stop_engine s) t
unfolding stop_engine stop
stop_engine-IsSilent throttle_ms s t begun steps =
    (EngineSteps-IsSilent steps (refl, refl, begun)).1
