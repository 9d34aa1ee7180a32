-- ===== src/Live/Engine/Runs.antt =====
-- All runs of the engine.
use invofi.Prelude.{
  ℕ, ◌+◌, ◌≡◌, refl, sym, subst, ◌∙◌, Bool, true, false, not, ◌||◌, Option, none, some, List, [],
  ◌∷◌, ◌==◌, if◌then◌else◌, arith, Bool-cases, inl, inr,
}
use invofi.Types.{FinancingOffer}
use invofi.Throttle.{create_per_key_throttle, stop}
use invofi.Live.Engine.{
  EngineState, new_engine, degrade_to_polling, resync, clear_in_flight, remove_fetch, settle_fetch,
  start_engine, yield_tick, tick_offers, stop_engine, includes_fetch, EngineStep, started_again,
  resynced, settled, degraded, updated, ticked, fired, passed, stopped_by, EngineSteps, here, next,
}
use invofi.Live.Engine.Single.{
  core, fire-stopped, send_update-core, tick_offers-core, Fetching, idle, flying, orphaned, over,
  IsSingle,
}

idle_fetches :
    {stopped in_flight : Bool} {generation : ℕ} {fetches : List ℕ}
    → Fetching stopped in_flight generation fetches
    → (stopped || in_flight) ≡ false
    → fetches ≡ []
idle_fetches (idle generation) h = refl
idle_fetches (flying generation) h = cc
idle_fetches (orphaned in_flight generation g lt) h = cc
idle_fetches (over in_flight generation) h = cc

settle_Fetching :
    {stopped in_flight : Bool} {generation : ℕ} {fetches : List ℕ} (g : ℕ)
    → Fetching stopped in_flight generation fetches
    → includes_fetch g fetches ≡ true
    → Fetching stopped
        (if g == generation then false else in_flight)
        generation
        (remove_fetch g fetches)
settle_Fetching g (idle generation) h = cc
settle_Fetching g (flying generation) h =
    let e : (generation == g) ≡ true = ground arith in
    let e' : (g == generation) ≡ true = ground arith in rw e (rw e' (idle generation))
settle_Fetching g (orphaned in_flight generation g' lt) h =
    let e : (g' == g) ≡ true = ground arith in
    let e' : (g == generation) ≡ false = ground arith in rw e (rw e' (over in_flight generation))
settle_Fetching g (over in_flight generation) h = cc

stop_Fetching :
    {stopped in_flight : Bool} {generation : ℕ} {fetches : List ℕ}
    → Fetching stopped in_flight generation fetches
    → Fetching true in_flight (generation + 1) fetches
stop_Fetching (idle generation) = over false (generation + 1)
stop_Fetching (flying generation) = orphaned true (generation + 1) generation (omega arith)
stop_Fetching (orphaned in_flight generation g lt) =
    orphaned in_flight (generation + 1) g (omega arith)
stop_Fetching (over in_flight generation) = over in_flight (generation + 1)

resync-IsSingle : (s : EngineState) → IsSingle (core s) → IsSingle (core (resync s))
unfolding resync
resync-IsSingle s h = elim (Bool-cases (s.stopped || s.resync_in_flight)) [
  | inl busy ↦ rw busy h
  | inr free ↦
      let running : s.stopped ≡ false = ground arith in
      let no_fetch : s.fetches ≡ [] = idle_fetches h.fetching free in
      rw free (record {
        transport = h.transport;
        begun = h.begun;
        throttled = h.throttled;
        fetching = rw (running, no_fetch) (flying (s.resync_generation + 1));
      })
]

degrade_to_polling-IsSingle :
    (s : EngineState) → IsSingle (core s) → IsSingle (core (degrade_to_polling s))
unfolding degrade_to_polling
degrade_to_polling-IsSingle s h = elim (Bool-cases (s.stopped || s.degraded_to_polling)) [
  | inl kept ↦ rw kept h
  | inr first ↦ rw first (record {
    transport = ground (arith, h.transport);
    begun = h.begun;
    throttled = h.throttled;
    fetching = h.fetching;
  })
]

module _ (g : ℕ) (s : EngineState) (known : includes_fetch g s.fetches ≡ true)
    (h : IsSingle (core s)) where
  cleared-IsSingle :
      (offers : List FinancingOffer) (positions : List (List FinancingOffer))
      → IsSingle (
          core (
            clear_in_flight g (record s {
              fetches = remove_fetch g s.fetches;
              latest_offers = offers;
              positions = positions;
            })))
  cleared-IsSingle offers positions =
      let now = settle_Fetching g h.fetching known in
      elim (Bool-cases (g == s.resync_generation)) [
        | inl latest ↦ rw latest (record {
          transport = h.transport;
          begun = h.begun;
          throttled = h.throttled;
          fetching = rw latest at now;
        })
        | inr earlier ↦ rw earlier (record {
          transport = h.transport;
          begun = h.begun;
          throttled = h.throttled;
          fetching = rw earlier at now;
        })
      ]

  settle_fetch-IsSingle :
      (answer : Option (List FinancingOffer)) → IsSingle (core (settle_fetch g answer s))
  unfolding settle_fetch
  settle_fetch-IsSingle none = cleared-IsSingle s.latest_offers s.positions
  settle_fetch-IsSingle (some offers) =
      elim (Bool-cases (s.stopped || not (g == s.resync_generation))) [
        | inl late ↦ rw late (cleared-IsSingle s.latest_offers s.positions)
        | inr taken ↦ rw taken (cleared-IsSingle offers (offers ∷ s.positions))
      ]

stop_engine-IsSingle : (s : EngineState) → IsSingle (core s) → IsSingle (core (stop_engine s))
unfolding stop_engine stop
stop_engine-IsSingle s h = record {
  transport = omega arith;
  begun = h.begun;
  throttled = refl;
  fetching = stop_Fetching h.fetching;
}

start_engine-started :
    (has_url : Bool) (s : EngineState) → s.started ≡ true → start_engine has_url s ≡ s
unfolding start_engine
start_engine-started has_url s h = rw h refl

either-core : (b : Bool) (s t : EngineState) → core t ≡ core s → core (if b then s else t) ≡ core s
either-core true s t e = refl
either-core false s t e = e

yield_tick-core : (throttle_ms : ℕ) (s : EngineState) → core (yield_tick throttle_ms s) ≡ core s
unfolding yield_tick
yield_tick-core throttle_ms s =
    either-core s.stopped s (tick_offers throttle_ms s.latest_offers s)
      (tick_offers-core throttle_ms s.latest_offers s)

EngineStep-IsSingle :
    {throttle_ms : ℕ} {s t : EngineState}
    → EngineStep throttle_ms s t
    → IsSingle (core s)
    → IsSingle (core t)
EngineStep-IsSingle (started_again s has_url) h =
    subst (λ t. IsSingle (core t)) (sym (start_engine-started has_url s h.begun)) h
EngineStep-IsSingle (resynced s) h = resync-IsSingle s h
EngineStep-IsSingle (settled s g answer known) h = settle_fetch-IsSingle g s known h answer
EngineStep-IsSingle (degraded s) h = degrade_to_polling-IsSingle s h
EngineStep-IsSingle {throttle_ms} (updated s update) h =
    subst IsSingle (sym (send_update-core throttle_ms update s)) h
EngineStep-IsSingle {throttle_ms} (ticked s) h =
    subst IsSingle (sym (yield_tick-core throttle_ms s)) h
EngineStep-IsSingle {throttle_ms} (fired s throttled) h = record {
  transport = h.transport;
  begun = h.begun;
  throttled = fire-stopped throttle_ms throttled s.throttle ∙ h.throttled;
  fetching = h.fetching;
}
EngineStep-IsSingle (passed s t) h = h
EngineStep-IsSingle (stopped_by s) h = stop_engine-IsSingle s h

EngineSteps-IsSingle :
    {throttle_ms : ℕ} {s t : EngineState}
    → EngineSteps throttle_ms s t
    → IsSingle (core s)
    → IsSingle (core t)
EngineSteps-IsSingle here h = h
EngineSteps-IsSingle (next steps step) h = EngineStep-IsSingle step (EngineSteps-IsSingle steps h)

start_engine-IsSingle :
    (has_url : Bool) (now : ℕ) → IsSingle (core (start_engine has_url (new_engine now)))
unfolding start_engine degrade_to_polling resync create_per_key_throttle
start_engine-IsSingle true now = record {
  transport = refl;
  begun = refl;
  throttled = refl;
  fetching = flying (0 + 1);
}
start_engine-IsSingle false now = record {
  transport = refl;
  begun = refl;
  throttled = refl;
  fetching = flying (0 + 1);
}

-- From its start the engine has exactly one transport until it is stopped, and none after that; and
-- it never has more than one fetch that is not settled, which is of the latest generation until the
-- stop, and of an earlier one after it.
pub engine-IsSingle :
    (throttle_ms now : ℕ) (has_url : Bool) (s : EngineState)
    → EngineSteps throttle_ms (start_engine has_url (new_engine now)) s
    → IsSingle (core s)
engine-IsSingle throttle_ms now has_url s steps =
    EngineSteps-IsSingle steps (start_engine-IsSingle has_url now)
