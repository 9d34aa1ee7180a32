-- ===== src/Throttle.antt =====
-- invofi/apps/frontend/src/lib/live/throttle.ts: the dispatcher that delivers at most one value per
-- key and interval. The closure's variables, the clock and the log of what `deliver` was called with,
-- the latest first, are the state; a timer is the time at which it is due. `deliver` does not call
-- the dispatcher.
pub mod Spacing
mod Tests
use invofi.Prelude.{
  ℕ, ◌+◌, String, Bool, true, false, Option, none, some, List, [], ◌∷◌, if◌then◌else◌, ◌≡◌, ◌≤◌,
}
use invofi.Prelude.Map.{Map, get, set, delete, has}

pub record Delivery (T : Type 0) : Type 0 where
  pub key : String
  pub value : T
  pub at : ℕ

pub record Throttle (T : Type 0) : Type 0 where
  pub pending : Map T
  pub timers : Map ℕ
  pub stopped : Bool
  pub now : ℕ
  pub delivered : List (Delivery T)

unfoldable pub create_per_key_throttle : {T : Type 0} → ℕ → Throttle T
create_per_key_throttle now = record {
  pending = [];
  timers = [];
  stopped = false;
  now = now;
  delivered = [];
}

abbrev pub deliver : {T : Type 0} → String → T → Throttle T → Throttle T
deliver key value s = record s {
  delivered = record { key = key; value = value; at = s.now } ∷ s.delivered;
}

unfoldable pub dispatch : {T : Type 0} → ℕ → String → T → Throttle T → Throttle T
dispatch interval key value s =
    if s.stopped
    then s
    else (if has key s.timers
        then record s { pending = set key value s.pending }
        else record (deliver key value s) { timers = set key (s.now + interval) s.timers })

-- The callback of a timer.
unfoldable pub fire : {T : Type 0} → ℕ → String → Throttle T → Throttle T
fire interval key s = elim (get key s.pending) [
  | none ↦ record s { timers = delete key s.timers }
  | some latest ↦
      dispatch interval key latest
        (record s { timers = delete key s.timers; pending = delete key s.pending })
]

unfoldable pub deliver_all : {T : Type 0} → Map T → Throttle T → Throttle T
deliver_all [] s = s
deliver_all ((key, value) ∷ pending) s = deliver_all pending (deliver key value s)

unfoldable pub flush : {T : Type 0} → Throttle T → Throttle T
flush s = if s.stopped then s else deliver_all s.pending (record s { timers = []; pending = [] })

unfoldable pub stop : {T : Type 0} → Throttle T → Throttle T
stop s = record s { stopped = true; timers = []; pending = [] }

-- What happens between two flushes: calls, timers that fire when they are due or later, the passing
-- of time, and a stop.
pub data Step {T : Type 0} (interval : ℕ) : Throttle T → Throttle T → Type 0 where
  calling :
      (key : String) (value : T) (s : Throttle T) → Step interval s (dispatch interval key value s)
  firing :
      (key : String) (due : ℕ) (s : Throttle T)
      → get key s.timers ≡ some due
      → due ≤ s.now
      → Step interval s (fire interval key s)
  waiting : (t : ℕ) (s : Throttle T) → Step interval s (record s { now = s.now + t })
  stopping : (s : Throttle T) → Step interval s (stop s)

pub data Steps {T : Type 0} (interval : ℕ) : Throttle T → Throttle T → Type 0 where
  done : (s : Throttle T) → Steps interval s s
  next : (s t u : Throttle T) → Steps interval s t → Step interval t u → Steps interval s u
