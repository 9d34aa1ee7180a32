-- ===== src/Events/Timers.antt =====
-- The timers of the listener.
use invofi.Prelude.{
  ◌<◌, ℕ, ◌+◌, ◌-◌, ◌*◌, ◌^◌, ◌≤◌, ◌≡◌, refl, Bool, true, false, Option, none, some, List, min,
  if◌then◌else◌, arith, Bool-cases, inl, inr,
}
use invofi.Events.{ProtocolEvent}
use invofi.Events.Listener.{
  ListenOptions, ListenerState, PollOutcome, poll, next_retry_ms, schedule_next, settle_poll, Run,
  started, fired, answered, stopped_by,
}
use native.Mathlib.Nat.{pow-le-pow_right, mul-le-mul_left}

-- The longest wait between two polls.
abbrev pub longest_wait : {S : Type 0} → ListenOptions S → ℕ
longest_wait options = options.poll_interval_ms * 2 ^ (options.max_retries - 1)

-- No timer is set, or one of a delay that is not too long, by a listener that runs and is between
-- two polls.
abbrev pub IsTimed : ℕ → ListenerState → Option ℕ → Type 0
IsTimed longest s none = Unit
IsTimed longest s (some delay) = (delay ≤ longest) × (s.stopped ≡ false) × (s.in_flight ≡ false)

power_lem : (f m : ℕ) → 2 ^ (min f m - 1) ≤ 2 ^ (m - 1)
power_lem f m =
    pow-le-pow_right (let e : 0 < 2 = omega arith in e)
      (let e : min f m - 1 ≤ m - 1 = omega arith in e)

module _ {S : Type 0} (options : ListenOptions S) where
  retry_lem : (failures : ℕ) → next_retry_ms options failures ≤ longest_wait options
  retry_lem failures =
      mul-le-mul_left options.poll_interval_ms (power_lem failures options.max_retries)

  interval_lem : options.poll_interval_ms ≤ longest_wait options
  interval_lem =
      let one_up : 2 ^ 0 ≤ 2 ^ (options.max_retries - 1) =
        pow-le-pow_right (let e : 0 < 2 = omega arith in e)
          (let e : 0 ≤ options.max_retries - 1 = omega arith in e) in
      let e : options.poll_interval_ms * 1 ≡ options.poll_interval_ms = omega arith in
      omega (arith, e, mul-le-mul_left options.poll_interval_ms one_up)

  wait_lem :
      (threw : Bool) (failures : ℕ)
      → (if threw then next_retry_ms options failures else options.poll_interval_ms)
        ≤ longest_wait options
  wait_lem true failures = retry_lem failures
  wait_lem false failures = interval_lem

  schedule_next-IsTimed :
      (delay : ℕ) (s : ListenerState)
      → delay ≤ longest_wait options
      → s.in_flight ≡ false
      → IsTimed (longest_wait options) (schedule_next delay s) ((schedule_next delay s).poll_timer)
  schedule_next-IsTimed delay s short idle = elim (Bool-cases s.stopped) [
    | inl e ↦ rw e tt
    | inr e ↦ rw e (short, refl, idle)
  ]

  settle_poll-IsTimed :
      (outcome : PollOutcome) (s : ListenerState)
      → IsTimed
          (longest_wait options)
          (settle_poll options outcome s)
          ((settle_poll options outcome s).poll_timer)
  settle_poll-IsTimed outcome s =
      let failures = if outcome.delivery.threw then s.consecutive_failures + 1 else 0 in
      schedule_next-IsTimed
        (if outcome.delivery.threw
          then next_retry_ms options failures
          else options.poll_interval_ms)
        (record {
          stopped = s.stopped;
          in_flight = false;
          consecutive_failures = failures;
          current_ledger = outcome.next_ledger;
          poll_timer = s.poll_timer;
        })
        (wait_lem outcome.delivery.threw failures) refl

-- At any point of any run, a timer that is set waits no longer than the interval times two to the
-- power of one less than maxRetries, and no poll is in flight and the listener is not stopped: polls
-- do not overlap, the back-off is bounded, and once it is stopped no poll starts.
pub poll_timer-IsTimed :
    {S : Type 0} (options : ListenOptions S) (start_ledger : Option ℕ) (s : ListenerState)
    (ds : List (List ProtocolEvent))
    → Run options start_ledger s ds
    → IsTimed (longest_wait options) s s.poll_timer
poll_timer-IsTimed options start_ledger s ds started = (omega arith, refl, refl)
poll_timer-IsTimed options start_ledger s ds (fired delay run set_timer) = tt
poll_timer-IsTimed options start_ledger s ds (answered {s = s'} answer run flying) =
    settle_poll-IsTimed options (poll options s'.current_ledger answer) s'
poll_timer-IsTimed options start_ledger s ds (stopped_by run) = tt
