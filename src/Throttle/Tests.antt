-- ===== src/Throttle/Tests.antt =====
-- A run of the dispatcher, and an instance of the theorem at it.
use invofi.Prelude.{ℕ, ◌+◌, ◌≡◌, refl, false, [], ◌∷◌, arith}
use invofi.Prelude.Map.{get, set, delete}
use invofi.Throttle.{
  Throttle, create_per_key_throttle, dispatch, fire, flush, deliver_all, done, next, calling,
  firing, waiting,
}
use invofi.Throttle.Spacing.{IsSpaced, deliveries-IsSpaced}

abbrev start : Throttle ℕ
start = create_per_key_throttle 0

abbrev called : Throttle ℕ
called = dispatch 1000 "a" 3 (dispatch 1000 "a" 2 (dispatch 1000 "a" 1 start))

abbrev waited : Throttle ℕ
waited = record called { now = called.now + 1200 }

-- The first value is delivered at once, the second is replaced, and the third comes with the timer.
fire_run : fire 1000 "a" waited ≡ record {
  pending = [];
  timers = ("a", 2200) ∷ [];
  stopped = false;
  now = 1200;
  delivered =
      record { key = "a"; value = 3; at = 1200 } ∷ record { key = "a"; value = 1; at = 0 } ∷ [];
}
unfolding fire dispatch create_per_key_throttle get set delete
fire_run = refl

-- A flush delivers what is pending within the interval.
flush_run :
    (flush called).delivered
    ≡ record { key = "a"; value = 3; at = 0 } ∷ record { key = "a"; value = 1; at = 0 } ∷ []
unfolding flush deliver_all dispatch create_per_key_throttle get set
flush_run = refl

deliveries-IsSpaced_example : IsSpaced 1000 (fire 1000 "a" waited).delivered
unfolding dispatch create_per_key_throttle get set
deliveries-IsSpaced_example = deliveries-IsSpaced 1000 0 (fire 1000 "a" waited) (
    next start waited (fire 1000 "a" waited)
      (next start called waited
        (next start (dispatch 1000 "a" 2 (dispatch 1000 "a" 1 start)) called
          (next start (dispatch 1000 "a" 1 start) (dispatch 1000 "a" 2 (dispatch 1000 "a" 1 start))
            (next start start (dispatch 1000 "a" 1 start) (done start) (calling "a" 1 start))
            (calling "a" 2 (dispatch 1000 "a" 1 start)))
          (calling "a" 3 (dispatch 1000 "a" 2 (dispatch 1000 "a" 1 start))))
        (waiting 1200 called))
      (firing "a" 1000 waited refl (omega arith)))
