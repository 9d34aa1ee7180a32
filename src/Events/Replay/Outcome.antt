-- ===== src/Events/Replay/Outcome.antt =====
-- A replay ends, and what it returns.
use mathlib.Core.List.{Perm}
use mathlib.Core.List.Perm
use invofi.Prelude.{
  ℕ, ◌+◌, ◌≤◌, ◌<◌, ◌≡◌, refl, sym, subst, Option, none, some, List, [], length, ltb, All, arith,
  Bool-cases, inl, inr,
}
use invofi.Prelude.Int.{pos, negsuc}
use invofi.Prelude.Result.{Result, ok, err, ◌>>=◌}
use invofi.Prelude.Sort.{IsOrdered, IsSorted-IsOrdered, sort_by-perm, All-sort_by, sort_by-IsSorted}
use invofi.Events.{Decoded}
use invofi.Events.Replay.{
  LedgerNumber, integer, other_number, Replay, ReplayError, ReplayEventsOptions, EventServer,
  RawEvent, ReplayState, or_option, checked_to, checked_from, checked_url,
}
use invofi.Events.Replay.Run.{
  read_windows, by_ledger, ReplayResult, finish_replay, replay_of, replay_range, initial_replay,
  paired, checked_range, replay_checked, replay_until, replay_events,
}
use invofi.Events.Replay.Pages.{
  unseen-nil, IsSelected, HasDistinctKeys, decoded_events, Kept-nothing,
}
use invofi.Events.Replay.Loops.{Returns, IsFinite, Grows, read_windows-Returns}

checked_to-le :
    (from to : ℕ) (n : Option LedgerNumber) → checked_to from n ≡ ok (some to) → from ≤ to
checked_to-le from to none h = cc
checked_to-le from to (some (integer (pos n))) h = ground arith
checked_to-le from to (some (integer (negsuc n))) h = cc
checked_to-le from to (some other_number) h = cc

paired-le :
    (u : Result ReplayError (Unit {0})) (f : Result ReplayError ℕ) (n : Option LedgerNumber)
    (from to : ℕ)
    → (u >>= λ _. f >>= λ start. paired start (checked_to start n)) ≡ ok (from, some to)
    → from ≤ to
paired-le (err e) f n from to h = cc
paired-le (ok _) (err e) n from to h = cc
paired-le (ok _) (ok start) n from to h = ground (arith, checked_to-le start to n)

-- A range that is accepted is not empty.
checked_range-le :
    (options : ReplayEventsOptions) (from to : ℕ)
    → checked_range options ≡ ok (from, some to)
    → from ≤ to
unfolding checked_range
checked_range-le options from to h =
    paired-le (checked_url options.rpc_url)
      (checked_from (or_option options.from (or_option options.from_ledger options.start_ledger)))
      (or_option options.to (or_option options.to_ledger options.end_ledger)) from to h

-- The events that are returned are those that were delivered, in the order of their ledgers, each of
-- them asked for; those delivered are what raw events of different keys decode to.
abbrev pub IsReplayOf : {S : Type 0} → Replay S → List (List ℕ) → ReplayResult → Type 0
IsReplayOf {S} r keys out =
    IsOrdered (λ a b. a.ledger ≤ b.ledger) out.returned
    × Perm out.returned out.delivered
    × All (IsSelected r) out.returned
    × (length out.delivered ≤ length keys)
    × ((taken : List (RawEvent S)) × (out.delivered ≡ decoded_events r taken)
        × HasDistinctKeys taken)

module _ {S : Type 0} (r : Replay S) (keys : List (List ℕ)) where
  finish-IsReplayOf :
      (o : Option (Result ReplayError ReplayState))
      → Returns (Grows r keys initial_replay) o
      → Returns (IsReplayOf r keys) (finish_replay o)
  finish-IsReplayOf none h = h
  finish-IsReplayOf (some (err e)) h = tt
  finish-IsReplayOf (some (ok s)) h = (
    IsSorted-IsOrdered by_ledger (λ a b. a.ledger ≤ b.ledger) (λ x y p. ground arith) _
        (sort_by-IsSorted by_ledger (λ x y p. ground arith) (λ x y z p q. ground arith)
          s.all_events),
    sort_by-perm by_ledger s.all_events,
    All-sort_by by_ledger (IsSelected r) s.all_events h.2.0,
    omega (arith, h.1, unseen-nil keys),
    (let (taken, (seen, collected, distinct)) = h.2.1 in (taken, collected, distinct)),
  )

  replay_range-Returns :
      (server : EventServer S) (page_fuel fuel : ℕ)
      → IsFinite keys server
      → 0 < r.batch_size
      → length keys < page_fuel
      → r.from ≤ r.target_to + 1
      → r.target_to + 1 < r.from + fuel
      → Returns (IsReplayOf r keys) (replay_range r server page_fuel fuel)
  replay_range-Returns server page_fuel fuel finite positive enough near rounds =
      finish-IsReplayOf (read_windows r server page_fuel fuel r.from initial_replay) (
        read_windows-Returns r keys server finite page_fuel fuel r.from initial_replay positive
          (omega (arith, unseen-nil keys, enough)) near rounds (Kept-nothing r))

module _ {S : Type 0} (decode : S → Option Decoded) (options : ReplayEventsOptions)
    (server : EventServer S) (keys : List (List ℕ)) (page_fuel fuel from target : ℕ)
    (finite : IsFinite keys server) (enough : length keys < page_fuel)
    (rounds : target + 1 < from + fuel) where
  replayed :
      (target' : ℕ)
      → target' ≡ target
      → from ≤ target'
      → Returns
          (IsReplayOf (replay_of decode options from target) keys)
          (replay_range (replay_of decode options from target') server page_fuel fuel)
  replayed target' e near =
      subst
        (λ t.
          Returns (IsReplayOf (replay_of decode options from target) keys)
            (replay_range (replay_of decode options from t) server page_fuel fuel))
        (sym e)
        (replay_range-Returns (replay_of decode options from target) keys server page_fuel fuel
          finite (omega arith) enough (omega arith) rounds)

  replay_until-Returns :
      (to latest : Option ℕ)
      → checked_range options ≡ ok (from, to)
      → or_option to latest ≡ some target
      → Returns
          (IsReplayOf (replay_of decode options from target) keys)
          (replay_until decode options server page_fuel fuel from to latest)
  unfolding decoded_events
  replay_until-Returns (some to) latest given last =
      replayed to (ground arith) (checked_range-le options from to given)
  replay_until-Returns none none given last = cc
  replay_until-Returns none (some latest) given last = elim (Bool-cases (ltb latest from)) [
    | inl before ↦ rw before (tt, Perm.refl [], tt, omega arith, ([], refl, tt))
    | inr after ↦ rw after (replayed latest (ground arith) (ground arith))
  ]

  replay_events-Returns :
      (to : Option ℕ)
      → checked_range options ≡ ok (from, to)
      → or_option to server.latest_ledger ≡ some target
      → Returns
          (IsReplayOf (replay_of decode options from target) keys)
          (replay_events decode options server page_fuel fuel)
  unfolding replay_events
  replay_events-Returns to given last =
      rw (given, replay_checked) (replay_until-Returns to server.latest_ledger given last)

Returns-ends :
    {E A : Type 0} (P : A → Type 0) (o : Option (Result E A))
    → Returns P o
    → (result : Result E A) × (o ≡ some result)
Returns-ends P none h = absurd h
Returns-ends P (some result) h = (result, refl)

module _ {S : Type 0} (decode : S → Option Decoded) (options : ReplayEventsOptions)
    (server : EventServer S) (keys : List (List ℕ)) (page_fuel fuel from target : ℕ)
    (finite : IsFinite keys server) (enough : length keys < page_fuel)
    (rounds : target + 1 < from + fuel) (to : Option ℕ)
    (given : checked_range options ≡ ok (from, to))
    (last : or_option to server.latest_ledger ≡ some target) where
  -- If the keys of all events that the server gives stand in a list, then a replay ends: a window
  -- takes at most one page more than there are keys, whatever the server answers and however its
  -- cursors go, and there is at most one window for each ledger from the first to the last.
  pub replay_events_ends :
      (result : Result ReplayError ReplayResult) × (replay_events decode options server page_fuel
          fuel
        ≡ some result)
  replay_events_ends =
      Returns-ends (IsReplayOf (replay_of decode options from target) keys)
        (replay_events decode options server page_fuel fuel)
        (replay_events-Returns decode options server keys page_fuel fuel from target finite enough
          rounds to given last)
