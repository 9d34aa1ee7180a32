-- ===== src/Events/Replay/Run.antt =====
-- The loops of `replayEvents`, and the call itself.
use invofi.Prelude.{
  ℕ, zero, suc, ◌+◌, ◌-◌, Bool, true, false, Option, none, some, List, [], ltb, leb, min, max,
  if◌then◌else◌,
}
use invofi.Prelude.Result.{Result, ok, err, ◌>>=◌, ◌>>◌}
use invofi.Prelude.Sort.{sort_by}
use invofi.Events.{Decoded, ProtocolEvent}
use invofi.Events.Replay.{
  ReplayError, request_failed, ReplayEventsOptions, EventServer, or_option, value_or, checked_url,
  checked_from, checked_to, selected_ids, Replay, ReplayState, failed, window_done, next_page,
  read_page,
}

-- The inner loop.
unfoldable pub read_window :
    {S : Type 0}
    → Replay S
    → EventServer S
    → ℕ
    → ℕ
    → ℕ
    → Option (List ℕ)
    → ReplayState
    → Option (Result ReplayError ReplayState)
read_window r server window_start window_end zero cursor s = none
read_window r server window_start window_end (suc fuel) cursor s =
    elim (read_page r server window_start window_end cursor s) [
      | failed e ↦ some (err e)
      | window_done t ↦ some (ok t)
      | next_page next t ↦ read_window r server window_start window_end fuel (some next) t
    ]

-- The outer loop.
unfoldable pub read_windows :
    {S : Type 0}
    → Replay S
    → EventServer S
    → ℕ
    → ℕ
    → ℕ
    → ReplayState
    → Option (Result ReplayError ReplayState)
read_windows r server page_fuel zero window_start s = none
read_windows r server page_fuel (suc fuel) window_start s = elim (ltb r.target_to window_start) [
  | true ↦ some (ok s)
  | false ↦
      let window_end = min (window_start + r.batch_size - 1) r.target_to in
      elim (read_window r server window_start window_end page_fuel none s) [
        | none ↦ none
        | some (err e) ↦ some (err e)
        | some (ok t) ↦ read_windows r server page_fuel fuel (window_end + 1) t
      ]
]

abbrev pub by_ledger : ProtocolEvent → ProtocolEvent → Bool
by_ledger a b = leb a.ledger b.ledger

-- The events in the order of `onEvent`, and those returned.
pub record ReplayResult : Type 0 where
  pub delivered : List ProtocolEvent
  pub returned : List ProtocolEvent

abbrev pub nothing_replayed : ReplayResult
nothing_replayed = record { delivered = []; returned = [] }

abbrev pub finish_replay :
    Option (Result ReplayError ReplayState) → Option (Result ReplayError ReplayResult)
finish_replay none = none
finish_replay (some (err e)) = some (err e)
finish_replay (some (ok s)) =
    some (ok (record { delivered = s.all_events; returned = sort_by by_ledger s.all_events }))

abbrev pub replay_of : {S : Type 0} → (S → Option Decoded) → ReplayEventsOptions → ℕ → ℕ → Replay S
replay_of decode options from target_to = record {
  decode = decode;
  contract_ids = value_or (selected_ids options.contract_ids options.contract_id) [];
  allowed = value_or (or_option options.event_types options.event_type) (λ t. true);
  from = from;
  target_to = target_to;
  batch_size = max 1 (value_or options.batch_size_ledgers 1000);
  limit = value_or options.limit_per_page 200;
}

abbrev pub initial_replay : ReplayState
initial_replay = record { requests = 0; seen = []; all_events = [] }

abbrev pub replay_range :
    {S : Type 0} → Replay S → EventServer S → ℕ → ℕ → Option (Result ReplayError ReplayResult)
replay_range r server page_fuel fuel =
    finish_replay (read_windows r server page_fuel fuel r.from initial_replay)

-- `targetTo`, and what follows. The latest ledger, the last argument, is asked for if there is no
-- other end.
abbrev pub replay_until :
    {S : Type 0}
    → (S → Option Decoded)
    → ReplayEventsOptions
    → EventServer S
    → ℕ
    → ℕ
    → ℕ
    → Option ℕ
    → Option ℕ
    → Option (Result ReplayError ReplayResult)
replay_until decode options server page_fuel fuel from (some to) latest =
    replay_range (replay_of decode options from to) server page_fuel fuel
replay_until decode options server page_fuel fuel from none none = some (err request_failed)
replay_until decode options server page_fuel fuel from none (some latest) =
    if ltb latest from
    then some (ok nothing_replayed)
    else replay_range (replay_of decode options from latest) server page_fuel fuel

abbrev pub paired : ℕ → Result ReplayError (Option ℕ) → Result ReplayError (ℕ × Option ℕ)
paired from (ok to) = ok (from, to)
paired from (err e) = err e

-- The bounds that the options give.
unfoldable pub checked_range : ReplayEventsOptions → Result ReplayError (ℕ × Option ℕ)
checked_range options = do
  checked_url options.rpc_url
  from ← checked_from (or_option options.from (or_option options.from_ledger options.start_ledger))
  paired from
      (checked_to from (or_option options.to (or_option options.to_ledger options.end_ledger)))

abbrev pub replay_checked :
    {S : Type 0}
    → (S → Option Decoded)
    → ReplayEventsOptions
    → EventServer S
    → ℕ
    → ℕ
    → Result ReplayError (ℕ × Option ℕ)
    → Option (Result ReplayError ReplayResult)
replay_checked decode options server page_fuel fuel (err e) = some (err e)
replay_checked decode options server page_fuel fuel (ok (from, to)) =
    replay_until decode options server page_fuel fuel from to server.latest_ledger

unfoldable pub replay_events :
    {S : Type 0}
    → (S → Option Decoded)
    → ReplayEventsOptions
    → EventServer S
    → ℕ
    → ℕ
    → Option (Result ReplayError ReplayResult)
replay_events decode options server page_fuel fuel =
    replay_checked decode options server page_fuel fuel (checked_range options)
