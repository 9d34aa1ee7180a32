-- ===== src/Keeper/Daemon.antt =====
-- The daemon of the keeper and its entry point: `runEventDrivenDaemon`, `parseKeeperMode`, `main`.
-- The ledger that a flag or the environment asks for is a parameter, and the daemon runs for a given
-- number of rounds, after which it is shut down.
use invofi.Prelude.{
  ℕ, zero, suc, ◌+◌, ◌-◌, String, Bool, true, false, not, ◌&&◌, ◌||◌, Option, none, some, List, [],
  ◌∷◌, ltb, leb, ◌==◌, max, if◌then◌else◌,
}
use invofi.Prelude.Text.{codes}
use invofi.Prelude.Result.{Result, ok, err}
use invofi.Validation.{split}
use invofi.Keeper.{
  Failure, missing_contracts, missing_financing, missing_secret, Task, return, throw, after, ◌>>=◌,
  Chain, Config, ensure_account,
}
use invofi.Keeper.Sweep.{Tally, run_full_sweep}
use invofi.Keeper.Events.{PollResult, poll_events_once}

pub data KeeperMode : Type 0 where
  event_driven event_catchup sweep : KeeperMode

abbrev pub same_text : List ℕ → List ℕ → Bool
same_text [] [] = true
same_text (c ∷ s) (d ∷ t) = c == d && same_text s t
same_text _ _ = false

abbrev pub starts_with : List ℕ → List ℕ → Bool
starts_with [] s = true
starts_with (c ∷ p) [] = false
starts_with (c ∷ p) (d ∷ s) = c == d && starts_with p s

unfoldable pub mode_of_text : List ℕ → Option KeeperMode
mode_of_text s =
    if same_text s (codes "event-driven")
    then some event_driven
    else (if same_text s (codes "event-catchup")
        then some event_catchup
        else (if same_text s (codes "sweep") then some sweep else none))

-- `arg.split('=')[1]`
abbrev pub second_part : List (List ℕ) → List ℕ
second_part (a ∷ b ∷ parts) = b
second_part _ = []

abbrev pub mode_of_arg : List ℕ → Option KeeperMode
mode_of_arg arg =
    if starts_with (codes "--mode=") arg then mode_of_text (second_part (split b'=' arg)) else none

-- The first argument that names a mode, or else the environment, or else a sweep.
unfoldable pub parse_keeper_mode : List (List ℕ) → Option (List ℕ) → KeeperMode
parse_keeper_mode [] none = sweep
parse_keeper_mode [] (some env) = elim (mode_of_text env) [ some mode ↦ mode | none ↦ sweep ]
parse_keeper_mode (arg ∷ args) env = elim (mode_of_arg arg) [
  | some mode ↦ mode
  | none ↦ parse_keeper_mode args env
]

-- The variables of the daemon's loop.
pub record DaemonState : Type 0 where
  pub current_ledger : ℕ
  pub last_sweep_time : ℕ
  pub consecutive_failures : ℕ

abbrev pub with_ledger : ℕ → DaemonState → DaemonState
with_ledger ledger d = record {
  current_ledger = ledger;
  last_sweep_time = d.last_sweep_time;
  consecutive_failures = 0;
}

abbrev pub count_failure : DaemonState → DaemonState
count_failure d = record {
  current_ledger = d.current_ledger;
  last_sweep_time = d.last_sweep_time;
  consecutive_failures = d.consecutive_failures + 1;
}

abbrev pub swept_at : ℕ → DaemonState → DaemonState
swept_at now d = record {
  current_ledger = d.current_ledger;
  last_sweep_time = now;
  consecutive_failures = d.consecutive_failures;
}

module _ {W S N X : Type 0} (config : Config) (chain : Chain W S N X) (fuel : ℕ)
    (has_contracts : Bool) where
  -- The recovery by a health check: the cursor is moved only if the ledgers below are gone.
  unfoldable pub recover_cursor : DaemonState → Result Failure (Option ℕ) × W → DaemonState × W
  recover_cursor d (err e, w) = (d, w)
  recover_cursor d (ok none, w) = (with_ledger d.current_ledger d, w)
  recover_cursor d (ok (some oldest), w) =
      if ltb d.current_ledger oldest
      then (with_ledger oldest d, chain.save_checkpoint oldest w)
      else (with_ledger d.current_ledger d, w)

  unfoldable pub poll_failed : DaemonState → W → DaemonState × W
  poll_failed d w =
      let d' = count_failure d in
      if leb 3 d'.consecutive_failures
      then recover_cursor d' (chain.get_oldest_ledger w)
      else (d', w)

  unfoldable pub poll_done : DaemonState → Result Failure PollResult × W → DaemonState × W
  poll_done d (ok res, w) = (with_ledger res.next_ledger d, w)
  poll_done d (err e, w) = poll_failed d w

  -- The world after a sweep whose failure is only logged.
  abbrev pub fallback_sweep : DaemonState × W → DaemonState × W
  fallback_sweep (d, w) =
      if leb (d.last_sweep_time + config.fallback_sweep_interval_ms) (chain.date_now w)
      then (let w' = (run_full_sweep config chain w).1 in (swept_at (chain.date_now w') d, w'))
      else (d, w)

  -- One round of the loop.
  unfoldable pub daemon_round : DaemonState × W → DaemonState × W
  daemon_round (d, w) =
      let (d', w') =
        fallback_sweep
          (poll_done d (poll_events_once chain fuel has_contracts d.current_ledger w)) in
      (d', chain.sleep config.event_poll_interval_ms w')

  unfoldable pub daemon_rounds : ℕ → DaemonState × W → DaemonState × W
  daemon_rounds zero s = s
  daemon_rounds (suc n) s = daemon_rounds n (daemon_round s)

  -- The flag's ledger, or else the checkpoint, or else none.
  abbrev pub resume_ledger : Option ℕ → W → Option ℕ
  resume_ledger (some ledger) w = some ledger
  resume_ledger none w = chain.load_checkpoint w

  unfoldable pub initial_ledger : Option ℕ → Task W ℕ
  initial_ledger (some ledger) = return ledger
  initial_ledger none =
      chain.get_latest_ledger >>= λ latest w. (ok latest, chain.save_checkpoint latest w)

  unfoldable pub run_event_driven_daemon : ℕ → Option ℕ → Task W DaemonState
  run_event_driven_daemon rounds start w =
      after (initial_ledger (resume_ledger start w) w) (λ ledger.
        run_full_sweep config chain >>= λ _ w'.
        let begin : DaemonState = record {
          current_ledger = ledger;
          last_sweep_time = chain.date_now w';
          consecutive_failures = 0;
        } in
        let (d, w'') = daemon_rounds rounds (begin, w') in (ok d, w''))

  unfoldable pub catchup_ledger : Option ℕ → Task W ℕ
  catchup_ledger (some ledger) = return ledger
  catchup_ledger none = chain.get_latest_ledger >>= λ latest. return (max 1 (latest - 1000))

  unfoldable pub run_catchup : Option ℕ → Task W Tally
  run_catchup start w = after (catchup_ledger (resume_ledger start w) w) (λ ledger.
      poll_events_once chain fuel has_contracts ledger >>= λ _. run_full_sweep config chain)

-- Which variables of the environment are set.
pub record Environment : Type 0 where
  pub registry_id : Bool
  pub repayment_id : Bool
  pub financing_id : Bool
  pub secret_key : Bool

abbrev pub is_event_mode : KeeperMode → Bool
is_event_mode sweep = false
is_event_mode _ = true

abbrev pub done : {W A : Type 0} → A → Task W (Unit {0})
done a w = (ok tt, w)

module _ {W S N X : Type 0} (config : Config) (chain : Chain W S N X) (fuel rounds : ℕ) where
  unfoldable pub run_mode : Environment → Option ℕ → KeeperMode → Task W (Unit {0})
  run_mode env start event_driven =
      run_event_driven_daemon config chain fuel (env.registry_id || env.financing_id) rounds start
      >>= done
  run_mode env start event_catchup =
      run_catchup config chain fuel (env.registry_id || env.financing_id) start >>= done
  run_mode env start sweep = run_full_sweep config chain >>= done

  unfoldable pub main : Environment → String → Option ℕ → KeeperMode → Task W (Unit {0})
  main env account start mode =
      if not (env.registry_id && env.repayment_id)
      then throw missing_contracts
      else (if is_event_mode mode && not env.financing_id
          then throw missing_financing
          else (if not env.secret_key
              then throw missing_secret
              else (ensure_account chain config account >>= λ _. run_mode env start mode)))
