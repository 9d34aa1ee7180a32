-- ===== src/Lib.antt =====
-- InvoFi: invoice financing on Stellar. The development models the protocol's client-side core.
--
-- Prelude passes on the library's names, and adds integers over native naturals, the JavaScript
-- `Map` (an association list in insertion order), texts as code points, and results.
--
-- Validation models invofi/apps/sdk/src/validation.ts: the `validate*` checks of a dynamic
-- JavaScript value, `validateX` as `validate_x`. A failed check is a `Result` error with its code
-- and field. Types models types.ts.
--
-- MockClient models the client that `createMockClient` of invofi/apps/sdk/src/mock.ts returns.
-- The closure's variables are the record `State` (MockClient/Store); a method is a function from a
-- state to a result and a state, written in the order of the source: validation, injected failure,
-- lookups, guards, writes, event. Registry, Financing, Repayment, Tokens and Testing hold the
-- methods, Fixtures the seeds, and Requests one type for calls, so that sessions can be stated.
-- Effects, Creation, Refusals and Transfers give the behaviour of the branches; Atomic, Invariant,
-- Preserved and Sessions the invariant. A `bigint` is an integer; a `number` that the source checks
-- to be an integer is one too; `Date.now()` is an argument. Injected failures that are sticky are
-- rules without a count.
--
-- Version and Upgrade model version.ts and upgrade.ts of the SDK: semantic versions, the table of
-- known upgrades, migration and rollback plans, notifications and the check of a target. A throw is
-- `none`; `localeCompare` is a parameter; version numbers are natural numbers, which agrees with
-- the source's floating-point numbers below 2 ^ 53.
--
-- RateLimit models invofi/apps/frontend/src/lib/rate-limit.ts, whose module-level `buckets` is the
-- state. Live models yield.ts and reducer.ts of invofi/apps/frontend/src/lib/live, with the offers of
-- Types; Live/Yield compares its amounts with those of MockClient/Repayment. Throttle models
-- throttle.ts there, with its timers as a relation of steps, and Pagination
-- invofi/apps/frontend/src/lib/pagination.ts.
--
-- Amounts models the amounts of invofi/apps/frontend/src/lib/utils.ts and of live/convert.ts there:
-- an amount is a bigint, a number, a text (its code points) or missing. Amounts/Decimal has the
-- language's `BigInt(text)` and `toString`; Amounts/RoundTrip and Amounts/Wire the round trips. The
-- scale is the power of ten, which the source's `BigInt(10 ** decimals)` is up to 22 decimals.
--
-- Live/Wire and Live/Relay model live/transports.ts: `decodeEnvelope`, and the relay client of
-- `createWebSocketTransport`, whose closure's variables are `RelayState`. Its handlers and timers are
-- the steps `RelayStep`, in any order; Live/Relay/Pending and Live/Relay/Stopped are about all runs.
-- Live/Engine models live/engine.ts in the same way over the throttle of Throttle: its methods and the
-- callbacks of its timers, transports and fetches are the steps `EngineStep`.
--
-- Keeper models invofi/scripts/keeper.ts over a record `Chain` of the calls of the Stellar SDK, the
-- clock and the checkpoint file, on an arbitrary world: `runFullSweep` is `run_full_sweep` of
-- Keeper/Sweep, `pollEventsOnce` is `poll_events_once` of Keeper/Events, and Keeper/Daemon has the
-- loop of the daemon and `main`. A call returns or throws (`Task`). Keeper/Polling and
-- Keeper/Cursor prove what a poll and the daemon do, Keeper/Clock that the readings of the clock agree.
--
-- Indexer models invofi/apps/indexer/src: `foldEvent` is `fold_event`, the replay loop of `main` is
-- `replay_pages`, `fetchEventsFromRange` of chain.ts is `fetch_events_from_range`, and a run of `main`
-- is `run_indexer`, whose result is the row that it saves. The RPC server is a record of functions.
--
-- Events models invofi/apps/sdk/src/events.ts: Events/Decode has `extractString` to `decodeEvent`, and
-- Events/Listener `listenToEvents`, whose closure's variables are `ListenerState` and whose runs are
-- the relation `Run`: a timer fires, the calls of a poll are answered, or the listener is stopped, in
-- any order. Events/Timers and Events/Order are about all runs. Events/Replay has `replayEvents`: a round
-- of its inner loop is `read_page`, its loops are `read_window` and `read_windows` of Events/Replay/Run,
-- and Prelude/Sort is the stable sort. Its server answers each request as it likes.
--
-- Timeline models apps/frontend/src/lib/invoiceEvents.ts: `toTimelineEntries` is `to_timeline_entries`,
-- and `fetchInvoiceEvents` is `fetch_invoice_events` of Timeline/Fetch.
--
-- Cache models apps/sdk/src/cache.ts, for one scope: the object store and the total of the meta store
-- are `CacheState`, its methods functions of it, and `perform_all` of Cache/Sizes a sequence of calls.
-- `staleWhileRevalidate` is a read and, when the fetch has an answer, `refresh`.
--
-- Multisig and Reminders (apps/frontend/src/lib/multisig.ts and reminders/schedule.ts). Multisig is the
-- threshold above which a transaction needs several signatures, the progress of its approvals and its
-- expiry; it takes its amounts by Amounts. Reminders is the daily schedule. The thresholds of
-- constants.ts are a parameter, and times are numbers.
--
-- Recursion is structural, on lists, texts and counters, but for the digits of a number, on `Acc`,
-- and `while (true)` of `pollEventsOnce`, on fuel: a round for every hundred events and one more are
-- enough. `replayEvents` takes fuel for the pages of a window, one more than the server's events have
-- keys, and for its windows, one for each ledger and two more. The page limits of the sweep and of the indexer are counters of the source.
--
-- Not modelled: the texts of messages, the order in which promises settle, that a call may read the clock
-- twice, that a record which the
-- mock client returns is the object it stores, the RPC client and the simulation and escrow of
-- the SDK, the detection of deployed versions, the floating-point fields of a live position,
-- the user interface, the database and authentication adapters, and the I/O of the scripts and of the
-- indexer: they are calls of third-party libraries and services, or numbers that the theorems do not
-- speak of.
pub mod Amounts
pub mod Cache
pub mod Events
pub mod Indexer
pub mod Keeper
pub mod Live
pub mod MockClient
pub mod Multisig
pub mod Pagination
pub mod Prelude
pub mod RateLimit
pub mod Reminders
pub mod Throttle
pub mod Timeline
pub mod Types
pub mod Upgrade
pub mod Validation
pub mod Version
