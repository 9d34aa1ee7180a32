-- ===== src/Keeper.antt =====
-- invofi/scripts/keeper.ts: the keeper, which marks invoices overdue and extends their storage.
-- The Stellar SDK, the clock and the checkpoint file are the operations of a record `Chain` over a
-- world `W`: they are parameters. Keeper/Sweep has the sweep of the registry, Keeper/Events the
-- processing of events, Keeper/Daemon the daemon and the entry point. Log lines are left out.
pub mod Sweep
pub mod Events
pub mod Daemon
pub mod Tasks
pub mod Clock
pub mod Polling
pub mod Cursor
mod Tests
use invofi.Prelude.{
  ℕ, zero, suc, ◌+◌, ◌/◌, String, Bool, true, false, Option, none, some, List, [], ◌∷◌, ltb, ◌==◌,
  str_eq, if◌then◌else◌,
}
use invofi.Prelude.Int.{ℤ, pos, negsuc}
use invofi.Prelude.Text.{codes}
use invofi.Prelude.Result.{Result, ok, err}
use invofi.RateLimit.{trim_start}
use invofi.Version.{digits_value, span_digits}
use invofi.Amounts.Decimal.{neg}

-- What is thrown: `rpc_failure` by a call of the SDK, `out_of_fuel` by no code.
pub data Failure : Type 0 where
  rpc_failure sim_failure not_testnet friendbot_failed not_visible missing_contracts : Failure
  missing_financing missing_secret out_of_fuel : Failure

-- A call that changes the world, and returns or throws.
abbrev pub Task : Type 0 → Type 0 → Type 0
Task W A = W → Result Failure A × W

module _ {W : Type 0} where
  abbrev pub after : {A B : Type 0} → Result Failure A × W → (A → Task W B) → Result Failure B × W
  after (ok a, w) f = f a w
  after (err e, w) f = (err e, w)

  abbrev pub return : {A : Type 0} → A → Task W A
  return a w = (ok a, w)

  abbrev pub throw : {A : Type 0} → Failure → Task W A
  throw e w = (err e, w)

  -- `try { return await m } catch { return a }`
  abbrev pub recover : {A : Type 0} → A → Result Failure A × W → Result Failure A × W
  recover a (ok b, w) = (ok b, w)
  recover a (err e, w) = (ok a, w)

  -- `try { return await m } catch { return await k }`
  abbrev pub or_else : {A : Type 0} → Result Failure A × W → Task W A → Result Failure A × W
  or_else (ok a, w) k = (ok a, w)
  or_else (err e, w) k = k w

  infixl 5 ◌>>=◌
  abbrev pub ◌>>=◌ : {A B : Type 0} → Task W A → (A → Task W B) → Task W B
  (m >>= f) w = after (m w) f

-- `status` as the contract's value decodes: a number, or a text. A text that names an inherited
-- property of an object is not distinguished from other unknown texts.
pub data StatusValue : Type 0 where
  num : ℤ → StatusValue
  name : String → StatusValue

-- The fields of an invoice that the keeper reads. The keys `due_date` and `dueDate` may be absent.
pub record InvoiceDetails : Type 0 where
  pub id : String
  pub status : StatusValue
  pub due_date : Option ℤ
  pub due_date_camel : Option ℤ

pub data Simulated (A : Type 0) : Type 0 where
  sim_error no_value : Simulated A
  value : A → Simulated A

-- The answer to a transaction that was sent: `pending` with its hash.
pub data SendStatus : Type 0 where
  error duplicate : SendStatus
  pending : String → SendStatus

pub data TransactionStatus : Type 0 where
  success failed not_found : TransactionStatus

-- A decoded value: `list` and `object` hold values that stay undecoded.
pub data Native (N : Type 0) : Type 0 where
  text : String → Native N
  list : List N → Native N
  object : (String → Option N) → Native N
  other : Native N

pub record RawEvent (S : Type 0) : Type 0 where
  pub topic : List S
  pub value : S
  pub ledger : ℕ

-- `getEvents` from a ledger on, or after a cursor.
pub data EventsQuery : Type 0 where
  start_ledger : ℕ → EventsQuery
  after_cursor : String → EventsQuery

-- A cursor that is missing or empty is `none`.
pub record EventsResponse (S : Type 0) : Type 0 where
  pub events : List (RawEvent S)
  pub latest_ledger : ℕ
  pub cursor : Option String

-- What the keeper calls: `prepare_*` stands for building, simulating and signing a transaction
-- (none after a simulation error), `decode` for scValToNative (none if it throws).
pub record Chain (W S N X : Type 0) : Type 0 where
  pub date_now : W → ℕ
  pub sleep : ℕ → W → W
  pub get_account : String → Task W (Unit {0})
  pub fund_account : String → Task W Bool
  pub get_latest_ledger : Task W ℕ
  pub get_oldest_ledger : Task W (Option ℕ)
  pub get_invoice : String → Task W (Simulated InvoiceDetails)
  pub get_invoices_paginated : ℕ → ℕ → Task W (Simulated (List InvoiceDetails))
  pub prepare_mark_overdue : String → Task W (Option X)
  pub prepare_bump_ttl : String → Task W (Option X)
  pub send_transaction : X → Task W SendStatus
  pub get_transaction : String → Task W TransactionStatus
  pub get_events : EventsQuery → Task W (EventsResponse S)
  pub decode : S → Option (Native N)
  pub load_checkpoint : W → Option ℕ
  pub save_checkpoint : ℕ → W → W

pub record Config : Type 0 where
  pub page_size : ℕ
  pub max_ttl_bumps : ℕ
  pub max_pages : ℕ
  pub is_testnet : Bool
  pub event_poll_interval_ms : ℕ
  pub fallback_sweep_interval_ms : ℕ

-- `STATUS[s]`
unfoldable pub status_of_name : String → Option ℕ
status_of_name s =
    if str_eq s "Pending"
    then some 0
    else (if str_eq s "Financed"
        then some 1
        else (if str_eq s "Repaid"
            then some 2
            else (if str_eq s "Overdue"
                then some 3
                else (if str_eq s "Cancelled"
                    then some 4
                    else (if str_eq s "Disputed"
                        then some 5
                        else (if str_eq s "Defaulted" then some 6 else none))))))

-- `Number.parseInt(s, 10)` of a text without white space in front, -1 for NaN.
unfoldable pub parse_digits : (ℕ → ℤ) → List ℕ → ℤ
parse_digits sign s = elim ((span_digits s).0) [
  | [] ↦ negsuc 0
  | c ∷ ds ↦ sign (digits_value 0 (c ∷ ds))
]

unfoldable pub parse_int : List ℕ → ℤ
parse_int [] = negsuc 0
parse_int (c ∷ s) =
    if c == b'-'
    then parse_digits neg s
    else (if c == b'+' then parse_digits pos s else parse_digits pos (c ∷ s))

unfoldable pub status_num : StatusValue → ℤ
status_num (num n) = n
status_num (name s) = elim (status_of_name s) [
  | some n ↦ pos n
  | none ↦ parse_int (trim_start (codes s))
]

abbrev pub is_status : ℤ → ℕ → Bool
is_status (pos n) k = n == k
is_status (negsuc n) k = false

-- `Math.floor(Date.now() / 1000)`
abbrev pub now_secs : {W S N X : Type 0} → Chain W S N X → W → ℕ
now_secs chain w = chain.date_now w / 1000

module _ {W S N X : Type 0} (chain : Chain W S N X) where
  -- The polls of the account that was just funded.
  unfoldable pub await_account : ℕ → String → Task W (Unit {0})
  await_account zero account = throw not_visible
  await_account (suc n) account =
      λ w. or_else (chain.get_account account (chain.sleep 1000 w)) (await_account n account)

  unfoldable pub fund : String → Task W (Unit {0})
  fund account = do
    funded ← chain.fund_account account
    if funded then await_account 10 account else throw friendbot_failed

  unfoldable pub ensure_account : Config → String → Task W (Unit {0})
  ensure_account config account w =
      or_else (chain.get_account account w)
        (if config.is_testnet then fund account else throw not_testnet)

  unfoldable pub confirm : ℕ → String → Task W Bool
  confirm zero hash = return false
  confirm (suc n) hash = λ w. after (chain.get_transaction hash (chain.sleep 2000 w)) (λ status.
      elim status [ success ↦ return true | failed ↦ return false | not_found ↦ confirm n hash ])

  unfoldable pub send_and_confirm : X → Task W Bool
  send_and_confirm tx = do
    status ← chain.send_transaction tx
    elim status [ error ↦ return false | duplicate ↦ return true | pending hash ↦ confirm 15 hash ]

  abbrev pub page_of : Simulated (List InvoiceDetails) → Task W (List InvoiceDetails)
  page_of sim_error = throw sim_failure
  page_of no_value = return []
  page_of (value page) = return page

  unfoldable pub read_invoice_page : Config → ℕ → Task W (List InvoiceDetails)
  read_invoice_page config offset = chain.get_invoices_paginated offset config.page_size >>= page_of

  unfoldable pub fetch_invoice_details : String → Task W (Option InvoiceDetails)
  fetch_invoice_details invoice_id w = recover none (
      after (chain.get_invoice invoice_id w) (λ sim. elim sim [
        | sim_error ↦ return none
        | no_value ↦ return none
        | value invoice ↦ return (some invoice)
      ]))

  abbrev pub send_prepared : Option X → Task W Bool
  send_prepared none = return false
  send_prepared (some tx) = send_and_confirm tx

  unfoldable pub mark_overdue : String → Task W Bool
  mark_overdue invoice_id = chain.prepare_mark_overdue invoice_id >>= send_prepared

  -- The `catch` covers what comes before `return sendAndConfirm(bump)`, which is not awaited.
  unfoldable pub bump_ttl : String → Task W Bool
  bump_ttl invoice_id w = after (recover none (chain.prepare_bump_ttl invoice_id w)) send_prepared
