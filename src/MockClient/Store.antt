-- ===== src/MockClient/Store.antt =====
-- The state inside `createMockClient`, its event log, and the injected failures.
use invofi.Prelude.{
  ℕ, ◌+◌, ◌-◌, String, Bool, true, ◌||◌, Option, none, some, List, [], ◌∷◌, ◌++◌, leb, str_eq,
  if◌then◌else◌,
}
use invofi.Prelude.Int.{ℤ, pos, negsuc}
use invofi.Prelude.Map.{Map, get, set, has}
use invofi.Prelude.Result.{Result, ok, err}
use invofi.Validation.{SdkValidationError, Checked, text, validate_stellar_address}
use invofi.Types.{Invoice, FinancingOffer}

-- errors.ts: the types of a decoded contract failure. The texts of messages and recovery
-- suggestions are left out.
pub data ContractErrorType : Type 0 where
  unauthorized not_found invalid_transition paused insufficient_balance : ContractErrorType
  invalid_input already_exists blacklisted unknown : ContractErrorType

pub record ContractError : Type 0 where
  pub raw_code : ℤ
  pub error_type : ContractErrorType

-- What a method throws: `custom` is an `Error` that a caller configured.
pub data Thrown : Type 0 where
  invalid : SdkValidationError → Thrown
  contract : ContractError → Thrown
  custom : String → Thrown

abbrev pub contract_error : ℤ → ContractErrorType → Thrown
contract_error code kind = contract (record { raw_code = code; error_type = kind })

-- The types of event that the client emits, each with its data.
pub data EventData : Type 0 where
  inv_reg : (originator : String) (amount due_date : ℤ) → EventData
  inv_cxl : (originator : String) → EventData
  off_new : (invoice_id lender : String) (amount interest_rate : ℤ) → EventData
  off_acc : (invoice_id lender : String) (amount : ℤ) → EventData
  off_rej : (invoice_id : String) → EventData
  inv_rep : (offer_id : String) (amount : ℤ) (fully_repaid : Bool) → EventData
  inv_ovd : (due_date : ℤ) → EventData
  off_def : (invoice_id lender : String) → EventData

-- `tx_seq` is the number that the source's `txHash` spells in hexadecimal.
pub record ProtocolEvent : Type 0 where
  pub subject_id : String
  pub contract_id : String
  pub event : EventData
  pub ledger : ℕ
  pub tx_seq : ℕ

-- `on` and `error` may be absent, and `times` is absent or infinite in a sticky rule.
pub record FailureRule : Type 0 where
  pub on : Option String
  pub error : Option Thrown
  pub times : Option ℕ

pub record State : Type 0 where
  pub invoices : Map Invoice
  pub offers : Map FinancingOffer
  pub balances : Map ℤ
  pub trustlines : Map (Unit {0})
  pub events : List ProtocolEvent
  pub ledger : ℕ
  pub tx_seq : ℕ
  pub failures : List FailureRule

abbrev pub Call : Type 0 → Type 0
Call A = State → Result Thrown A × State

infixl 5 ◌>>=◌ ◌>>◌
abbrev pub ◌>>=◌ : {A B : Type 0} → Call A → (A → Call B) → Call B
◌>>=◌ m f s = let (r, s') = m s in elim r [ ok a ↦ f a s' | err e ↦ (err e, s') ]

abbrev pub ◌>>◌ : {A B : Type 0} → Call A → Call B → Call B
m >> k = m >>= λ _. k

abbrev pub pure : {A : Type 0} → A → Call A
pure a s = (ok a, s)

abbrev pub throw : {A : Type 0} → Thrown → Call A
throw e s = (err e, s)

-- `if (test) throw e`
abbrev pub throw_if : Bool → Thrown → Call (Unit {0})
throw_if test e s = (if test then err e else ok tt, s)

abbrev pub modify : (State → State) → Call (Unit {0})
modify f s = (ok tt, f s)

-- A validator's error is thrown before anything else happens.
abbrev pub checked : {A : Type 0} → Checked A → Call A
checked (ok a) s = (ok a, s)
checked (err e) s = (err (invalid e), s)

abbrev pub logged : String → String → EventData → State → State
logged subject contract_id event s = record s {
  ledger = s.ledger + 1;
  tx_seq = s.tx_seq + 1;
  events =
      s.events
      ++ record {
        subject_id = subject;
        contract_id = contract_id;
        event = event;
        ledger = s.ledger + 1;
        tx_seq = s.tx_seq + 1;
      }
        ∷ [];
}

unfoldable pub emit : String → String → EventData → Call (Unit {0})
emit subject contract_id event = modify (logged subject contract_id event)

-- `(rule.on ?? '*') === '*' || rule.on === method`
abbrev pub rule_matches : String → FailureRule → Bool
rule_matches method rule = elim rule.on [
  | none ↦ true
  | some on ↦ str_eq on "*" || str_eq on method
]

abbrev pub rule_error : FailureRule → Thrown
rule_error rule = elim rule.error [ none ↦ contract_error (negsuc 0) unknown | some e ↦ e ]

-- The rule after it has fired, if it stays.
abbrev pub spend : FailureRule → List FailureRule → List FailureRule
spend rule rest = elim rule.times [
  | none ↦ rule ∷ rest
  | some n ↦ if leb n 1 then rest else record rule { times = some (n - 1) } ∷ rest
]

-- The first rule that matches fires: its error, and the rules that are left.
unfoldable pub take_failure : String → List FailureRule → Option Thrown × List FailureRule
take_failure method [] = (none, [])
take_failure method (rule ∷ rules) =
    let (e, left) = take_failure method rules in
    if rule_matches method rule
    then (some (rule_error rule), spend rule rules)
    else (e, rule ∷ left)

-- `const injected = takeFailure(method); if (injected) throw injected;`
unfoldable pub inject : String → Call (Unit {0})
inject method s =
    let (e, left) = take_failure method s.failures in
    (elim e [ none ↦ ok tt | some e ↦ err e ], record s { failures = left })

unfoldable pub require_invoice : String → Call Invoice
require_invoice id s =
    (elim (get id s.invoices) [ none ↦ err (contract_error (pos 2) not_found) | some i ↦ ok i ], s)

unfoldable pub require_offer : String → Call FinancingOffer
require_offer id s =
    (elim (get id s.offers) [ none ↦ err (contract_error (pos 2) not_found) | some o ↦ ok o ], s)

-- A write to a field of the object that a map holds under a key.
abbrev pub put_invoice : String → Invoice → Call (Unit {0})
put_invoice id invoice = modify (λ s. record s { invoices = set id invoice s.invoices })

abbrev pub put_offer : String → FinancingOffer → Call (Unit {0})
put_offer id offer = modify (λ s. record s { offers = set id offer s.offers })

abbrev pub has_invoice : String → Call Bool
has_invoice id s = (ok (has id s.invoices), s)

abbrev pub has_offer : String → Call Bool
has_offer id s = (ok (has id s.offers), s)

-- `if (sourceAccount !== undefined) validateStellarAddress(sourceAccount, field)`
abbrev pub check_optional : Option String → String → Call (Unit {0})
check_optional none field = pure tt
check_optional (some address) field =
    checked (validate_stellar_address (text address) field) >>= λ _. pure tt
