-- ===== src/MockClient/Tokens.antt =====
-- The position-token and trustline methods, `batch` and `send`.
use invofi.Prelude.{String, Option, none, some, List, map, str_eq, if◌then◌else◌, Bool}
use invofi.Prelude.Int.{ℤ, pos, negsuc, ◌+ℤ◌, ◌-ℤ◌, ltb_ℤ}
use invofi.Prelude.Map.{get, set, has}
use invofi.Prelude.Result.{Result, ok, err}
use invofi.Validation.{text, bigint, validate_stellar_address, validate_positive_i128}
use invofi.MockClient.Store.{
  State, Call, ◌>>=◌, ◌>>◌, pure, throw_if, modify, checked, check_optional, inject, contract_error,
  insufficient_balance, unknown, Thrown, invalid, contract, custom, ContractError, take_failure,
}

-- `balances.get(address) ?? 0n`
unfoldable pub balance_of : String → State → ℤ
balance_of address s = elim (get address s.balances) [ none ↦ pos 0 | some n ↦ n ]

abbrev read_balance : String → Call ℤ
read_balance address s = pure (balance_of address s) s

abbrev write_balance : String → ℤ → Call (Unit {0})
write_balance address n = modify (λ s. record s { balances = set address n s.balances })

-- `token_id` is `options.positionTokenId`, or the mock's own.
unfoldable pub get_position_token_id : String → Option String → Call String
get_position_token_id token_id source_account = do
  check_optional source_account "sourceAccount"
  inject "getPositionTokenId"
  pure token_id

unfoldable pub get_token_balance : String → String → String → Call ℤ
get_token_balance position_token_id token_id address = do
  checked (validate_stellar_address (text token_id) "tokenId")
  checked (validate_stellar_address (text address) "address")
  inject "getTokenBalance"
  balance ← read_balance address
  pure (if str_eq token_id position_token_id then balance else pos 0)

unfoldable pub get_token_decimals : ℤ → String → Call ℤ
get_token_decimals decimals token_id = do
  checked (validate_stellar_address (text token_id) "tokenId")
  inject "getTokenDecimals"
  pure decimals

unfoldable pub transfer_position_token : String → String → String → ℤ → Call (Unit {0})
transfer_position_token token_id from to amount = do
  checked (validate_stellar_address (text token_id) "tokenId")
  checked (validate_stellar_address (text from) "fromAddress")
  checked (validate_stellar_address (text to) "toAddress")
  checked (validate_positive_i128 (bigint amount) "amount")
  inject "transferPositionToken"
  from_balance ← read_balance from
  throw_if (ltb_ℤ from_balance amount) (contract_error (pos 5) insufficient_balance)
  write_balance from (from_balance -ℤ amount)
  to_balance ← read_balance to
  write_balance to (to_balance +ℤ amount)

unfoldable pub has_position_trustline : String → Call Bool
has_position_trustline address = do
  checked (validate_stellar_address (text address) "address")
  inject "hasPositionTrustline"
  λ s. pure (has address s.trustlines) s

unfoldable pub add_position_trustline : String → Call (Unit {0})
add_position_trustline address = do
  checked (validate_stellar_address (text address) "address")
  inject "addPositionTrustline"
  modify (λ s. record s { trustlines = set address tt s.trustlines })

-- `V` is the SDK's `ScVal`, and `void` its value `scvVoid()`.
module _ {V : Type 0} (void : V) where
  unfoldable pub batch {ℓ} : {C : Type ℓ} → List C → String → Call (List V)
  batch calls source = do
    checked (validate_stellar_address (text source) "sourceAddress")
    inject "batch"
    pure (map (λ _. void) calls)

-- The error of a `send` envelope: an injected error that is no contract error is wrapped.
abbrev pub envelope_error : Thrown → ContractError
envelope_error (contract e) = e
envelope_error (invalid e) = record { raw_code = negsuc 0; error_type = unknown }
envelope_error (custom e) = record { raw_code = negsuc 0; error_type = unknown }

-- `decode` maps the void result; without one the result is the void value itself.
unfoldable pub send : {T : Type 0} → T → String → Call (Result ContractError T)
send decoded source = do
  checked (validate_stellar_address (text source) "sourceAddress")
  λ s.
      let (e, left) = take_failure "send" s.failures in
      (
        ok (elim e [ none ↦ ok decoded | some e ↦ err (envelope_error e) ]),
        record s { failures = left },
      )
