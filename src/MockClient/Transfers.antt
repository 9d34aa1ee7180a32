-- ===== src/MockClient/Transfers.antt =====
-- Position-token transfers: the total of the balances, and when a transfer goes through.
use invofi.Prelude.{String, ◌≡◌, ◌∙◌, ◌↔◌, ◌⊎◌, ap, inl, inr, none, arith, str_eq, if◌then◌else◌}
use invofi.Prelude.Int.{ℤ, pos, ◌+ℤ◌, ◌-ℤ◌, ◌≤ℤ◌}
use invofi.Prelude.Text.{codes}
use invofi.Prelude.Result.{ok, Result-cases}
use invofi.Validation.Address.{IsAddress}
use invofi.Validation.Decided.{IsAddress-decided, amount_decided}
use invofi.MockClient.Store.{State, inject, take_failure}
use invofi.MockClient.Requests.{transferring, perform}
use invofi.MockClient.Atomic.{perform-atomic}
use invofi.MockClient.Tokens.{balance_of, transfer_position_token}
use invofi.MockClient.Balances.{
  held, total, moved, total-moved, held-moved, IsFunded, moved-IsFunded,
}

-- What a transfer asks of its arguments and of the client.
pub record MayTransfer (s : State) (token_id from to : String) (amount : ℤ) : Type 0 where
  pub token : IsAddress (codes token_id)
  pub source : IsAddress (codes from)
  pub target : IsAddress (codes to)
  pub positive : pos 1 ≤ℤ amount
  pub uninjected : (take_failure "transferPositionToken" s.failures).0 ≡ none
  pub covered : amount ≤ℤ balance_of from s

transfer_balances :
    (token_id from to : String) (amount : ℤ) (s : State)
    → (transfer_position_token token_id from to amount s).0 ≡ ok tt
    → (transfer_position_token token_id from to amount s).1.balances
      ≡ moved from to amount s.balances
unfolding transfer_position_token inject balance_of
transfer_balances token_id from to amount s h = ground arith

-- `transferPositionToken` returns exactly when the addresses are valid, the amount is at least 1
-- and covered by the sender's balance, and no failure is injected.
pub transfer_returns_iff :
    (token_id from to : String) (amount : ℤ) (s : State)
    → ((transfer_position_token token_id from to amount s).0 ≡ ok tt)
      ↔ MayTransfer s token_id from to amount
unfolding transfer_position_token inject balance_of
transfer_returns_iff token_id from to amount s = (
  λ h. record {
    token = ground (arith, IsAddress-decided token_id "tokenId");
    source = ground (arith, IsAddress-decided from "fromAddress");
    target = ground (arith, IsAddress-decided to "toAddress");
    positive = ground (arith, amount_decided amount "amount");
    uninjected = ground arith;
    covered = ground arith;
  },
  λ m. ground (
    arith,
    IsAddress-decided token_id "tokenId",
    IsAddress-decided from "fromAddress",
    IsAddress-decided to "toAddress",
    amount_decided amount "amount",
    m.covered,
  ),
)

module _ (token_id from to : String) (amount : ℤ) (s : State) where
  -- The balances after the call, whether it returns or throws.
  transfer-cases :
      ((MayTransfer s token_id from to amount)
        × ((transfer_position_token token_id from to amount s).1.balances
            ≡ moved from to amount s.balances))
      ⊎ ((transfer_position_token token_id from to amount s).1.balances ≡ s.balances)
  unfolding perform
  transfer-cases = elim (Result-cases (transfer_position_token token_id from to amount s).0) [
    | inl (tt, e) ↦ inl (
      (transfer_returns_iff token_id from to amount s).0 e,
      transfer_balances token_id from to amount s e,
    )
    | inr (x, e) ↦ inr (
        ap (λ (t : State). t.balances)
          (perform-atomic (transferring token_id from to amount) s x e))
  ]

  -- A transfer, whether it returns or throws and also from an address to itself, keeps the total
  -- of all balances.
  pub transfer_conserves :
      total (transfer_position_token token_id from to amount s).1.balances ≡ total s.balances
  transfer_conserves = elim transfer-cases [
    | inl (_, e) ↦ rw e (total-moved from to amount s.balances)
    | inr e ↦ ap total e
  ]

  -- If no balance is negative before a call of a transfer, none is negative after it.
  pub transfer-IsFunded :
      IsFunded s.balances → IsFunded (transfer_position_token token_id from to amount s).1.balances
  unfolding balance_of
  transfer-IsFunded h = elim transfer-cases [
    | inl (m, e) ↦
        rw e (moved-IsFunded from to amount s.balances h (omega (arith, m.positive)) m.covered)
    | inr e ↦ rw e h
  ]

  -- A transfer that returns takes the amount from the sender and adds it to the receiver; from an
  -- address to itself it changes nothing; and every other balance stays.
  pub transfer_balance_of :
      (a : String)
      → (transfer_position_token token_id from to amount s).0 ≡ ok tt
      → balance_of a (transfer_position_token token_id from to amount s).1 ≡ (
          if str_eq to a
          then if str_eq from to then balance_of a s else balance_of a s +ℤ amount
          else if str_eq from a
          then balance_of a s -ℤ amount
          else balance_of a s)
  unfolding balance_of
  transfer_balance_of a h =
      ap (held a) (transfer_balances token_id from to amount s h)
      ∙ held-moved from to amount a s.balances
