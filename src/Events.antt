-- ===== src/Events.antt =====
-- invofi/apps/sdk/src/events.ts: the decoding of contract events. `decode` stands for scValToNative.
-- Texts are lists of code points. Events/Decode has the functions that decode, and Events/Listener
-- the polling of `listenToEvents`.
pub mod Decode
pub mod Listener
pub mod Timers
pub mod Order
pub mod Replay
mod Tests
use invofi.Prelude.{
  ℕ, zero, suc, String, Bool, true, false, not, Option, none, some, List, [], ◌∷◌, ◌==◌,
  if◌then◌else◌, ◌&&◌, length,
}
use invofi.Prelude.Int.{ℤ, pos, negsuc}
use invofi.Prelude.Text.{codes}
use invofi.Prelude.Result.{Result, ok, err, ◌>>=◌}
use invofi.Amounts.Decimal.{big_int, to_string}

-- A value inside an event; `missing` is null or undefined, and `other s` an object or an
-- array, with its text. A number is an integer.
pub data Item : Type 0 where
  text : List ℕ → Item
  bigint : ℤ → Item
  number : ℤ → Item
  bool : Bool → Item
  other : List ℕ → Item
  missing : Item

-- A decoded value: its elements if it is an array, its fields if it is an object, and itself.
pub record Decoded : Type 0 where
  pub arr : List Item
  pub fields : String → Item
  pub whole : Item

pub record EventResponse (S : Type 0) : Type 0 where
  pub topic : List S
  pub value : S
  pub contract_id : List ℕ
  pub ledger : ℕ
  pub tx_hash : List ℕ

pub data ProtocolEventName : Type 0 where
  inv_reg inv_amt inv_sts inv_cxl inv_ovd inv_def inv_dsp inv_rsl : ProtocolEventName
  off_new off_wdr off_acc off_rej off_def pos_mint inv_rep : ProtocolEventName
  pool_stk pool_un pool_pay reputn : ProtocolEventName

abbrev pub event_name_table : List (List ℕ × ProtocolEventName)
event_name_table =
    (codes "inv_reg", inv_reg)
    ∷ (codes "inv_amt", inv_amt)
    ∷ (codes "inv_sts", inv_sts)
    ∷ (codes "inv_cxl", inv_cxl)
    ∷ (codes "inv_ovd", inv_ovd)
    ∷ (codes "inv_def", inv_def)
    ∷ (codes "inv_dsp", inv_dsp)
    ∷ (codes "inv_rsl", inv_rsl)
    ∷ (codes "off_new", off_new)
    ∷ (codes "off_wdr", off_wdr)
    ∷ (codes "off_acc", off_acc)
    ∷ (codes "off_rej", off_rej)
    ∷ (codes "off_def", off_def)
    ∷ (codes "pos_mint", pos_mint)
    ∷ (codes "inv_rep", inv_rep)
    ∷ (codes "pool_stk", pool_stk)
    ∷ (codes "pool_un", pool_un)
    ∷ (codes "pool_pay", pool_pay)
    ∷ (codes "reputn", reputn)
    ∷ []

abbrev pub equal_codes : List ℕ → List ℕ → Bool
equal_codes [] [] = true
equal_codes (c ∷ s) (d ∷ t) = let rest = equal_codes s t in c == d && rest
equal_codes _ _ = false

abbrev pub find_name : List ℕ → List (List ℕ × ProtocolEventName) → Option ProtocolEventName
find_name name [] = none
find_name name ((s, event_name) ∷ table) =
    let rest = find_name name table in if equal_codes s name then some event_name else rest

-- The events that the protocol knows, by their names.
unfoldable pub known_event_name : List ℕ → Option ProtocolEventName
known_event_name name = find_name name event_name_table

-- A JavaScript number: an integer, or what `Number(s)` gives for a text.
pub data Numeric : Type 0 where
  integer : ℤ → Numeric
  number_of : List ℕ → Numeric

pub data EventPayload : Type 0 where
  invoice_registered : (originator : List ℕ) (amount due_date : ℤ) → EventPayload
  invoice_amount_updated : (new_amount : ℤ) → EventPayload
  invoice_status_updated : (new_status : List ℕ) → EventPayload
  invoice_cancelled : (originator : List ℕ) → EventPayload
  invoice_overdue : (due_date : ℤ) → EventPayload
  invoice_defaulted : (invoice_id : List ℕ) → EventPayload
  invoice_disputed : (originator : List ℕ) → EventPayload
  invoice_resolved : (new_status : List ℕ) → EventPayload
  offer_created : (invoice_id lender : List ℕ) (amount : ℤ) (interest_rate : Numeric) → EventPayload
  offer_withdrawn : (lender : List ℕ) → EventPayload
  offer_accepted : (invoice_id lender : List ℕ) (amount : ℤ) → EventPayload
  offer_rejected : (invoice_id : List ℕ) → EventPayload
  offer_defaulted : (invoice_id lender : List ℕ) → EventPayload
  position_token_minted : (lender : List ℕ) (amount : ℤ) → EventPayload
  invoice_repaid : (offer_id : List ℕ) (amount : ℤ) (fully_repaid : Bool) → EventPayload
  pool_staked : (staker : List ℕ) (amount : ℤ) → EventPayload
  pool_unstaked : (staker : List ℕ) (amount : ℤ) → EventPayload
  pool_payout : (recipient : List ℕ) (amount : ℤ) → EventPayload
  reputation_recorded : (address : List ℕ) (score : Numeric) → EventPayload

pub record ProtocolEvent : Type 0 where
  pub event_type : ProtocolEventName
  pub subject_id : List ℕ
  pub contract_id : List ℕ
  pub ledger : ℕ
  pub tx_hash : List ℕ
  pub payload : EventPayload
