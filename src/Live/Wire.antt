-- ===== src/Live/Wire.antt =====
-- invofi/apps/frontend/src/lib/live/transports.ts: `decodeEnvelope`, on what JSON.parse gives for a
-- message: none if it throws.
mod Tests
pub mod Decimal
use invofi.Prelude.{ℕ, List, String, Bool, true, false, Option, none, some, str_eq, if◌then◌else◌}
use invofi.Prelude.Int.{ℤ}
use invofi.Amounts.{Amount, missing, text, stroops_from_wire}
use invofi.Live.{
  PositionUpdatedFields, LiveChange, LivePositionUpdate, position_updated, yield_calculated,
  repayment_received,
}

-- The value of a field for an amount. Of a value of another type, a Boolean, an array or an object, it
-- is the text that `String(value)` gives.
pub data WireValue : Type 0 where
  wire : Amount → WireValue
  other : List ℕ → WireValue

-- What `stroopsFromWire` reads a value as.
abbrev pub wire_amount : WireValue → Amount
wire_amount (wire amount) = amount
wire_amount (other s) = text s

-- A message that is an object: its `type`, if it is a text, and its fields; `has_apy` tells that `apy`
-- is a number.
pub record WsEnvelope : Type 0 where
  pub envelope_type : Option String
  pub position_id : Option String
  pub fields : PositionUpdatedFields
  pub has_apy : Bool
  pub earned_to_date : WireValue
  pub amount_repaid : WireValue
  pub remaining : Option WireValue
  pub fully_repaid : Bool

abbrev pub received : ℕ → String → LiveChange → LivePositionUpdate
received now_ms id change = record { position_id = id; change = change; updated_at = some now_ms }

-- The update with an amount; none where its conversion throws.
abbrev pub with_stroops : Option ℤ → (ℤ → Option LivePositionUpdate) → Option LivePositionUpdate
with_stroops none f = none
with_stroops (some stroops) f = f stroops

abbrev pub with_remaining :
    Option WireValue → (Option ℤ → Option LivePositionUpdate) → Option LivePositionUpdate
with_remaining none f = f none
with_remaining (some value) f =
    with_stroops (stroops_from_wire (wire_amount value)) (λ z. f (some z))

abbrev pub decode_yield : ℕ → WsEnvelope → String → Option LivePositionUpdate
decode_yield now_ms e id =
    if e.has_apy
    then with_stroops (stroops_from_wire (wire_amount e.earned_to_date))
        (λ z. some (received now_ms id (yield_calculated z)))
    else none

abbrev pub decode_repayment : ℕ → WsEnvelope → String → WireValue → Option LivePositionUpdate
decode_repayment now_ms e id (other s) = none
decode_repayment now_ms e id (wire missing) = none
decode_repayment now_ms e id (wire amount) = with_stroops (stroops_from_wire amount) (λ repaid.
    with_remaining e.remaining
      (λ left. some (received now_ms id (repayment_received repaid left e.fully_repaid))))

-- The `switch` on the type.
abbrev pub decode_typed : ℕ → WsEnvelope → String → String → Option LivePositionUpdate
decode_typed now_ms e envelope_type id =
    if str_eq envelope_type "position_updated"
    then some (received now_ms id (position_updated e.fields))
    else (if str_eq envelope_type "yield_calculated"
        then decode_yield now_ms e id
        else (if str_eq envelope_type "repayment_received"
            then decode_repayment now_ms e id e.amount_repaid
            else none))

abbrev pub with_texts :
    Option String
    → Option String
    → (String → String → Option LivePositionUpdate)
    → Option LivePositionUpdate
with_texts (some s) (some t) f = f s t
with_texts _ _ f = none

unfoldable pub decode_envelope : ℕ → Option WsEnvelope → Option LivePositionUpdate
decode_envelope now_ms none = none
decode_envelope now_ms (some e) = with_texts e.envelope_type e.position_id (decode_typed now_ms e)
