-- ===== src/Live/Wire/Decimal.antt =====
-- The amounts of a repayment on the wire.
use invofi.Prelude.{ℕ, ◌≡◌, refl, String, Bool, some}
use invofi.Prelude.Int.{ℤ}
use invofi.Amounts.{text}
use invofi.Amounts.Decimal.{to_string}
use invofi.Amounts.Wire.{stroops_from_wire-to_string}
use invofi.Live.{PositionUpdatedFields, repayment_received}
use invofi.Live.Wire.{WireValue, wire, WsEnvelope, received, decode_envelope}

-- The envelope of a repayment, with its amounts as decimal texts.
abbrev pub repayment_envelope :
    String → ℤ → ℤ → Bool → PositionUpdatedFields → WireValue → WsEnvelope
repayment_envelope id repaid left fully_repaid fields earned = record {
  envelope_type = some "repayment_received";
  position_id = some id;
  fields = fields;
  has_apy = Bool.false;
  earned_to_date = earned;
  amount_repaid = wire (text (to_string repaid));
  remaining = some (wire (text (to_string left)));
  fully_repaid = fully_repaid;
}

-- A repayment whose amounts the relay writes as the decimal texts of bigints of stroops is decoded to
-- an update of that position with these amounts, of either sign.
pub decode_envelope-to_string :
    (now_ms : ℕ) (id : String) (repaid left : ℤ) (fully_repaid : Bool)
    (fields : PositionUpdatedFields) (earned : WireValue)
    → decode_envelope now_ms (some (repayment_envelope id repaid left fully_repaid fields earned))
      ≡ some (received now_ms id (repayment_received repaid (some left) fully_repaid))
unfolding decode_envelope
decode_envelope-to_string now_ms id repaid left fully_repaid fields earned =
    rw (stroops_from_wire-to_string repaid, stroops_from_wire-to_string left) refl
