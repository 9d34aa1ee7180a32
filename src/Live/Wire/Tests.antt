-- ===== src/Live/Wire/Tests.antt =====
-- Messages of the relay, and an instance of the theorem.
use invofi.Prelude.{◌≡◌, false, none, some}
use invofi.Prelude.Int.{pos}
use invofi.Amounts.{missing}
use invofi.Live.{PositionUpdatedFields, repayment_received}
use invofi.Live.Wire.{wire, received, decode_envelope}
use invofi.Live.Wire.Decimal.{repayment_envelope, decode_envelope-to_string}

abbrev no_fields : PositionUpdatedFields
no_fields = record {
  status = none;
  funded_at = none;
  currency = none;
  amount = none;
  amount_repaid = none;
}

decode_envelope-to_string_example :
    decode_envelope 5
      (some (repayment_envelope "OFF-1" (pos 1000000) (pos 5000000) false no_fields (wire missing)))
    ≡ some (received 5 "OFF-1" (repayment_received (pos 1000000) (some (pos 5000000)) false))
decode_envelope-to_string_example =
    decode_envelope-to_string 5 "OFF-1" (pos 1000000) (pos 5000000) false no_fields (wire missing)
