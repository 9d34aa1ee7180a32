-- ===== src/Events/Decode.antt =====
-- The functions of events.ts that decode an event: `extractString` to `decodeEvent`.
use invofi.Prelude.{
  ℕ, zero, suc, String, Bool, true, false, not, Option, none, some, List, [], ◌∷◌, ◌==◌, length,
  if◌then◌else◌,
}
use invofi.Prelude.Int.{ℤ, pos, negsuc}
use invofi.Prelude.Text.{codes}
use invofi.Prelude.Result.{Result, ok, err, ◌>>=◌}
use invofi.Amounts.Decimal.{big_int, to_string}
use invofi.Events.{
  Item, text, bigint, number, bool, other, missing, Decoded, EventResponse, ProtocolEventName,
  known_event_name, Numeric, integer, number_of, EventPayload, ProtocolEvent, inv_reg, inv_amt,
  inv_sts, inv_cxl, inv_ovd, inv_def, inv_dsp, inv_rsl, off_new, off_wdr, off_acc, off_rej, off_def,
  pos_mint, inv_rep, pool_stk, pool_un, pool_pay, reputn, invoice_registered,
  invoice_amount_updated, invoice_status_updated, invoice_cancelled, invoice_overdue,
  invoice_defaulted, invoice_disputed, invoice_resolved, offer_created, offer_withdrawn,
  offer_accepted, offer_rejected, offer_defaulted, position_token_minted, invoice_repaid,
  pool_staked, pool_unstaked, pool_payout, reputation_recorded,
}

-- What a call throws: the SyntaxError of `BigInt`.
pub data DecodeError : Type 0 where
  syntax_error : DecodeError

abbrev pub text_of_bool : Bool → List ℕ
text_of_bool true = codes "true"
text_of_bool false = codes "false"

unfoldable pub extract_string : Item → List ℕ
extract_string (text s) = s
extract_string (bigint n) = to_string n
extract_string (number n) = to_string n
extract_string (bool b) = text_of_bool b
extract_string (other s) = s
extract_string missing = []

abbrev pub or_syntax_error : Option ℤ → Result DecodeError ℤ
or_syntax_error none = err syntax_error
or_syntax_error (some n) = ok n

unfoldable pub extract_big_int : Item → Result DecodeError ℤ
extract_big_int (bigint n) = ok n
extract_big_int (number n) = ok n
extract_big_int (text s) = or_syntax_error (big_int s)
extract_big_int _ = ok (pos 0)

abbrev pub nonzero : ℤ → Bool
nonzero (pos n) = not (n == 0)
nonzero (negsuc n) = true

unfoldable pub extract_bool : Item → Bool
extract_bool (bool b) = b
extract_bool (number n) = nonzero n
extract_bool (bigint n) = nonzero n
extract_bool (text s) = not (length s == 0)
extract_bool (other s) = true
extract_bool missing = false

unfoldable pub extract_number : Item → Numeric
extract_number (number n) = integer n
extract_number (bigint n) = integer n
extract_number (text s) = number_of s
extract_number (bool b) = integer (if b then pos 1 else pos 0)
extract_number (other s) = number_of s
extract_number missing = integer (pos 0)

-- `a ?? b`
abbrev pub coalesce : Item → Item → Item
coalesce missing b = b
coalesce a b = a

abbrev pub element : ℕ → List Item → Item
element i [] = missing
element zero (x ∷ xs) = x
element (suc i) (x ∷ xs) = element i xs

-- `arr[i] ?? map[key]`
abbrev pub entry : ℕ → String → Decoded → Item
entry i key d = coalesce (element i d.arr) (d.fields key)

-- `arr[0] ?? map[key] ?? decoded`
abbrev pub entry_or_whole : String → Decoded → Item
entry_or_whole key d = coalesce (entry 0 key d) d.whole

unfoldable pub decode_event_data : ProtocolEventName → Decoded → Result DecodeError EventPayload
decode_event_data inv_reg d = extract_big_int (entry 1 "amount" d) >>= λ amount.
    extract_big_int (entry 2 "due_date" d) >>= λ due_date.
    ok (invoice_registered (extract_string (entry 0 "originator" d)) amount due_date)
decode_event_data inv_amt d =
    extract_big_int (entry_or_whole "amount" d) >>= λ amount. ok (invoice_amount_updated amount)
decode_event_data inv_sts d =
    ok (invoice_status_updated (extract_string (entry_or_whole "status" d)))
decode_event_data inv_cxl d =
    ok (invoice_cancelled (extract_string (entry_or_whole "originator" d)))
decode_event_data inv_ovd d =
    extract_big_int (entry_or_whole "due_date" d) >>= λ due_date. ok (invoice_overdue due_date)
decode_event_data inv_def d =
    ok (invoice_defaulted (extract_string (entry_or_whole "invoice_id" d)))
decode_event_data inv_dsp d = ok (invoice_disputed (extract_string (entry_or_whole "originator" d)))
decode_event_data inv_rsl d = ok (invoice_resolved (extract_string (entry_or_whole "new_status" d)))
decode_event_data off_new d = extract_big_int (entry 2 "amount" d) >>= λ amount. ok (
    offer_created (extract_string (entry 0 "invoice_id" d)) (extract_string (entry 1 "lender" d))
      amount (extract_number (entry 3 "interest_rate" d)))
decode_event_data off_wdr d = ok (offer_withdrawn (extract_string (entry_or_whole "lender" d)))
decode_event_data off_acc d = extract_big_int (entry 2 "amount" d) >>= λ amount. ok (
    offer_accepted (extract_string (entry 0 "invoice_id" d)) (extract_string (entry 1 "lender" d))
      amount)
decode_event_data off_rej d = ok (offer_rejected (extract_string (entry_or_whole "invoice_id" d)))
decode_event_data off_def d = ok (
    offer_defaulted (extract_string (entry 0 "invoice_id" d)) (extract_string (entry 1 "lender" d)))
decode_event_data pos_mint d = extract_big_int (entry 1 "amount" d) >>= λ amount.
    ok (position_token_minted (extract_string (entry 0 "lender" d)) amount)
decode_event_data inv_rep d = extract_big_int (entry 1 "amount" d) >>= λ amount. ok (
    invoice_repaid (extract_string (entry 0 "offer_id" d)) amount
      (extract_bool (entry 2 "fully_repaid" d)))
decode_event_data pool_stk d = extract_big_int (entry 1 "amount" d) >>= λ amount.
    ok (pool_staked (extract_string (entry 0 "staker" d)) amount)
decode_event_data pool_un d = extract_big_int (entry 1 "amount" d) >>= λ amount.
    ok (pool_unstaked (extract_string (entry 0 "staker" d)) amount)
decode_event_data pool_pay d = extract_big_int (entry 1 "amount" d) >>= λ amount.
    ok (pool_payout (extract_string (entry 0 "recipient" d)) amount)
decode_event_data reputn d = ok (
    reputation_recorded (extract_string (entry 0 "address" d)) (extract_number (entry 1 "score" d)))

-- What `decode` gives for the name of an event: a text, or none.
abbrev pub name_text : Option Decoded → Option (List ℕ)
name_text none = none
name_text (some d) = elim d.whole [ text s ↦ some s | _ ↦ none ]

abbrev pub parse_event_name : {S : Type 0} → (S → Option Decoded) → List S → Option (List ℕ)
parse_event_name decode [] = none
parse_event_name decode (t ∷ topic) = name_text (decode t)

abbrev pub subject_text : Option Decoded → List ℕ
subject_text none = []
subject_text (some d) = extract_string d.whole

abbrev pub parse_subject_id : {S : Type 0} → (S → Option Decoded) → List S → List ℕ
parse_subject_id decode (t ∷ u ∷ topic) = subject_text (decode u)
parse_subject_id decode _ = []

-- The payload of an event: none for an unknown name, or a value that cannot be decoded.
abbrev pub payload_of :
    Option ProtocolEventName
    → Option Decoded
    → Result DecodeError (Option (ProtocolEventName × EventPayload))
payload_of (some name) (some d) = decode_event_data name d >>= λ payload. ok (some (name, payload))
payload_of _ _ = ok none

abbrev pub known_name : Option (List ℕ) → Option ProtocolEventName
known_name none = none
known_name (some s) = known_event_name s

abbrev pub with_payload :
    {S : Type 0}
    → (S → Option Decoded)
    → EventResponse S
    → Option (ProtocolEventName × EventPayload)
    → Option ProtocolEvent
with_payload decode raw none = none
with_payload decode raw (some (name, payload)) = some (record {
  event_type = name;
  subject_id = parse_subject_id decode raw.topic;
  contract_id = raw.contract_id;
  ledger = raw.ledger;
  tx_hash = raw.tx_hash;
  payload = payload;
})

unfoldable pub decode_event :
    {S : Type 0}
    → (S → Option Decoded)
    → EventResponse S
    → Result DecodeError (Option ProtocolEvent)
decode_event decode raw =
    payload_of (known_name (parse_event_name decode raw.topic)) (decode raw.value) >>= λ payload.
    ok (with_payload decode raw payload)
