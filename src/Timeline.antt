-- ===== src/Timeline.antt =====
-- invofi/apps/frontend/src/lib/invoiceEvents.ts: the timeline of an invoice. `decode` stands for
-- scValToNative, none where it throws; the RPC server is a record of functions, which tells the
-- oldest ledger that it keeps where a request begins before it. Labels are left out, a contract is
-- configured, and no topic is named like a property of Object.prototype, which `in` would find.
pub mod Entries
pub mod Fetch
pub mod Pages
mod Tests
use invofi.Prelude.{
  ℕ, zero, suc, ◌+◌, ◌-◌, Bool, true, false, not, ◌&&◌, ◌||◌, Option, none, some, List, [], ◌∷◌,
  ◌++◌, length, leb, max, if◌then◌else◌,
}
use invofi.Prelude.Int.{pos}
use invofi.Prelude.Text.{codes}
use invofi.Prelude.Result.{Result, ok, err}
use invofi.Prelude.Sort.{sort_by}
use invofi.Amounts.Decimal.{to_string}
use invofi.Events.{
  Item, text, ProtocolEventName, known_event_name, equal_codes, off_new, off_acc, off_rej, off_def,
  inv_def,
}
use invofi.Events.Replay.{includes_codes}

-- A decoded value: an object with its fields, an array, or another one.
pub data DecodedValue : Type 0 where
  object : (List ℕ → Option Item) → DecodedValue
  array : List Item → DecodedValue
  single : Item → DecodedValue

pub record TimelineEvent (S : Type 0) : Type 0 where
  pub topic : List S
  pub value : S
  pub id : Option (List ℕ)
  pub ledger : ℕ
  pub ledger_closed_at : Option (List ℕ)
  pub tx_hash : List ℕ

pub record InvoiceTimelineEntry : Type 0 where
  pub event_type : ProtocolEventName
  pub ledger : ℕ
  pub occurred_at : Option (List ℕ)
  pub tx_hash : List ℕ

abbrev pub text_of : Option Item → Option (List ℕ)
text_of (some (text s)) = some s
text_of _ = none

abbrev pub text_value : Option DecodedValue → Option (List ℕ)
text_value (some (single item)) = text_of (some item)
text_value _ = none

-- `decodeTopicString(raw.topic?.[i])`
abbrev pub decode_topic_string :
    {S : Type 0} → (S → Option DecodedValue) → ℕ → List S → Option (List ℕ)
decode_topic_string decode i [] = none
decode_topic_string decode zero (t ∷ topic) = text_value (decode t)
decode_topic_string decode (suc i) (t ∷ topic) = decode_topic_string decode i topic

abbrev pub event_type_of : Option (List ℕ) → Option ProtocolEventName
event_type_of none = none
event_type_of (some s) = known_event_name s

abbrev pub array_invoice_id_first : ProtocolEventName → Bool
array_invoice_id_first off_new = true
array_invoice_id_first off_acc = true
array_invoice_id_first off_rej = true
array_invoice_id_first off_def = true
array_invoice_id_first inv_def = true
array_invoice_id_first _ = false

abbrev pub first_item : List Item → Option Item
first_item [] = none
first_item (item ∷ items) = some item

-- `a ?? b`
abbrev pub first_field : Option Item → Option Item → Option Item
first_field none b = b
first_field (some a) b = some a

abbrev pub payload_invoice_id : ProtocolEventName → Option DecodedValue → Option (List ℕ)
payload_invoice_id event_type (some (object fields)) =
    text_of (first_field (fields (codes "invoice_id")) (fields (codes "invoiceId")))
payload_invoice_id event_type (some (array items)) =
    if array_invoice_id_first event_type then text_of (first_item items) else none
payload_invoice_id event_type _ = none

abbrev pub is_id : List ℕ → Option (List ℕ) → Bool
is_id invoice_id none = false
is_id invoice_id (some s) = equal_codes s invoice_id

-- The event belongs to the invoice, by its subject or its payload.
unfoldable pub is_of_invoice :
    {S : Type 0} → (S → Option DecodedValue) → List ℕ → ProtocolEventName → TimelineEvent S → Bool
is_of_invoice decode invoice_id event_type raw =
    is_id invoice_id (decode_topic_string decode 1 raw.topic)
    || is_id invoice_id (payload_invoice_id event_type (decode raw.value))

-- `${raw.txHash}:${type}:${subjectId ?? ''}:${entries.length}`, with the text of the type.
abbrev pub subject_or_empty : Option (List ℕ) → List ℕ
subject_or_empty none = []
subject_or_empty (some s) = s

abbrev pub composite_key : {S : Type 0} → (S → Option DecodedValue) → TimelineEvent S → ℕ → List ℕ
composite_key decode raw count =
    raw.tx_hash
    ++ (codes ":"
        ++ (subject_or_empty (decode_topic_string decode 0 raw.topic)
            ++ (codes ":"
                ++ (subject_or_empty (decode_topic_string decode 1 raw.topic)
                    ++ (codes ":" ++ to_string (pos count))))))

abbrev pub dedupe_key : {S : Type 0} → (S → Option DecodedValue) → TimelineEvent S → ℕ → List ℕ
dedupe_key decode raw count = elim raw.id [ none ↦ composite_key decode raw count | some id ↦ id ]

abbrev pub entry_of : {S : Type 0} → ProtocolEventName → TimelineEvent S → InvoiceTimelineEntry
entry_of event_type raw = record {
  event_type = event_type;
  ledger = raw.ledger;
  occurred_at = raw.ledger_closed_at;
  tx_hash = raw.tx_hash;
}

pub record Collected : Type 0 where
  pub entries : List InvoiceTimelineEntry
  pub seen : List (List ℕ)

-- The end of the loop's body: the event is of the invoice.
unfoldable pub add_entry : List ℕ → InvoiceTimelineEntry → Collected → Collected
add_entry key entry c =
    if includes_codes key c.seen
    then c
    else record { entries = c.entries ++ (entry ∷ []); seen = key ∷ c.seen }

abbrev pub take_typed :
    {S : Type 0}
    → (S → Option DecodedValue)
    → List ℕ
    → TimelineEvent S
    → Option ProtocolEventName
    → Collected
    → Collected
take_typed decode invoice_id raw none c = c
take_typed decode invoice_id raw (some event_type) c =
    if is_of_invoice decode invoice_id event_type raw
    then add_entry (dedupe_key decode raw (length c.entries)) (entry_of event_type raw) c
    else c

-- The loop.
unfoldable pub collect_entries :
    {S : Type 0}
    → (S → Option DecodedValue)
    → List ℕ
    → List (TimelineEvent S)
    → Collected
    → Collected
collect_entries decode invoice_id [] c = c
collect_entries decode invoice_id (raw ∷ raws) c =
    collect_entries decode invoice_id raws
      (take_typed decode invoice_id raw (event_type_of (decode_topic_string decode 0 raw.topic)) c)

abbrev pub newest_first : InvoiceTimelineEntry → InvoiceTimelineEntry → Bool
newest_first a b = leb b.ledger a.ledger

unfoldable pub to_timeline_entries :
    {S : Type 0}
    → (S → Option DecodedValue)
    → List ℕ
    → List (TimelineEvent S)
    → List InvoiceTimelineEntry
to_timeline_entries decode invoice_id raws =
    sort_by newest_first
      ((collect_entries decode invoice_id raws (record { entries = []; seen = [] })).entries)
