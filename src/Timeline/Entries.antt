-- ===== src/Timeline/Entries.antt =====
-- What a timeline has.
use invofi.Prelude.{
  ℕ, ◌≤◌, ◌≡◌, ◌≢◌, Bool, false, Option, none, some, List, [], ◌∷◌, ◌++◌, All, if◌then◌else◌,
}
use invofi.Events.{ProtocolEventName}
use invofi.Events.Replay.{includes_codes}
use invofi.Timeline.{
  DecodedValue, TimelineEvent, InvoiceTimelineEntry, decode_topic_string, event_type_of,
  is_of_invoice, entry_of, Collected,
}

module _ {S : Type 0} (decode : S → Option DecodedValue) (invoice_id : List ℕ) where
  abbrev typed_entry : TimelineEvent S → Option ProtocolEventName → List InvoiceTimelineEntry
  typed_entry raw none = []
  typed_entry raw (some t) =
      if is_of_invoice decode invoice_id t raw then entry_of t raw ∷ [] else []

  -- The entry of an event of the protocol that is of the invoice, if it is one.
  abbrev pub entry_for : TimelineEvent S → List InvoiceTimelineEntry
  entry_for raw = typed_entry raw (event_type_of (decode_topic_string decode 0 raw.topic))

  abbrev pub entries_for : List (TimelineEvent S) → List InvoiceTimelineEntry
  entries_for [] = []
  entries_for (raw ∷ raws) = entry_for raw ++ entries_for raws

abbrev is_seen : {S : Type 0} → List (List ℕ) → TimelineEvent S → Bool
is_seen seen raw = elim raw.id [ none ↦ false | some id ↦ includes_codes id seen ]

-- Every event has an id, and no two have the same.
abbrev pub DistinctIds : {S : Type 0} → List (TimelineEvent S) → Type 0
DistinctIds [] = Unit
DistinctIds (raw ∷ raws) =
    ((id : List ℕ) × (raw.id ≡ some id) × All (λ r. r.id ≢ some id) raws) × DistinctIds raws

abbrev pub IsNewer : InvoiceTimelineEntry → InvoiceTimelineEntry → Type 0
IsNewer a b = b.ledger ≤ a.ledger

module _ {S : Type 0} (decode : S → Option DecodedValue) (invoice_id : List ℕ) where
  -- What taking an event adds, and that the others stay fresh.
  record Added (xs : List InvoiceTimelineEntry) (c d : Collected) (raws : List (TimelineEvent S))
      : Type 0 where
    added : d.entries ≡ c.entries ++ xs
    fresh : All (λ r. is_seen d.seen r ≡ false) raws
