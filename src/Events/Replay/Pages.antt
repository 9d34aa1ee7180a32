-- ===== src/Events/Replay/Pages.antt =====
-- What the loop over a page keeps: the events collected, and the keys not seen yet.
use invofi.Prelude.{
  ℕ, ◌+◌, ◌≤◌, ◌≡◌, ◌↔◌, ◌⊎◌, refl, sym, true, false, ◌||◌, Option, none, some, List, [], ◌∷◌,
  length, length-append, ltb, leb, All, map, ap, ◌≢◌, ◌++◌, All-append, if◌then◌else◌, arith,
  Bool-cases, inl, inr,
}
use invofi.Prelude.Result.{Result, ok, err, Ensures, Ensures-bind}
use invofi.Events.{ProtocolEvent, equal_codes}
use invofi.Events.Decode.{DecodeError, decode_event}
use invofi.Events.Order.{Yields, SameLedger, decode_event-SameLedger}
use invofi.Events.Replay.{
  Replay, RawEvent, ReplayError, PageState, includes_codes, event_key, is_wanted, collect_decoded,
  note_key, take_event, take_events,
}

pub equal_codes_iff : (s t : List ℕ) → (equal_codes s t ≡ true) ↔ (s ≡ t)
equal_codes_iff [] [] = ground arith
equal_codes_iff [] (d ∷ t) = ground arith
equal_codes_iff (c ∷ s) [] = ground arith
equal_codes_iff (c ∷ s) (d ∷ t) = ground (arith, equal_codes_iff s t)

-- The keys of the list that have not been seen.
unfoldable pub unseen : List (List ℕ) → List (List ℕ) → ℕ
unseen [] seen = 0
unseen (k ∷ keys) seen = (if includes_codes k seen then 0 else 1) + unseen keys seen

pub unseen-nil : (keys : List (List ℕ)) → unseen keys [] ≡ length keys
unfolding unseen
unseen-nil [] = refl
unseen-nil (k ∷ keys) = omega (arith, unseen-nil keys)

unseen-cons-le :
    (keys seen : List (List ℕ)) (key : List ℕ) → unseen keys (key ∷ seen) ≤ unseen keys seen
unfolding unseen
unseen-cons-le [] seen key = omega arith
unseen-cons-le (k ∷ keys) seen key = ground (arith, unseen-cons-le keys seen key)

unseen-cons-lt :
    (keys seen : List (List ℕ)) (key : List ℕ)
    → includes_codes key keys ≡ true
    → includes_codes key seen ≡ false
    → unseen keys (key ∷ seen) + 1 ≤ unseen keys seen
unfolding unseen
unseen-cons-lt [] seen key h new = cc
unseen-cons-lt (k ∷ keys) seen key h new = elim (Bool-cases (equal_codes k key)) [
  | inl e ↦
      let same : k ≡ key = (equal_codes_iff k key).0 e in
      ground (arith, unseen-cons-le keys seen key, equal_codes_iff key k, sym same)
  | inr e ↦
      ground (arith, unseen-cons-lt keys seen key, equal_codes_iff key k, equal_codes_iff k key)
]

-- The event is of a ledger of the range, and of a contract and a type that were asked for.
abbrev pub IsSelected : {S : Type 0} → Replay S → ProtocolEvent → Type 0
IsSelected r e =
    (r.from ≤ e.ledger)
    × (e.ledger ≤ r.target_to)
    × ((r.contract_ids ≡ []) ⊎ (includes_codes e.contract_id r.contract_ids ≡ true))
    × (r.allowed e.event_type ≡ true)

is_wanted-selects :
    {S : Type 0} (r : Replay S) (e : ProtocolEvent)
    → is_wanted r e ≡ true
    → ((r.contract_ids ≡ []) ⊎ (includes_codes e.contract_id r.contract_ids ≡ true))
      × (r.allowed e.event_type ≡ true)
unfolding is_wanted
is_wanted-selects r e h = (listed r.contract_ids (ground arith), ground arith)
  where
    listed :
        (ids : List (List ℕ))
        → (leb (length ids) 0 || includes_codes e.contract_id ids) ≡ true
        → (ids ≡ []) ⊎ (includes_codes e.contract_id ids ≡ true)
    listed [] p = inl refl
    listed (id ∷ ids) p = inr (ground arith)

-- The events after one more is decoded.
abbrev pub with_decoded :
    {S : Type 0}
    → Replay S
    → Result DecodeError (Option ProtocolEvent)
    → List ProtocolEvent
    → List ProtocolEvent
with_decoded r (ok (some e)) events = if is_wanted r e then events ++ (e ∷ []) else events
with_decoded r _ events = events

-- What raw events, the last one first, are decoded to: those of a contract and a type that were asked
-- for, the first one first.
unfoldable pub decoded_events : {S : Type 0} → Replay S → List (RawEvent S) → List ProtocolEvent
decoded_events r [] = []
decoded_events r (raw ∷ taken) =
    with_decoded r (decode_event r.decode raw.event) (decoded_events r taken)

-- No two of the events have one key.
abbrev pub HasDistinctKeys : {S : Type 0} → List (RawEvent S) → Type 0
HasDistinctKeys [] = Unit
HasDistinctKeys (raw ∷ taken) =
    All (λ other. event_key other ≢ event_key raw) taken × HasDistinctKeys taken

-- The collected events are what raw events of different keys, those that were seen, decode to.
abbrev pub IsDecodedOf :
    {S : Type 0} → Replay S → List (List ℕ) → List ProtocolEvent → List (RawEvent S) → Type 0
IsDecodedOf r seen collected taken =
    (seen ≡ map event_key taken) × (collected ≡ decoded_events r taken) × HasDistinctKeys taken

abbrev pub Kept : {S : Type 0} → Replay S → List (List ℕ) → List ProtocolEvent → Type 0
Kept {S} r seen collected =
    All (IsSelected r) collected
    × ((taken : List (RawEvent S)) × IsDecodedOf r seen collected taken)

pub Kept-nothing : {S : Type 0} (r : Replay S) → Kept r [] []
unfolding decoded_events
Kept-nothing r = (tt, ([], (refl, refl, tt)))

other_keys :
    {S : Type 0} (key : List ℕ) (taken : List (RawEvent S))
    → includes_codes key (map event_key taken) ≡ false
    → All (λ other. event_key other ≢ key) taken
other_keys key [] h = tt
other_keys key (raw ∷ taken) h =
    (ground (arith, equal_codes_iff (event_key raw) key), other_keys key taken (ground arith))

-- From a page state to a later one: each new event is a key less to be seen, and so is each event
-- that is collected.
abbrev pub Advances : List (List ℕ) → PageState → PageState → Type 0
Advances keys p q =
    (unseen keys q.seen_keys + q.new_events ≤ unseen keys p.seen_keys + p.new_events)
    × (length q.collected + unseen keys q.seen_keys ≤ length p.collected + unseen keys p.seen_keys)

abbrev pub KeysIn : {S : Type 0} → List (List ℕ) → List (RawEvent S) → Type 0
KeysIn keys events = All (λ raw. includes_codes (event_key raw) keys ≡ true) events

module _ {S : Type 0} (r : Replay S) (keys : List (List ℕ)) where
  -- What a later page state owes to an earlier one.
  abbrev pub Follows : PageState → PageState → Type 0
  Follows p q = Advances keys p q × Kept r q.seen_keys q.collected

  take_raw :
      (p : PageState) (raw : RawEvent S)
      → includes_codes (event_key raw) p.seen_keys ≡ false
      → (taken : List (RawEvent S)) × IsDecodedOf r p.seen_keys p.collected taken
      → (taken : List (RawEvent S)) × IsDecodedOf r
          (event_key raw ∷ p.seen_keys)
          (with_decoded r (decode_event r.decode raw.event) p.collected)
          taken
  unfolding decoded_events
  take_raw p raw new (taken, (seen, collected, distinct)) = (
    raw ∷ taken,
    (
      ap (λ keys. event_key raw ∷ keys) seen,
      ap (with_decoded r (decode_event r.decode raw.event)) collected,
      (other_keys (event_key raw) taken (cc), distinct),
    ),
  )

  collect_decoded-Follows :
      (p : PageState) (key : List ℕ) (ledger : ℕ)
      (decoded : Result DecodeError (Option ProtocolEvent))
      → Yields (SameLedger ledger) decoded
      → r.from ≤ ledger
      → ledger ≤ r.target_to
      → includes_codes key keys ≡ true
      → includes_codes key p.seen_keys ≡ false
      → All (IsSelected r) p.collected
      → ((taken : List (RawEvent S)) × IsDecodedOf r
            (key ∷ p.seen_keys)
            (with_decoded r decoded p.collected)
            taken)
      → Ensures (Follows p) (collect_decoded r decoded (note_key key p))
  unfolding collect_decoded SameLedger
  collect_decoded-Follows p key ledger (err e) same low high known new all trace = tt
  collect_decoded-Follows p key ledger (ok none) same low high known new all trace =
      let less = unseen-cons-lt keys p.seen_keys key known new in
      ((omega (arith, less), omega (arith, less)), (all, trace))
  collect_decoded-Follows p key ledger (ok (some e)) same low high known new all trace =
      let less = unseen-cons-lt keys p.seen_keys key known new in
      let selected : is_wanted r e ≡ true → IsSelected r e = λ wanted. (
        omega (arith, same, low),
        omega (arith, same, high),
        (is_wanted-selects r e wanted).0,
        (is_wanted-selects r e wanted).1,
      ) in
      elim (Bool-cases (is_wanted r e)) [
        | inl wanted ↦
            let kept : (taken : List (RawEvent S)) × IsDecodedOf r (key ∷ p.seen_keys)
                  (p.collected ++ (e ∷ [])) taken =
              rw wanted at trace in
            rw wanted (
              (omega (arith, less), omega (arith, less, length-append p.collected (e ∷ []))),
              (All-append (IsSelected r) p.collected (e ∷ []) all (selected wanted, tt), kept),
            )
        | inr refused ↦
            let kept : (taken : List (RawEvent S)) × IsDecodedOf r (key ∷ p.seen_keys) p.collected
                  taken =
              rw refused at trace in
            rw refused ((omega (arith, less), omega (arith, less)), (all, kept))
      ]

  take_event-Follows :
      (p : PageState) (raw : RawEvent S)
      → includes_codes (event_key raw) keys ≡ true
      → raw.event.ledger ≤ r.target_to
      → Kept r p.seen_keys p.collected
      → Ensures (Follows p) (take_event r raw p)
  unfolding take_event
  take_event-Follows p raw known high kept =
      elim (Bool-cases
        (ltb raw.event.ledger r.from || includes_codes (event_key raw) p.seen_keys)) [
          | inl skipped ↦ rw skipped ((omega arith, omega arith), kept)
          | inr taken ↦
              let new : includes_codes (event_key raw) p.seen_keys ≡ false = ground arith in
              rw taken (
                collect_decoded-Follows p (event_key raw) raw.event.ledger
                  (decode_event r.decode raw.event) (decode_event-SameLedger r.decode raw.event)
                  (ground arith) high known new kept.0 (take_raw p raw new kept.1))
        ]

  pub take_events-Follows :
      (window_end : ℕ) (events : List (RawEvent S)) (p : PageState)
      → KeysIn keys events
      → Kept r p.seen_keys p.collected
      → Ensures (Follows p) (take_events r window_end events p)
  unfolding take_events
  take_events-Follows window_end [] p known all = ((omega arith, omega arith), all)
  take_events-Follows window_end (raw ∷ events) p known all =
      elim (Bool-cases (ltb r.target_to raw.event.ledger || ltb window_end raw.event.ledger)) [
        | inl cut ↦ rw cut ((omega arith, omega arith), all)
        | inr kept ↦ rw kept (
            Ensures-bind (Follows p) (Follows p) (take_event r raw p)
              (take_events r window_end events)
              (take_event-Follows p raw known.0 (ground arith) all)
              (λ q step.
                Follows-trans p q (take_events r window_end events q) step.0
                  (take_events-Follows window_end events q known.1 step.1)))
      ]
    where
      Follows-trans :
          (p q : PageState) (result : Result ReplayError PageState)
          → Advances keys p q
          → Ensures (Follows q) result
          → Ensures (Follows p) result
      Follows-trans p q (ok s) a b = ((omega (arith, a.0, b.0.0), omega (arith, a.1, b.0.1)), b.1)
      Follows-trans p q (err e) a b = tt
