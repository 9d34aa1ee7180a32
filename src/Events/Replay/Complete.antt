-- ===== src/Events/Replay/Complete.antt =====
-- What a page leaves unread.
use invofi.Prelude.{ℕ, ◌≤◌, ◌≡◌, true, false, List}
use invofi.Prelude.Result.{Result}
use invofi.Events.Replay.{Replay, RawEvent, PageState, includes_codes, event_key}

-- Every key that was seen is still seen, and the end of the window is not forgotten.
abbrev Sees : PageState → PageState → Type 0
Sees p q =
    ((key : List ℕ) → includes_codes key p.seen_keys ≡ true → includes_codes key q.seen_keys ≡ true)
    × (q.cut ≡ false → p.cut ≡ false)

-- The key of an event is seen, if it is not before the first ledger.
abbrev IsSeen : {S : Type 0} → Replay S → PageState → RawEvent S → Type 0
IsSeen r q raw = r.from ≤ raw.event.ledger → includes_codes (event_key raw) q.seen_keys ≡ true
