-- ===== src/Reminders.antt =====
-- invofi/apps/frontend/src/lib/reminders/schedule.ts: which invoice is reminded of, and when. A time
-- is in milliseconds since 1970, and a due date parses. Of an invoice, the
-- fields that are read.
pub mod Stages
mod Tests
use invofi.Prelude.{
  ℕ, ◌/◌, String, Bool, true, false, not, ◌&&◌, ◌||◌, Option, none, some, List, [], ◌∷◌, ◌==◌,
  str_eq, if◌then◌else◌,
}
use invofi.Prelude.Int.{ℤ, pos, negsuc, ◌-ℤ◌}

pub data ReminderStage : Type 0 where
  due_in_7 due_in_1 due_today overdue_1 overdue_7 : ReminderStage

-- `STAGE_OFFSET_DAYS`
unfoldable pub stage_offset_days : ReminderStage → ℤ
stage_offset_days due_in_7 = negsuc 6
stage_offset_days due_in_1 = negsuc 0
stage_offset_days due_today = pos 0
stage_offset_days overdue_1 = pos 1
stage_offset_days overdue_7 = pos 7

abbrev pub ms_per_day : ℕ
ms_per_day = 86400000

-- The days between the two calendar days.
unfoldable pub days_since_due : ℕ → ℕ → ℤ
days_since_due due_date now = pos (now / ms_per_day) -ℤ pos (due_date / ms_per_day)

abbrev pub same_days : ℤ → ℤ → Bool
same_days (pos m) (pos n) = m == n
same_days (negsuc m) (negsuc n) = m == n
same_days _ _ = false

abbrev pub all_stages : List ReminderStage
all_stages = due_in_7 ∷ due_in_1 ∷ due_today ∷ overdue_1 ∷ overdue_7 ∷ []

abbrev pub find_stage : ℤ → List ReminderStage → Option ReminderStage
find_stage offset [] = none
find_stage offset (s ∷ stages) =
    let rest = find_stage offset stages in
    if same_days (stage_offset_days s) offset then some s else rest

unfoldable pub stage_for_invoice : ℕ → ℕ → Option ReminderStage
stage_for_invoice due_date now = find_stage (days_since_due due_date now) all_stages

pub record ReminderableInvoice : Type 0 where
  pub id : String
  pub status : String
  pub due_date : ℕ

pub record ReminderDecision : Type 0 where
  pub invoice : ReminderableInvoice
  pub stage : ReminderStage

abbrev pub is_remindable : String → Bool
is_remindable status = str_eq status "Financed" || str_eq status "Overdue"

abbrev pub decide_stage :
    (ReminderStage → Bool) → ReminderableInvoice → Option ReminderStage → List ReminderDecision
decide_stage enabled_stages invoice none = []
decide_stage enabled_stages invoice (some stage) =
    if enabled_stages stage then record { invoice = invoice; stage = stage } ∷ [] else []

-- The body of the loop: the decision on an invoice, if there is one.
unfoldable pub decide_reminder :
    (ReminderStage → Bool) → (String → Bool) → ℕ → ReminderableInvoice → List ReminderDecision
decide_reminder enabled_stages opted_out now invoice =
    if is_remindable invoice.status && not (opted_out invoice.id)
    then decide_stage enabled_stages invoice (stage_for_invoice invoice.due_date now)
    else []

abbrev pub prepend_all : List ReminderDecision → List ReminderDecision → List ReminderDecision
prepend_all [] rest = rest
prepend_all (d ∷ ds) rest = d ∷ prepend_all ds rest

-- `config.stages` and the set of invoices that opted out are tests.
unfoldable pub decide_reminders :
    (ReminderStage → Bool) → (String → Bool) → ℕ → List ReminderableInvoice → List ReminderDecision
decide_reminders enabled_stages opted_out now [] = []
decide_reminders enabled_stages opted_out now (invoice ∷ invoices) =
    prepend_all (decide_reminder enabled_stages opted_out now invoice)
      (decide_reminders enabled_stages opted_out now invoices)

unfoldable pub compute_due_reminders :
    Bool
    → (ReminderStage → Bool)
    → (String → Bool)
    → ℕ
    → List ReminderableInvoice
    → List ReminderDecision
compute_due_reminders enabled enabled_stages opted_out now invoices =
    if enabled then decide_reminders enabled_stages opted_out now invoices else []
