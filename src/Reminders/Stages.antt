-- ===== src/Reminders/Stages.antt =====
-- The day of a reminder.
use invofi.Prelude.{ℕ, ◌+◌, ◌/◌, ◌≡◌, List, [], ◌∷◌}
use invofi.Reminders.{
  ReminderStage, due_in_7, due_in_1, overdue_1, overdue_7, ms_per_day, ReminderableInvoice,
  ReminderDecision,
}

-- The days before and after the due date, written out.
abbrev pub days_before : ReminderStage → ℕ
days_before due_in_7 = 7
days_before due_in_1 = 1
days_before _ = 0

abbrev pub days_after : ReminderStage → ℕ
days_after overdue_1 = 1
days_after overdue_7 = 7
days_after _ = 0

-- The day of the stage, counted from 1970, is the day of the time.
abbrev pub IsOnDay : ReminderStage → ℕ → ℕ → Type 0
IsOnDay stage due_date now =
    now / ms_per_day + days_before stage ≡ due_date / ms_per_day + days_after stage

abbrev pub decisions : ReminderableInvoice → ReminderStage → List ReminderDecision
decisions inv stage = record { invoice = inv; stage = stage } ∷ []

abbrev stage_of : ReminderStage → List ReminderDecision → ReminderStage
stage_of s [] = s
stage_of s (d ∷ ds) = d.stage
