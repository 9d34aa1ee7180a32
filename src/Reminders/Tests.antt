-- ===== src/Reminders/Tests.antt =====
-- A run of the schedule, and an instance of the theorem at it.
use invofi.Prelude.{ℕ, ◌≡◌, refl, String, Bool, true, false, [], ◌∷◌}
use invofi.Prelude.Int.{◌-ℤ◌}
use invofi.Reminders.{
  ReminderStage, due_in_1, stage_offset_days, days_since_due, stage_for_invoice,
  ReminderableInvoice, decide_reminder, decide_reminders, compute_due_reminders,
}
use invofi.Reminders.Stages.{decisions}

abbrev invoice : ReminderableInvoice
invoice = record { id = "INV-1"; status = "Financed"; due_date = 1728000000 }

-- The evening of the day before the due date.
abbrev evening : ℕ
evening = 1727999000

abbrev every_stage : ReminderStage → Bool
every_stage stage = true

abbrev nobody : String → Bool
nobody id = false

reminder_run :
    compute_due_reminders true every_stage nobody evening (invoice ∷ [])
    ≡ decisions invoice due_in_1
unfolding compute_due_reminders decide_reminders decide_reminder stage_for_invoice days_since_due
    stage_offset_days ◌-ℤ◌
reminder_run = refl
