-- ===== src/Scheduler/Schedules/NextDue.antt =====
-- src/scheduler/scheduler.cpp, `next_schedule_due`: the next due time is later.
use laso.Base.{ℕ, ◌<◌, ◌≡◌, Option}
use laso.Core.Errors.{ok}
use laso.Pipeline.Reference.{Bytes}
use laso.Scheduler.Cron.{Cron}
use laso.Scheduler.Clock.{UtcTime, format_utc_timestamp}

module _ {Json : Type 0} (dump_size : Json → ℕ) (timegm : UtcTime → Option (UtcTime × ℕ))
    (gmtime : ℕ → Option (UtcTime × ℕ)) where
  -- A text of a time later than `t`.
  abbrev pub LaterThan : ℕ → Bytes → Type 0
  LaterThan t due = (next : ℕ) × (format_utc_timestamp gmtime next ≡ ok due) × (t < next)
