-- ===== src/Tests/Schedules.antt =====
-- Tests of src/scheduler/scheduler.cpp: timestamps, schedules and triggers.
use laso.Base.{
  ℕ, ◌+◌, ◌-◌, ◌*◌, ltb, ◌==◌, if◌then◌else◌, none, ◌/◌, ◌%◌, ◌≡◌, refl, true, false, Option, some,
  [], codes,
}
use laso.Pipeline.Reference.{Bytes, decimal}
use laso.Scheduler.Clock.{UtcTime, print_time}
use laso.Scheduler.Schedules.{ScheduleDefinition}

-- The first three months of 1970; later times have no date here.
abbrev pub month_of : ℕ → ℕ
month_of d = if ltb d 31 then 1 else if ltb d 59 then 2 else 3

abbrev pub days_before : ℕ → ℕ
days_before m = if m == 1 then 0 else if m == 2 then 31 else 59

abbrev pub date_of : ℕ → UtcTime
date_of s = record {
  year = 1970;
  month = month_of (s / 86400);
  day = s / 86400 - days_before (month_of (s / 86400)) + 1;
  hour = s / 3600 % 24;
  minute = s / 60 % 60;
  second = s % 60;
}

abbrev pub gm : ℕ → Option (UtcTime × ℕ)
gm s = if ltb s 7776000 then some (date_of s, (4 + s / 86400) % 7) else none

abbrev pub count_seconds : UtcTime → ℕ
count_seconds t =
    (days_before t.month + t.day - 1) * 86400 + t.hour * 3600 + t.minute * 60 + t.second

abbrev pub tg : UtcTime → Option (UtcTime × ℕ)
tg t = some (date_of (count_seconds t), count_seconds t)

abbrev pub size_of : ℕ → ℕ
size_of n = 2

abbrev pub noon : Bytes
noon = codes "1970-01-01T12:00:00.250Z"

abbrev thirtieth : Bytes
thirtieth = codes "1970-02-30T12:00:00.000Z"

second_of_march : print_time (date_of 5227200) 0 ≡ codes "1970-03-02T12:00:00.000Z"
unfolding print_time decimal
second_of_march = refl

abbrev pub hourly : ScheduleDefinition ℕ
hourly = record {
  id = codes "s";
  name = codes "hourly";
  pipeline_id = codes "p";
  pipeline_version = 1;
  type = codes "interval";
  at = [];
  interval_ms = codes "3600000";
  cron = [];
  input = 0;
  enabled = true;
  deleted = false;
  queued = false;
  created_at = [];
  updated_at = [];
  next_due_at = noon;
  last_due_at = [];
  last_started_at = [];
  last_completed_run_id = [];
  queued_due_at = [];
  misfire_policy = codes "RUN_ONCE";
  overlap_policy = codes "ALLOW";
  missed_count = 0;
}

abbrev pub one_o_clock : Bytes
one_o_clock = codes "1970-01-01T13:00:00.250Z"
