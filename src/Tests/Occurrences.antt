-- ===== src/Tests/Occurrences.antt =====
-- Tests of src/scheduler/scheduler.cpp: `process_due` and the deletion of a schedule.
use laso.Base.{
  none, ◌++◌, ℕ, ◌+◌, ◌≤◌, ◌≡◌, refl, ◌⊎◌, inl, inr, true, false, some, [], ◌∷◌, length, codes,
  arith,
}
use laso.Core.Errors.{Error, ErrorCode, Result, ok, err, throw}
use laso.Pipeline.Reference.{Bytes, decimal, read_digits}
use laso.Security.{bytes_eq}
use laso.Tables.{get_row, put_row, first_rows}
use laso.Scheduler.Clock.{
  two, three, four, expect, timestamp_fields, print_time, parse_utc_timestamp, format_utc_timestamp,
}
use laso.Scheduler.Schedules.{
  is_type, ScheduleDefinition, stoll, digits_of, interval_value, check_type, validate_schedule,
  next_schedule_due,
}
use laso.Scheduler.Store.{pending, Occurrence, Store, active_schedule_run, any_active}
use laso.Scheduler.Launch.{
  Answers, is_due, is_capacity, occurrence_of, started_schedule, advance_schedule, launch,
  after_launch, launch_failed,
}
use laso.Scheduler.Process.{
  decide, decide_overlap, claim_occurrence, process_schedule, process_rows, process_due,
}
use laso.Scheduler.Process.Once.{count_runs, allowed}
use laso.Scheduler.Process.Runs.{empty, processed, at_most_one_run}
use laso.Scheduler.Process.Replays.{made_run, run_once_replays}
use laso.Scheduler.Process.Settled.{launched, failed_launch_stalls}
use laso.Scheduler.Process.Twice.{IsOwing, lost_writes_launch_twice}
use laso.Scheduler.Admin.{delete_schedule, set_schedule_enabled}
use laso.Scheduler.Admin.Deleted.{deleted_is_idle}
use laso.Tests.Schedules.{one_o_clock, gm, tg, size_of, noon, hourly}

abbrev nothing : Store ℕ
nothing = record { schedules = (codes "s", hourly) ∷ []; occurrences = []; runs = []; events = [] }

abbrev storage_error : Error
storage_error = record { code = ErrorCode.storage; message = "gone" }

abbrev pub all_well : Answers
all_well = record { reads = ok tt; launch = ok (codes "r1"); commit = ok tt; recommit = ok tt }

abbrev refused : Answers
refused = record { reads = ok tt; launch = err storage_error; commit = ok tt; recommit = ok tt }

abbrev lost : Answers
lost = record {
  reads = ok tt;
  launch = ok (codes "r1");
  commit = err storage_error;
  recommit = err storage_error;
}

abbrev pub half_past : ℕ
half_past = 45000000

abbrev at_noon : Bytes
at_noon = occurrence_of (codes "s") noon

abbrev served : Store ℕ
served = (process_schedule size_of tg gm half_past all_well hourly nothing).0

no_error :
    (e : Error)
    → (started_schedule size_of tg gm half_past noon hourly ≡ err e) ⊎ (all_well.commit ≡ err e)
    → is_capacity e.code ≡ false
unfolding advance_schedule next_schedule_due validate_schedule check_type interval_value stoll
    digits_of read_digits bytes_eq parse_utc_timestamp format_utc_timestamp print_time decimal
    timestamp_fields four two three expect
no_error e (inl h) = cc h
no_error e (inr h) = cc h

no_row :
    (o : Occurrence)
    → get_row at_noon nothing.occurrences ≡ some o
    → allowed o.status ≡ 0
    → all_well.recommit ≡ ok tt
no_row o h z = refl

at_most_one_run_example : count_runs at_noon served.runs ≤ 1
at_most_one_run_example =
    at_most_one_run size_of tg gm
      (processed half_past all_well hourly (empty refl refl) (no_error, omega arith, no_row))
      (codes "s") noon

-- The run is made, the occurrence is started, and the schedule waits for the next hour.
one_launch :
    (length served.runs ≡ 1)
    × (count_runs at_noon served.runs ≡ 1)
    × ((process_due size_of tg gm half_past false 128 (λ id. all_well) served).0.runs ≡ served.runs)
unfolding process_due process_rows first_rows process_schedule claim_occurrence decide
    decide_overlap launch after_launch launch_failed active_schedule_run any_active get_row put_row
    count_runs advance_schedule next_schedule_due validate_schedule check_type interval_value stoll
    digits_of read_digits bytes_eq parse_utc_timestamp format_utc_timestamp print_time decimal
    timestamp_fields four two three expect
one_launch = (refl, refl, refl)

failed_launch_stalls_example :
    ((launched size_of tg gm half_past refused hourly nothing).schedules ≡ nothing.schedules)
    × ((later : ℕ) (b : Answers)
        → (process_schedule size_of tg gm later b hourly
            (launched size_of tg gm half_past refused hourly nothing)).0
          ≡ launched size_of tg gm half_past refused hourly nothing)
failed_launch_stalls_example =
    failed_launch_stalls size_of tg gm half_past refused hourly nothing storage_error refl refl refl

abbrev waiting : Occurrence
waiting = record {
  schedule_id = codes "s";
  due_at = noon;
  status = pending;
  run_id = [];
  updated_at = [];
}

abbrev tried : Store ℕ
tried = record nothing { occurrences = (at_noon, waiting) ∷ [] }

owes_tried : IsOwing size_of tg gm half_past hourly
unfolding parse_utc_timestamp timestamp_fields four two three expect
owes_tried = (refl, refl, refl, refl, refl, refl)

row_tried : get_row at_noon tried.occurrences ≡ some waiting
unfolding get_row bytes_eq
row_tried = refl

lost_writes_launch_twice_example :
    ((process_schedule size_of tg gm half_past lost hourly tried).0.occurrences ≡ tried.occurrences)
    × (count_runs at_noon
          (process_schedule size_of tg gm half_past all_well hourly
            (process_schedule size_of tg gm half_past lost hourly tried).0).0.runs
        ≡ count_runs at_noon tried.runs + 2)
lost_writes_launch_twice_example =
    lost_writes_launch_twice size_of tg gm half_past half_past lost all_well (codes "r1")
      (codes "r1") hourly tried waiting owes_tried owes_tried row_tried refl refl refl
      (storage_error, storage_error, refl, refl) refl refl

abbrev removed : Store ℕ
removed = (delete_schedule size_of tg gm half_past (ok tt) (codes "s") nothing).0

removed-ok : (delete_schedule size_of tg gm half_past (ok tt) (codes "s") nothing).1 ≡ ok tt
unfolding delete_schedule get_row bytes_eq format_utc_timestamp
removed-ok = refl

deleted_is_idle_example :
    (s : ScheduleDefinition ℕ) × (get_row (codes "s") removed.schedules ≡ some s)
    × ((later : ℕ) (a : Answers) (any : Store ℕ)
        → process_schedule size_of tg gm later a s any ≡ (any, ok false))
    × ((later : ℕ) (again : Result (Unit {0}))
        → set_schedule_enabled size_of tg gm later again (codes "s") true removed
          ≡ (removed, throw ErrorCode.conflict "Deleted schedule cannot be enabled"))
deleted_is_idle_example =
    deleted_is_idle size_of tg gm half_past (ok tt) (codes "s") nothing removed-ok

-- A quarter past one: the occurrences of noon and of one o'clock are missed.
abbrev quarter_past : ℕ
quarter_past = 47700250

abbrev quarter_text : Bytes
quarter_text = codes "1970-01-01T13:15:00.250Z"

abbrev two_o_clock : Bytes
two_o_clock = codes "1970-01-01T14:00:00.250Z"

abbrev after_noon : ScheduleDefinition ℕ
after_noon = record hourly {
  next_due_at = one_o_clock;
  last_due_at = noon;
  last_started_at = quarter_text;
  updated_at = quarter_text;
}

abbrev after_one : ScheduleDefinition ℕ
after_one = record after_noon { next_due_at = two_o_clock; last_due_at = one_o_clock }

abbrev also_well : Answers
also_well = record all_well { launch = ok (codes "r2") }

owes_noon : IsOwing size_of tg gm quarter_past hourly
unfolding parse_utc_timestamp timestamp_fields four two three expect
owes_noon = (refl, refl, refl, refl, refl, refl)

owes_one : is_due size_of tg gm quarter_past one_o_clock ≡ ok true
unfolding parse_utc_timestamp timestamp_fields four two three expect
owes_one = refl

starts_noon : started_schedule size_of tg gm quarter_past noon hourly ≡ ok after_noon
unfolding advance_schedule next_schedule_due validate_schedule check_type interval_value stoll
    digits_of read_digits bytes_eq parse_utc_timestamp format_utc_timestamp print_time decimal
    timestamp_fields four two three expect
starts_noon = refl

starts_one : started_schedule size_of tg gm quarter_past one_o_clock after_noon ≡ ok after_one
unfolding advance_schedule next_schedule_due validate_schedule check_type interval_value stoll
    digits_of read_digits bytes_eq parse_utc_timestamp format_utc_timestamp print_time decimal
    timestamp_fields four two three expect
starts_one = refl

recurs_hourly : is_type "one_time" hourly ≡ false
unfolding bytes_eq
recurs_hourly = refl

other_occurrence : bytes_eq at_noon (occurrence_of (codes "s") one_o_clock) ≡ false
unfolding bytes_eq
other_occurrence = refl

no_occurrence : (id : Bytes) → get_row id nothing.occurrences ≡ none
unfolding get_row
no_occurrence id = refl

run_once_replays_example :
    (get_row
        (codes "s")
        (process_schedule size_of tg gm quarter_past all_well hourly nothing).0.schedules
      ≡ some after_noon)
    × ((process_schedule size_of tg gm quarter_past also_well after_noon
          (process_schedule size_of tg gm quarter_past all_well hourly nothing).0).0.runs
        ≡ (nothing.runs ++ (made_run size_of tg gm quarter_past hourly (codes "r1") ∷ []))
          ++ (made_run size_of tg gm quarter_past after_noon (codes "r2") ∷ []))
run_once_replays_example =
    run_once_replays size_of tg gm quarter_past all_well also_well (codes "r1") (codes "r2") hourly
      after_noon after_one nothing owes_noon recurs_hourly (refl, refl, refl) (refl, refl, refl)
      starts_noon owes_one starts_one (no_occurrence at_noon)
      (no_occurrence (occurrence_of (codes "s") one_o_clock)) other_occurrence
