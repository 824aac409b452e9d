-- ===== src/Scheduler/Launch.antt =====
-- src/scheduler/scheduler.cpp, `process_due`: the branches that skip an occurrence or launch it. What the storage and the callback `dispatch_` answer is an
-- argument for each schedule. A run that the callback has made stands in the store, whatever follows. A
-- process that ends in the middle leaves what it leaves where the rest of its writes throw.
use laso.Base.{
  ℕ, zero, suc, ◌+◌, ◌%◌, ◌^◌, String, Bool, true, false, not, Option, [], ◌∷◌, ◌++◌, ltb, leb,
  if◌then◌else◌,
}
use laso.Core.Errors.{Error, ErrorCode, Result, ok, err, ◌>>=◌}
use laso.Core.RunStates.{RunState}
use laso.Pipeline.Reference.{Bytes}
use laso.Tables.{put_row}
use laso.Scheduler.Cron.{is_nil}
use laso.Scheduler.Clock.{UtcTime, parse_utc_timestamp, format_utc_timestamp}
use laso.Scheduler.Schedules.{ScheduleDefinition, is_type, next_schedule_due}
use laso.Scheduler.Store.{OccurrenceStatus, ScheduledRun, Store, record_value, scheduler_event}

-- The answers while one schedule is processed: to the reads and the claim, of `dispatch_` with the id of
-- the run, to the commit that follows, and to the commit of the `catch` clause.
pub record Answers : Type 0 where
  pub reads : Result (Unit {0})
  pub launch : Result Bytes
  pub commit : Result (Unit {0})
  pub recommit : Result (Unit {0})

abbrev pub is_capacity : ErrorCode → Bool
is_capacity ErrorCode.capacity = true
is_capacity _ = false

abbrev pub occurrence_of : Bytes → Bytes → Bytes
occurrence_of schedule_id due = schedule_id ++ b'|' ∷ due

module _ {Json : Type 0} (dump_size : Json → ℕ) (timegm : UtcTime → Option (UtcTime × ℕ))
    (gmtime : ℕ → Option (UtcTime × ℕ)) (now : ℕ) where
  abbrev pub is_due : Bytes → Result Bool
  is_due due =
      if is_nil due
      then ok false
      else (parse_utc_timestamp timegm gmtime due >>= λ t. ok (leb t now))

  -- `max_lateness` is one second.
  abbrev pub is_late : Bytes → Result Bool
  is_late due =
      if is_nil due
      then ok true
      else (parse_utc_timestamp timegm gmtime due >>= λ t. ok (ltb (t + 1000) now))

  -- What is thrown, or whether the launch counts. A value of `Step` is the store with it.
  abbrev pub Step : Type 0
  Step = Store Json × Result Bool

  -- The end of a branch that changes the schedule and its occurrence and writes one event.
  abbrev pub commit_both :
      Answers
      → Bytes
      → OccurrenceStatus
      → Bytes
      → String
      → Bytes
      → ScheduleDefinition Json
      → Store Json
      → Store Json
  commit_both a due status run_id type occurrence_id schedule store = record store {
    schedules = put_row schedule.id schedule store.schedules;
    occurrences = put_row occurrence_id (record_value status schedule due run_id) store.occurrences;
    events = store.events ++ (scheduler_event type schedule due ∷ []);
  }

  abbrev pub stamped : ScheduleDefinition Json → Result (ScheduleDefinition Json)
  stamped s = format_utc_timestamp gmtime now >>= λ text. ok (record s { updated_at = text })

  -- The next due time after `due`, and the time of the update.
  unfoldable pub advance_schedule :
      Bytes → ScheduleDefinition Json → Result (ScheduleDefinition Json)
  advance_schedule due s =
      if is_type "one_time" s
      then stamped (record s { next_due_at = []; enabled = false })
      else (next_schedule_due dump_size timegm gmtime now s due >>= λ next.
          stamped (record s { next_due_at = next }))

  -- The loop over the occurrences that were missed, of at most `rounds` rounds.
  unfoldable pub catch_up : ℕ → ScheduleDefinition Json → Result (ScheduleDefinition Json)
  catch_up zero s = ok s
  catch_up (suc rounds) s = is_due s.next_due_at >>= λ again. elim again [
    | false ↦ ok s
    | true ↦ next_schedule_due dump_size timegm gmtime now s s.next_due_at >>= λ next.
        catch_up rounds
          (record s { missed_count = (s.missed_count + 1) % 2 ^ 32; next_due_at = next })
  ]

  unfoldable pub missed_schedule :
      Bytes → ScheduleDefinition Json → Result (ScheduleDefinition Json)
  missed_schedule due s =
      if is_type "one_time" s
      then stamped (record s { enabled = false; next_due_at = [] })
      else (next_schedule_due dump_size timegm gmtime now s due >>= λ next.
          catch_up 10000 (record s { next_due_at = next }) >>= λ s'. stamped s')

  -- What comes of a changed schedule: it is committed, unless something throws.
  abbrev pub settle :
      Result (ScheduleDefinition Json)
      → Result (Unit {0})
      → (ScheduleDefinition Json → Store Json)
      → Store Json
      → Step
  settle (err e) answer write store = (store, err e)
  settle (ok s) (err e) write store = (store, err e)
  settle (ok s) (ok _) write store = (write s, ok false)

  -- The `catch` clause of a launch.
  unfoldable pub launch_failed :
      Answers → Bytes → Bytes → ScheduleDefinition Json → Error → Store Json → Step
  launch_failed a due occurrence_id s e store = elim a.recommit [
    | err thrown ↦ (store, err thrown)
    | ok _ ↦ (
      record store {
        occurrences =
            put_row occurrence_id
              (record_value
                (if is_capacity e.code then OccurrenceStatus.pending else OccurrenceStatus.failed) s
                due [])
              store.occurrences;
      },
      ok (not (is_capacity e.code)),
    )
  ]

  abbrev pub launched_run : Bytes → ScheduleDefinition Json → Bytes → Bytes × ScheduledRun
  launched_run occurrence_id s run_id = (
    run_id,
    record {
      id = run_id;
      schedule_id = s.id;
      schedule_occurrence_id = occurrence_id;
      state = RunState.queued;
    },
  )

  abbrev pub started_schedule : Bytes → ScheduleDefinition Json → Result (ScheduleDefinition Json)
  started_schedule due s = format_utc_timestamp gmtime now >>= λ text.
      advance_schedule due
        (record s { queued = false; queued_due_at = []; last_due_at = due; last_started_at = text })

  -- The `try` block of a launch after `dispatch_` has returned.
  unfoldable pub after_launch :
      Answers
      → Bytes
      → Bytes
      → ScheduleDefinition Json
      → Bytes
      → Result (ScheduleDefinition Json)
      → Store Json
      → Step
  unfolding launch_failed
  after_launch a due occurrence_id s run_id (err e) store =
      launch_failed a due occurrence_id s e store
  after_launch a due occurrence_id s run_id (ok s') store = elim a.commit [
    | err e ↦ launch_failed a due occurrence_id s' e store
    | ok _ ↦ (
      commit_both a due OccurrenceStatus.started run_id "schedule.run_created" occurrence_id s'
          store,
      ok true,
    )
  ]

  unfoldable pub launch : Answers → Bytes → Bytes → ScheduleDefinition Json → Store Json → Step
  unfolding after_launch launch_failed
  launch a due occurrence_id s store = elim a.launch [
    | err e ↦ launch_failed a due occurrence_id s e store
    | ok run_id ↦
        after_launch a due occurrence_id s run_id (started_schedule due s)
          (record store { runs = store.runs ++ (launched_run occurrence_id s run_id ∷ []) })
  ]
