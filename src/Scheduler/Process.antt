-- ===== src/Scheduler/Process.antt =====
-- src/scheduler/scheduler.cpp, `process_due`: what is done with the due occurrence of a schedule, and the
-- loop over the schedules.
pub mod Settled
pub mod Once
pub mod Steps
pub mod Runs
pub mod Twice
pub mod Replays
use laso.Base.{
  ℕ, zero, suc, ◌+◌, ◌%◌, ◌^◌, Bool, true, false, not, ◌&&◌, ◌||◌, Option, none, some, List, [],
  ◌∷◌, ltb, leb, codes, if◌then◌else◌,
}
use laso.Core.Errors.{Result, ok, err, ◌>>=◌}
use laso.Pipeline.Reference.{Bytes}
use laso.Security.{bytes_eq}
use laso.Tables.{get_row, put_row, first_rows}
use laso.Scheduler.Cron.{is_nil}
use laso.Scheduler.Clock.{UtcTime, parse_utc_timestamp, format_utc_timestamp}
use laso.Scheduler.Schedules.{ScheduleDefinition}
use laso.Scheduler.Store.{
  OccurrenceStatus, claimed, pending, queued, started, skipped, failed, Occurrence, ScheduledRun,
  Store, record_value, find_run, active_schedule_run,
}
use laso.Scheduler.Launch.{
  Answers, is_due, is_late, occurrence_of, advance_schedule, missed_schedule, commit_both, settle,
  launch,
}

module _ {Json : Type 0} (dump_size : Json → ℕ) (timegm : UtcTime → Option (UtcTime × ℕ))
    (gmtime : ℕ → Option (UtcTime × ℕ)) (now : ℕ) where
  abbrev pub State : Type 0
  State = Store Json × Result Bool

  module _ (a : Answers) (due occurrence_id : Bytes) (s : ScheduleDefinition Json)
      (store : Store Json) where
    unfoldable pub misfire : State
    misfire =
        settle dump_size timegm gmtime now
          (missed_schedule dump_size timegm gmtime now due
            (record s { last_due_at = due; missed_count = (s.missed_count + 1) % 2 ^ 32 }))
          a.commit
          (λ s'.
            commit_both dump_size timegm gmtime now a due skipped [] "schedule.misfired"
              occurrence_id s' store)
          store

    unfoldable pub skip_overlap : State
    skip_overlap =
        settle dump_size timegm gmtime now
          (advance_schedule dump_size timegm gmtime now due (record s { last_due_at = due }))
          a.commit
          (λ s'.
            commit_both dump_size timegm gmtime now a due skipped [] "schedule.skipped"
              occurrence_id s' store)
          store

    unfoldable pub queue_overlap : State
    queue_overlap =
        settle dump_size timegm gmtime now
          (advance_schedule dump_size timegm gmtime now due
            (record s { queued = true; queued_due_at = due; last_due_at = due }))
          a.commit
          (λ s'.
            commit_both dump_size timegm gmtime now a due queued [] "schedule.skipped" occurrence_id
              s' store)
          store

    unfoldable pub decide_overlap : State
    unfolding skip_overlap queue_overlap
    decide_overlap =
        if not s.queued && active_schedule_run store s.id
        then (if bytes_eq s.overlap_policy (codes "SKIP")
            then skip_overlap
            else if bytes_eq s.overlap_policy (codes "QUEUE_ONE")
            then queue_overlap
            else launch dump_size timegm gmtime now a due occurrence_id s store)
        else launch dump_size timegm gmtime now a due occurrence_id s store

    abbrev pub decide_late : Result Bool → State
    decide_late (err e) = (store, err e)
    decide_late (ok late) =
        if late && bytes_eq s.misfire_policy (codes "SKIP") then misfire else decide_overlap

    -- The occurrence is claimed.
    unfoldable pub decide : State
    unfolding misfire decide_overlap
    decide = decide_late (is_late dump_size timegm gmtime now due)

    abbrev pub reconciled : Occurrence → ScheduledRun → Result Bytes → Result (Unit {0}) → State
    reconciled o run (err e) answer = (store, err e)
    reconciled o run (ok text) (err e) = (store, err e)
    reconciled o run (ok text) (ok _) = (
      record store {
        occurrences =
            put_row occurrence_id
              (record o { status = started; run_id = run.id; updated_at = text }) store.occurrences;
      },
      ok false,
    )

    -- A claim that is there: its run is looked for among those that are listed.
    unfoldable pub reconcile : Occurrence → Option ScheduledRun → State
    unfolding decide
    reconcile o none = decide
    reconcile o (some run) = reconciled o run (format_utc_timestamp gmtime now) a.commit

    unfoldable pub existing : Occurrence → OccurrenceStatus → State
    unfolding reconcile decide
    existing o started = (store, ok false)
    existing o skipped = (store, ok false)
    existing o failed = (store, ok false)
    existing o claimed = reconcile o (find_run occurrence_id (first_rows 10000 store.runs))
    existing o pending = decide
    existing o queued = decide

  unfoldable pub claim_occurrence :
      Answers → Bytes → Bytes → ScheduleDefinition Json → Store Json → Option Occurrence → State
  unfolding existing decide
  claim_occurrence a due occurrence_id s store none = decide a due occurrence_id s (record store {
    occurrences = put_row occurrence_id (record_value claimed s due []) store.occurrences;
  })
  claim_occurrence a due occurrence_id s store (some o) =
      existing a due occurrence_id s store o o.status

  abbrev pub due_of : ScheduleDefinition Json → Bytes
  due_of s = if s.queued then s.queued_due_at else s.next_due_at

  -- Whether there is a due time to be processed.
  abbrev pub wanted : ScheduleDefinition Json → Result Bool
  wanted s =
      if s.queued
      then ok (not (is_nil s.queued_due_at))
      else is_due dump_size timegm gmtime now s.next_due_at

  abbrev pub process_wanted :
      Answers → ScheduleDefinition Json → Store Json → Result Bool → Result (Unit {0}) → State
  process_wanted a s store (err e) reads = (store, err e)
  process_wanted a s store (ok false) reads = (store, ok false)
  process_wanted a s store (ok true) (err e) = (store, err e)
  process_wanted a s store (ok true) (ok _) =
      claim_occurrence a (due_of s) (occurrence_of s.id (due_of s)) s store
        (get_row (occurrence_of s.id (due_of s)) store.occurrences)

  -- One round of the loop.
  unfoldable pub process_schedule : Answers → ScheduleDefinition Json → Store Json → State
  unfolding claim_occurrence
  process_schedule a s store =
      if s.deleted || (not s.enabled && not s.queued)
      then (store, ok false)
      else process_wanted a s store (wanted s) a.reads

  -- The loop, with the launches so far; an error ends it.
  unfoldable pub process_rows :
      ℕ
      → (Bytes → Answers)
      → ℕ
      → List (Bytes × ScheduleDefinition Json)
      → Store Json
      → Store Json × Result (Unit {0})
  process_rows limit answers launches [] store = (store, ok tt)
  process_rows limit answers launches ((key, s) ∷ rest) store =
      let (store', outcome) = process_schedule (answers s.id) s store in
      if leb limit launches then (store, ok tt) else elim outcome [
        | err e ↦ (store', err e)
        | ok counted ↦
            process_rows limit answers (if counted then launches + 1 else launches) rest store'
      ]

  -- `stopped_` is read under the lock; `limit` is max_pending_launches_.
  unfoldable pub process_due :
      Bool → ℕ → (Bytes → Answers) → Store Json → Store Json × Result (Unit {0})
  unfolding process_rows process_schedule
  process_due stopped limit answers store =
      if stopped
      then (store, ok tt)
      else process_rows limit answers 0 (first_rows (limit + 1) store.schedules) store
