-- ===== src/Scheduler/Store.antt =====
-- include/laso/scheduler/scheduler.hpp, include/laso/core/types.hpp and src/scheduler/scheduler.cpp: the
-- records that the scheduler keeps in the store.
use laso.Base.{
  String, Bool, true, false, not, ◌&&◌, Option, none, some, List, [], ◌∷◌, if◌then◌else◌,
}
use laso.Core.RunStates.{RunState, terminal}
use laso.Pipeline.Reference.{Bytes}
use laso.Security.{bytes_eq}
use laso.Scheduler.Schedules.{ScheduleDefinition}
use laso.Tables.{first_rows}

-- The texts of `status`.
pub data OccurrenceStatus : Type 0 where
  claimed pending queued started skipped failed : OccurrenceStatus

pub record Occurrence : Type 0 where
  pub schedule_id : Bytes
  pub due_at : Bytes
  pub status : OccurrenceStatus
  pub run_id : Bytes
  pub updated_at : Bytes

-- The members of `Run` that the scheduler reads.
pub record ScheduledRun : Type 0 where
  pub id : Bytes
  pub schedule_id : Bytes
  pub schedule_occurrence_id : Bytes
  pub state : RunState

-- An event of the scheduler, less its uuid and its `extra` members.
pub record SchedulerEvent : Type 0 where
  pub type : String
  pub pipeline_id : Bytes
  pub schedule_id : Bytes
  pub due_at : Bytes

pub record Store (Json : Type 0) : Type 0 where
  pub schedules : List (Bytes × ScheduleDefinition Json)
  pub occurrences : List (Bytes × Occurrence)
  pub runs : List (Bytes × ScheduledRun)
  pub events : List SchedulerEvent

-- `record_value(status, schedule, due, run_id)`
abbrev pub record_value :
    {Json : Type 0} → OccurrenceStatus → ScheduleDefinition Json → Bytes → Bytes → Occurrence
record_value status schedule due run_id = record {
  schedule_id = schedule.id;
  due_at = due;
  status = status;
  run_id = run_id;
  updated_at = schedule.updated_at;
}

abbrev pub scheduler_event :
    {Json : Type 0} → String → ScheduleDefinition Json → Bytes → SchedulerEvent
scheduler_event type schedule due = record {
  type = type;
  pipeline_id = schedule.pipeline_id;
  schedule_id = schedule.id;
  due_at = due;
}

-- The run of an occurrence among the rows that are listed.
unfoldable pub find_run : Bytes → List (Bytes × ScheduledRun) → Option ScheduledRun
find_run occurrence_id [] = none
find_run occurrence_id ((key, run) ∷ rest) =
    if bytes_eq run.schedule_occurrence_id occurrence_id
    then some run
    else find_run occurrence_id rest

unfoldable pub any_active : Bytes → List (Bytes × ScheduledRun) → Bool
any_active schedule_id [] = false
any_active schedule_id ((key, run) ∷ rest) =
    if bytes_eq run.schedule_id schedule_id && not (terminal run.state)
    then true
    else any_active schedule_id rest

unfoldable pub active_schedule_run : {Json : Type 0} → Store Json → Bytes → Bool
unfolding any_active first_rows
active_schedule_run store schedule_id = any_active schedule_id (first_rows 10000 store.runs)
