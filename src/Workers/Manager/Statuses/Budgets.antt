-- ===== src/Workers/Manager/Statuses/Budgets.antt =====
-- src/workers/manager.cpp: the budgets hold for what a worker reports about a job, by an event, as the answer
-- to a submission, or as a status.
use laso.Base.{Bool}
use laso.Core.Errors.{Result}
use laso.Pipeline.Reference.{Bytes}
use laso.Workers.Usage.{WorkerLimits, CostOps}
use laso.Workers.Manager.{JsonOps, Rows}
use laso.Workers.Manager.Events.{WorkerEvent, persist_handled, apply_event}
use laso.Workers.Manager.Statuses.{
  WorkerStatus, WorkerSubmission, record_submission, reconcile_status,
}

module _ {Json Cost : Type 0} (json : JsonOps Json Cost) (c : CostOps Cost) (finite : Cost → Bool)
    (m : WorkerLimits Cost) (now : Bytes) (rows : Rows Json Cost) where
  -- What a worker's report makes of the rows; what it makes a job throw changes none.
  pub data Reported : Rows Json Cost → Type 0 where
    by_event :
        (stopped : Bool) (source_of : Bytes → Result Bytes) (event : WorkerEvent Json)
        → Reported (apply_event json c finite m now rows stopped source_of event)
    by_submission :
        (id : Bytes) (s : WorkerSubmission Json Cost)
        → Reported (
            persist_handled json c finite m now rows
              (record_submission json c finite m now rows id s))
    by_status :
        (received : Bool) (mark : Json) (id : Bytes) (s : WorkerStatus Json Cost)
        → Reported (
            persist_handled json c finite m now rows
              (reconcile_status json c finite m now rows received mark id s))
